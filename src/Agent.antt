-- ===== src/Agent.antt =====
-- The firewall agent, cmd/firewall-agent/main.go: what `handle` does with one request. The commands
-- that it runs are values; what they do to the kernel's sets and rules is a parameter.
pub mod Guard
pub mod Effect
pub mod Examples
use Prim.Native.String as NativeString
use Prim.Native.String.{String}
use kanyigo.Base.{
  Bool, true, false, not, ◌&&◌, ◌||◌, Option, none, some, List, [], ◌∷◌, str_eq, if◌then◌else◌,
}
use kanyigo.Base.Int.{ℤ, pos, ltb_ℤ}
use kanyigo.Base.Text.{trim_space, str_contains}
use kanyigo.Net.{Ip, Texts, is_v4, IpNet, contains_ip, is_protected}

pub record Request : Type 0 where
  pub action : String
  pub ip : String
  pub timeout_seconds : ℤ

pub record Response : Type 0 where
  pub ok : Bool
  pub message : String

pub record Agent : Type 0 where
  pub chain : String
  pub ipset : String
  pub ipset6 : String
  pub ipset_bin : String
  pub iptables_bin : String
  pub ip6table_bin : String
  pub allowlist : List IpNet

-- The command lines: `create` and `add` carry -exist, the rules match the set and drop.
pub data Command : Type 0 where
  create : (set family : String) → Command
  add : (set ip : String) (timeout : Option ℤ) → Command
  del : (set ip : String) → Command
  check_rule : (chain set : String) → Command
  insert_rule : (chain set : String) → Command

-- The outcome of CombinedOutput; `failed` has the text of the error and the output.
pub data CommandResult : Type 0 where
  succeeded : CommandResult
  failed : (cause output : String) → CommandResult

-- A call that returns an `error`, on the kernel's state.
abbrev pub Step {ℓ} : Type ℓ → Type ℓ
Step K = K → Option String × K

abbrev pub Tools {ℓ} : Type ℓ → Type ℓ
Tools K = String → Command → K → CommandResult × K

-- `fmt.Errorf("%s: %w: %s", binary, err, strings.TrimSpace(string(output)))`
failure : String → String → String → String
failure binary cause output =
    NativeString.◌++◌ binary (
      NativeString.◌++◌ ": " (NativeString.◌++◌ cause (NativeString.◌++◌ ": " (trim_space output))))

unfoldable pub run_error : String → CommandResult → Option String
unfolding failure
run_error binary succeeded = none
run_error binary (failed cause output) = some (failure binary cause output)

-- An address that is not in the set is unblocked already.
unfoldable pub unblock_error : String → CommandResult → Option String
unfolding failure
unblock_error binary succeeded = none
unblock_error binary (failed cause output) =
    if str_contains "is NOT in set" output then none else some (failure binary cause output)

-- `31536000` seconds are 365 days.
unfoldable pub is_timeout : ℤ → Bool
is_timeout t = not (ltb_ℤ t (pos 0) || ltb_ℤ (pos 31536000) t)

abbrev pub respond : Option String → Response
respond none = record { ok = true; message = "" }
respond (some message) = record { ok = false; message = message }

-- The set that holds an address.
abbrev pub set_of : Agent → Ip → String
set_of a ip = if is_v4 ip then a.ipset else a.ipset6

module _ {ℓ} {K : Type ℓ} where
  infixl 5 ◌&&&◌
  -- `if err := m; err != nil { return err }; return n`
  abbrev pub unless_error : Step K → Option String × K → Option String × K
  unless_error n (none, k) = n k
  unless_error n (some e, k) = (some e, k)

  abbrev pub ◌&&&◌ : Step K → Step K → Step K
  ◌&&&◌ m n k = unless_error n (m k)

module _ {ℓ} {K : Type ℓ} (exec_command : Tools K) where
  unfoldable pub run : String → Command → Step K
  run binary command k = let (r, k') = exec_command binary command k in (run_error binary r, k')

  insert_unless : String → String → String → CommandResult × K → Option String × K
  insert_unless binary chain set (succeeded, k) = (none, k)
  insert_unless binary chain set (failed _ _, k) = run binary (insert_rule chain set) k

  unfoldable pub ensure_rule : String → String → String → Step K
  unfolding insert_unless
  ensure_rule binary chain set k =
      insert_unless binary chain set (exec_command binary (check_rule chain set) k)

  unfoldable pub ensure_firewall : Agent → Step K
  ensure_firewall a =
      run a.ipset_bin (create a.ipset "inet")
      &&& run a.ipset_bin (create a.ipset6 "inet6")
      &&& ensure_rule a.iptables_bin a.chain a.ipset
      &&& ensure_rule a.ip6table_bin a.chain a.ipset6

  module _ (texts : Texts) where
    unfoldable pub block : Agent → Ip → ℤ → Step K
    block a ip timeout = run a.ipset_bin (
        add (set_of a ip) (texts.ip_string ip)
          (if ltb_ℤ (pos 0) timeout then some timeout else none))

    unfoldable pub unblock : Agent → Ip → Step K
    unblock a ip k =
        let (r, k') = exec_command a.ipset_bin (del (set_of a ip) (texts.ip_string ip)) k in
        (unblock_error a.ipset_bin r, k')

    -- The cases "block" and "unblock", with an address that is read.
    change : Agent → Request → Ip → Step K
    change a req ip k =
        if is_protected ip
        then (some "invalid or protected IP address", k)
        else if str_eq req.action "block" && contains_ip a.allowlist ip
        then (some "IP address is protected by firewall allowlist", k)
        else if not (is_timeout req.timeout_seconds)
        then (some "invalid timeout", k)
        else if str_eq req.action "block"
        then block a ip req.timeout_seconds k
        else unblock a ip k

    change_read : Agent → Request → Option Ip → Step K
    unfolding change
    change_read a req none k = (some "invalid or protected IP address", k)
    change_read a req (some ip) k = change a req ip k

    unfoldable pub act : Agent → Request → Step K
    unfolding change_read
    act a req k =
        if str_eq req.action "status"
        then ensure_firewall a k
        else if str_eq req.action "block" || str_eq req.action "unblock"
        then change_read a req (texts.parse_ip (trim_space req.ip)) k
        else (some "unsupported action", k)

    -- `none` is a request that the decoder refuses.
    unfoldable pub handle : Agent → Option Request → K → Response × K
    handle a none k = (record { ok = false; message = "invalid request" }, k)
    handle a (some req) k = let (e, k') = act a req k in (respond e, k')
