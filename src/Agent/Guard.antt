-- ===== src/Agent/Guard.antt =====
-- Which commands a request can make the agent run.
use kanyigo.Base.{
  ◌≡◌, refl, sym, String, true, false, ◌||◌, ◌&&◌, Option, none, some, ◌⊎◌, inl, inr, Bool-cases,
  if◌then◌else◌, str_eq,
}
use kanyigo.Base.Int.{ℤ, pos, ltb_ℤ}
use kanyigo.Base.Text.{trim_space}
use kanyigo.Net.{Ip, Texts, contains_ip, is_protected}
use kanyigo.Agent.{
  Request, Agent, Command, create, add, del, check_rule, insert_rule, CommandResult, succeeded,
  failed, Step, Tools, is_timeout, set_of, ◌&&&◌, unless_error, run, insert_unless, ensure_rule,
  ensure_firewall, block, unblock, change, change_read, act, handle,
}

-- An address that may be blocked; a timeout that is sent is one of at most 365 days.
abbrev pub IsTarget : Texts → Agent → String → String → Option ℤ → Type 0
IsTarget texts a set text timeout =
    (ip : Ip) × (set ≡ set_of a ip)
    × (text ≡ texts.ip_string ip)
    × (is_protected ip ≡ false)
    × (contains_ip a.allowlist ip ≡ false)
    × ((t : ℤ) → timeout ≡ some t → (is_timeout t ≡ true) × (ltb_ℤ (pos 0) t ≡ true))

-- The two sets and the rules on them; only addresses that are not protected come in and out, and
-- only those outside of the allowlist come in.
abbrev pub IsSafe : Texts → Agent → Command → Type 0
IsSafe texts a (create set family) = (set ≡ a.ipset) ⊎ (set ≡ a.ipset6)
IsSafe texts a (check_rule chain set) = (chain ≡ a.chain) × ((set ≡ a.ipset) ⊎ (set ≡ a.ipset6))
IsSafe texts a (insert_rule chain set) = (chain ≡ a.chain) × ((set ≡ a.ipset) ⊎ (set ≡ a.ipset6))
IsSafe texts a (add set text timeout) = IsTarget texts a set text timeout
IsSafe texts a (del set text) =
    (ip : Ip) × (set ≡ set_of a ip) × (text ≡ texts.ip_string ip) × (is_protected ip ≡ false)

module _ {ℓ κ} {K : Type ℓ} (exec_command : Tools K) (texts : Texts) (a : Agent) (I : K → Type κ)
    (safe : (binary : String) (command : Command) (k : K)
      → IsSafe texts a command
      → I k
      → I (exec_command binary command k).1) where
  run_keeps :
      (binary : String) (command : Command) (k : K)
      → IsSafe texts a command
      → I k
      → I (run exec_command binary command k).1
  unfolding run
  run_keeps = safe

  unless_error_keeps :
      (n : Step K) (r : Option String × K)
      → ((k : K) → I k → I (n k).1)
      → I r.1
      → I (unless_error n r).1
  unless_error_keeps n (none, k) h i = h k i
  unless_error_keeps n (some e, k) h i = i

  &&&_keeps :
      (m n : Step K)
      → ((k : K) → I k → I (m k).1)
      → ((k : K) → I k → I (n k).1)
      → (k : K) → I k
      → I ((m &&& n) k).1
  &&&_keeps m n f g k i = unless_error_keeps n (m k) g (f k i)

  insert_unless_keeps :
      (binary set : String) (r : CommandResult × K)
      → (set ≡ a.ipset) ⊎ (set ≡ a.ipset6)
      → I r.1
      → I (insert_unless exec_command binary a.chain set r).1
  unfolding insert_unless
  insert_unless_keeps binary set (succeeded, k) s i = i
  insert_unless_keeps binary set (failed _ _, k) s i =
      run_keeps binary (insert_rule a.chain set) k (refl, s) i

  ensure_rule_keeps :
      (binary set : String) (k : K)
      → (set ≡ a.ipset) ⊎ (set ≡ a.ipset6)
      → I k
      → I (ensure_rule exec_command binary a.chain set k).1
  unfolding ensure_rule
  ensure_rule_keeps binary set k s i =
      insert_unless_keeps binary set (exec_command binary (check_rule a.chain set) k) s
        (safe binary (check_rule a.chain set) k (refl, s) i)

  sets_keep :
      (k : K)
      → I k
      → I
          ((run exec_command a.ipset_bin (create a.ipset "inet")
              &&& run exec_command a.ipset_bin (create a.ipset6 "inet6"))
            k).1
  sets_keep =
      &&&_keeps (run exec_command a.ipset_bin (create a.ipset "inet"))
        (run exec_command a.ipset_bin (create a.ipset6 "inet6"))
        (λ k. run_keeps a.ipset_bin (create a.ipset "inet") k (inl refl))
        (λ k. run_keeps a.ipset_bin (create a.ipset6 "inet6") k (inr refl))

  ensure_firewall_keeps : (k : K) → I k → I (ensure_firewall exec_command a k).1
  unfolding ensure_firewall
  ensure_firewall_keeps =
      &&&_keeps
        (run exec_command a.ipset_bin (create a.ipset "inet")
          &&& run exec_command a.ipset_bin (create a.ipset6 "inet6")
          &&& ensure_rule exec_command a.iptables_bin a.chain a.ipset)
        (ensure_rule exec_command a.ip6table_bin a.chain a.ipset6)
        (&&&_keeps
          (run exec_command a.ipset_bin (create a.ipset "inet")
            &&& run exec_command a.ipset_bin (create a.ipset6 "inet6"))
          (ensure_rule exec_command a.iptables_bin a.chain a.ipset) sets_keep
          (λ k. ensure_rule_keeps a.iptables_bin a.ipset k (inl refl)))
        (λ k. ensure_rule_keeps a.ip6table_bin a.ipset6 k (inr refl))

  block_keeps :
      (ip : Ip) (t : ℤ) (k : K)
      → is_protected ip ≡ false
      → contains_ip a.allowlist ip ≡ false
      → is_timeout t ≡ true
      → I k
      → I (block exec_command texts a ip t k).1
  unfolding block
  block_keeps ip t k p c v i = run_keeps a.ipset_bin _ k (ip, refl, refl, p, c, sent) i
    where
      sent :
          (u : ℤ)
          → (if ltb_ℤ (pos 0) t then some t else none) ≡ some u
          → (is_timeout u ≡ true) × (ltb_ℤ (pos 0) u ≡ true)
      sent u e = elim (Bool-cases (ltb_ℤ (pos 0) t)) [
        | inl b ↦ let q : some t ≡ some u = rw b at e in let q' : t ≡ u = cc in rw (sym q') (v, b)
        | inr b ↦ let q : none ≡ some u = rw b at e in absurd cc
      ]

  unblock_keeps :
      (ip : Ip) (k : K) → is_protected ip ≡ false → I k → I (unblock exec_command texts a ip k).1
  unfolding unblock
  unblock_keeps ip k p i =
      safe a.ipset_bin (del (set_of a ip) (texts.ip_string ip)) k (ip, refl, refl, p) i

  block_or_not :
      (req : Request) (ip : Ip) (k : K)
      → is_protected ip ≡ false
      → is_timeout req.timeout_seconds ≡ true
      → I k
      → I (change exec_command texts a req ip k).1
  unfolding change
  block_or_not req ip k p v i = elim (Bool-cases (str_eq req.action "block")) [
    | inr b ↦ rw (p, b, v) (unblock_keeps ip k p i)
    | inl b ↦ elim (Bool-cases (contains_ip a.allowlist ip)) [
      | inl c ↦ rw (p, b, c) i
      | inr c ↦ rw (p, b, c, v) (block_keeps ip req.timeout_seconds k p c v i)
    ]
  ]

  refused_timeout :
      (req : Request) (ip : Ip) (k : K)
      → is_protected ip ≡ false
      → is_timeout req.timeout_seconds ≡ false
      → I k
      → I (change exec_command texts a req ip k).1
  unfolding change
  refused_timeout req ip k p v i =
      elim (Bool-cases (str_eq req.action "block" && contains_ip a.allowlist ip)) [
        | inl c ↦ rw (p, c) i
        | inr c ↦ rw (p, c, v) i
      ]

  change_keeps :
      (req : Request) (ip : Ip) (k : K) → I k → I (change exec_command texts a req ip k).1
  unfolding change
  change_keeps req ip k i = elim (Bool-cases (is_protected ip)) [
    | inl p ↦ rw p i
    | inr p ↦ elim (Bool-cases (is_timeout req.timeout_seconds)) [
      | inl v ↦ block_or_not req ip k p v i
      | inr v ↦ refused_timeout req ip k p v i
    ]
  ]

  change_read_keeps :
      (req : Request) (o : Option Ip) (k : K) → I k → I (change_read exec_command texts a req o k).1
  unfolding change_read
  change_read_keeps req none k i = i
  change_read_keeps req (some ip) k i = change_keeps req ip k i

  act_keeps : (req : Request) (k : K) → I k → I (act exec_command texts a req k).1
  unfolding act
  act_keeps req k i = elim (Bool-cases (str_eq req.action "status")) [
    | inl s ↦ rw s (ensure_firewall_keeps k i)
    | inr s ↦ elim (Bool-cases (str_eq req.action "block" || str_eq req.action "unblock")) [
      | inl b ↦ rw (s, b) (change_read_keeps req (texts.parse_ip (trim_space req.ip)) k i)
      | inr b ↦ rw (s, b) i
    ]
  ]

  -- Where every safe command keeps a property of the kernel, whatever its result, so does every
  -- request: the commands that requests run are safe. A safe command creates one of the agent's
  -- two sets, checks or inserts the rule on one of them in the agent's chain, adds an address
  -- that is neither protected nor in the allowlist, with no timeout or one of at most 365 days,
  -- to the set of its family, or deletes an address that is not protected from it.
  pub handle_keeps : (req : Option Request) (k : K) → I k → I (handle exec_command texts a req k).1
  unfolding handle
  handle_keeps none k i = i
  handle_keeps (some req) k i = act_keeps req k i
