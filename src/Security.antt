-- ===== src/Security.antt =====
-- The handler of security.go that blocks and unblocks, handleSecurityBlock, with the address of
-- the client from server.go. `now` is NOW(), the start of the transaction, and the clock of the
-- handler; a body that the decoder refuses is `none`.
pub mod Record
pub mod Success
pub mod Handler
pub mod Failed
pub mod Dismiss
mod Examples
use Prim.Native.String as NativeString
use mathlib.Core.Option as Option
use kanyigo.Base.{
  ℕ, ◌+◌, ◌*◌, ◌^◌, String, Bool, true, false, not, ◌&&◌, ◌||◌, Option, none, some, List, [], ◌∷◌,
  str_eq, ◌⊎◌, inl, inr, if◌then◌else◌,
}
use kanyigo.Base.Int.{ℤ, pos, negsuc, pos_part, ltb_ℤ}
use kanyigo.Base.Text.{trim_space, trim_brackets, split, decimal}
use kanyigo.Base.Table.{Table, lookup, insert}
use kanyigo.LogEntry.{Time}
use kanyigo.Schema.{Database, FirewallBlock, AuditRecord, Offender}
use kanyigo.Sql.{Result, ok, err, Conn, Sql, exec, exec_auto, in_tx, ◌>>=◌, ◌>>◌}
use kanyigo.Net.{Ip, Texts, IpNet, contains_ip, is_protected, equal}
use kanyigo.Agent.{Step, Request, Response, is_timeout}
use kanyigo.FirewallClient.{FirewallClient, available, Link}
use kanyigo.FirewallClient as FirewallClient

-- `authUser`, as far as the handlers read it.
pub record AuthUser : Type 0 where
  pub id : ℕ
  pub role : String

-- What the handlers read of a request; a header that is missing is "".
pub record HttpRequest : Type 0 where
  pub user : Option AuthUser
  pub method : String
  pub x_forwarded_for : String
  pub x_real_ip : String
  pub remote_addr : String

pub record BlockRequest : Type 0 where
  pub ip : String
  pub duration_seconds : ℤ

-- `writeError`, or `writeJSON` with the status and the address.
pub data Reply : Type 0 where
  failure : (code : ℕ) (message : String) → Reply
  success : (code : ℕ) (status ip : String) → Reply

-- The first element of `strings.Split`
abbrev head : List String → String
head [] = ""
head (part ∷ parts) = part

remote_host : Texts → String → String
remote_host texts addr = elim (texts.split_host_port addr) [
  | none ↦ trim_brackets addr
  | some host ↦ host
]

unfoldable pub client_ip : Texts → HttpRequest → String
unfolding remote_host
client_ip texts r =
    if not (str_eq r.x_forwarded_for "")
    then trim_space (head (split b',' r.x_forwarded_for))
    else if not (str_eq (trim_space r.x_real_ip) "")
    then trim_space r.x_real_ip
    else remote_host texts r.remote_addr

admin_only : AuthUser → AuthUser ⊎ (ℕ × String)
admin_only user =
    if not (str_eq user.role "admin") then inr (403, "admin access required") else inl user

-- The user, or the code and the message of `writeError`.
unfoldable pub require_admin : HttpRequest → AuthUser ⊎ (ℕ × String)
unfolding admin_only
require_admin r = elim r.user [
  | none ↦ inr (401, "authentication required")
  | some user ↦ admin_only user
]

-- What the handlers read of `Server`.
pub record Server : Type 0 where
  pub security_allowlist : List IpNet
  pub firewall : Option FirewallClient

-- `requestIP != nil && requestIP.Equal(ip)`
abbrev is_own : Option Ip → Ip → Bool
is_own none ip = false
is_own (some own) ip = equal own ip

check_target : Texts → Server → HttpRequest → Ip → Result String
check_target texts s r ip =
    if is_protected ip
    then err "refusing to modify a protected IP address"
    else if contains_ip s.security_allowlist ip
    then err "IP address is in SECURITY_IP_ALLOWLIST"
    else if is_own (texts.parse_ip (client_ip texts r)) ip
    then err "refusing to block the current administrator IP"
    else ok (texts.ip_string ip)

unfoldable pub validate_block_target : Texts → Server → String → HttpRequest → Result String
unfolding check_target
validate_block_target texts s value r = elim (texts.parse_ip (trim_space value)) [
  | none ↦ err "invalid IP address"
  | some ip ↦ check_target texts s r ip
]

-- `err == nil`
abbrev pub is_nil : Option String → Bool
is_nil none = true
is_nil (some e) = false

abbrev pub error_string : Option String → String
error_string none = ""
error_string (some e) = e

-- The row of the INSERT … ON CONFLICT(remote_ip) DO UPDATE, with all columns from EXCLUDED.
unfoldable pub block_row : Time → ℕ → ℤ → Option String → FirewallBlock
block_row now user_id duration error = record {
  active = is_nil error;
  blocked_at = if is_nil error then some now else none;
  expires_at = if ltb_ℤ (pos 0) duration then some (now + pos_part duration * 10 ^ 9) else none;
  blocked_by = user_id;
  last_error = error_string error;
}

-- The UPDATE; it makes no row.
unfoldable pub unblock_rows : String → Option String → Table FirewallBlock → Table FirewallBlock
unblock_rows ip error rows = elim (lookup ip rows) [
  | none ↦ rows
  | some row ↦ insert ip (record row { active = false; last_error = error_string error }) rows
]

unfoldable pub write_block : Time → ℕ → String → String → ℤ → Option String → Database → Database
write_block now user_id action ip duration error db = record db {
  firewall_blocks =
      if str_eq action "block"
      then insert ip (block_row now user_id duration error) db.firewall_blocks
      else unblock_rows ip error db.firewall_blocks;
}

audit_detail : ℤ → Option String → String
audit_detail duration none = NativeString.◌++◌ "duration_seconds=" (decimal duration)
audit_detail duration (some e) = e

unfoldable pub write_audit : Time → ℕ → String → String → ℤ → Option String → Database → Database
unfolding audit_detail
write_audit now user_id action ip duration error db = record db {
  security_audit_log = row ∷ db.security_audit_log;
}
  where
    row : AuditRecord
    row = record {
      ts_utc = now;
      actor_user_id = user_id;
      action = action;
      remote_ip = ip;
      detail = audit_detail duration error;
      success = is_nil error;
    }

record_body : Time → ℕ → String → String → ℤ → Option String → Sql Database (Unit {0})
record_body now user_id action ip duration error = do
  exec (λ db. ok (tt, write_block now user_id action ip duration error db))
  exec (λ db. ok (tt, write_audit now user_id action ip duration error db))

unfoldable pub record_firewall_result :
    Time → ℕ → String → String → ℤ → Option String → Sql Database (Unit {0})
unfolding record_body
record_firewall_result now user_id action ip duration error =
    in_tx (record_body now user_id action ip duration error)

-- The database, and the firewall at the other end of the client.
pub record World {ℓ} (K : Type ℓ) : Type ℓ where
  pub conn : Conn Database
  pub link : Link K

unfoldable pub action_of : HttpRequest → String
action_of r = if str_eq r.method "DELETE" then "unblock" else "block"

-- The replies after the operation: `operation_error` is its `err`.
block_reply : String → String → Option String → Result (Unit {0}) → Reply
block_reply action ip error (err e) = failure 500 e
block_reply action ip (some e) (ok _) = failure 502 e
block_reply action ip none (ok _) = success 200 (NativeString.◌++◌ action "ed") ip

module _ {ℓ} {K : Type ℓ} (agent : Option Request → K → Response × K) where
  unfoldable pub operate : Server → String → String → ℤ → Step (Link K)
  operate s action ip duration l =
      if not (available s.firewall)
      then (some "firewall agent is not configured", l)
      else if str_eq action "unblock"
      then FirewallClient.unblock agent s.firewall ip l
      else FirewallClient.block agent s.firewall ip duration l

  -- The operation, and what is recorded of it.
  unfoldable pub perform :
      Time → Server → AuthUser → String → String → ℤ → World K → Reply × World K
  unfolding operate block_reply
  perform now s user action ip duration w =
      let (error, link) = operate s action ip duration w.link in
      let (r, conn) = record_firewall_result now user.id action ip duration error w.conn in
      (block_reply action ip error r, record { conn = conn; link = link })

  change_target :
      Time → Server → AuthUser → HttpRequest → ℤ → Result String → World K → Reply × World K
  unfolding perform action_of
  change_target now s user r duration (err e) w = (failure 400 e, w)
  change_target now s user r duration (ok ip) w =
      if not (is_timeout duration)
      then (failure 400 "block duration must be between 0 and 365 days", w)
      else perform now s user (action_of r) ip duration w

  change_block :
      Texts
      → Time
      → Server
      → AuthUser
      → HttpRequest
      → Option BlockRequest
      → World K
      → Reply × World K
  unfolding change_target
  change_block texts now s user r none w = (failure 400 "invalid JSON body", w)
  change_block texts now s user r (some req) w =
      change_target now s user r req.duration_seconds (validate_block_target texts s req.ip r) w

  block_as :
      Texts
      → Time
      → Server
      → HttpRequest
      → Option BlockRequest
      → AuthUser ⊎ (ℕ × String)
      → World K
      → Reply × World K
  unfolding change_block
  block_as texts now s r body (inr (code, message)) w = (failure code message, w)
  block_as texts now s r body (inl user) w =
      if not (str_eq r.method "POST") && not (str_eq r.method "DELETE")
      then (failure 405 "method not allowed", w)
      else change_block texts now s user r body w

  unfoldable pub handle_security_block :
      Texts → Time → Server → HttpRequest → Option BlockRequest → World K → Reply × World K
  unfolding block_as
  handle_security_block texts now s r body = block_as texts now s r body (require_admin r)
