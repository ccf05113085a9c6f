-- ===== src/Overview.antt =====
-- handleSecurity of security.go, which shows the offenders and the blocks. PostgreSQL's ILIKE and
-- date_trunc are a parameter; rows that its ORDER BY does not tell apart keep their order here.
pub mod Shown
pub mod Current
mod Examples
use Prim.Native.String as NativeString
use kanyigo.Base.{
  ℕ, zero, suc, String, Bool, true, false, not, ◌&&◌, ◌||◌, Option, none, some, List, [], ◌∷◌, map,
  length, select, ltb, leb, ◌==◌, str_eq, ◌⊎◌, inl, inr, if◌then◌else◌,
}
use kanyigo.Base.Table.{Table, lookup}
use kanyigo.Base.Text.{trim_space}
use kanyigo.LogEntry.{Time}
use kanyigo.Schema.{Database, Offender, FirewallBlock, SecurityEvent}
use kanyigo.Sql.{Result, ok, err, Conn, exec_auto}
use kanyigo.Agent.{Request, Response}
use kanyigo.FirewallClient.{FirewallClient, Link}
use kanyigo.FirewallClient as FirewallClient
use kanyigo.Security.{AuthUser, HttpRequest, Server, World, is_nil, require_admin}
use kanyigo.NginxDetection.{auth_failure, not_found}
use kanyigo.Logs.{take, like, page_limit}

-- `value ILIKE pattern`, and `date_trunc('day', now)`
pub record Postgres : Type 0 where
  pub ilike : String → String → Bool
  pub day_of : Time → Time

-- `securityOffender`, with times that are not yet written
pub record SecurityOffender : Type 0 where
  pub ip : String
  pub reason : String
  pub first_seen_at : Time
  pub last_seen_at : Time
  pub attempt_count : ℕ
  pub last_path : String
  pub flagged : Bool
  pub blocked : Bool
  pub blocked_at : Option Time
  pub expires_at : Option Time
  pub last_error : String

pub record Summary : Type 0 where
  pub items : List SecurityOffender
  pub flagged : ℕ
  pub blocked : ℕ
  pub attempts_today : ℕ
  pub firewall_healthy : Bool

pub data Reply : Type 0 where
  failure : (code : ℕ) (message : String) → Reply
  overview : Summary → Reply

-- `expires_at IS NOT NULL AND expires_at <= NOW()`
abbrev pub has_expired : Time → Option Time → Bool
has_expired now none = false
has_expired now (some t) = leb t now

-- The UPDATE that ends the blocks that have expired
unfoldable pub end_block : Time → FirewallBlock → FirewallBlock
end_block now row =
    if row.active && has_expired now row.expires_at then record row { active = false } else row

abbrev pub end_blocks : Time → Table FirewallBlock → Table FirewallBlock
end_blocks now [] = []
end_blocks now ((ip, row) ∷ rows) = (ip, end_block now row) ∷ end_blocks now rows

abbrev pub deactivate : Time → Database → Database
deactivate now db = record db { firewall_blocks = end_blocks now db.firewall_blocks }

-- A row of the LEFT JOIN, with its COALESCE
unfoldable pub joined_row : String → Offender → Option FirewallBlock → SecurityOffender
joined_row ip o none = record {
  ip = ip;
  reason = o.reason;
  first_seen_at = o.first_seen_at;
  last_seen_at = o.last_seen_at;
  attempt_count = o.attempt_count;
  last_path = o.last_path;
  flagged = o.flagged;
  blocked = false;
  blocked_at = none;
  expires_at = none;
  last_error = "";
}
joined_row ip o (some b) = record {
  ip = ip;
  reason = o.reason;
  first_seen_at = o.first_seen_at;
  last_seen_at = o.last_seen_at;
  attempt_count = o.attempt_count;
  last_path = o.last_path;
  flagged = o.flagged;
  blocked = b.active;
  blocked_at = b.blocked_at;
  expires_at = b.expires_at;
  last_error = b.last_error;
}

abbrev pub joined : Table FirewallBlock → Table Offender → List SecurityOffender
joined blocks [] = []
joined blocks ((ip, o) ∷ rows) = joined_row ip o (lookup ip blocks) ∷ joined blocks rows

-- `ORDER BY COALESCE(b.active, FALSE) DESC, o.last_seen_at DESC`
unfoldable pub stands_before : SecurityOffender → SecurityOffender → Bool
stands_before a b =
    if a.blocked
    then not b.blocked || leb b.last_seen_at a.last_seen_at
    else not b.blocked && leb b.last_seen_at a.last_seen_at

unfoldable pub put_in_order : SecurityOffender → List SecurityOffender → List SecurityOffender
put_in_order a [] = a ∷ []
put_in_order a (b ∷ bs) =
    let rest = put_in_order a bs in if stands_before a b then a ∷ b ∷ bs else b ∷ rest

unfoldable pub in_order : List SecurityOffender → List SecurityOffender
in_order [] = []
in_order (a ∷ rest) = put_in_order a (in_order rest)

abbrev pub count_flagged : Table Offender → ℕ
count_flagged rows = length (select (λ (r : String × Offender). r.1.flagged) rows)

abbrev pub count_active : Table FirewallBlock → ℕ
count_active rows = length (select (λ (r : String × FirewallBlock). r.1.active) rows)

-- A Scan that fails leaves the number at 0.
abbrev pub scanned : Result ℕ → ℕ
scanned (ok n) = n
scanned (err e) = 0

module _ (pg : Postgres) where
  -- `where`
  unfoldable pub is_shown : String → SecurityOffender → Bool
  is_shown search o =
      (o.flagged || o.blocked)
      && (str_eq search "" || pg.ilike o.ip (like search) || pg.ilike o.last_path (like search))

  unfoldable pub query : String → ℕ → Database → List SecurityOffender
  query search limit db =
      take limit
        (in_order (select (is_shown search) (joined db.firewall_blocks db.security_offenders)))

  unfoldable pub is_attempt : Time → SecurityEvent → Bool
  is_attempt now e = leb (pg.day_of now) e.ts_utc && (auth_failure e.status || not_found e.status)

  module _ {ℓ} {K : Type ℓ} (agent : Option Request → K → Response × K) where
    -- `s.firewall != nil && s.firewall.Status() == nil`
    unfoldable pub is_healthy : Option FirewallClient → Link K → Bool × Link K
    is_healthy none l = (false, l)
    is_healthy (some c) l =
        let (error, l') = FirewallClient.status agent (some c) l in (is_nil error, l')

    -- The three counts, and the reply
    unfoldable pub summarise :
        Time → Server → Result (List SecurityOffender) → World K → Reply × World K
    summarise now s (err e) w = (failure 500 e, w)
    summarise now s (ok items) w =
        let (flagged, c1) = exec_auto (λ db. ok (count_flagged db.security_offenders, db)) w.conn in
        let (blocked, c2) = exec_auto (λ db. ok (count_active db.firewall_blocks, db)) c1 in
        let (attempts, c3) =
          exec_auto (λ db. ok (length (select (is_attempt now) db.nginx_security_events), db)) c2 in
        let (healthy, link) = is_healthy s.firewall w.link in
        (
          overview (record {
            items = items;
            flagged = scanned flagged;
            blocked = scanned blocked;
            attempts_today = scanned attempts;
            firewall_healthy = healthy;
          }),
          record { conn = c3; link = link },
        )

    unfoldable pub show :
        Time
        → Server
        → String
        → String
        → AuthUser ⊎ (ℕ × String)
        → String
        → World K
        → Reply × World K
    show now s method limit (inr (code, message)) q w = (failure code message, w)
    show now s method limit (inl user) q w =
        if not (str_eq method "GET")
        then (failure 405 "method not allowed", w)
        else let (_, c) = exec_auto (λ db. ok (tt {0}, deactivate now db)) w.conn in
          let (rows, c') =
            exec_auto (λ db. ok (query (trim_space q) (page_limit limit) db, db)) c in
          summarise now s rows (record w { conn = c' })

    -- With the values of the parameters limit and q; the error of the UPDATE is ignored.
    unfoldable pub handle_security :
        Time → Server → HttpRequest → String → String → World K → Reply × World K
    handle_security now s r limit q w = show now s r.method limit (require_admin r) q w
