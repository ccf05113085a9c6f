-- ===== src/Security/Dismiss.antt =====
-- Dismissing an offender, handleSecurityDismiss of security.go.

use mathlib.Core.Option as Option
use kanyigo.Base.{
  ℕ, String, Bool, true, false, not, Option, none, some, ◌∷◌, str_eq, ◌⊎◌, inl, inr, if◌then◌else◌,
}
use kanyigo.Base.Text.{trim_space}
use kanyigo.Base.Table.{lookup, insert}
use kanyigo.LogEntry.{Time}
use kanyigo.Schema.{Database, AuditRecord, Offender}
use kanyigo.Sql.{Result, ok, err, Conn, exec_auto}
use kanyigo.Net.{Ip, Texts}
use kanyigo.Security.{AuthUser, HttpRequest, Reply, failure, success, require_admin}
use kanyigo.Sql.Atomic.{exec_auto_keeps, exec_auto_ok}
use kanyigo.Security.Success.{require_admin-inl}
use text.Mathlib.TextPositions.{eq_refl}
use kanyigo.Base.{◌≡◌, refl, ◌∙◌, subst, Bool-cases, Option-cases}
use kanyigo.Base.Table.{lookup-insert}

-- UPDATE security_offenders SET flagged=FALSE, …; the rows affected
unfoldable pub dismiss : Time → String → Database → Result (Bool × Database)
dismiss now ip db = elim (lookup ip db.security_offenders) [
  | none ↦ ok (false, db)
  | some row ↦ ok (
    true,
    record db {
      security_offenders =
          insert ip (record row { flagged = false; dismissed_at = some now }) db.security_offenders;
    },
  )
]

audit_dismissal : Time → AuthUser → String → Database → Result (Unit {0} × Database)
audit_dismissal now user ip db =
    ok (tt, record db { security_audit_log = row ∷ db.security_audit_log })
  where
    row : AuditRecord
    row = record {
      ts_utc = now;
      actor_user_id = user.id;
      action = "dismiss";
      remote_ip = ip;
      detail = "";
      success = true;
    }

-- The error of the audit is ignored.
dismissed : Time → AuthUser → String → Result Bool × Conn Database → Reply × Conn Database
unfolding audit_dismissal
dismissed now user ip (err e, c) = (failure 500 e, c)
dismissed now user ip (ok false, c) = (failure 404 "offender not found", c)
dismissed now user ip (ok true, c) =
    (success 200 "dismissed" "", (exec_auto (audit_dismissal now user ip) c).1)

dismiss_address : Time → AuthUser → Option String → Conn Database → Reply × Conn Database
unfolding dismissed
dismiss_address now user none c = (failure 400 "invalid IP address", c)
dismiss_address now user (some ip) c = dismissed now user ip (exec_auto (dismiss now ip) c)

-- The body is the address of the request.
dismiss_body : Texts → Time → AuthUser → Option String → Conn Database → Reply × Conn Database
unfolding dismiss_address
dismiss_body texts now user none c = (failure 400 "invalid JSON body", c)
dismiss_body texts now user (some value) c =
    dismiss_address now user (Option.map texts.ip_string (texts.parse_ip (trim_space value))) c

dismiss_as :
    Texts
    → Time
    → HttpRequest
    → Option String
    → AuthUser ⊎ (ℕ × String)
    → Conn Database
    → Reply × Conn Database
unfolding dismiss_body
dismiss_as texts now r body (inr (code, message)) c = (failure code message, c)
dismiss_as texts now r body (inl user) c =
    if not (str_eq r.method "POST")
    then (failure 405 "method not allowed", c)
    else dismiss_body texts now user body c

unfoldable pub handle_security_dismiss :
    Texts → Time → HttpRequest → Option String → Conn Database → Reply × Conn Database
unfolding dismiss_as
handle_security_dismiss texts now r body = dismiss_as texts now r body (require_admin r)

-- What a reported dismissal has done.
abbrev pub IsDismissed : Texts → Time → String → Database → Database → Type 0
IsDismissed texts now value db db' =
    (ip : Ip) × (texts.parse_ip (trim_space value) ≡ some ip)
    × ((row : Offender) × (lookup (texts.ip_string ip) db.security_offenders ≡ some row)
        × (lookup (texts.ip_string ip) db'.security_offenders
            ≡ some (record row { flagged = false; dismissed_at = some now })))
    × (db'.firewall_blocks ≡ db.firewall_blocks)

-- What the UPDATE has done where it found a row.
abbrev Updated : Time → String → Database → Database → Type 0
Updated now ip db db' =
    ((row : Offender) × (lookup ip db.security_offenders ≡ some row)
      × (lookup ip db'.security_offenders
          ≡ some (record row { flagged = false; dismissed_at = some now })))
    × (db'.firewall_blocks ≡ db.firewall_blocks)

dismiss-true :
    (now : Time) (ip : String) (db : Database) {d : Database}
    → dismiss now ip db ≡ ok (true, d)
    → Updated now ip db d
unfolding dismiss
dismiss-true now ip db {d} h = elim (Option-cases (lookup ip db.security_offenders)) [
  | inl e ↦ let h' : ok (false, db) ≡ ok (true, d) = rw (e, dismiss) at h in absurd cc
  | inr (row, e) ↦
      let new : Offender = record row { flagged = false; dismissed_at = some now } in
      let written : Database = record db {
        security_offenders = insert ip new db.security_offenders;
      } in
      let h' : ok (true, written) ≡ ok (true, d) = rw (e, dismiss) at h in
      let p : written ≡ d = cc in
      subst (Updated now ip db) p
        ((row, e, lookup-insert ip ip new db.security_offenders ∙ rw (eq_refl ip) refl), refl)
]

dismissed-Updated :
    (now : Time) (user : AuthUser) (ip : String) (db : Database) (r : Result Bool × Conn Database)
    {code : ℕ} {status text : String}
    → (dismissed now user ip r).0 ≡ success code status text
    → (r.0 ≡ ok true → Updated now ip db r.1.db)
    → Updated now ip db (dismissed now user ip r).1.db
unfolding dismissed audit_dismissal
dismissed-Updated now user ip db (err e, c) h u = absurd cc
dismissed-Updated now user ip db (ok false, c) h u = absurd cc
dismissed-Updated now user ip db (ok true, c) h u =
    exec_auto_keeps (audit_dismissal now user ip) c (Updated now ip db) (u refl)
      λ a d e. audited a d e
  where
    audited :
        (a : Unit {0}) (d : Database)
        → audit_dismissal now user ip c.db ≡ ok (a, d)
        → Updated now ip db d
    audited a d e =
        let written : Database = record (c.db) {
          security_audit_log =
              record {
                ts_utc = now;
                actor_user_id = user.id;
                action = "dismiss";
                remote_ip = ip;
                detail = "";
                success = true;
              }
              ∷ c.db.security_audit_log;
        } in
        let e' : ok (tt, written) ≡ ok (a, d) = e in
        let p : written ≡ d = cc in subst (Updated now ip db) p (u refl)

module _ (texts : Texts) (now : Time) where
  body-IsDismissed :
      (user : AuthUser) (body : Option String) (c : Conn Database) {code : ℕ} {status text : String}
      → (dismiss_body texts now user body c).0 ≡ success code status text
      → (value : String) × (body ≡ some value)
        × IsDismissed texts now value c.db (dismiss_body texts now user body c).1.db
  unfolding dismiss_body dismiss_address
  body-IsDismissed user none c h = absurd cc
  body-IsDismissed user (some value) c h = elim (Option-cases (texts.parse_ip (trim_space value))) [
    | inl e ↦ let h' = rw (e, dismiss_body) at h in absurd cc
    | inr (ip, e) ↦
        let text = texts.ip_string ip in
        let h' = rw (e, dismiss_body) at h in
        let (row, blocks) =
          dismissed-Updated now user text c.db (exec_auto (dismiss now text) c) h'
            (λ o. dismiss-true now text c.db (exec_auto_ok (dismiss now text) c o)) in
        (value, refl, rw (e, dismiss_body) (ip, refl, row, blocks))
  ]

  as-IsDismissed :
      (r : HttpRequest) (body : Option String) (admin : AuthUser ⊎ (ℕ × String)) (c : Conn Database)
      {code : ℕ} {status text : String}
      → require_admin r ≡ admin
      → (dismiss_as texts now r body admin c).0 ≡ success code status text
      → ((user : AuthUser) × (r.user ≡ some user) × (str_eq user.role "admin" ≡ true))
        × ((value : String) × (body ≡ some value)
            × IsDismissed texts now value c.db (dismiss_as texts now r body admin c).1.db)
  unfolding dismiss_as
  as-IsDismissed r body (inr (n, m)) c a h = absurd cc
  as-IsDismissed r body (inl user) c a h = elim (Bool-cases (not (str_eq r.method "POST"))) [
    | inl e ↦ let h' = rw e at h in absurd cc
    | inr e ↦
        let (u, role) = require_admin-inl r a in
        ((user, u, role), rw e (body-IsDismissed user body c (rw e at h)))
  ]

  -- Whatever later calls do: if handleSecurityDismiss answers with success, an administrator
  -- asked, the address of the body is an offender, which is now dismissed and not flagged, and no
  -- block has changed.
  pub handle_security_dismiss-IsDismissed :
      (r : HttpRequest) (body : Option String) (c : Conn Database) {code : ℕ} {status text : String}
      → (handle_security_dismiss texts now r body c).0 ≡ success code status text
      → ((user : AuthUser) × (r.user ≡ some user) × (str_eq user.role "admin" ≡ true))
        × ((value : String) × (body ≡ some value)
            × IsDismissed texts now value c.db (handle_security_dismiss texts now r body c).1.db)
  unfolding handle_security_dismiss
  handle_security_dismiss-IsDismissed r body c h = as-IsDismissed r body (require_admin r) c refl h
