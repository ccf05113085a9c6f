-- ===== src/Auth/Admission.antt =====
-- What authenticateRequest of auth.go does with the session of a user, and with the tables.
use kanyigo.Base.{◌≡◌, ◌≢◌, ◌⊎◌, refl, ◌∙◌, String, Option, none, some, inl, inr, str_eq-cases}
use kanyigo.Base.Table.{lookup}
use kanyigo.LogEntry.{Time}
use kanyigo.Schema.{Database, UserRow}
use kanyigo.Sql.{
  Result, ok, err, Outcome, done, refused, lost, Conn, first, rest, answer, effect, exec_auto, fail,
  continue, ◌>>=◌,
}
use kanyigo.Auth.{Packages, live_user, found_user, authenticate_request}
use kanyigo.Auth.Session.{IsSession}

pub done-cases : (o : Outcome) → (o ≡ done) ⊎ (o ≢ done)
done-cases done = inl refl
done-cases refused = inr λ e. cc
done-cases lost = inr λ e. cc

-- The cookie of a live session lets a request through, if the query does not fail.
pub authenticate_request-of_IsSession :
    (packages : Packages) (now : Time) (cookie : String) (c : Conn Database) (user : UserRow)
    → first c.outcomes ≡ done
    → IsSession packages now cookie c.db user
    → (authenticate_request packages now cookie c).0 ≡ ok user
unfolding authenticate_request exec_auto ◌>>=◌ live_user found_user
authenticate_request-of_IsSession packages now cookie c user o (ne, (s, l, e, b)) =
    elim (str_eq-cases cookie "") [
      | inl (_, p) ↦ absurd (ne p)
      | inr (q, _) ↦ rw (q, o) (rw (l) (rw e (rw b refl)))
    ]

found_user-db :
    (r : Result (Option UserRow)) (c : Conn Database) → (continue r found_user c).1.db ≡ c.db
unfolding found_user fail
found_user-db (err e) c = refl
found_user-db (ok none) c = refl
found_user-db (ok (some user)) c = refl

read-db :
    {A : Type 0} (f : Database → A) (c : Conn Database)
    → (exec_auto (λ db. ok (f db, db)) c).1.db ≡ c.db
unfolding exec_auto
read-db {A} f c = by_outcome (first c.outcomes)
  where
    by_outcome :
        (o : Outcome)
        → (answer o
            (record c { outcomes = rest c.outcomes })
            (effect (record c { outcomes = rest c.outcomes }) (ok (f c.db, c.db)))).1.db
          ≡ c.db
    by_outcome done = refl
    by_outcome refused = refl
    by_outcome lost = refl

-- Whatever the query answers, the tables are as they were.
pub authenticate_request-db :
    (packages : Packages) (now : Time) (cookie : String) (c : Conn Database)
    → (authenticate_request packages now cookie c).1.db ≡ c.db
unfolding authenticate_request fail ◌>>=◌
authenticate_request-db packages now cookie c = elim (str_eq-cases cookie "") [
  | inl (e, _) ↦ rw e refl
  | inr (e, _) ↦
      let find = λ (db : Database).
        live_user now db.dashboard_users
          (lookup (packages.hash_token cookie) db.dashboard_sessions) in
      let read = exec_auto (λ db. ok (find db, db)) c in
      rw e (found_user-db read.0 read.1 ∙ read-db find c)
]
