-- ===== src/Auth/Session.antt =====
-- Sessions of auth.go: which requests handleLogin, handleLogout and authenticateRequest let through.
use kanyigo.Base.{
  ℕ, ◌+◌, ◌≡◌, ◌≢◌, refl, sym, ap, ◌∙◌, subst, String, true, Option, none, some, List, [], ◌∷◌,
  arith, ◌⊎◌, inl, inr, Bool-cases, Option-cases, str_eq-cases, ltb,
}
use text.Mathlib.TextPositions.{eq_refl}
use kanyigo.Base.Table.{lookup, insert, remove, lookup-insert, lookup-remove}
use kanyigo.LogEntry.{Time}
use kanyigo.Schema.{Database, UserRow, SessionRow}
use kanyigo.Sql.{
  Result, ok, err, Outcome, done, refused, lost, Conn, first, rest, answer, effect, exec_auto, fail,
  ◌>>=◌,
}
use kanyigo.Sql.Atomic.{>>=-ok}
use kanyigo.Auth.{
  Packages, normalize_email, by_email, by_id, insert_session, session_ttl, LoginReply, session,
  open_session, check_password, login_as, login_body, purge, handle_login, handle_logout, live_user,
  found_user, authenticate_request,
}

-- No two users have one id.
unfoldable pub HasDistinctIds : List UserRow → Type 0
HasDistinctIds [] = Unit
HasDistinctIds (user ∷ users) = (by_id user.id users ≡ none) × HasDistinctIds users

by_id-by_email :
    (email : String) (users : List UserRow) (user : UserRow)
    → HasDistinctIds users
    → by_email email users ≡ some user
    → by_id user.id users ≡ some user
unfolding by_id by_email HasDistinctIds
by_id-by_email email [] user d h = absurd cc
by_id-by_email email (u ∷ users) user d h = ground (arith, by_id-by_email email users user d.1)

read_ok :
    {A : Type 0} (f : Database → A) (c : Conn Database) {a : A}
    → (exec_auto (λ db. ok (f db, db)) c).0 ≡ ok a
    → f c.db ≡ a
unfolding exec_auto
read_ok {A} f c {a} h = by_outcome (first c.outcomes) h
  where
    by_outcome :
        (o : Outcome)
        → (answer o
            (record c { outcomes = rest c.outcomes })
            (effect (record c { outcomes = rest c.outcomes }) (ok (f c.db, c.db)))).0
          ≡ ok a
        → f c.db ≡ a
    by_outcome done e = cc
    by_outcome refused e = absurd cc
    by_outcome lost e = absurd cc

live_user-some :
    (now : Time) (users : List UserRow) (o : Option SessionRow) {user : UserRow}
    → live_user now users o ≡ some user
    → (s : SessionRow) × (o ≡ some s)
      × (ltb now s.expires_at ≡ true)
      × (by_id s.user_id users ≡ some user)
unfolding live_user
live_user-some now users none h = absurd cc
live_user-some now users (some s) h = elim (Bool-cases (ltb now s.expires_at)) [
  | inl e ↦ (s, refl, e, rw e at h)
  | inr e ↦ let h' = rw e at h in absurd cc
]

found_user_ok :
    (o : Option UserRow) (c : Conn Database) {user : UserRow}
    → (found_user o c).0 ≡ ok user
    → o ≡ some user
unfolding found_user fail
found_user_ok none c h = absurd cc
found_user_ok (some u) c h = cc

-- The session that lets a request through.
abbrev pub IsSession : Packages → Time → String → Database → UserRow → Type 0
IsSession packages now cookie db user =
    (cookie ≢ "")
    × ((s : SessionRow) × (lookup (packages.hash_token cookie) db.dashboard_sessions ≡ some s)
        × (ltb now s.expires_at ≡ true)
        × (by_id s.user_id db.dashboard_users ≡ some user))

-- A request is let through as a user only with a cookie that is not empty, whose hash is that of a
-- session of that user which has not expired.
pub authenticate_request-IsSession :
    (packages : Packages) (now : Time) (cookie : String) (c : Conn Database) {user : UserRow}
    → (authenticate_request packages now cookie c).0 ≡ ok user
    → IsSession packages now cookie c.db user
unfolding authenticate_request fail
authenticate_request-IsSession packages now cookie c h = elim (str_eq-cases cookie "") [
  | inl (e, _) ↦ let h' = rw e at h in absurd cc
  | inr (e, ne) ↦
      let find = λ (db : Database).
        live_user now db.dashboard_users
          (lookup (packages.hash_token cookie) db.dashboard_sessions) in
      let (o, read, step) = >>=-ok (exec_auto (λ db. ok (find db, db))) found_user c (rw e at h) in
      let user_found = found_user_ok o _ (sym (ap (λ r. r.0) step) ∙ (rw e at h)) in
      (ne, live_user-some now c.db.dashboard_users _ (read_ok find c read ∙ user_found))
]

module _ (packages : Packages) (now later : Time) (cookie : String) (db : Database) where
  -- The request that comes with the cookie.
  abbrev IsAuthenticated : UserRow → Database → Type 0
  IsAuthenticated user d =
      authenticate_request packages later cookie (record { db = d; outcomes = [] })
      ≡ (ok user, record { db = d; outcomes = [] })

  let_through :
      (user : UserRow) (s : SessionRow) (d : Database)
      → cookie ≢ ""
      → lookup (packages.hash_token cookie) d.dashboard_sessions ≡ some s
      → ltb later s.expires_at ≡ true
      → by_id s.user_id d.dashboard_users ≡ some user
      → IsAuthenticated user d
  unfolding authenticate_request exec_auto ◌>>=◌ live_user found_user
  let_through user s d ne l e b = elim (str_eq-cases cookie "") [
    | inl (_, p) ↦ absurd (ne p)
    | inr (q, _) ↦ rw (q, l) (rw e (rw b refl))
  ]

  abbrev with_session : ℕ → Database → Database
  with_session id d = record d {
    dashboard_sessions =
        insert (packages.hash_token cookie)
          (record { user_id = id; expires_at = now + session_ttl }) d.dashboard_sessions;
  }

  insert_session-cases :
      (id : ℕ) (d : Database)
      → (insert_session (packages.hash_token cookie) id (now + session_ttl) d
          ≡ ok (tt, with_session id d))
        ⊎ ((e : String) × (insert_session (packages.hash_token cookie) id (now + session_ttl) d
              ≡ err e))
  unfolding insert_session
  insert_session-cases id d =
      elim (Option-cases (lookup (packages.hash_token cookie) d.dashboard_sessions)) [
        | inl e ↦ inl (rw (e, insert_session))
        | inr (s, e) ↦
            inr ("duplicate key value violates unique constraint", rw (e, insert_session))
      ]

  abbrev opening : UserRow → Database → LoginReply × Conn Database
  opening user d = open_session packages now (some cookie) user (record { db = d; outcomes = [] })

  open_session_ok :
      (user : UserRow) (d : Database) {token : String} {u : UserRow}
      → (opening user d).0 ≡ session token u
      → (cookie ≡ token)
        × (user ≡ u)
        × ((opening user d).1 ≡ record { db = with_session user.id d; outcomes = [] })
  unfolding open_session exec_auto
  open_session_ok user d h = elim (insert_session-cases user.id d) [
    | inr (e, p) ↦ let h' = rw p at h in absurd cc
    | inl p ↦ let h' = rw p at h in rw p (cc, cc, refl)
  ]

  -- What a login leaves for the cookie.
  abbrev pub Opens : String → UserRow → Database → Type 0
  Opens password user d =
      (packages.compare_hash user.password_hash password ≡ true) × IsAuthenticated user d

  with_session_lets_through :
      (user : UserRow) (d : Database)
      → cookie ≢ ""
      → ltb later (now + session_ttl) ≡ true
      → by_id user.id d.dashboard_users ≡ some user
      → IsAuthenticated user (with_session user.id d)
  with_session_lets_through user d ne l b =
      let_through user (record { user_id = user.id; expires_at = now + session_ttl })
        (with_session user.id d) ne
        (lookup-insert (packages.hash_token cookie) (packages.hash_token cookie)
            (record { user_id = user.id; expires_at = now + session_ttl }) d.dashboard_sessions
          ∙ rw (eq_refl (packages.hash_token cookie)) refl)
        l b

  module _ (password : String) (ne : cookie ≢ "") (l : ltb later (now + session_ttl) ≡ true)
      (d : Database) (distinct : HasDistinctIds d.dashboard_users) where
    abbrev at_hand : Conn Database
    at_hand = record { db = d; outcomes = [] }

    check_password-Opens :
        (email : String) (o : Option UserRow) {token : String} {user : UserRow}
        → by_email email d.dashboard_users ≡ o
        → (check_password packages now (some cookie) password (ok o, at_hand)).0
          ≡ session token user
        → Opens password user
            (check_password packages now (some cookie) password (ok o, at_hand)).1.db
    unfolding check_password
    check_password-Opens email none f h = absurd cc
    check_password-Opens email (some u) {user = user} f h =
        elim (Bool-cases (packages.compare_hash u.password_hash password)) [
          | inr e ↦ let h' = rw e at h in absurd cc
          | inl e ↦
              let (_, p, c) = open_session_ok u d (rw e at h) in
              rw (e, c)
                (subst (λ v. Opens password v (with_session u.id d)) p
                  (
                    e,
                    with_session_lets_through u d ne l
                        (by_id-by_email email d.dashboard_users u distinct f),
                  ))
        ]

    login_as-Opens :
        (r : Result String) {token : String} {user : UserRow}
        → (login_as packages now (some cookie) password r at_hand).0 ≡ session token user
        → Opens password user (login_as packages now (some cookie) password r at_hand).1.db
    unfolding login_as exec_auto
    login_as-Opens (err e) h = absurd cc
    login_as-Opens (ok email) h =
        check_password-Opens email (by_email email d.dashboard_users) refl h

  -- Where the ids of the users are distinct and no call fails: a login that is answered with a
  -- session for a user was made with a password that matches that user's hash, and from then on
  -- until 7 days later the cookie lets its requests through, as that user.
  pub handle_login-Opens :
      (email password : String) {token : String} {user : UserRow}
      → HasDistinctIds db.dashboard_users
      → cookie ≢ ""
      → ltb later (now + session_ttl) ≡ true
      → (handle_login packages now "POST"
          (some cookie)
          (some (email, password))
          (record { db = db; outcomes = [] })).0
        ≡ session token user
      → Opens password user
          (handle_login packages now "POST"
            (some cookie)
            (some (email, password))
            (record { db = db; outcomes = [] })).1.db
  unfolding handle_login login_body exec_auto purge
  handle_login-Opens email password d ne l h =
      login_as-Opens password ne l (purge now db) d (normalize_email packages email) h

  -- Where no call fails: after a logout, no request with its cookie is let through.
  pub handle_logout-refuses :
      {user : UserRow}
      → (authenticate_request packages later cookie
          (handle_logout packages "POST" cookie (record { db = db; outcomes = [] }))).0
        ≢ ok user
  unfolding handle_logout exec_auto
  handle_logout-refuses {user} h =
      let (ne, (s, l, _, _)) =
        authenticate_request-IsSession packages later cookie
          (handle_logout packages "POST" cookie (record { db = db; outcomes = [] })) h in
      elim (str_eq-cases cookie "") [
        | inl (_, p) ↦ ne p
        | inr (e, _) ↦
            let kept : lookup (packages.hash_token cookie)
                  (remove (packages.hash_token cookie) db.dashboard_sessions)
                ≡ some s =
              rw e at l in
            let gone : lookup (packages.hash_token cookie)
                  (remove (packages.hash_token cookie) db.dashboard_sessions)
                ≡ none =
              lookup-remove (packages.hash_token cookie) (packages.hash_token cookie)
                db.dashboard_sessions
              ∙ rw (eq_refl (packages.hash_token cookie)) refl in
            absurd cc
      ]
