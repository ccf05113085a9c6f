-- ===== src/Auth/Created.antt =====
-- The login of a user whom createUser of auth.go has added.
use kanyigo.Base.{
  suc, ◌≡◌, refl, ap, subst, ◌∙◌, String, true, not, ◌&&◌, none, some, [], ◌∷◌, inl, inr,
  Bool-cases, Option-cases, str_eq, ltb,
}
use text.Mathlib.TextPositions.{eq_refl}
use kanyigo.Base.Table.{lookup}
use kanyigo.LogEntry.{Time}
use kanyigo.Schema.{Database, UserRow}
use kanyigo.Sql.{Result, ok, err, Conn, exec_auto, fail}
use kanyigo.Auth.{
  Packages, bytes, normalize_email, by_email, insert_user, insert_hashed, create_normal,
  create_user, session, insert_session, open_session, check_password, login_as, handle_login, purge,
}

-- A hash that bcrypt makes of a password is one that it accepts with it.
abbrev pub IsBcrypt : Packages → Type 0
IsBcrypt packages =
    (password hash : String)
    → packages.generate password ≡ some hash
    → packages.compare_hash hash password ≡ true

abbrev quiet : Database → Conn Database
quiet db = record { db = db; outcomes = [] }

-- What createUser has done, where no call fails.
pub record IsCreated (packages : Packages) (email password role : String) (db db' : Database)
    (user : UserRow) : Type 0 where
  pub named : normalize_email packages email ≡ ok user.email
  pub hashed : packages.generate password ≡ some user.password_hash
  pub same_role : user.role ≡ role
  pub fresh : by_email user.email db.dashboard_users ≡ none
  pub added : db'.dashboard_users ≡ user ∷ db.dashboard_users
  pub same_sessions : db'.dashboard_sessions ≡ db.dashboard_sessions

module _ (packages : Packages) (now : Time) (email password role : String) (db : Database)
    {user : UserRow} where
  inserted :
      (e hash : String)
      → normalize_email packages email ≡ ok e
      → packages.generate password ≡ some hash
      → (exec_auto (insert_user now e hash role) (quiet db)).0 ≡ ok user
      → IsCreated packages email password role db
          (exec_auto (insert_user now e hash role) (quiet db)).1.db
          user
  unfolding exec_auto insert_user
  inserted e hash n g h =
      let added : UserRow = record {
        id = db.next_id;
        email = e;
        password_hash = hash;
        role = role;
        created_at = now;
      } in
      let written : Database = record db {
        dashboard_users = added ∷ db.dashboard_users;
        next_id = suc db.next_id;
      } in
      elim (Option-cases (by_email e db.dashboard_users)) [
        | inr (_, f) ↦ let h' = rw (f, insert_user) at h in absurd (cc)
        | inl f ↦
            let same : added ≡ user = cc (rw (f, insert_user) at h) in
            rw (f, insert_user)
              (subst (IsCreated packages email password role db written) same (record {
                named = n;
                hashed = g;
                same_role = refl;
                fresh = f;
                added = refl;
                same_sessions = refl;
              }))
      ]

  normal :
      (n : Result String)
      → normalize_email packages email ≡ n
      → (create_normal packages now password role n (quiet db)).0 ≡ ok user
      → IsCreated packages email password role db
          (create_normal packages now password role n (quiet db)).1.db
          user
  unfolding create_normal insert_hashed fail
  normal (err e) n h = absurd (cc)
  normal (ok e) n h = elim (Bool-cases (ltb (bytes password) 8)) [
    | inl b ↦ let h' = rw b at h in absurd (cc)
    | inr b ↦ elim (Bool-cases (not (str_eq role "admin") && not (str_eq role "user"))) [
      | inl r ↦ let h' = rw (b, r) at h in absurd (cc)
      | inr r ↦ elim (Option-cases (packages.generate password)) [
        | inl g ↦ let h' = rw (b, r, g) at h in absurd (cc)
        | inr (hash, g) ↦ rw (b, r, g) (inserted e hash n g (rw (b, r, g) at h))
      ]
    ]
  ]

  pub create_user-IsCreated :
      (create_user packages now email password role (quiet db)).0 ≡ ok user
      → IsCreated packages email password role db
          (create_user packages now email password role (quiet db)).1.db
          user
  unfolding create_user
  create_user-IsCreated h = normal (normalize_email packages email) refl h

module _ (packages : Packages) (now later : Time) (email password role token : String)
    (db₀ db : Database) {user : UserRow} (bcrypt : IsBcrypt packages)
    (created : IsCreated packages email password role db₀ db user)
    (unused : lookup (packages.hash_token token) (purge later db).dashboard_sessions ≡ none) where
  found_again : by_email user.email (purge later db).dashboard_users ≡ some user
  unfolding purge by_email
  found_again = ap (by_email user.email) created.added ∙ rw (by_email, eq_refl user.email) refl

  opens :
      (open_session packages later (some token) user (quiet (purge later db))).0
      ≡ session token user
  unfolding open_session exec_auto insert_session
  opens = rw (insert_session, unused) refl

  accepted :
      (check_password packages later
        (some token)
        password
        (ok (some user), quiet (purge later db))).0
      ≡ session token user
  unfolding check_password
  accepted = rw (bcrypt password user.password_hash created.hashed) opens

  -- The user logs in with the same email and password.
  pub handle_login-IsCreated :
      (handle_login packages later "POST" (some token) (some (email, password)) (quiet db)).0
      ≡ session token user
  unfolding handle_login exec_auto login_as
  handle_login-IsCreated =
      ap (λ n. (login_as packages later (some token) password n (quiet (purge later db))).0)
        created.named
      ∙ ap
          (λ o.
            (check_password packages later (some token) password (ok o, quiet (purge later db))).0)
          found_again
      ∙ accepted
