-- ===== src/Users/Login.antt =====
-- From handleUsers to handleLogin of auth.go: the login of a user whom an administrator has added.
use kanyigo.Base.{
  String, ◌≡◌, refl, sym, ap, ◌∙◌, true, Option, none, some, [], inl, inr, Bool-cases, str_eq,
}
use kanyigo.Base.Table.{lookup}
use kanyigo.LogEntry.{Time}
use kanyigo.Schema.{Database, UserRow}
use kanyigo.Sql.{Conn, Result-cases}
use kanyigo.Auth.{Packages, purge, session, handle_login}
use kanyigo.Auth as Auth
use kanyigo.Auth.Created.{IsBcrypt, IsCreated, create_user-IsCreated, handle_login-IsCreated}
use kanyigo.Users.{
  AuthUser, auth_user, UserRequest, Reply, user_json, made, create_user, users_as, handle_users,
}

module _ (packages : Packages) (now : Time) (req : UserRequest) (db : Database) where
  abbrev quiet : Database → Conn Database
  quiet db = record { db = db; outcomes = [] }

  -- The answer to an administrator's POST
  abbrev pub posted : Option AuthUser → Reply × Conn Database
  posted user = handle_users user packages now "POST" (some req) (quiet db)

  -- The user that is answered has been added by an administrator, and logs in.
  pub record LogsIn (user : Option AuthUser) (later : Time) (token : String) (u : AuthUser)
      (db' : Database) : Type 0 where
    pub by_admin : (a : AuthUser) × (user ≡ some a) × (str_eq a.role "admin" ≡ true)
    pub row : UserRow
    pub answered : auth_user row ≡ u
    pub created : IsCreated packages req.email req.password req.role db db' row
    pub logged_in :
        (handle_login packages later "POST"
          (some token)
          (some (req.email, req.password))
          (quiet db')).0
        ≡ session token row

  made_by :
      {u : AuthUser}
      → (create_user packages now (some req) (quiet db)).0 ≡ user_json 201 u
      → (row : UserRow) × (auth_user row ≡ u)
        × IsCreated packages req.email req.password req.role db
            (create_user packages now (some req) (quiet db)).1.db
            row
  unfolding create_user
  made_by h =
      let r = Auth.create_user packages now req.email req.password req.role (quiet db) in
      elim (Result-cases r.0) [
        | inr (_, e) ↦ let h' = sym (ap made e) ∙ h in absurd (cc)
        | inl (row, e) ↦
            let same = sym (ap made e) ∙ h in
            (
              row,
              cc (same),
              create_user-IsCreated packages now req.email req.password req.role db e,
            )
      ]

  -- Where no call fails, and bcrypt accepts a password with the hash that it made of it: if handleUsers
  -- answers a POST with a user, an administrator asked, the user is added with the role of the
  -- body, and a login with the email and the password of the body is answered with a session of that
  -- user, provided that the token's hash is none of a session that is still there.
  pub handle_users-LogsIn :
      (user : Option AuthUser) (later : Time) (token : String) {u : AuthUser}
      → IsBcrypt packages
      → (posted user).0 ≡ user_json 201 u
      → lookup (packages.hash_token token) (purge later (posted user).1.db).dashboard_sessions
        ≡ none
      → LogsIn user later token u (posted user).1.db
  unfolding handle_users users_as
  handle_users-LogsIn none later token bcrypt h unused = absurd (cc)
  handle_users-LogsIn (some a) later token bcrypt h unused =
      elim (Bool-cases (str_eq a.role "admin")) [
        | inr e ↦ let h' = rw e at h in absurd (cc)
        | inl e ↦
            let (row, answered, created) = made_by (rw e at h) in
            rw e (record {
              by_admin = (a, refl, e);
              row = row;
              answered = answered;
              created = created;
              logged_in =
                  handle_login-IsCreated packages now later req.email req.password req.role token db
                    _ bcrypt created (rw e at unused);
            })
      ]
