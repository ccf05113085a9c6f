-- ===== src/Auth/Bootstrap.antt =====
-- The first administrator, EnsureBootstrapAdmin and createUser of auth.go.
use kanyigo.Base.{
  ℕ, suc, ◌≤◌, ◌≡◌, refl, sym, ap, ◌∙◌, String, Bool, true, false, not, ◌||◌, ◌&&◌, Option, none,
  some, ◌∷◌, arith, ◌⊎◌, inl, inr, Bool-cases, Option-cases, if◌then◌else◌, str_eq, ltb,
}
use kanyigo.LogEntry.{Time}
use kanyigo.Schema.{Database, UserRow}
use kanyigo.Sql.{
  Result, ok, err, Outcome, done, refused, lost, Conn, Sql, continue, first, rest, answer, effect,
  exec_auto, fail, pure, ◌>>=◌,
}
use kanyigo.Auth.{
  Packages, bytes, normalize_email, by_email, insert_user, insert_hashed, create_normal,
  create_user,
}
use kanyigo.Sql.Atomic.{exec_auto_keeps}
use kanyigo.Auth.Admin.{
  Environment, is_production, count_admins, bootstrap_email, bootstrap_password, bootstrap_missing,
  is_weak, create_admin, bootstrap, ensure_bootstrap_admin,
}

-- A user that may be added: a role that the table takes, a password of at least 8 bytes, and a
-- new email.
abbrev pub IsAdded : Packages → String → String → Database → Database → Type 0
IsAdded packages password role db db' =
    (8 ≤ bytes password)
    × ((str_eq role "admin" || str_eq role "user") ≡ true)
    × ((user : UserRow) × (by_email user.email db.dashboard_users ≡ none)
        × (user.role ≡ role)
        × (packages.generate password ≡ some user.password_hash)
        × (db'.dashboard_users ≡ user ∷ db.dashboard_users))

abbrev pub Unless : Packages → String → String → Database → Database → Type 0
Unless packages password role db db' = (db' ≡ db) ⊎ IsAdded packages password role db db'

-- The user that the INSERT adds.
abbrev added_user : Time → String → String → String → Database → UserRow
added_user now email hash role db = record {
  id = db.next_id;
  email = email;
  password_hash = hash;
  role = role;
  created_at = now;
}

insert_user_ok :
    (now : Time) (email hash role : String) (db : Database) {user : UserRow} {d : Database}
    → insert_user now email hash role db ≡ ok (user, d)
    → (by_email email db.dashboard_users ≡ none)
      × (d.dashboard_users ≡ added_user now email hash role db ∷ db.dashboard_users)
unfolding insert_user
insert_user_ok now email hash role db {user} {d} e =
    elim (Option-cases (by_email email db.dashboard_users)) [
      | inr (u, f) ↦
          let e' : err "duplicate key value violates unique constraint" ≡ ok (user, d) =
            rw (f, insert_user) at e in
          absurd cc
      | inl f ↦
          let written : Database = record db {
            dashboard_users = added_user now email hash role db ∷ db.dashboard_users;
            next_id = suc db.next_id;
          } in
          let e' : ok (added_user now email hash role db, written) ≡ ok (user, d) =
            rw (f, insert_user) at e in
          let p : written ≡ d = cc in (f, ap (λ x. x.dashboard_users) (sym p))
    ]

insert_user-IsAdded :
    (packages : Packages) (now : Time) (email hash password role : String) (c : Conn Database)
    → 8 ≤ bytes password
    → (str_eq role "admin" || str_eq role "user") ≡ true
    → packages.generate password ≡ some hash
    → Unless packages password role c.db (exec_auto (insert_user now email hash role) c).1.db
insert_user-IsAdded packages now email hash password role c b r g =
    exec_auto_keeps (insert_user now email hash role) c (Unless packages password role c.db)
      (inl refl)
      λ user d e.
        let (fresh, users) = insert_user_ok now email hash role c.db e in
        inr (b, r, (added_user now email hash role c.db, fresh, refl, g, users))

-- Whatever the server answers: createUser leaves the database as it was, or adds one user, with a new
-- email, the role asked for, "admin" or "user", and the hash of a password of at least 8 bytes.
pub create_user-Unless :
    (packages : Packages) (now : Time) (email password role : String) (c : Conn Database)
    → Unless packages password role c.db (create_user packages now email password role c).1.db
unfolding create_user create_normal insert_hashed fail
create_user-Unless packages now email password role c = normal (normalize_email packages email)
  where
    hashed :
        (email : String) (o : Option String)
        → packages.generate password ≡ o
        → 8 ≤ bytes password
        → (str_eq role "admin" || str_eq role "user") ≡ true
        → Unless packages password role c.db (insert_hashed now email role o c).1.db
    hashed email none g b r = inl refl
    hashed email (some hash) g b r =
        insert_user-IsAdded packages now email hash password role c b r g

    normal :
        (n : Result String)
        → Unless packages password role c.db (create_normal packages now password role n c).1.db
    normal (err e) = inl refl
    normal (ok email) = elim (Bool-cases (ltb (bytes password) 8)) [
      | inl b ↦ rw b (inl refl)
      | inr b ↦ elim (Bool-cases (not (str_eq role "admin") && not (str_eq role "user"))) [
        | inl r ↦ rw (b, r) (inl refl)
        | inr r ↦
            rw (b, r) (hashed email (packages.generate password) refl (ground arith) (ground arith))
      ]
    ]

-- The first administrator, or nothing.
abbrev pub IsBootstrapped : Packages → Environment → Database → Database → Type 0
IsBootstrapped packages env db db' =
    (db' ≡ db)
    ⊎ ((count_admins db.dashboard_users ≡ 0)
        × (is_weak env ≡ false)
        × IsAdded packages (bootstrap_password env) "admin" db db')

branch :
    {A : Type 0} (P : Database → Type 0) (c : Conn Database) (b : Bool) (m n : Sql Database A)
    → (b ≡ true → P (m c).1.db)
    → (b ≡ false → P (n c).1.db)
    → P ((if b then m else n) c).1.db
branch P c true m n f g = f refl
branch P c false m n f g = g refl

create_admin-Unless :
    (packages : Packages) (now : Time) (env : Environment) (c : Conn Database)
    → Unless packages (bootstrap_password env) "admin" c.db (create_admin packages now env c).1.db
unfolding create_admin ◌>>=◌
create_admin-Unless packages now env c =
    forget (create_user packages now (bootstrap_email env) (bootstrap_password env) "admin" c)
      (create_user-Unless packages now (bootstrap_email env) (bootstrap_password env) "admin" c)
  where
    forget :
        (r : Result UserRow × Conn Database)
        → Unless packages (bootstrap_password env) "admin" c.db r.1.db
        → Unless packages
            (bootstrap_password env)
            "admin"
            c.db
            (continue r.0 (λ _. pure {A = Unit {0}} tt) r.1).1.db
    forget (ok u, c') h = h
    forget (err e, c') h = h

bootstrap-IsBootstrapped :
    (packages : Packages) (now : Time) (env : Environment) (c : Conn Database) (count : ℕ)
    → count_admins c.db.dashboard_users ≡ count
    → IsBootstrapped packages env c.db (bootstrap packages now env count c).1.db
unfolding bootstrap bootstrap_missing fail
bootstrap-IsBootstrapped packages now env c count e =
    let P = IsBootstrapped packages env c.db in
    branch P c (ltb 0 count) _ _ (λ _. inl refl)
      λ none.
        branch P c (str_eq (bootstrap_email env) "" || str_eq (bootstrap_password env) "") _ _
          (λ _. branch P c (is_production env) _ _ (λ _. inl refl) λ _. inl refl)
          λ _.
            branch P c (is_weak env) _ _ (λ _. inl refl)
              λ strong.
                admin (e ∙ ground (arith, none)) strong (create_admin-Unless packages now env c)
  where
    admin :
        count_admins c.db.dashboard_users ≡ 0
        → is_weak env ≡ false
        → Unless packages
            (bootstrap_password env)
            "admin"
            c.db
            (create_admin packages now env c).1.db
        → IsBootstrapped packages env c.db (create_admin packages now env c).1.db
    admin z w (inl h) = inl h
    admin z w (inr h) = inr (z, w, h)

-- Whatever the server answers: EnsureBootstrapAdmin leaves the database as it was, or there was
-- no administrator and it adds one, with the password of the environment, of at least 8 bytes; in
-- production neither the email nor the password is the default, and the password has at least 12
-- bytes.
pub ensure_bootstrap_admin-IsBootstrapped :
    (packages : Packages) (now : Time) (env : Environment) (c : Conn Database)
    → IsBootstrapped packages env c.db (ensure_bootstrap_admin packages now env c).1.db
unfolding ensure_bootstrap_admin ◌>>=◌ exec_auto
ensure_bootstrap_admin-IsBootstrapped packages now env c = by_outcome (first c.outcomes)
  where
    by_outcome :
        (o : Outcome)
        → IsBootstrapped packages env c.db
            (continue
              (answer o
                (record c { outcomes = rest c.outcomes })
                (effect
                  (record c { outcomes = rest c.outcomes })
                  (ok (count_admins c.db.dashboard_users, c.db)))).0
              (bootstrap packages now env)
              (answer o
                (record c { outcomes = rest c.outcomes })
                (effect
                  (record c { outcomes = rest c.outcomes })
                  (ok (count_admins c.db.dashboard_users, c.db)))).1).1.db
    by_outcome done =
        bootstrap-IsBootstrapped packages now env (record c { outcomes = rest c.outcomes })
          (count_admins c.db.dashboard_users) refl
    by_outcome refused = inl refl
    by_outcome lost = inl refl
