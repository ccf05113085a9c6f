-- ===== src/Auth/Admin.antt =====
-- The first administrator, EnsureBootstrapAdmin of auth.go.

use kanyigo.Base.{ℕ, suc, String, Bool, not, ◌&&◌, ◌||◌, List, [], ◌∷◌, ltb, str_eq, if◌then◌else◌}
use kanyigo.Base.Text.{trim_space, equal_fold}
use kanyigo.LogEntry.{Time}
use kanyigo.Schema.{Database, UserRow}
use kanyigo.Sql.{ok, Sql, exec_auto, fail, pure, ◌>>=◌}
use kanyigo.Auth.{Packages, bytes, env_or_default, create_user}

-- The environment that the bootstrap reads.
pub record Environment : Type 0 where
  pub app_env : String
  pub admin_email : String
  pub admin_password : String

unfoldable pub is_production : Environment → Bool
is_production env = equal_fold (env_or_default env.app_env "development") "production"

unfoldable pub count_admins : List UserRow → ℕ
count_admins [] = 0
count_admins (user ∷ users) =
    let rest = count_admins users in if str_eq user.role "admin" then suc rest else rest

-- The values that EnsureBootstrapAdmin takes from the environment.
unfoldable pub bootstrap_email : Environment → String
bootstrap_email env =
    if not (is_production env)
    then env_or_default env.admin_email "admin@example.com"
    else trim_space (env_or_default env.admin_email "")

unfoldable pub bootstrap_password : Environment → String
bootstrap_password env =
    if not (is_production env)
    then env_or_default env.admin_password "admin12345"
    else env_or_default env.admin_password ""

unfoldable pub bootstrap_missing : Environment → Sql Database (Unit {0})
bootstrap_missing env =
    if is_production env
    then fail "ADMIN_EMAIL and ADMIN_PASSWORD are required when no admin user exists"
    else pure tt

-- `isProduction() && (email == … || password == … || len(password) < 12)`
abbrev pub is_weak : Environment → Bool
is_weak env =
    is_production env
    && (str_eq (bootstrap_email env) "admin@example.com"
        || str_eq (bootstrap_password env) "admin12345"
        || ltb (bytes (bootstrap_password env)) 12)

unfoldable pub create_admin : Packages → Time → Environment → Sql Database (Unit {0})
create_admin packages now env =
    create_user packages now (bootstrap_email env) (bootstrap_password env) "admin" >>= λ _. pure tt

unfoldable pub bootstrap : Packages → Time → Environment → ℕ → Sql Database (Unit {0})
unfolding bootstrap_missing create_admin
bootstrap packages now env count =
    if ltb 0 count
    then pure tt
    else if str_eq (bootstrap_email env) "" || str_eq (bootstrap_password env) ""
    then bootstrap_missing env
    else if is_weak env
    then fail
        "production ADMIN_PASSWORD must be at least 12 characters and must not use default credentials"
    else create_admin packages now env

unfoldable pub ensure_bootstrap_admin : Packages → Time → Environment → Sql Database (Unit {0})
unfolding bootstrap
ensure_bootstrap_admin packages now env =
    exec_auto (λ db. ok (count_admins db.dashboard_users, db)) >>= bootstrap packages now env
