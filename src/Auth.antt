-- ===== src/Auth.antt =====
-- Users and sessions, auth.go: EnsureBootstrapAdmin, createUser, handleLogin, handleLogout and
-- authenticateRequest. The packages bcrypt, net/mail and crypto are parameters; `now` is the
-- clock of the handler and of the database.
pub mod Session
pub mod Admission
pub mod Admin
pub mod Bootstrap
pub mod Created
mod Examples
use Prim.Native.Char.{Char, code}
use Prim.Native.String as NativeString
use kanyigo.Base.{
  ℕ, suc, ◌+◌, ◌*◌, ◌^◌, String, Bool, true, false, not, ◌&&◌, ◌||◌, Option, none, some, List, [],
  ◌∷◌, ltb, leb, ◌==◌, str_eq, if◌then◌else◌,
}
use kanyigo.Base.Text.{trim_space, to_lower, equal_fold}
use kanyigo.Base.Table.{Table, lookup, insert, remove, retain}
use kanyigo.LogEntry.{Time}
use kanyigo.Schema.{Database, UserRow, SessionRow}
use kanyigo.Sql.{Result, ok, err, Sql, Conn, exec_auto, fail, pure, ◌>>=◌, ◌>>◌}

-- mail.ParseAddress succeeds; GenerateFromPassword and CompareHashAndPassword; hashToken.
pub record Packages : Type 0 where
  pub is_address : String → Bool
  pub generate : String → Option String
  pub compare_hash : String → String → Bool
  pub hash_token : String → String

-- `len` of a text: the bytes of its UTF-8 encoding.
char_bytes : Char → ℕ
char_bytes c =
    if ltb (code c) 0x80
    then 1
    else if ltb (code c) 0x800
    then 2
    else if ltb (code c) 0x10000
    then 3
    else 4

unfoldable pub bytes : String → ℕ
unfolding char_bytes
bytes NativeString.[] = 0
bytes (NativeString.◌∷◌ c s) = char_bytes c + bytes s

-- `envOrDefault` of config.go, with the variable's value; a variable that is not set is "".
unfoldable pub env_or_default : String → String → String
env_or_default value def = let v = trim_space value in if str_eq v "" then def else v

unfoldable pub normalize_email : Packages → String → Result String
normalize_email packages value =
    let email = to_lower (trim_space value) in
    if str_eq email ""
    then err "email is required"
    else if packages.is_address email
    then ok email
    else err "email is invalid"

-- SELECT … FROM dashboard_users WHERE email = $1, and the join by id
unfoldable pub by_email : String → List UserRow → Option UserRow
by_email email [] = none
by_email email (user ∷ users) = if str_eq user.email email then some user else by_email email users

unfoldable pub by_id : ℕ → List UserRow → Option UserRow
by_id id [] = none
by_id id (user ∷ users) = if user.id == id then some user else by_id id users

-- INSERT INTO dashboard_users: email is UNIQUE.
unfoldable pub insert_user :
    Time → String → String → String → Database → Result (UserRow × Database)
insert_user now email hash role db =
    let user : UserRow = record {
      id = db.next_id;
      email = email;
      password_hash = hash;
      role = role;
      created_at = now;
    } in
    elim (by_email email db.dashboard_users) [
      | some _ ↦ err "duplicate key value violates unique constraint"
      | none ↦ ok (
        user,
        record db { dashboard_users = user ∷ db.dashboard_users; next_id = suc db.next_id },
      )
    ]

insert_hashed : Time → String → String → Option String → Sql Database UserRow
insert_hashed now email role none = fail "bcrypt"
insert_hashed now email role (some hash) = exec_auto (insert_user now email hash role)

create_normal : Packages → Time → String → String → Result String → Sql Database UserRow
unfolding insert_hashed
create_normal packages now password role (err e) = fail e
create_normal packages now password role (ok email) =
    if ltb (bytes password) 8
    then fail "password must be at least 8 characters"
    else if not (str_eq role "admin") && not (str_eq role "user")
    then fail "role must be admin or user"
    else insert_hashed now email role (packages.generate password)

unfoldable pub create_user : Packages → Time → String → String → String → Sql Database UserRow
unfolding create_normal
create_user packages now email password role =
    create_normal packages now password role (normalize_email packages email)

-- The login's answers: 401, 500, or the cookie's token and the user.
pub data LoginReply : Type 0 where
  refused_login : (code : ℕ) (message : String) → LoginReply
  session : (token : String) (user : UserRow) → LoginReply

-- `sessionTTL`, 7 days in nanoseconds
abbrev pub session_ttl : ℕ
session_ttl = 7 * 24 * 3600 * 10 ^ 9

unfoldable pub insert_session : String → ℕ → Time → Database → Result (Unit {0} × Database)
insert_session hash user_id expires_at db = elim (lookup hash db.dashboard_sessions) [
  | some _ ↦ err "duplicate key value violates unique constraint"
  | none ↦ ok (
    tt,
    record db {
      dashboard_sessions =
          insert hash (record { user_id = user_id; expires_at = expires_at }) db.dashboard_sessions;
    },
  )
]

-- `none` is an error of the random source.
abbrev opened : String → UserRow → Result (Unit {0}) × Conn Database → LoginReply × Conn Database
opened token user (ok _, c) = (session token user, c)
opened token user (err e, c) = (refused_login 500 e, c)

open_session :
    Packages → Time → Option String → UserRow → Conn Database → LoginReply × Conn Database
open_session packages now none user c = (refused_login 500 "rand", c)
open_session packages now (some token) user c =
    opened token user
      (exec_auto (insert_session (packages.hash_token token) user.id (now + session_ttl)) c)

check_password :
    Packages
    → Time
    → Option String
    → String
    → Result (Option UserRow) × Conn Database
    → LoginReply × Conn Database
unfolding open_session
check_password packages now token password (err e, c) =
    (refused_login 401 "invalid email or password", c)
check_password packages now token password (ok none, c) =
    (refused_login 401 "invalid email or password", c)
check_password packages now token password (ok (some user), c) =
    if packages.compare_hash user.password_hash password
    then open_session packages now token user c
    else (refused_login 401 "invalid email or password", c)

login_as :
    Packages
    → Time
    → Option String
    → String
    → Result String
    → Conn Database
    → LoginReply × Conn Database
unfolding check_password
login_as packages now token password (err e) c = (refused_login 401 "invalid email or password", c)
login_as packages now token password (ok email) c =
    check_password packages now token password
      (exec_auto (λ db. ok (by_email email db.dashboard_users, db)) c)

login_body :
    Packages
    → Time
    → Option String
    → Option (String × String)
    → Conn Database
    → LoginReply × Conn Database
unfolding login_as
login_body packages now token none c = (refused_login 400 "invalid JSON body", c)
login_body packages now token (some (email, password)) c =
    login_as packages now token password (normalize_email packages email) c

-- DELETE FROM dashboard_sessions WHERE expires_at <= NOW(); its error is ignored.
unfoldable pub purge : Time → Database → Database
purge now db = record db {
  dashboard_sessions = retain (λ s. ltb now s.expires_at) db.dashboard_sessions;
}

-- The body is an email and a password, or `none` if the decoder refuses it.
unfoldable pub handle_login :
    Packages
    → Time
    → String
    → Option String
    → Option (String × String)
    → Conn Database
    → LoginReply × Conn Database
unfolding login_body
handle_login packages now method token body c =
    if not (str_eq method "POST")
    then (refused_login 405 "method not allowed", c)
    else login_body packages now token body (exec_auto (λ db. ok (tt {0}, purge now db)) c).1

-- With the cookie's value, "" if there is none; the error of the DELETE is ignored.
unfoldable pub handle_logout : Packages → String → String → Conn Database → Conn Database
handle_logout packages method cookie c =
    if not (str_eq method "POST") || str_eq cookie ""
    then c
    else (exec_auto
        (λ db. ok (
          tt {0},
          record db {
            dashboard_sessions = remove (packages.hash_token cookie) db.dashboard_sessions;
          },
        ))
        c).1

live_user : Time → List UserRow → Option SessionRow → Option UserRow
live_user now users none = none
live_user now users (some s) = if ltb now s.expires_at then by_id s.user_id users else none

found_user : Option UserRow → Sql Database UserRow
found_user none = fail "sql: no rows in result set"
found_user (some user) = pure user

unfoldable pub authenticate_request : Packages → Time → String → Sql Database UserRow
unfolding live_user found_user
authenticate_request packages now cookie =
    if str_eq cookie ""
    then fail "missing session"
    else exec_auto (λ db. ok (
      live_user now db.dashboard_users (lookup (packages.hash_token cookie) db.dashboard_sessions),
      db,
    ))
      >>= found_user
