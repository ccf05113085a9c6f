-- ===== src/Users.antt =====
-- The handlers of auth.go that tell of users and add them: handleMe, handleUsers, listUsers and the
-- method createUser. The user that requireAuth has put into the context is an argument. A time is
-- written by RFC 3339 to seconds, and is carried here.
pub mod Listing
pub mod Login
mod Examples
use kanyigo.Base.{
  ℕ, String, Bool, true, false, not, ◌&&◌, ◌||◌, Option, none, some, List, [], ◌∷◌, map, ltb, ◌==◌,
  str_eq, if◌then◌else◌,
}
use kanyigo.LogEntry.{Time}
use kanyigo.Schema.{Database, UserRow}
use kanyigo.Sql.{Result, ok, err, Conn, exec_auto}
use kanyigo.Auth.{Packages}
use kanyigo.Auth as Auth

-- `authUser`: a row without the hash of the password.
pub record AuthUser : Type 0 where
  pub id : ℕ
  pub email : String
  pub role : String
  pub created_at : Time

abbrev pub auth_user : UserRow → AuthUser
auth_user row = record {
  id = row.id;
  email = row.email;
  role = row.role;
  created_at = row.created_at;
}

pub record UserRequest : Type 0 where
  pub email : String
  pub password : String
  pub role : String

-- `writeError`, or `writeJSON` with one user or with all.
pub data Reply : Type 0 where
  failure : (code : ℕ) (message : String) → Reply
  user_json : (code : ℕ) → AuthUser → Reply
  items_json : (code : ℕ) → List AuthUser → Reply

unfoldable pub handle_me : Option AuthUser → String → Reply
handle_me user method =
    if not (str_eq method "GET")
    then failure 405 "method not allowed"
    else (elim user [ none ↦ failure 401 "authentication required" | some u ↦ user_json 200 u ])

-- `ORDER BY created_at DESC, id DESC`: the first of two rows may stand before the second.
unfoldable pub precedes : AuthUser → AuthUser → Bool
precedes a b =
    ltb b.created_at a.created_at || ((b.created_at == a.created_at) && not (ltb a.id b.id))

unfoldable pub insert_ordered : AuthUser → List AuthUser → List AuthUser
insert_ordered a [] = a ∷ []
insert_ordered a (b ∷ bs) =
    let rest = insert_ordered a bs in if precedes a b then a ∷ b ∷ bs else b ∷ rest

unfoldable pub newest_first : List UserRow → List AuthUser
newest_first [] = []
newest_first (row ∷ rows) = insert_ordered (auth_user row) (newest_first rows)

abbrev listed : Result (List AuthUser) → Reply
listed (ok items) = items_json 200 items
listed (err e) = failure 500 e

unfoldable pub list_users : Conn Database → Reply × Conn Database
list_users c =
    let (r, c') = exec_auto (λ db. ok (newest_first db.dashboard_users, db)) c in (listed r, c')

abbrev made : Result UserRow → Reply
made (ok row) = user_json 201 (auth_user row)
made (err e) = failure 400 e

-- `none` is a body that the decoder refuses.
unfoldable pub create_user :
    Packages → Time → Option UserRequest → Conn Database → Reply × Conn Database
create_user packages now none c = (failure 400 "invalid JSON body", c)
create_user packages now (some req) c =
    let (r, c') = Auth.create_user packages now req.email req.password req.role c in (made r, c')

unfoldable pub users_as :
    AuthUser → Packages → Time → String → Option UserRequest → Conn Database → Reply × Conn Database
users_as user packages now method body c =
    if not (str_eq user.role "admin")
    then (failure 403 "admin access required", c)
    else if str_eq method "GET"
    then list_users c
    else if str_eq method "POST"
    then create_user packages now body c
    else (failure 405 "method not allowed", c)

unfoldable pub handle_users :
    Option AuthUser
    → Packages
    → Time
    → String
    → Option UserRequest
    → Conn Database
    → Reply × Conn Database
handle_users none packages now method body c = (failure 401 "authentication required", c)
handle_users (some user) packages now method body c = users_as user packages now method body c
