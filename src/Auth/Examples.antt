-- ===== src/Auth/Examples.antt =====
-- Users and sessions at concrete values, with packages that leave a text as it is.
use kanyigo.Base.{String, true, ◌≡◌, ◌≢◌, refl, some, [], ◌∷◌, str_eq}
use kanyigo.Base.Table.{lookup, retain}
use kanyigo.Base.Text.{to_lower, trim_space}
use kanyigo.Schema.{Database, UserRow, empty_database}
use kanyigo.Sql.{ok, done, lost, Conn, exec_auto, ◌>>=◌}
use kanyigo.Auth.{
  Packages, normalize_email, by_email, by_id, purge, insert_session, session, create_user,
  handle_login, handle_logout, authenticate_request,
}
use kanyigo.Auth.Admin.{Environment, ensure_bootstrap_admin}
use kanyigo.Auth.Session.{
  HasDistinctIds, IsSession, Opens, authenticate_request-IsSession, handle_login-Opens,
  handle_logout-refuses,
}
use kanyigo.Auth.Bootstrap.{
  Unless, IsBootstrapped, create_user-Unless, ensure_bootstrap_admin-IsBootstrapped,
}

abbrev packages : Packages
packages = record {
  is_address = λ s. true;
  generate = λ p. some p;
  compare_hash = λ hash p. str_eq hash p;
  hash_token = λ t. t;
}

abbrev admin : UserRow
admin = record {
  id = 1;
  email = "a@b.c";
  password_hash = "correct horse";
  role = "admin";
  created_at = 5;
}

abbrev one_user : Database
one_user = record empty_database { dashboard_users = admin ∷ []; next_id = 2 }

abbrev quiet : Conn Database
quiet = record { db = one_user; outcomes = [] }

abbrev logged_in : Database
logged_in = record one_user {
  dashboard_sessions = ("t0ken", record { user_id = 1; expires_at = 900 }) ∷ [];
}

let_in :
    (authenticate_request packages 800 "t0ken" (record { db = logged_in; outcomes = [] })).0
    ≡ ok admin
unfolding authenticate_request exec_auto ◌>>=◌ lookup by_id
let_in = refl

authenticate_request-IsSession_example : IsSession packages 800 "t0ken" logged_in admin
authenticate_request-IsSession_example =
    authenticate_request-IsSession packages 800 "t0ken" (record { db = logged_in; outcomes = [] })
      let_in

abbrev cookie : String
cookie = "t0ken"

named : cookie ≢ ""
named p = cc

login_fine :
    (handle_login packages 100 "POST" (some cookie) (some ("A@b.c", "correct horse")) quiet).0
    ≡ session cookie admin
unfolding handle_login exec_auto purge normalize_email to_lower trim_space by_email insert_session
    lookup retain
login_fine = refl

handle_login-Opens_example :
    Opens packages 100 500 cookie one_user "correct horse" admin
      (handle_login packages 100 "POST" (some cookie) (some ("A@b.c", "correct horse")) quiet).1.db
unfolding HasDistinctIds by_id
handle_login-Opens_example =
    handle_login-Opens packages 100 500 cookie one_user "A@b.c" "correct horse" (refl, tt) named
      refl login_fine

handle_logout-refuses_example :
    (authenticate_request packages 800 cookie
      (handle_logout packages "POST" cookie (record { db = logged_in; outcomes = [] }))).0
    ≢ ok admin
handle_logout-refuses_example = handle_logout-refuses packages 700 800 cookie logged_in

-- The answer of the INSERT is lost.
abbrev fragile : Conn Database
fragile = record { db = empty_database; outcomes = done ∷ lost ∷ [] }

abbrev production : Environment
production = record {
  app_env = "production";
  admin_email = "a@b.c";
  admin_password = "correct horse";
}

create_user-Unless_example :
    Unless packages "correct horse" "user" one_user
      (create_user packages 50 "x@y.z" "correct horse" "user" quiet).1.db
create_user-Unless_example = create_user-Unless packages 50 "x@y.z" "correct horse" "user" quiet

ensure_bootstrap_admin-IsBootstrapped_example :
    IsBootstrapped packages production empty_database
      (ensure_bootstrap_admin packages 50 production fragile).1.db
ensure_bootstrap_admin-IsBootstrapped_example =
    ensure_bootstrap_admin-IsBootstrapped packages 50 production fragile
