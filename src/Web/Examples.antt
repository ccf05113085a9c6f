-- ===== src/Web/Examples.antt =====
-- Requests at concrete values: a session's user, a stranger, a foreign origin and a preflight.
use kanyigo.Base.{String, true, ◌≡◌, refl, some, List, [], ◌∷◌, str_eq}
use kanyigo.Base.Table.{lookup}
use kanyigo.Schema.{Database, UserRow, empty_database}
use kanyigo.Sql.{Conn, fail, exec_auto, ◌>>=◌}
use kanyigo.NginxDetection.{contains}
use kanyigo.Auth.{Packages, by_id, authenticate_request}
use kanyigo.Web.{
  logs, login, WebRequest, refused, preflight, unknown, runs, runs_as, route_of, require_auth,
  dispatch, origin_headers, method_headers, is_foreign, serve,
}
use kanyigo.Web.Guard.{IsAnswered, serve-IsAnswered}

abbrev packages : Packages
packages = record {
  is_address = λ s. true;
  generate = λ p. some p;
  compare_hash = λ hash p. str_eq hash p;
  hash_token = λ t. t;
}

abbrev reader : UserRow
reader = record { id = 1; email = "a@b.c"; password_hash = "p"; role = "user"; created_at = 5 }

abbrev logged_in : Conn Database
logged_in = record {
  db = record empty_database {
    dashboard_users = reader ∷ [];
    dashboard_sessions = ("t0ken", record { user_id = 1; expires_at = 900 }) ∷ [];
    next_id = 2;
  };
  outcomes = [];
}

abbrev allowed : List String
allowed = "http://localhost:3000" ∷ []

abbrev request : String → String → String → String → WebRequest
request path method origin cookie = record {
  path = path;
  method = method;
  origin = origin;
  cookie = cookie;
}

abbrev list_logs : WebRequest
list_logs = request "/api/logs" "GET" "http://localhost:3000" "t0ken"

program : Unit {0}
unfolding lookup fail exec_auto ◌>>=◌ contains by_id authenticate_request route_of require_auth
    dispatch origin_headers is_foreign serve
program = tt

let_in : (serve allowed packages 800 list_logs logged_in).0.0 ≡ runs_as logs reader
unfolding program
let_in = refl

expired : (serve allowed packages 901 list_logs logged_in).0.0 ≡ refused 401
unfolding program
expired = refl

stranger :
    (serve allowed packages 800 (request "/api/auth/login" "POST" "" "") logged_in).0.0 ≡ runs login
unfolding program
stranger = refl

foreign :
    (serve allowed packages 800 (request "/api/logs" "GET" "http://evil" "t0ken") logged_in).0
    ≡ (refused 403, [])
unfolding program
foreign = refl

asked :
    (serve allowed packages 800 (request "/api/logs" "OPTIONS" "" "") logged_in).0
    ≡ (preflight, method_headers)
unfolding program
asked = refl

nowhere : (serve allowed packages 800 (request "/" "GET" "" "") logged_in).0.0 ≡ unknown
unfolding program
nowhere = refl

serve-IsAnswered_example :
    IsAnswered allowed packages 800 list_logs logged_in
      (serve allowed packages 800 list_logs logged_in).0
    × ((serve allowed packages 800 list_logs logged_in).1.db ≡ logged_in.db)
serve-IsAnswered_example = serve-IsAnswered allowed packages 800 list_logs logged_in
