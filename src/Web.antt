-- ===== src/Web.antt =====
-- The way of a request to its handler: the routes of ListenAndServe, withCORS and withSecurityHeaders
-- of server.go, and requireAuth of auth.go. A path is matched as it stands; the mux's redirects to
-- cleaned paths, and the log line, are left out.
pub mod Routing
pub mod Guard
mod Examples
use kanyigo.Base.{
  String, ℕ, Bool, true, false, not, ◌&&◌, ◌||◌, Option, none, some, List, [], ◌∷◌, ◌++◌, str_eq,
  if◌then◌else◌,
}
use kanyigo.LogEntry.{Time}
use kanyigo.Schema.{Database, UserRow}
use kanyigo.Sql.{Result, ok, err, Conn}
use kanyigo.NginxDetection.{contains}
use kanyigo.Auth.{Packages, authenticate_request}

-- The handlers
pub data Route : Type 0 where
  health login logout me users logs security security_block security_dismiss : Route

unfoldable pub route_of : String → Option Route
route_of path =
    if str_eq path "/api/health"
    then some health
    else if str_eq path "/api/auth/login"
    then some login
    else if str_eq path "/api/auth/logout"
    then some logout
    else if str_eq path "/api/auth/me"
    then some me
    else if str_eq path "/api/users"
    then some users
    else if str_eq path "/api/logs"
    then some logs
    else if str_eq path "/api/security"
    then some security
    else if str_eq path "/api/security/block"
    then some security_block
    else if str_eq path "/api/security/dismiss"
    then some security_dismiss
    else none

-- The handlers that are not wrapped in requireAuth
abbrev pub is_public : Route → Bool
is_public health = true
is_public login = true
is_public logout = true
is_public _ = false

-- What is read of a request; a header or a cookie that is missing is "".
pub record WebRequest : Type 0 where
  pub path : String
  pub method : String
  pub origin : String
  pub cookie : String

-- An error's code, the answer 204 to a preflight, no route, or the handler that runs: without a
-- user, or with one in its context.
pub data Served : Type 0 where
  refused : ℕ → Served
  preflight unknown : Served
  runs : Route → Served
  runs_as : Route → UserRow → Served

abbrev pub Headers : Type 0
Headers = List (String × String)

unfoldable pub require_auth :
    Packages → Time → Route → WebRequest → Conn Database → Served × Conn Database
require_auth packages now route r c =
    let (result, c') = authenticate_request packages now r.cookie c in
    elim result [ err _ ↦ (refused 401, c') | ok user ↦ (runs_as route user, c') ]

-- The handler of a path, wrapped or not
unfoldable pub dispatch :
    Packages → Time → Option Route → WebRequest → Conn Database → Served × Conn Database
dispatch packages now none r c = (unknown, c)
dispatch packages now (some route) r c =
    let guarded = require_auth packages now route r c in
    if is_public route then (runs route, c) else guarded

abbrev pub security_headers : Headers
security_headers =
    ("X-Content-Type-Options", "nosniff")
    ∷ ("X-Frame-Options", "DENY")
    ∷ ("Referrer-Policy", "same-origin")
    ∷ ("Content-Security-Policy", "frame-ancestors 'none'")
    ∷ []

-- The headers for an origin that is allowed
unfoldable pub origin_headers : String → Headers
origin_headers origin =
    if str_eq origin ""
    then []
    else ("Vary", "Origin")
      ∷ ("Access-Control-Allow-Origin", origin)
      ∷ ("Access-Control-Allow-Credentials", "true")
      ∷ []

abbrev pub method_headers : Headers
method_headers =
    ("Access-Control-Allow-Methods", "GET, POST, DELETE, OPTIONS")
    ∷ ("Access-Control-Allow-Headers", "Content-Type")
    ∷ []

-- `origin != "" && !s.allowedOrigins[origin]`
unfoldable pub is_foreign : List String → String → Bool
is_foreign allowed origin = not (str_eq origin "") && not (contains origin allowed)

-- s.withCORS(withSecurityHeaders(…)): what is served, the headers set, and the connection
unfoldable pub serve :
    List String → Packages → Time → WebRequest → Conn Database → (Served × Headers) × Conn Database
serve allowed packages now r c =
    if is_foreign allowed r.origin
    then ((refused 403, []), c)
    else if str_eq r.method "OPTIONS"
    then ((preflight, origin_headers r.origin ++ method_headers), c)
    else let (served, c') = dispatch packages now (route_of r.path) r c in
      ((served, origin_headers r.origin ++ method_headers ++ security_headers), c')
