-- ===== src/Web/Guard.antt =====
-- What server.go answers to a request, by its path, its origin, its method and its cookie.
use kanyigo.Base.{
  String, ◌≡◌, ◌≢◌, refl, sym, ◌∙◌, ◌⊎◌, Option, none, some, List, [], ◌++◌, inl, inr, str_eq-cases,
}
use kanyigo.LogEntry.{Time}
use kanyigo.Schema.{Database, UserRow}
use kanyigo.Sql.{err, done, Conn, first, Result-cases}
use kanyigo.Auth.{Packages, authenticate_request}
use kanyigo.Auth.Session.{IsSession, authenticate_request-IsSession}
use kanyigo.Auth.Admission.{done-cases, authenticate_request-of_IsSession, authenticate_request-db}
use kanyigo.Web.Routing.{
  path_of, IsFree, IsForUsers, is_public-cases, IsRouted, all_routes, route_of-IsRouted, not_routed,
  IsAllowed, is_foreign-cases,
}
use kanyigo.Web.{
  Route, WebRequest, Served, refused, preflight, unknown, runs, runs_as, Headers, route_of,
  require_auth, dispatch, security_headers, origin_headers, method_headers, serve,
}

module _ (packages : Packages) (now : Time) (r : WebRequest) (c : Conn Database) where
  -- What is served for a request that is neither foreign nor a preflight.
  pub data IsDispatched : Served → Type 0 where
    nowhere : ((route : Route) → r.path ≢ path_of route) → IsDispatched unknown
    free : (route : Route) → r.path ≡ path_of route → IsFree route → IsDispatched (runs route)
    let_in :
        (route : Route) (user : UserRow)
        → r.path ≡ path_of route
        → IsForUsers route
        → IsSession packages now r.cookie c.db user
        → IsDispatched (runs_as route user)
    kept_out :
        (route : Route)
        → r.path ≡ path_of route
        → IsForUsers route
        → (first c.outcomes ≢ done)
          ⊎ ((user : UserRow) → ¬ IsSession packages now r.cookie c.db user)
        → IsDispatched (refused 401)

  fails-unless :
      {e : String}
      → (authenticate_request packages now r.cookie c).0 ≡ err e
      → (first c.outcomes ≢ done) ⊎ ((user : UserRow) → ¬ IsSession packages now r.cookie c.db user)
  fails-unless f = elim (done-cases (first c.outcomes)) [
    | inr ne ↦ inl ne
    | inl p ↦ inr λ user h.
        let g = authenticate_request-of_IsSession packages now r.cookie c user p h in
        let no_ok = sym g ∙ f in cc
  ]

  require_auth-IsDispatched :
      (route : Route)
      → r.path ≡ path_of route
      → IsForUsers route
      → IsDispatched (require_auth packages now route r c).0
        × ((require_auth packages now route r c).1.db ≡ c.db)
  unfolding require_auth
  require_auth-IsDispatched route e u =
      let db = authenticate_request-db packages now r.cookie c in
      elim (Result-cases (authenticate_request packages now r.cookie c).0) [
        | inr (_, f) ↦ rw (require_auth, f) (kept_out route e u (fails-unless f), db)
        | inl (user, f) ↦
            rw (require_auth, f)
              (let_in route user e u (authenticate_request-IsSession packages now r.cookie c f), db)
      ]

  dispatch-IsDispatched :
      (route : Option Route)
      → IsRouted r.path all_routes route
      → IsDispatched (dispatch packages now route r c).0
        × ((dispatch packages now route r c).1.db ≡ c.db)
  unfolding dispatch
  dispatch-IsDispatched none h = (nowhere (not_routed r.path h), refl)
  dispatch-IsDispatched (some route) e = elim (is_public-cases route) [
    | inl (f, g) ↦ rw f (free route e g, refl)
    | inr (f, g) ↦ rw f (require_auth-IsDispatched route e g)
  ]

module _ (allowed : List String) (packages : Packages) (now : Time) (r : WebRequest)
    (c : Conn Database) where
  -- What is answered, and why, with the headers.
  pub data IsAnswered : Served × Headers → Type 0 where
    foreign : ¬ IsAllowed allowed r.origin → IsAnswered (refused 403, [])
    asked :
        IsAllowed allowed r.origin
        → r.method ≡ "OPTIONS"
        → IsAnswered (preflight, origin_headers r.origin ++ method_headers)
    dispatched :
        (served : Served)
        → IsAllowed allowed r.origin
        → r.method ≢ "OPTIONS"
        → IsDispatched packages now r c served
        → IsAnswered (served, origin_headers r.origin ++ method_headers ++ security_headers)

  -- Whatever the server of the database answers, a request is answered in one of these ways, and no
  -- table changes. It is refused with 403 exactly if it names an origin that is not allowed, and is a
  -- preflight exactly if it is not refused so and its method is OPTIONS. Any other request gets the
  -- security headers, and goes to the handler of its path, if there is one: health, login and logout
  -- run for everybody; me, users, logs, security, block and dismiss run only as the user of a session
  -- whose cookie came with the request and which has not expired, and are refused with 401 only if
  -- there is no such session or the query of it fails.
  pub serve-IsAnswered :
      IsAnswered (serve allowed packages now r c).0 × ((serve allowed packages now r c).1.db ≡ c.db)
  unfolding serve
  serve-IsAnswered = elim (is_foreign-cases allowed r.origin) [
    | inl (e, h) ↦ rw e (foreign h, refl)
    | inr (e, h) ↦ elim (str_eq-cases r.method "OPTIONS") [
      | inl (f, m) ↦ rw (e, f) (asked h m, refl)
      | inr (f, m) ↦
          let (sent, db) =
            dispatch-IsDispatched packages now r c (route_of r.path) (route_of-IsRouted r.path) in
          rw (e, f) (dispatched _ h m sent, db)
    ]
  ]
