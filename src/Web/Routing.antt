-- ===== src/Web/Routing.antt =====
-- The paths and the origins of server.go as tables.
use kanyigo.Base.{
  String, ◌≡◌, ◌≢◌, refl, sym, ◌⊎◌, subst, true, false, Option, none, some, List, [], ◌∷◌, inl, inr,
  str_eq, str_eq-cases, if◌then◌else◌,
}
use kanyigo.NginxDetection.{contains}
use kanyigo.Web.{
  Route, health, login, logout, me, users, logs, security, security_block, security_dismiss,
  route_of, is_public, is_foreign,
}

-- The path of a handler
abbrev pub path_of : Route → String
path_of health = "/api/health"
path_of login = "/api/auth/login"
path_of logout = "/api/auth/logout"
path_of me = "/api/auth/me"
path_of users = "/api/users"
path_of logs = "/api/logs"
path_of security = "/api/security"
path_of security_block = "/api/security/block"
path_of security_dismiss = "/api/security/dismiss"

-- The handlers for everybody, and those for users only
pub data IsFree : Route → Type 0 where
  checks : IsFree health
  logs_in : IsFree login
  logs_out : IsFree logout

pub data IsForUsers : Route → Type 0 where
  shows_me : IsForUsers me
  manages_users : IsForUsers users
  lists_logs : IsForUsers logs
  shows_security : IsForUsers security
  blocks : IsForUsers security_block
  dismisses : IsForUsers security_dismiss

pub is_public-cases :
    (route : Route)
    → ((is_public route ≡ true) × IsFree route) ⊎ ((is_public route ≡ false) × IsForUsers route)
is_public-cases health = inl (refl, checks)
is_public-cases login = inl (refl, logs_in)
is_public-cases logout = inl (refl, logs_out)
is_public-cases me = inr (refl, shows_me)
is_public-cases users = inr (refl, manages_users)
is_public-cases logs = inr (refl, lists_logs)
is_public-cases security = inr (refl, shows_security)
is_public-cases security_block = inr (refl, blocks)
is_public-cases security_dismiss = inr (refl, dismisses)

abbrev pub IsNone : String → List Route → Type 0
IsNone path [] = Unit
IsNone path (route ∷ routes) = (path ≢ path_of route) × IsNone path routes

abbrev pub IsRouted : String → List Route → Option Route → Type 0
IsRouted path routes none = IsNone path routes
IsRouted path routes (some route) = path ≡ path_of route

IsRouted-miss :
    (path : String) (route : Route) (routes : List Route) (found : Option Route)
    → path ≢ path_of route
    → IsRouted path routes found
    → IsRouted path (route ∷ routes) found
IsRouted-miss path route routes none ne h = (ne, h)
IsRouted-miss path route routes (some _) ne h = h

one_path :
    (path : String) (route : Route) (routes : List Route) (found : Option Route)
    → IsRouted path routes found
    → IsRouted path (route ∷ routes) (if str_eq path (path_of route) then some route else found)
one_path path route routes found h = elim (str_eq-cases path (path_of route)) [
  | inl (e, p) ↦ rw e p
  | inr (e, ne) ↦ rw e (IsRouted-miss path route routes found ne h)
]

abbrev pub all_routes : List Route
all_routes =
    health ∷ login ∷ logout ∷ me ∷ users ∷ logs ∷ security ∷ security_block ∷ security_dismiss ∷ []

-- `if` by `if`, over a table
abbrev first_of : String → List Route → Option Route
first_of path [] = none
first_of path (route ∷ routes) =
    let found = first_of path routes in if str_eq path (path_of route) then some route else found

first_of-IsRouted :
    (path : String) (routes : List Route) → IsRouted path routes (first_of path routes)
first_of-IsRouted path [] = tt
first_of-IsRouted path (route ∷ routes) =
    one_path path route routes (first_of path routes) (first_of-IsRouted path routes)

pub route_of-IsRouted : (path : String) → IsRouted path all_routes (route_of path)
unfolding route_of
route_of-IsRouted path = first_of-IsRouted path all_routes

pub not_routed : (path : String) → IsNone path all_routes → (route : Route) → path ≢ path_of route
not_routed path h health = h.0
not_routed path h login = h.1.0
not_routed path h logout = h.1.1.0
not_routed path h me = h.1.1.1.0
not_routed path h users = h.1.1.1.1.0
not_routed path h logs = h.1.1.1.1.1.0
not_routed path h security = h.1.1.1.1.1.1.0
not_routed path h security_block = h.1.1.1.1.1.1.1.0
not_routed path h security_dismiss = h.1.1.1.1.1.1.1.1.0

-- A list has a string in it.
pub data IsAmong (x : String) : List String → Type 0 where
  here : (xs : List String) → IsAmong x (x ∷ xs)
  there : (y : String) (xs : List String) → IsAmong x xs → IsAmong x (y ∷ xs)

contains-cases :
    (x : String) (xs : List String)
    → ((contains x xs ≡ true) × IsAmong x xs) ⊎ ((contains x xs ≡ false) × ¬ IsAmong x xs)
unfolding contains
contains-cases x [] = inr (refl, λ h. elim h [ ])
contains-cases x (y ∷ xs) = elim (str_eq-cases y x) [
  | inl (e, p) ↦ inl (rw (contains, e) refl, subst (λ z. IsAmong x (z ∷ xs)) (sym p) (here xs))
  | inr (e, ne) ↦ elim (contains-cases x xs) [
    | inl (f, h) ↦ inl (rw (contains, e) f, there y xs h)
    | inr (f, nh) ↦ inr (rw (contains, e) f, not_there y xs ne nh)
  ]
]
  where
    not_there : (y : String) (xs : List String) → y ≢ x → ¬ IsAmong x xs → ¬ IsAmong x (y ∷ xs)
    not_there y xs ne nh (here xs') = ne refl
    not_there y xs ne nh (there y' xs' h) = nh h

-- The request names no origin, or one that is allowed.
abbrev pub IsAllowed : List String → String → Type 0
IsAllowed allowed origin = (origin ≡ "") ⊎ IsAmong origin allowed

pub is_foreign-cases :
    (allowed : List String) (origin : String)
    → ((is_foreign allowed origin ≡ true) × ¬ IsAllowed allowed origin)
      ⊎ ((is_foreign allowed origin ≡ false) × IsAllowed allowed origin)
unfolding is_foreign
is_foreign-cases allowed origin = elim (str_eq-cases origin "") [
  | inl (e, p) ↦ inr (rw (is_foreign, e) refl, inl p)
  | inr (e, ne) ↦ elim (contains-cases origin allowed) [
    | inl (f, h) ↦ inr (rw (is_foreign, e) (rw f refl), inr h)
    | inr (f, nh) ↦
        inl (rw (is_foreign, e) (rw f refl), λ h. elim h [ inl p ↦ ne p | inr m ↦ nh m ])
  ]
]
