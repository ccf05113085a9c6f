-- ===== src/Security/Success.antt =====
-- What a success of the block handler says of the request, the operation and its recording.

use kanyigo.Base.{
  ℕ, ◌≡◌, refl, ap, ◌∙◌, String, true, false, not, ◌&&◌, Option, none, some, ◌⊎◌, inl, inr,
  Bool-cases, Option-cases, str_eq, subst,
}
use kanyigo.Base.Int.{ℤ}
use kanyigo.Base.Text.{trim_space}
use kanyigo.LogEntry.{Time}
use kanyigo.Sql.{Result, ok, err}
use kanyigo.Net.{Ip, Texts, contains_ip, is_protected}
use kanyigo.Agent.{Request, Response, is_timeout}
use kanyigo.Security.{
  AuthUser, HttpRequest, BlockRequest, success, client_ip, require_admin, admin_only, Server,
  is_own, check_target, validate_block_target, record_firewall_result, World, action_of,
  block_reply, operate, perform, change_target, change_block, block_as, handle_security_block,
}
use kanyigo.Security.Record.{recorded, record_firewall_result_ok}

block_reply_success :
    (action ip : String) (error : Option String) (r : Result (Unit {0})) {code : ℕ}
    {status text : String}
    → block_reply action ip error r ≡ success code status text
    → (error ≡ none) × (r ≡ ok tt) × (ip ≡ text)
unfolding block_reply
block_reply_success action ip error (err e) h = absurd cc
block_reply_success action ip (some e) (ok u) h = absurd cc
block_reply_success action ip none (ok u) h = (refl, refl, cc)

admin_only-inl :
    (user : AuthUser) {u : AuthUser}
    → admin_only user ≡ inl u
    → (user ≡ u) × (str_eq u.role "admin" ≡ true)
unfolding admin_only
admin_only-inl user {u} h = elim (Bool-cases (str_eq user.role "admin")) [
  | inl e ↦
      let h' : inl user ≡ inl u = rw e at h in
      let p : user ≡ u = cc in (p, subst (λ v. str_eq v.role "admin" ≡ true) p e)
  | inr e ↦ let h' = rw e at h in absurd cc
]

-- An administrator is one of the request's context with that role.
pub require_admin-inl :
    (r : HttpRequest) {u : AuthUser}
    → require_admin r ≡ inl u
    → (r.user ≡ some u) × (str_eq u.role "admin" ≡ true)
unfolding require_admin
require_admin-inl r {u} h = elim (Option-cases r.user) [
  | inl e ↦ let h' = rw e at h in absurd cc
  | inr (user, e) ↦ let (p, a) = admin_only-inl user (rw e at h) in (e ∙ ap some p, a)
]

abbrev pub Passes : Texts → Server → HttpRequest → Ip → String → Type 0
Passes texts s r ip text =
    (text ≡ texts.ip_string ip)
    × (is_protected ip ≡ false)
    × (contains_ip s.security_allowlist ip ≡ false)
    × (is_own (texts.parse_ip (client_ip texts r)) ip ≡ false)

-- A target that passes.
abbrev pub IsAllowed : Texts → Server → HttpRequest → String → String → Type 0
IsAllowed texts s r value text =
    (ip : Ip) × (texts.parse_ip (trim_space value) ≡ some ip) × Passes texts s r ip text

check_target_ok :
    (texts : Texts) (s : Server) (r : HttpRequest) (ip : Ip) {text : String}
    → check_target texts s r ip ≡ ok text
    → Passes texts s r ip text
unfolding check_target
check_target_ok texts s r ip {text} h = elim (Bool-cases (is_protected ip)) [
  | inl p ↦ let h' = rw p at h in absurd cc
  | inr p ↦ elim (Bool-cases (contains_ip s.security_allowlist ip)) [
    | inl c ↦ let h' = rw (p, c) at h in absurd cc
    | inr c ↦ elim (Bool-cases (is_own (texts.parse_ip (client_ip texts r)) ip)) [
      | inl o ↦ let h' = rw (p, c, o) at h in absurd cc
      | inr o ↦ let h' : ok (texts.ip_string ip) ≡ ok text = rw (p, c, o) at h in (cc, p, c, o)
    ]
  ]
]

validate_block_target_ok :
    (texts : Texts) (s : Server) (r : HttpRequest) (value : String) {text : String}
    → validate_block_target texts s value r ≡ ok text
    → IsAllowed texts s r value text
unfolding validate_block_target
validate_block_target_ok texts s r value h =
    elim (Option-cases (texts.parse_ip (trim_space value))) [
      | inl e ↦ let h' = rw (e, validate_block_target) at h in absurd cc
      | inr (ip, e) ↦ (ip, e, check_target_ok texts s r ip (rw (e, validate_block_target) at h))
    ]

module _ {ℓ} {K : Type ℓ} (agent : Option Request → K → Response × K) (texts : Texts) (now : Time)
    (s : Server) (r : HttpRequest) where
  -- What a success says of the operation and of its recording.
  abbrev pub Done : String → AuthUser → String → ℤ → World K → World K → Type ℓ
  Done action user ip duration w w' =
      ((operate agent s action ip duration w.link).0 ≡ none)
      × (w'.link ≡ (operate agent s action ip duration w.link).1)
      × (w'.conn.db ≡ recorded now user.id action ip duration none w.conn.db)

  abbrev pub Performed : AuthUser → String → ℤ → World K → World K → Type ℓ
  Performed = Done (action_of r)

  perform_success :
      (user : AuthUser) (ip : String) (duration : ℤ) (w : World K) {code : ℕ} {status text : String}
      → (perform agent now s user (action_of r) ip duration w).0 ≡ success code status text
      → (ip ≡ text)
        × Performed user ip duration w (perform agent now s user (action_of r) ip duration w).1
  unfolding perform
  perform_success user ip duration w h =
      let (error, link) = operate agent s (action_of r) ip duration w.link in
      let (n, o, p) = block_reply_success (action_of r) ip error _ h in
      let o' : (record_firewall_result now user.id (action_of r) ip duration none w.conn).0
          ≡ ok tt =
        rw n at o in
      (
        p,
        (
          n,
          refl,
          rw n (record_firewall_result_ok now user.id (action_of r) ip duration none w.conn o'),
        ),
      )

  -- What the handler's success says.
  abbrev pub Succeeded : BlockRequest → String → World K → World K → Type ℓ
  Succeeded req text w w' =
      (user : AuthUser) × (r.user ≡ some user)
      × (str_eq user.role "admin" ≡ true)
      × IsAllowed texts s r req.ip text
      × (is_timeout req.duration_seconds ≡ true)
      × Performed user text req.duration_seconds w w'

  target_success :
      (user : AuthUser) (duration : ℤ) (o : Result String) (w : World K) {code : ℕ}
      {status text : String}
      → (change_target agent now s user r duration o w).0 ≡ success code status text
      → (o ≡ ok text)
        × (is_timeout duration ≡ true)
        × Performed user text duration w (change_target agent now s user r duration o w).1
  unfolding change_target
  target_success user duration (err e) w h = absurd cc
  target_success user duration (ok ip) w {text = text} h = elim (Bool-cases (is_timeout duration)) [
    | inr e ↦ let h' = rw e at h in absurd cc
    | inl e ↦
        let (p, d) = perform_success user ip duration w (rw e at h) in
        (
          ap ok p,
          e,
          rw e (
              subst
                (λ t.
                  Performed user t duration w
                    (perform agent now s user (action_of r) ip duration w).1)
                p d),
        )
  ]

  body_success :
      (user : AuthUser) (body : Option BlockRequest) (w : World K) {code : ℕ} {status text : String}
      → (change_block agent texts now s user r body w).0 ≡ success code status text
      → (req : BlockRequest) × (body ≡ some req)
        × IsAllowed texts s r req.ip text
        × (is_timeout req.duration_seconds ≡ true)
        × Performed user text req.duration_seconds w
            (change_block agent texts now s user r body w).1
  unfolding change_block
  body_success user none w h = absurd cc
  body_success user (some req) w h =
      let (v, t, p) =
        target_success user req.duration_seconds (validate_block_target texts s req.ip r) w h in
      (req, refl, validate_block_target_ok texts s r req.ip v, t, p)

  as_success :
      (body : Option BlockRequest) (admin : AuthUser ⊎ (ℕ × String)) (w : World K) {code : ℕ}
      {status text : String}
      → require_admin r ≡ admin
      → (block_as agent texts now s r body admin w).0 ≡ success code status text
      → (req : BlockRequest) × (body ≡ some req)
        × Succeeded req text w (block_as agent texts now s r body admin w).1
  unfolding block_as
  as_success body (inr (c, m)) w a h = absurd cc
  as_success body (inl user) w a h =
      elim (Bool-cases (not (str_eq r.method "POST") && not (str_eq r.method "DELETE"))) [
        | inl m ↦ let h' = rw m at h in absurd cc
        | inr m ↦
            let (req, b, allowed, t, p) = body_success user body w (rw m at h) in
            let (u, role) = require_admin-inl r a in (req, b, (user, u, role, allowed, t, rw m p))
      ]

  pub handle_security_block_success :
      (body : Option BlockRequest) (w : World K) {code : ℕ} {status text : String}
      → (handle_security_block agent texts now s r body w).0 ≡ success code status text
      → (req : BlockRequest) × (body ≡ some req)
        × Succeeded req text w (handle_security_block agent texts now s r body w).1
  unfolding handle_security_block
  handle_security_block_success body w h = as_success body (require_admin r) w refl h
