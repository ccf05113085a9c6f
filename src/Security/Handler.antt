-- ===== src/Security/Handler.antt =====
-- The block handler with the firewall at the other end of the client and the agent.
use mathlib.Core.Option as Option
use kanyigo.Base.{
  ℕ, ◌≡◌, refl, ap, ◌∙◌, String, Bool, true, false, Option, none, some, inl, inr, Bool-cases,
  str_eq, subst,
}
use kanyigo.Base.Int.{ℤ, pos}
use kanyigo.Base.Text.{trim_space}
use kanyigo.Base.Table.{lookup}
use kanyigo.LogEntry.{Time}
use kanyigo.Schema.{FirewallBlock}
use kanyigo.Net.{Ip, Texts, contains_ip, is_protected}
use kanyigo.Agent.{Request, Response, Agent, Tools, set_of, handle}
use kanyigo.Agent.Effect.{IsIpset, handle-Blocked, handle-Unblocked}
use kanyigo.FirewallClient.{available, Link, request_ok}
use kanyigo.FirewallClient as FirewallClient
use kanyigo.Security.{
  AuthUser, HttpRequest, BlockRequest, success, client_ip, Server, is_own, block_row, World,
  action_of, operate, handle_security_block,
}
use kanyigo.Security.Record.{inactive, lookup-recorded_block, lookup-recorded_unblock}
use kanyigo.Security.Success.{Done, handle_security_block_success}

abbrev asked : String → String → ℤ → Request
asked action text t = record { action = action; ip = text; timeout_seconds = t }

module _ {ℓ} {K : Type ℓ} (agent : Option Request → K → Response × K) (s : Server) where
  abbrev Granted : Request → Link K → Link K → Type ℓ
  Granted req l l' =
      ((agent (some req) l.kernel).0.ok ≡ true) × (l'.kernel ≡ (agent (some req) l.kernel).1)

  operate_block :
      (text : String) (t : ℤ) (l : Link K)
      → (operate agent s "block" text t l).0 ≡ none
      → Granted (asked "block" text t) l (operate agent s "block" text t l).1
  unfolding operate FirewallClient.block
  operate_block text t l h = elim (Bool-cases (available s.firewall)) [
    | inr e ↦ let h' = rw e at h in absurd cc
    | inl e ↦ rw e (request_ok agent s.firewall (asked "block" text t) l (rw e at h))
  ]

  operate_unblock :
      (text : String) (t : ℤ) (l : Link K)
      → (operate agent s "unblock" text t l).0 ≡ none
      → Granted (asked "unblock" text (pos 0)) l (operate agent s "unblock" text t l).1
  unfolding operate FirewallClient.unblock
  operate_unblock text t l h = elim (Bool-cases (available s.firewall)) [
    | inr e ↦ let h' = rw e at h in absurd cc
    | inl e ↦ rw e (request_ok agent s.firewall (asked "unblock" text (pos 0)) l (rw e at h))
  ]

module _ {ℓ} {K : Type ℓ} (exec_command : Tools K) (texts : Texts) (a : Agent)
    (members : String → String → K → Bool) (ipset : IsIpset exec_command members)
    (reads_back : (value : String) (ip : Ip)
      → texts.parse_ip (trim_space value) ≡ some ip
      → texts.parse_ip (trim_space (texts.ip_string ip)) ≡ some ip)
    (now : Time) (s : Server) (r : HttpRequest) where
  posted : r.method ≡ "POST" → action_of r ≡ "block"
  unfolding action_of
  posted m = rw m refl

  deleted : r.method ≡ "DELETE" → action_of r ≡ "unblock"
  unfolding action_of
  deleted m = rw m refl

  same_address :
      (text : String) (ip ip' : Ip)
      → (text ≡ texts.ip_string ip)
        × (texts.parse_ip (trim_space (texts.ip_string ip)) ≡ some ip)
        × (texts.parse_ip (trim_space text) ≡ some ip')
      → ip' ≡ ip
  same_address text ip ip' (t, e, e') =
      let e'' : texts.parse_ip (trim_space (texts.ip_string ip)) ≡ some ip' = rw t at e' in cc

  -- The set and the row after a block that was granted.
  block-Done :
      (user : AuthUser) (text : String) (t : ℤ) (w w' : World K)
      → Done (handle exec_command texts a) texts now s r "block" user text t w w'
      → ((ip : Ip) × (texts.parse_ip (trim_space text) ≡ some ip)
          × (contains_ip a.allowlist ip ≡ false)
          × (members (set_of a ip) (texts.ip_string ip) w'.link.kernel ≡ true))
        × (lookup text w'.conn.db.firewall_blocks ≡ some (block_row now user.id t none))
  block-Done user text t w w' (no_error, link, db) =
      let (granted, kernel) =
        operate_block (handle exec_command texts a) s text t w.link no_error in
      let (ip, read, (_, c, _, member)) =
        handle-Blocked exec_command texts a members ipset text t w.link.kernel granted in
      (
        (
          ip,
          read,
          c,
          ap (λ l. members (set_of a ip) (texts.ip_string ip) l.kernel) link
              ∙ ap (members (set_of a ip) (texts.ip_string ip)) kernel
              ∙ member,
        ),
        ap (λ d. lookup text d.firewall_blocks) db
            ∙ lookup-recorded_block now user.id text t none w.conn.db,
      )

  unblock-Done :
      (user : AuthUser) (text : String) (t : ℤ) (w w' : World K)
      → Done (handle exec_command texts a) texts now s r "unblock" user text t w w'
      → ((ip : Ip) × (texts.parse_ip (trim_space text) ≡ some ip)
          × (members (set_of a ip) (texts.ip_string ip) w'.link.kernel ≡ false))
        × (lookup text w'.conn.db.firewall_blocks
            ≡ Option.map (inactive none) (lookup text w.conn.db.firewall_blocks))
  unblock-Done user text t w w' (no_error, link, db) =
      let (granted, kernel) =
        operate_unblock (handle exec_command texts a) s text t w.link no_error in
      let (ip, read, (_, member)) =
        handle-Unblocked exec_command texts a members ipset text (pos 0) w.link.kernel granted in
      (
        (
          ip,
          read,
          ap (λ l. members (set_of a ip) (texts.ip_string ip) l.kernel) link
              ∙ ap (members (set_of a ip) (texts.ip_string ip)) kernel
              ∙ member,
        ),
        ap (λ d. lookup text d.firewall_blocks) db
            ∙ lookup-recorded_unblock now user.id text t none w.conn.db,
      )

  abbrev pub IsByAdmin : Type 0
  IsByAdmin = (user : AuthUser) × (r.user ≡ some user) × (str_eq user.role "admin" ≡ true)

  -- What a reported block has done.
  abbrev pub IsBlocked : String → World K → Type 0
  IsBlocked text w =
      (ip : Ip) × (text ≡ texts.ip_string ip)
      × (is_protected ip ≡ false)
      × (contains_ip s.security_allowlist ip ≡ false)
      × (contains_ip a.allowlist ip ≡ false)
      × (is_own (texts.parse_ip (client_ip texts r)) ip ≡ false)
      × (members (set_of a ip) (texts.ip_string ip) w.link.kernel ≡ true)
      × (row : FirewallBlock) × (lookup text w.conn.db.firewall_blocks ≡ some row)
      × (row.active ≡ true)

  -- Where `ipset` does what it reports and an address is read back from its text: when the
  -- handler answers a POST with success, the user is an administrator; the address is not
  -- protected, in neither allowlist and not the administrator's own; it is in the kernel's set,
  -- and its row is active.
  pub handle_security_block-IsBlocked :
      (body : Option BlockRequest) (w : World K) {code : ℕ} {status text : String}
      → r.method ≡ "POST"
      → (handle_security_block (handle exec_command texts a) texts now s r body w).0
        ≡ success code status text
      → IsByAdmin
        × IsBlocked text
            (handle_security_block (handle exec_command texts a) texts now s r body w).1
  unfolding block_row
  handle_security_block-IsBlocked body w {text = text} m h =
      let (req, b, (user, u, role, (ip, read, (t, p, c, own)), valid, performed)) =
        handle_security_block_success (handle exec_command texts a) texts now s r body w h in
      let w' = (handle_security_block (handle exec_command texts a) texts now s r body w).1 in
      let done =
        subst
          (λ action.
            Done (handle exec_command texts a) texts now s r action user text req.duration_seconds w
              w')
          (posted m) performed in
      let ((ip', read', c', member), row) = block-Done user text req.duration_seconds w w' done in
      let same = same_address text ip ip' (t, reads_back req.ip ip read, read') in
      let (c'', member') =
        subst
          (λ i.
            (contains_ip a.allowlist i ≡ false)
            × (members (set_of a i) (texts.ip_string i) w'.link.kernel ≡ true))
          same (c', member) in
      (
        (user, u, role),
        (
          ip,
          t,
          p,
          c,
          c'',
          own,
          member',
          block_row now user.id req.duration_seconds none,
          row,
          refl,
        ),
      )

  -- What a reported unblock has done.
  abbrev pub IsUnblocked : String → World K → World K → Type 0
  IsUnblocked text w w' =
      (ip : Ip) × (text ≡ texts.ip_string ip)
      × (members (set_of a ip) (texts.ip_string ip) w'.link.kernel ≡ false)
      × (lookup text w'.conn.db.firewall_blocks
          ≡ Option.map (inactive none) (lookup text w.conn.db.firewall_blocks))

  -- Where `ipset` does what it reports and an address is read back from its text: when the
  -- handler answers a DELETE with success, the user is an administrator, the address is not in
  -- the kernel's set, and its row, if there is one, is inactive and has no error.
  pub handle_security_block-IsUnblocked :
      (body : Option BlockRequest) (w : World K) {code : ℕ} {status text : String}
      → r.method ≡ "DELETE"
      → (handle_security_block (handle exec_command texts a) texts now s r body w).0
        ≡ success code status text
      → IsByAdmin
        × IsUnblocked text w
            (handle_security_block (handle exec_command texts a) texts now s r body w).1
  handle_security_block-IsUnblocked body w {text = text} m h =
      let (req, b, (user, u, role, (ip, read, (t, p, c, own)), valid, performed)) =
        handle_security_block_success (handle exec_command texts a) texts now s r body w h in
      let w' = (handle_security_block (handle exec_command texts a) texts now s r body w).1 in
      let done =
        subst
          (λ action.
            Done (handle exec_command texts a) texts now s r action user text req.duration_seconds w
              w')
          (deleted m) performed in
      let ((ip', read', member), row) = unblock-Done user text req.duration_seconds w w' done in
      let same = same_address text ip ip' (t, reads_back req.ip ip read, read') in
      let member' =
        subst (λ i. members (set_of a i) (texts.ip_string i) w'.link.kernel ≡ false) same member in
      ((user, u, role), (ip, t, member', row))
