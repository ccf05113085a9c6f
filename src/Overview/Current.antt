-- ===== src/Overview/Current.antt =====
-- What the answer of handleSecurity of security.go tells of the tables.
use kanyigo.Base.{
  ℕ, ◌≤◌, String, ◌≡◌, refl, sym, ap, subst, ◌∙◌, ◌⊎◌, true, Option, [], inl, inr, Bool-cases,
  length, select, str_eq,
}
use kanyigo.Base.Text.{trim_space}
use kanyigo.LogEntry.{Time}
use kanyigo.Schema.{Database}
use kanyigo.Sql.{exec_auto}
use kanyigo.Agent.{Request, Response}
use kanyigo.FirewallClient.{Link}
use kanyigo.Security.{AuthUser, HttpRequest, Server, World, require_admin}
use kanyigo.Logs.{page_limit}
use kanyigo.Overview.{
  Postgres, Summary, Reply, overview, deactivate, count_flagged, query, summarise, show,
  handle_security,
}
use kanyigo.Overview.Shown.{All, IsShown, live, query-All, length-query, count_active-end_blocks}

module _ {ℓ} {K : Type ℓ} (pg : Postgres) (agent : Option Request → K → Response × K) (now : Time)
    (s : Server) (r : HttpRequest) (limit q : String) (db : Database) (link : Link K) where
  abbrev pub reply : Reply × World K
  reply =
      handle_security pg agent now s r limit q
        (record { conn = record { db = db; outcomes = [] }; link = link })

  -- An overview of these tables
  pub record IsCurrent (o : Summary) (db' : Database) : Type 0 where
    pub by_admin : (user : AuthUser) × (require_admin r ≡ inl user)
    pub by_get : str_eq r.method "GET" ≡ true
    pub shown : All (IsShown pg now (trim_space q)) o.items
    pub page : length o.items ≤ 500
    pub flagged : o.flagged ≡ count_flagged db.security_offenders
    pub blocked : o.blocked ≡ length (select (live now) db.firewall_blocks)
    pub rows : db' ≡ deactivate now db

  told_summary : {o o' : Summary} → overview o ≡ overview o' → o ≡ o'
  told_summary h = cc (h)

  shown_by :
      (user : AuthUser) {o : Summary}
      → require_admin r ≡ inl user
      → (show pg agent now s r.method limit
          (inl user)
          q
          (record { conn = record { db = db; outcomes = [] }; link = link })).0
        ≡ overview o
      → IsCurrent o
          (show pg agent now s r.method limit
            (inl user)
            q
            (record { conn = record { db = db; outcomes = [] }; link = link })).1.conn.db
  unfolding show summarise exec_auto
  shown_by user {o} u h = elim (Bool-cases (str_eq r.method "GET")) [
    | inr e ↦ let h' = rw e at h in absurd (cc)
    | inl e ↦
        let told = rw e at h in
        let items : query pg (trim_space q) (page_limit limit) (deactivate now db) ≡ o.items =
          cc (told) in
        rw e (record {
          by_admin = (user, u);
          by_get = e;
          shown =
              subst (All (IsShown pg now (trim_space q))) items
                (query-All pg now (trim_space q) (page_limit limit) db);
          page =
              subst (λ l. length l ≤ 500) items
                (length-query pg (trim_space q) limit (deactivate now db));
          flagged = cc (told);
          blocked =
              sym (ap (λ (s : Summary). s.blocked) (told_summary told))
              ∙ count_active-end_blocks now db.firewall_blocks;
          rows = refl;
        })
  ]

  -- Where no call of the database fails: if handleSecurity answers with an overview, an administrator asked for it with
  -- a GET; the blocks that have expired are ended first, and nothing else changes; there are at
  -- most 500 items, each is flagged or blocked and fits the search, and no block is shown as active
  -- that has expired; and the numbers are those of all flagged offenders and of all active blocks
  -- that have not expired.
  pub handle_security-IsCurrent : (o : Summary) → reply.0 ≡ overview o → IsCurrent o reply.1.conn.db
  unfolding handle_security show
  handle_security-IsCurrent o h = by (require_admin r) refl h
    where
      by :
          (who : AuthUser ⊎ (ℕ × String))
          → require_admin r ≡ who
          → (show pg agent now s r.method limit who q
              (record { conn = record { db = db; outcomes = [] }; link = link })).0
            ≡ overview o
          → IsCurrent o
              (show pg agent now s r.method limit who q
                (record { conn = record { db = db; outcomes = [] }; link = link })).1.conn.db
      by (inl user) u h = shown_by user u h
      by (inr (code, message)) u h = absurd (cc)
