-- ===== src/Ingest/Tick.antt =====
-- What a tick of the eviction ticker in continuous_ingest.go does to the database.
use kanyigo.Base.{◌≡◌, refl, ap, ◌∙◌, ◌⊎◌, Option, none, some, List, [], ◌∷◌, inl, inr, arith}
use kanyigo.LogEntry.{Time}
use kanyigo.Schema.{Database}
use kanyigo.Sql.{
  Result, ok, err, Result-cases, Outcome, done, refused, lost, Conn, first, rest, answer, effect,
  exec_auto,
}
use kanyigo.Stitcher.{MailTransaction, evict_expired}
use kanyigo.MailStore.{evict_rows, evict_expired_transactions}
use kanyigo.Ingest.{Ingestor, encode, encode_all, evict_after, on_tick}

-- The tables after the UPDATE of evictExpiredTransactions.
abbrev pub evicted_rows : Time → Time → Database → Database
evicted_rows now cutoff db = record db {
  mail_transactions = evict_rows now cutoff db.mail_transactions;
}

encode-conn : (o : Option MailTransaction) (i : Ingestor) → (encode o i).1.conn ≡ i.conn
unfolding encode
encode-conn none i = refl
encode-conn (some tx) i = ground arith

encode_all-conn : (txs : List MailTransaction) (i : Ingestor) → (encode_all txs i).1.conn ≡ i.conn
unfolding encode_all
encode_all-conn [] i = refl
encode_all-conn (tx ∷ txs) i =
    let same = encode-conn (some tx) i in
    elim (Result-cases (encode (some tx) i).0) [
      | inl (_, e) ↦ rw (encode_all, e) (encode_all-conn txs (encode (some tx) i).1 ∙ same)
      | inr (m, e) ↦ rw (encode_all, e) same
    ]

-- The rows are as they were, or evicted.
evict-rows :
    (now cutoff : Time) (c : Conn Database)
    → ((evict_expired_transactions now cutoff c).1.db ≡ c.db)
      ⊎ ((evict_expired_transactions now cutoff c).1.db ≡ evicted_rows now cutoff c.db)
unfolding evict_expired_transactions exec_auto
evict-rows now cutoff c = by_outcome (first c.outcomes)
  where
    by_outcome :
        (o : Outcome)
        → let c' = record c { outcomes = rest c.outcomes } in
          let r = answer o c' (effect c' (ok (tt, evicted_rows now cutoff c.db))) in
          (r.1.db ≡ c.db) ⊎ (r.1.db ≡ evicted_rows now cutoff c.db)
    by_outcome done = inr refl
    by_outcome refused = inl refl
    by_outcome lost = inr refl

evict_after-rows :
    (db_now cutoff : Time) (r : Result (Unit {0}) × Ingestor)
    → ((evict_after db_now cutoff r).1.conn.db ≡ r.1.conn.db)
      ⊎ ((evict_after db_now cutoff r).1.conn.db ≡ evicted_rows db_now cutoff r.1.conn.db)
unfolding evict_after
evict_after-rows db_now cutoff (err e, i) = inl refl
evict_after-rows db_now cutoff (ok _, i) = evict-rows db_now cutoff i.conn

pub on_tick-rows :
    (now db_now cutoff : Time) (i : Ingestor)
    → ((on_tick now db_now cutoff i).1.conn.db ≡ i.conn.db)
      ⊎ ((on_tick now db_now cutoff i).1.conn.db ≡ evicted_rows db_now cutoff i.conn.db)
unfolding on_tick
on_tick-rows now db_now cutoff i =
    let (expired, stitcher) = evict_expired now i.stitcher in
    let written = encode_all expired (record i { stitcher = stitcher }) in
    let same = encode_all-conn expired (record i { stitcher = stitcher }) in
    elim (evict_after-rows db_now cutoff written) [
      | inl e ↦ inl (e ∙ ap (λ c. c.db) same)
      | inr e ↦ inr (e ∙ ap (λ c. evicted_rows db_now cutoff c.db) same)
    ]
