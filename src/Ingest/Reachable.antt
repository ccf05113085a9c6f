-- ===== src/Ingest/Reachable.antt =====
-- The states that the ingestor reaches, by records in any order and by ticks, whatever fails.
use kanyigo.Base.{String, ◌≡◌, refl, sym, subst, Option, none, some, List, [], ◌∷◌, inl, inr, arith}
use kanyigo.LogEntry.{LogEntry, Time}
use kanyigo.Sql.{Result, ok, err, Result-cases}
use kanyigo.Stitcher.{MailTransaction, apply, evict_expired}
use kanyigo.Stitcher.Invariant.{IsCoherent, apply-IsCoherent, evict_expired-IsCoherent}
use kanyigo.MailStore.{persist_mail_log_record}
use kanyigo.MailStore.Consistent.{IsConsistent, persist-IsConsistent, evict-IsConsistent}
use kanyigo.Ingest.{
  ParsedRecord, Ingestor, encode, encode_all, correlate, process_parsed_record, evict_after,
  on_tick,
}

-- One step, with the times of its clocks and the key of the checkpoint.
pub data Step : Ingestor → Ingestor → Type 0 where
  processes :
      (now : Time) (key : String) (p : ParsedRecord) (i : Ingestor)
      → Step i (process_parsed_record now key p i).1
  ticks : (now db_now cutoff : Time) (i : Ingestor) → Step i (on_tick now db_now cutoff i).1

pub data Reaches : Ingestor → Ingestor → Type 0 where
  here : {i : Ingestor} → Reaches i i
  then : {i j k : Ingestor} → Reaches i j → Step j k → Reaches i k

-- The constraints of the tables and of the queues.
pub record IsSound (i : Ingestor) : Type 0 where
  pub consistent : IsConsistent i.conn.db
  pub coherent : IsCoherent i.stitcher

-- What is written to the standard output changes neither.
abbrev Same : Ingestor → Ingestor → Type 0
Same i j = (j.conn ≡ i.conn) × (j.stitcher ≡ i.stitcher)

encode-Same : (o : Option MailTransaction) (i : Ingestor) → Same i (encode o i).1
unfolding encode
encode-Same none i = (refl, refl)
encode-Same (some tx) i = ground arith

Same-IsSound : (i j : Ingestor) → Same i j → IsSound i → IsSound j
Same-IsSound i j (c, s) h = record {
  consistent = subst (λ x. IsConsistent x.db) (sym c) h.consistent;
  coherent = subst IsCoherent (sym s) h.coherent;
}

encode_all-IsSound :
    (txs : List MailTransaction) (i : Ingestor) → IsSound i → IsSound (encode_all txs i).1
unfolding encode_all
encode_all-IsSound [] i h = h
encode_all-IsSound (tx ∷ txs) i h =
    let next = Same-IsSound i (encode (some tx) i).1 (encode-Same (some tx) i) h in
    elim (Result-cases (encode (some tx) i).0) [
      | inl (_, e) ↦ rw (encode_all, e) (encode_all-IsSound txs (encode (some tx) i).1 next)
      | inr (m, e) ↦ rw (encode_all, e) next
    ]

correlate-IsSound :
    (now : Time) (entry : Option LogEntry) (i : Ingestor)
    → IsSound i
    → IsSound (correlate now entry i).1
unfolding correlate
correlate-IsSound now none i h = h
correlate-IsSound now (some entry) i h =
    let next : Ingestor = record i { stitcher = (apply now (some entry) i.stitcher).1 } in
    Same-IsSound next (correlate now (some entry) i).1
      (encode-Same (apply now (some entry) i.stitcher).0 next)
      (record {
        consistent = h.consistent;
        coherent = apply-IsCoherent now (some entry) i.stitcher h.coherent;
      })

process-IsSound :
    (now : Time) (key : String) (p : ParsedRecord) (i : Ingestor)
    → IsSound i
    → IsSound (process_parsed_record now key p i).1
unfolding process_parsed_record
process-IsSound now key p i h =
    let stored = persist_mail_log_record now key p.record' p.entry i.conn in
    let kept : IsSound (record i { conn = stored.1 }) = record {
      consistent = persist-IsConsistent now key p.record' p.entry i.conn h.consistent;
      coherent = h.coherent;
    } in
    elim (Result-cases stored.0) [
      | inl (_, e) ↦
          rw (process_parsed_record, e)
            (correlate-IsSound now p.entry (record i { conn = stored.1 }) kept)
      | inr (m, e) ↦ rw (process_parsed_record, e) kept
    ]

evict_after-IsSound :
    (db_now cutoff : Time) (r : Result (Unit {0}) × Ingestor)
    → IsSound r.1
    → IsSound (evict_after db_now cutoff r).1
unfolding evict_after
evict_after-IsSound db_now cutoff (err e, i) h = h
evict_after-IsSound db_now cutoff (ok _, i) h = record {
  consistent = evict-IsConsistent db_now cutoff i.conn h.consistent;
  coherent = h.coherent;
}

tick-IsSound :
    (now db_now cutoff : Time) (i : Ingestor) → IsSound i → IsSound (on_tick now db_now cutoff i).1
unfolding on_tick
tick-IsSound now db_now cutoff i h =
    let (expired, stitcher) = evict_expired now i.stitcher in
    evict_after-IsSound db_now cutoff (encode_all expired (record i { stitcher = stitcher })) (
      encode_all-IsSound expired (record i { stitcher = stitcher })
        (record {
          consistent = h.consistent;
          coherent = evict_expired-IsCoherent now i.stitcher h.coherent;
        }))

-- In every state that records in any order and ticks reach from a sound one, whatever calls fail
-- and even where the standard output is closed: the hashes of the entries are distinct, at most
-- one row of each queue id is active, and every queue of the stitcher carries its queue id, a
-- line, and no final status.
pub Reaches-IsSound : {i j : Ingestor} → Reaches i j → IsSound i → IsSound j
Reaches-IsSound here h = h
Reaches-IsSound (then r (processes now key p i)) h =
    process-IsSound now key p i (Reaches-IsSound r h)
Reaches-IsSound (then r (ticks now db_now cutoff i)) h =
    tick-IsSound now db_now cutoff i (Reaches-IsSound r h)
