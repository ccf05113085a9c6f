-- ===== src/Ingest.antt =====
-- The loop of RunMailLogIngestor in continuous_ingest.go, which stores and correlates the records
-- that workers parse.
pub mod Order
pub mod Determinism
pub mod Synced
pub mod Reachable
pub mod Tick
mod Examples
use Prim.Native.String as NativeString
use kanyigo.Base.{
  ℕ, zero, suc, ◌+◌, String, Bool, true, false, Option, none, some, List, [], ◌∷◌, ◌++◌, length,
  ◌==◌, if◌then◌else◌,
}
use kanyigo.LogEntry.{LogEntry, Time}
use kanyigo.Schema.{Database}
use kanyigo.Sql.{Result, ok, err, Conn}
use kanyigo.Stitcher.{TransactionStitcher, MailTransaction, apply, evict_expired}
use kanyigo.MailStore.{LineRecord, persist_mail_log_record, evict_expired_transactions}

-- `parsedRecord`; its `ok` is that there is an entry.
pub record ParsedRecord : Type 0 where
  pub record' : LineRecord
  pub entry : Option LogEntry

-- A step that may fail, on a state that stays changed when it does.
abbrev pub Action {ℓ} : Type ℓ → Type ℓ
Action S = S → Result (Unit {0}) × S

-- `pending[sequence]`
unfoldable pub find : ℕ → List ParsedRecord → Option ParsedRecord
find i [] = none
find i (p ∷ ps) = if p.record'.sequence == i then some p else find i ps

-- `delete(pending, sequence)`
unfoldable pub without : ℕ → List ParsedRecord → List ParsedRecord
without i [] = []
without i (p ∷ ps) = let rest = without i ps in if p.record'.sequence == i then rest else p ∷ rest

-- The variables of the loop, with the state that the processing of a record changes.
pub record Loop {ℓ} (S : Type ℓ) : Type ℓ where
  pub pending : List ParsedRecord
  pub next_sequence : ℕ
  pub state : S

module _ {ℓ} {S : Type ℓ} where
  -- `delete(pending, nextSequence)`, the result of the processing, and `nextSequence++`
  abbrev pub resume : Action (Loop S) → Loop S → Result (Unit {0}) × S → Result (Unit {0}) × Loop S
  resume go_on l (ok _, s) = go_on (record {
    pending = without l.next_sequence l.pending;
    next_sequence = suc l.next_sequence;
    state = s;
  })
  resume go_on l (err e, s) =
      (err e, record l { pending = without l.next_sequence l.pending; state = s })

  abbrev pub unless_failed :
      Action (Loop S) → Result (Unit {0}) × Loop S → Result (Unit {0}) × Loop S
  unless_failed go_on (ok _, l) = go_on l
  unless_failed go_on (err e, l) = (err e, l)

  abbrev pub start : S → Loop S
  start s = record { pending = []; next_sequence = 0; state = s }

module _ {ℓ} {S : Type ℓ} (process : ParsedRecord → Action S) where
  -- The inner `for`: it ends when the next record is missing, or with the error of the processing.
  unfoldable pub drain : ℕ → Action (Loop S)
  drain zero l = (ok tt, l)
  drain (suc fuel) l = elim (find l.next_sequence l.pending) [
    | none ↦ (ok tt, l)
    | some p ↦ resume (drain fuel) l (process p l.state)
  ]

  -- `case parsed := <-parsedRecords`; each round of the inner loop deletes a record, so the number of
  -- pending records is enough fuel.
  unfoldable pub receive : ParsedRecord → Action (Loop S)
  receive p l =
      let pending = p ∷ without p.record'.sequence l.pending in
      drain (length pending) (record l { pending = pending })

  -- The records in the order in which they arrive, up to the first error.
  unfoldable pub receive_all : List ParsedRecord → Action (Loop S)
  receive_all [] l = (ok tt, l)
  receive_all (p ∷ ps) l = unless_failed (receive_all ps) (receive p l)

-- What the processing of a record changes. Every Encode to a closed standard output fails.
pub record Ingestor : Type 0 where
  pub conn : Conn Database
  pub stitcher : TransactionStitcher
  pub stdout : List MailTransaction
  pub stdout_closed : Bool

encode : Option MailTransaction → Action Ingestor
encode none i = (ok tt, i)
encode (some tx) i =
    if i.stdout_closed
    then (err "encode mail transaction", i)
    else (ok tt, record i { stdout = i.stdout ++ tx ∷ [] })

-- `stitcher.Apply` and the Encode of what it completes
correlate : Time → Option LogEntry → Action Ingestor
unfolding encode
correlate now none i = (ok tt, i)
correlate now (some entry) i =
    let (done, stitcher) = apply now (some entry) i.stitcher in
    encode done (record i { stitcher = stitcher })

-- `now` is the time of the calls that read the clock.
unfoldable pub process_parsed_record : Time → String → ParsedRecord → Action Ingestor
unfolding correlate
process_parsed_record now state_key p i =
    let (r, conn) = persist_mail_log_record now state_key p.record' p.entry i.conn in
    elim r [
      | ok _ ↦ correlate now p.entry (record i { conn = conn })
      | err e ↦ (err e, record i { conn = conn })
    ]

encode_all : List MailTransaction → Action Ingestor
unfolding encode
encode_all [] i = (ok tt, i)
encode_all (tx ∷ txs) i =
    let (r, i') = encode (some tx) i in
    let rest = encode_all txs i' in elim r [ ok _ ↦ rest | err e ↦ (err e, i') ]

-- The eviction of the rows, after all expired transactions are written.
evict_after : Time → Time → Result (Unit {0}) × Ingestor → Result (Unit {0}) × Ingestor
evict_after db_now cutoff (err e, i) = (err e, i)
evict_after db_now cutoff (ok _, i) =
    let (r, conn) = evict_expired_transactions db_now cutoff i.conn in (r, record i { conn = conn })

-- `case now := <-evictionTicker.C`, with the time of the database and
-- `now.Add(-cfg.QueueIdleTimeout)`
unfoldable pub on_tick : Time → Time → Time → Action Ingestor
unfolding encode_all evict_after
on_tick now db_now cutoff i =
    let (expired, stitcher) = evict_expired now i.stitcher in
    evict_after db_now cutoff (encode_all expired (record i { stitcher = stitcher }))

-- `"continuous:" + path`
unfoldable pub continuous_ingest_state_key : String → String
continuous_ingest_state_key path = NativeString.◌++◌ "continuous:" path
