-- ===== src/Pipeline/Replay.antt =====
-- The records and the ticks of the loop of RunMailLogIngestor, and the rows that they lead to.
use kanyigo.Base.{ℕ, zero, suc, String, ◌≡◌, Option, none, some, List, [], ◌∷◌, ◌++◌}
use kanyigo.LogEntry.{Time}
use kanyigo.Schema.{Database}
use kanyigo.MailStore.{LineRecord}
use kanyigo.MailStore.Persist.{recorded}
use kanyigo.Ingest.{ParsedRecord}
use kanyigo.Ingest.Tick.{evicted_rows}
use kanyigo.Pipeline.{Worker, parse_mail_log_record, Event, arrives, ticks}

-- `xs[n]`
abbrev pub nth {ℓ} : {A : Type ℓ} → ℕ → List A → Option A
nth n [] = none
nth zero (x ∷ xs) = some x
nth (suc n) (x ∷ xs) = nth n xs

-- A tick of the loop, with the time of the database and the time before which rows expire.
pub data HasTick (db_now cutoff : Time) : List Event → Type 0 where
  first_of :
      (now : Time) (events : List Event) → HasTick db_now cutoff (ticks now db_now cutoff ∷ events)
  behind :
      (event : Event) (events : List Event)
      → HasTick db_now cutoff events
      → HasTick db_now cutoff (event ∷ events)

module _ (w : Worker) (clock : ℕ → Time) where
  -- The record as its worker passes it on.
  abbrev pub parsed : LineRecord → ParsedRecord
  parsed r = parse_mail_log_record w (clock r.sequence) r

  -- The parsed record is that of the record sent with the number.
  abbrev pub IsSent : List LineRecord → ℕ → ParsedRecord → Type 0
  IsSent sent i p = (r : LineRecord) × (nth i sent ≡ some r) × (p ≡ parsed r)

  -- Every record that arrives is one that was sent, as its worker parsed it.
  abbrev pub ComeFrom : List LineRecord → List Event → Type 0
  ComeFrom sent [] = Unit
  ComeFrom sent (arrives p ∷ events) = IsSent sent p.record'.sequence p × ComeFrom sent events
  ComeFrom sent (ticks _ _ _ ∷ events) = ComeFrom sent events

module _ (w : Worker) (clock : ℕ → Time) (key : String) where
  abbrev pub stored_line : LineRecord → Database → Database
  stored_line r = recorded (clock r.sequence) key r (parsed w clock r).entry

  -- The rows after the records are stored, each once, in order, and with the checkpoint behind it,
  -- with evictions at ticks between them.
  pub data Replays (events : List Event) (db₀ : Database)
      : List LineRecord → Database → Type 0 where
    begin : Replays events db₀ [] db₀
    store :
        {xs : List LineRecord} {db : Database} (r : LineRecord)
        → Replays events db₀ xs db
        → Replays events db₀ (xs ++ r ∷ []) (stored_line r db)
    evict :
        {xs : List LineRecord} {db : Database} (db_now cutoff : Time)
        → HasTick db_now cutoff events
        → Replays events db₀ xs db
        → Replays events db₀ xs (evicted_rows db_now cutoff db)
