-- ===== src/Pipeline/Recovery.antt =====
-- A restart of RunMailLogIngestor, from what it has stored.
use kanyigo.Base.{
  ℕ, String, ◌≡◌, refl, ap, ◌∙◌, true, some, List, [], ◌∷◌, ◌++◌, length, ◌⊎◌, subst, inl, inr,
}
use text.Mathlib.TextPositions.{eq_refl}
use mathlib.Core.List.{append_assoc}
use kanyigo.Base.Int.{ℤ}
use kanyigo.Base.Table.{lookup, lookup-insert}
use kanyigo.LogEntry.{Time}
use kanyigo.Schema.{Database, IngestState}
use kanyigo.Sql.{Result, ok, exec_auto}
use kanyigo.Checkpoint.{get_ingest_state}
use kanyigo.MailStore.{LineRecord}
use kanyigo.MailStore.Persist.{recorded}
use kanyigo.Tail.{
  StreamConfig, Opening, Round, Tail, validate_stream_config, follow, first_round, follow_mail_log,
}
use kanyigo.Tail.Buffer.{Bytes}
use kanyigo.Tail.Growing.{Grows, last_file}
use kanyigo.Tail.Restart.{IsContinued, follow_mail_log-IsContinued}
use kanyigo.Ingest.{Ingestor, start, continuous_ingest_state_key}
use kanyigo.Pipeline.{Worker, Event, run_loop, sent_records}
use kanyigo.Pipeline.Replay.{Replays, begin, store, evict, ComeFrom}
use kanyigo.Pipeline.Stored.{run_loop-IsStoredUpTo}

module _ (w : Worker) (clock : ℕ → Time) (cfg : StreamConfig) where
  abbrev key : String
  key = continuous_ingest_state_key cfg.path

  -- No record is stored, or the checkpoint is that of the last record stored.
  checkpoint_is :
      (events : List Event) (db₀ : Database) {xs : List LineRecord} {db : Database}
      → Replays w clock key events db₀ xs db
      → (xs ≡ [])
        ⊎ ((ys : List LineRecord) × (r : LineRecord) × (xs ≡ ys ++ r ∷ [])
            × (lookup key db.ingest_state
                ≡ some (record { offset_bytes = r.offset; inode = r.inode })))
  unfolding recorded
  checkpoint_is events db₀ begin = inl refl
  checkpoint_is events db₀ (store {xs = xs} r h) = inr (
    xs,
    r,
    refl,
    lookup-insert key key (record { offset_bytes = r.offset; inode = r.inode }) _
        ∙ rw (eq_refl key) refl,
  )
  checkpoint_is events db₀ (evict db_now cutoff t h) = checkpoint_is events db₀ h

  sent_records-from :
      (db : Database) (state : IngestState) (opening : Opening) (rounds : List Round)
      → lookup key db.ingest_state ≡ some state
      → (sent_records cfg opening rounds (record { db = db; outcomes = [] })).0
        ≡ ok (follow_mail_log cfg opening state rounds)
  unfolding sent_records get_ingest_state exec_auto
  sent_records-from db state opening rounds e = rw e refl

  -- How the first run ends, and what the second one sends.
  pub data IsRecovered (inode : ℤ) (o : ℕ) (before f : Bytes) (sent : List LineRecord)
      (events : List Event) (db₀ db : Database) (second : Result (List LineRecord × Result Tail))
      : Type 0 where
    nothing_stored :
        Replays w clock key events db₀ [] db
        → IsRecovered inode o before f sent events db₀ db second
    continued :
        (xs : List LineRecord) (r : LineRecord) (ys : List LineRecord)
        (result : List LineRecord × Result Tail)
        → sent ≡ xs ++ r ∷ ys
        → Replays w clock key events db₀ (xs ++ r ∷ []) db
        → second ≡ ok result
        → IsContinued inode o before f xs r result
        → IsRecovered inode o before f sent events db₀ db second

  -- The loop stops anywhere, on records that arrive in any order and ticks that fall anywhere among
  -- them, with any calls failing; then the ingestor starts again while the file has only been
  -- appended to. Either no record was stored, and the rows are those that the ticks have evicted; or
  -- the rows are those after the first records sent, each stored once, in order, up to a record `r`,
  -- with evictions of the ticks between them, and the records that the second run sends begin with the
  -- line behind `r`: the lines stored and those sent then are the lines that end in one stretch of the
  -- file.
  pub run_loop-IsRecovered :
      (first second : List Round) (inode : ℤ) (o : ℕ) (f before left more : Bytes)
      (events : List Event) (i₀ : Ingestor) (opening : Opening)
      → f ≡ before ++ left
      → length before ≡ o
      → Grows inode f first
      → ComeFrom w clock (follow cfg first (first_round inode o)).0 events
      → validate_stream_config cfg ≡ ok tt
      → opening.open_ok ≡ true
      → opening.seek_ok ≡ true
      → opening.info ≡ some (record { inode = inode; size = length (last_file f first ++ more) })
      → Grows inode (last_file f first ++ more) second
      → let db = (run_loop clock key events (start i₀)).1.state.conn.db in
        IsRecovered inode o before
          (last_file (last_file f first ++ more) second)
          (follow cfg first (first_round inode o)).0
          events
          i₀.conn.db
          db
          (sent_records cfg opening second (record { db = db; outcomes = [] })).0
  run_loop-IsRecovered first second inode o f before left more events i₀ opening here at grows c v
        opens seeks info grows' =
      let sent = (follow cfg first (first_round inode o)).0 in
      let upto = run_loop-IsStoredUpTo w clock key sent events i₀ c in
      let db = (run_loop clock key events (start i₀)).1.state.conn.db in
      elim (checkpoint_is events i₀.conn.db upto.rows) [
        | inl e ↦
            nothing_stored (subst (λ xs. Replays w clock key events i₀.conn.db xs db) e upto.rows)
        | inr (xs, r, e, checkpoint) ↦
            let split =
              upto.splits ∙ ap (λ l. l ++ upto.left) e ∙ append_assoc xs (r ∷ []) upto.left in
            continued xs r upto.left _ split
              (subst (λ xs. Replays w clock key events i₀.conn.db xs db) e upto.rows)
              (sent_records-from db (record { offset_bytes = r.offset; inode = r.inode }) opening
                second checkpoint)
              (follow_mail_log-IsContinued cfg first second inode o f before left more xs r
                upto.left opening here at grows split v opens seeks info grows')
      ]
