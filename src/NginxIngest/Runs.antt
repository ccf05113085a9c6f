-- ===== src/NginxIngest/Runs.antt =====
-- Runs of RunNginxSecurityIngestor of nginx_security.go, each started where the last one has stopped.
use kanyigo.Base.{
  ℕ, ◌+◌, ◌≤◌, String, ◌≡◌, refl, sym, ap, subst, ◌∙◌, ◌⊎◌, inl, inr, none, List, [], ◌∷◌, ◌++◌,
  length, length-append, arith,
}
use mathlib.Core.List.{append_assoc}
use kanyigo.Base.Int.{ℤ}
use kanyigo.Base.Table.{lookup}
use kanyigo.Schema.{Database, IngestState}
use kanyigo.Sql.{Result, Conn, Outcome, Result-cases, ◌>>=◌, continue}
use kanyigo.Checkpoint.{found, get_ingest_state}
use kanyigo.MailStore.{LineRecord}
use kanyigo.Tail.{Opening, Round, Tail, follow, first_round, follow_mail_log}
use kanyigo.Tail.Buffer.{Bytes}
use kanyigo.Tail.Lines.{unfinished-nil, lines-nil}
use kanyigo.Tail.Growing.{Grows, last_file, follow-IsFollowed, last_file-Grows}
use kanyigo.Tail.Opened.{Finds, IsAt, opened, sent_from}
use kanyigo.NginxLine.{Readers}
use kanyigo.Config.{NginxConfig}
use kanyigo.NginxIngest.{
  Stop, nginx_state_key, stream_settings, stop_answer, first_records, ingest_lines,
  run_nginx_security_ingestor,
}
use kanyigo.NginxIngest.Reread.{first_records-splits, replay, IsPrefix, ingest_lines-IsPrefix}
use kanyigo.NginxIngest.Once.{get_ingest_state-cases, IsRead, IsRead-unchanged, run_on}

-- One start: what the file has gained since the last run, what the calls of the opening and of the
-- rounds answer, how many records the loop takes, how it stops, and what the calls of the database do.
pub record Start : Type 0 where
  pub more : Bytes
  pub opening : Opening
  pub rounds : List Round
  pub taken : ℕ
  pub stop : Stop
  pub outcomes : List Outcome

-- The file at the path is the same one at each start, and is only appended to.
abbrev pub IsAppended : ℤ → Bytes → List Start → Type 0
IsAppended inode f [] = Unit
IsAppended inode f (s ∷ starts) =
    Finds inode (length (f ++ s.more)) s.opening
    × Grows inode (f ++ s.more) s.rounds
    × IsAppended inode (last_file (f ++ s.more) s.rounds) starts

abbrev pub file_after : Bytes → List Start → Bytes
file_after f [] = f
file_after f (s ∷ starts) = file_after (last_file (f ++ s.more) s.rounds) starts

module _ (readers : Readers) (cfg : NginxConfig) where
  abbrev key : String
  key = nginx_state_key cfg.path

  -- The rows after all the runs.
  abbrev pub run_all : List Start → Database → Database
  run_all [] db = db
  run_all (s ∷ starts) db =
      run_all starts
        (run_nginx_security_ingestor readers cfg s.opening s.rounds s.taken s.stop
          (record { db = db; outcomes = s.outcomes })).1.db

  loop_rows :
      (rs : List LineRecord) (stop : Result (Unit {0})) (c : Conn Database)
      → ((ingest_lines readers cfg rs >>= λ _. λ c. (stop, c)) c).1.db
        ≡ (ingest_lines readers cfg rs c).1.db
  unfolding ◌>>=◌
  loop_rows rs stop c = elim (Result-cases (ingest_lines readers cfg rs c).0) [
    | inl (_, e) ↦ rw e refl
    | inr (_, e) ↦ rw e refl
  ]

  sent_by : Start → IngestState → List LineRecord × Result Tail
  sent_by s state = follow_mail_log (stream_settings cfg) s.opening state s.rounds

  loop : Start → IngestState → Conn Database → Result (Unit {0}) × Conn Database
  unfolding sent_by
  loop s state =
      let (sent, last) = sent_by s state in
      ingest_lines readers cfg (first_records s.taken sent) >>= λ _.
      λ c. (stop_answer s.stop last, c)

  -- A run reads no checkpoint and changes nothing, or stores the first of the records it is sent.
  run-cases :
      (s : Start) (c : Conn Database)
      → let run = run_nginx_security_ingestor readers cfg s.opening s.rounds s.taken s.stop c in
        (run.1.db ≡ c.db)
        ⊎ IsPrefix readers cfg (sent_by s (found (lookup key c.db.ingest_state))).0 c.db run.1.db
  unfolding run_nginx_security_ingestor ◌>>=◌ sent_by loop
  run-cases s c =
      let g = get_ingest_state key c in
      let (read, same) = get_ingest_state-cases key c in
      elim read [
        | inr (_, e) ↦ inl (ap (λ r. (continue r (loop s) g.1).1.db) e ∙ same)
        | inl e ↦
            let state = found (lookup key c.db.ingest_state) in
            let (sent, last) = sent_by s state in
            let stored = ingest_lines-IsPrefix readers cfg (first_records s.taken sent) g.1 in
            let (left, split) = first_records-splits s.taken sent in
            inr (record {
              done = stored.done;
              left = stored.left ++ left;
              splits =
                  split
                  ∙ ap (λ l. l ++ left) stored.splits
                  ∙ append_assoc stored.done stored.left left;
              rows =
                  ap (λ r. (continue r (loop s) g.1).1.db) e
                  ∙ loop_rows (first_records s.taken sent) (stop_answer s.stop last) g.1
                  ∙ stored.rows
                  ∙ ap (replay readers cfg stored.done) same;
            })
      ]

  IsPrefix-nil : {db₀ db : Database} → IsPrefix readers cfg [] db₀ db → db ≡ db₀
  IsPrefix-nil {db₀} h = h.rows ∙ nil h.done h.left h.splits
    where
      nil :
          (rs : List LineRecord) (left : List LineRecord)
          → [] ≡ rs ++ left
          → replay readers cfg rs db₀ ≡ db₀
      nil [] left e = refl
      nil (r ∷ rs) left e = absurd (cc)

  run-IsRead :
      (s : Start) (inode : ℤ) (f : Bytes) (db₀ db : Database)
      → Finds inode (length (f ++ s.more)) s.opening
      → Grows inode (f ++ s.more) s.rounds
      → IsRead readers cfg inode f db₀ db
      → IsRead readers cfg inode
          (last_file (f ++ s.more) s.rounds)
          db₀
          (run_nginx_security_ingestor readers cfg s.opening s.rounds s.taken s.stop
            (record { db = db; outcomes = s.outcomes })).1.db
  unfolding sent_by first_round
  run-IsRead s inode f db₀ db finds grows h =
      let c : Conn Database = record { db = db; outcomes = s.outcomes } in
      let after =
        (run_nginx_security_ingestor readers cfg s.opening s.rounds s.taken s.stop c).1.db in
      let n = 0 + length h.upto in
      let g = f ++ s.more in
      let here : g ≡ h.upto ++ (h.behind ++ s.more) =
        ap (λ x. x ++ s.more) h.splits ∙ append_assoc h.upto h.behind s.more in
      let (more, e) = last_file-Grows inode g s.rounds grows in
      let grown = e ∙ append_assoc f s.more more in
      let fits : n ≤ length g =
        omega (arith, ap length here, length-append h.upto (h.behind ++ s.more)) in
      let place : n ≡ length h.upto = omega arith in
      let state = found (lookup key db.ingest_state) in
      let at = subst (λ k. IsAt inode k state) (sym place) h.checkpoint in
      let opening = opened inode n (length g) state s.opening fits at finds in
      let still = IsRead-unchanged readers cfg inode f (s.more ++ more) h grown in
      elim (run-cases s c) [
        | inl same ↦ still same
        | inr stored ↦
            elim (sent_from (stream_settings cfg) s.opening s.rounds inode n state opening) [
              | inl z ↦ still (IsPrefix-nil (subst (λ l. IsPrefix readers cfg l db after) z stored))
              | inr z ↦
                  run_on readers cfg inode f (s.more ++ more) _ h
                    (follow (stream_settings cfg) s.rounds (first_round inode n)) grown
                    (follow-IsFollowed (stream_settings cfg) s.rounds (first_round inode n) g h.upto
                      (h.behind ++ s.more) here (sym place) grows)
                    (subst (λ l. IsPrefix readers cfg l db after) z stored)
            ]
      ]

  -- Any number of runs, each stopped anywhere, with any calls of the database failing, of a log file
  -- that is only appended to, on a database without a checkpoint of it: the rows are those after the lines of the
  -- first bytes of the file, up to the end of a line, each written once and in order, and the
  -- checkpoint is there. So no line is left out or counted twice, however often the ingestor stops.
  pub run_all-IsRead :
      (inode : ℤ) (f : Bytes) (starts : List Start) (db₀ : Database)
      → lookup key db₀.ingest_state ≡ none
      → IsAppended inode f starts
      → IsRead readers cfg inode (file_after f starts) db₀ (run_all starts db₀)
  run_all-IsRead inode f starts db₀ new appended = all starts f db₀ appended (record {
    upto = [];
    behind = f;
    splits = refl;
    whole = unfinished-nil [];
    rows = ap (λ l. replay readers cfg l db₀) (sym (lines-nil inode 0 0 []));
    checkpoint = inr (ap (λ s. (found s).offset_bytes) new, refl);
  })
    where
      all :
          (starts : List Start) (f : Bytes) (db : Database)
          → IsAppended inode f starts
          → IsRead readers cfg inode f db₀ db
          → IsRead readers cfg inode (file_after f starts) db₀ (run_all starts db)
      all [] f db h read = read
      all (s ∷ starts) f db h read =
          all starts (last_file (f ++ s.more) s.rounds) _ h.2
            (run-IsRead s inode f db₀ db h.0 h.1 read)
