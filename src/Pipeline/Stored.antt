-- ===== src/Pipeline/Stored.antt =====
-- What the loop of RunMailLogIngestor has stored of the tail's records, wherever it stops.
use kanyigo.Base.{
  ℕ, zero, suc, ◌==◌, String, ◌≡◌, refl, sym, ap, ◌∙◌, subst, some, Option-cases, List, [], ◌∷◌,
  ◌++◌, length, length-append, arith, inl, inr, Bool-cases,
}
use mathlib.Core.List.{append_assoc}
use kanyigo.LogEntry.{Time}
use kanyigo.Schema.{Database}
use kanyigo.Sql.{Result, ok, err}
use kanyigo.MailStore.{LineRecord}
use kanyigo.MailStore.Persist.{recorded}
use kanyigo.Ingest.{
  ParsedRecord, Ingestor, Loop, find, without, resume, drain, receive, unless_failed,
  process_parsed_record, on_tick, start,
}
use kanyigo.Ingest.Order.{find-without}
use kanyigo.Ingest.Synced.{process-recorded, process-attempt}
use kanyigo.Ingest.Tick.{on_tick-rows}
use kanyigo.Pipeline.Replay.{
  nth, HasTick, first_of, behind, IsSent, ComeFrom, stored_line, Replays, begin, store, evict,
}
use kanyigo.Pipeline.{Worker, parse_mail_log_record, Event, arrives, ticks, on_event, run_loop}

next_left :
    {A : Type 0} (done left : List A) (x : A)
    → nth (length done) (done ++ left) ≡ some x
    → (rest : List A) × (left ≡ x ∷ rest)
next_left [] [] x e = absurd (cc)
next_left [] (y ∷ left) x e = (left, ap (λ z. z ∷ left) (cc (e)))
next_left (y ∷ done) left x e = next_left done left x e

module _ (w : Worker) (clock : ℕ → Time) (key : String) where
  module _ (sent : List LineRecord) (events₀ : List Event) (db₀ : Database) where
    -- The records sent up to some place are those that are stored.
    pub record IsStoredUpTo (db : Database) : Type 0 where
      pub done : List LineRecord
      pub left : List LineRecord
      pub splits : sent ≡ done ++ left
      pub rows : Replays w clock key events₀ db₀ done db

    abbrev process : ParsedRecord → Ingestor → Result (Unit {0}) × Ingestor
    process p = process_parsed_record (clock p.record'.sequence) key p

    -- The invariant of the loop
    record Goes (l : Loop Ingestor) : Type 0 where
      upto : IsStoredUpTo l.state.conn.db
      counted : length upto.done ≡ l.next_sequence
      pends : (i : ℕ) (p : ParsedRecord) → find i l.pending ≡ some p → IsSent w clock sent i p

    abbrev After : Result (Unit {0}) × Loop Ingestor → Type 0
    After (ok _, l) = Goes l
    After (err _, l) = IsStoredUpTo l.state.conn.db

    same_rows : {db db' : Database} → IsStoredUpTo db → db' ≡ db → IsStoredUpTo db'
    same_rows upto e = subst IsStoredUpTo (sym e) upto

    one_more :
        (n : ℕ) (r : LineRecord) {db db' : Database} (upto : IsStoredUpTo db)
        → length upto.done ≡ n
        → nth n sent ≡ some r
        → db' ≡ stored_line w clock key r db
        → (after : IsStoredUpTo db') × (length after.done ≡ suc n)
    one_more n r upto l e d =
        let (rest, left) =
          next_left upto.done upto.left r
            (ap (nth (length upto.done)) (sym upto.splits) ∙ ap (λ m. nth m sent) l ∙ e) in
        (
          record {
            done = upto.done ++ r ∷ [];
            left = rest;
            splits =
                upto.splits
                ∙ ap (λ xs. upto.done ++ xs) left
                ∙ sym (append_assoc upto.done (r ∷ []) rest);
            rows =
                subst (Replays w clock key events₀ db₀ (upto.done ++ r ∷ [])) (sym d)
                  (store r upto.rows);
          },
          omega (arith, length-append upto.done (r ∷ []), l),
        )

    pends_without :
        (j : ℕ) (ps : List ParsedRecord)
        → ((i : ℕ) (p : ParsedRecord) → find i ps ≡ some p → IsSent w clock sent i p)
        → (i : ℕ) (p : ParsedRecord) → find i (without j ps) ≡ some p
        → IsSent w clock sent i p
    pends_without j ps h i p e = h i p (ground (arith, find-without j i ps))

    pends_with :
        (p : ParsedRecord) (ps : List ParsedRecord)
        → IsSent w clock sent p.record'.sequence p
        → ((i : ℕ) (q : ParsedRecord) → find i ps ≡ some q → IsSent w clock sent i q)
        → (i : ℕ) (q : ParsedRecord) → find i (p ∷ ps) ≡ some q
        → IsSent w clock sent i q
    unfolding find
    pends_with p ps s h i q e = elim (Bool-cases (p.record'.sequence == i)) [
      | inl f ↦
          let same : p ≡ q = (let e' = rw f at e in cc (e')) in
          let at : p.record'.sequence ≡ i = ground (arith, f) in
          subst (λ n. IsSent w clock sent n q) at
            (subst (IsSent w clock sent p.record'.sequence) same s)
      | inr f ↦ h i q (rw f at e)
    ]

    resume-After :
        (go_on : Loop Ingestor → Result (Unit {0}) × Loop Ingestor) (l : Loop Ingestor)
        (p : ParsedRecord) (result : Result (Unit {0}) × Ingestor)
        → ((l : Loop Ingestor) → Goes l → After (go_on l))
        → Goes l
        → IsSent w clock sent l.next_sequence p
        → process p l.state ≡ result
        → After (resume go_on l result)
    unfolding parse_mail_log_record
    resume-After go_on l p (ok _, i) h g (r, at, is) e =
        let now = clock p.record'.sequence in
        let (upto, counted) = one_more l.next_sequence r g.upto g.counted at (
          sym (ap (λ x. x.1.conn.db) e)
          ∙ process-recorded now key p l.state (ap (λ x. x.0) e)
          ∙ ap (λ p. recorded (clock p.record'.sequence) key p.record' p.entry l.state.conn.db)
              is) in
        h _ (record {
          upto = upto;
          counted = counted;
          pends = pends_without l.next_sequence l.pending g.pends;
        })
    resume-After go_on l p (err m, i) h g (r, at, is) e =
        let now = clock p.record'.sequence in
        let state = sym (ap (λ x. x.1.conn.db) e) in
        elim (process-attempt now key p l.state) [
          | inl d ↦ same_rows g.upto (state ∙ d)
          | inr d ↦
              (one_more l.next_sequence r g.upto g.counted at (
                state
                ∙ d
                ∙ ap
                    (λ p. recorded (clock p.record'.sequence) key p.record' p.entry l.state.conn.db)
                    is)).0
        ]

    drain-After : (fuel : ℕ) (l : Loop Ingestor) → Goes l → After (drain process fuel l)
    unfolding drain
    drain-After zero l g = g
    drain-After (suc fuel) l g = elim (Option-cases (find l.next_sequence l.pending)) [
      | inl e ↦ rw (drain, e) g
      | inr (p, e) ↦
          rw (drain, e)
            (resume-After (drain process fuel) l p _ (drain-After fuel) g
              (g.pends l.next_sequence p e) refl)
    ]

    -- The rows after a tick, of as many records
    tick_rows :
        (now db_now cutoff : Time) (i : Ingestor)
        → HasTick db_now cutoff events₀
        → (upto : IsStoredUpTo i.conn.db)
        → (after : IsStoredUpTo (on_tick now db_now cutoff i).1.conn.db) × (length after.done
            ≡ length upto.done)
    tick_rows now db_now cutoff i t upto = elim (on_tick-rows now db_now cutoff i) [
      | inl d ↦ (
        record {
          done = upto.done;
          left = upto.left;
          splits = upto.splits;
          rows = subst (Replays w clock key events₀ db₀ upto.done) (sym d) upto.rows;
        },
        refl,
      )
      | inr d ↦ (
        record {
          done = upto.done;
          left = upto.left;
          splits = upto.splits;
          rows =
              subst (Replays w clock key events₀ db₀ upto.done) (sym d)
                (evict db_now cutoff t upto.rows);
        },
        refl,
      )
    ]

    ticked-After :
        (l : Loop Ingestor) (result : Result (Unit {0})) (i : Ingestor)
        → Goes l
        → (upto : IsStoredUpTo i.conn.db) → length upto.done ≡ l.next_sequence
        → After (result, record l { state = i })
    ticked-After l (ok _) i g upto c = record { upto = upto; counted = c; pends = g.pends }
    ticked-After l (err e) i g upto c = upto

    -- Every tick of these events is one of the whole run.
    abbrev IsWithin : List Event → Type 0
    IsWithin events =
        (db_now cutoff : Time) → HasTick db_now cutoff events → HasTick db_now cutoff events₀

    on_event-After :
        (event : Event) (events : List Event) (l : Loop Ingestor)
        → IsWithin (event ∷ events)
        → ComeFrom w clock sent (event ∷ events)
        → Goes l
        → After (on_event clock key event l)
    unfolding on_event receive
    on_event-After (arrives p) events l t (s, c) g =
        let pending = p ∷ without p.record'.sequence l.pending in
        drain-After (length pending) (record l { pending = pending })
          (record {
            upto = g.upto;
            counted = g.counted;
            pends =
                pends_with p (without p.record'.sequence l.pending) s
                  (pends_without p.record'.sequence l.pending g.pends);
          })
    on_event-After (ticks now db_now cutoff) events l t c g =
        let (upto, same) =
          tick_rows now db_now cutoff l.state (t db_now cutoff (first_of now events)) g.upto in
        ticked-After l (on_tick now db_now cutoff l.state).0 (on_tick now db_now cutoff l.state).1 g
          upto (same ∙ g.counted)

    come_behind :
        (event : Event) (events : List Event)
        → ComeFrom w clock sent (event ∷ events)
        → ComeFrom w clock sent events
    come_behind (arrives p) events c = c.1
    come_behind (ticks _ _ _) events c = c

    unless_failed-After :
        (go_on : Loop Ingestor → Result (Unit {0}) × Loop Ingestor)
        (r : Result (Unit {0}) × Loop Ingestor)
        → ((l : Loop Ingestor) → Goes l → After (go_on l))
        → After r
        → After (unless_failed go_on r)
    unless_failed-After go_on (ok _, l) h g = h l g
    unless_failed-After go_on (err e, l) h g = g

    run_loop-After :
        (events : List Event) (l : Loop Ingestor)
        → IsWithin events
        → ComeFrom w clock sent events
        → Goes l
        → After (run_loop clock key events l)
    unfolding run_loop
    run_loop-After [] l t c g = g
    run_loop-After (event ∷ events) l t c g =
        unless_failed-After (run_loop clock key events) (on_event clock key event l)
          (λ l' g'.
            run_loop-After events l' (λ db_now cutoff h. t db_now cutoff (behind event events h))
              (come_behind event events c) g')
          (on_event-After event events l t c g)

    After-IsStoredUpTo :
        (r : Result (Unit {0}) × Loop Ingestor) → After r → IsStoredUpTo r.1.state.conn.db
    After-IsStoredUpTo (ok _, l) g = g.upto
    After-IsStoredUpTo (err e, l) g = g

  -- Wherever the loop stops, with an error or not, the rows are those after the records sent up to
  -- some place, each stored once, in order, and with its checkpoint, and after the evictions.
  pub run_loop-IsStoredUpTo :
      (sent : List LineRecord) (events : List Event) (i₀ : Ingestor)
      → ComeFrom w clock sent events
      → IsStoredUpTo sent events i₀.conn.db (run_loop clock key events (start i₀)).1.state.conn.db
  unfolding find
  run_loop-IsStoredUpTo sent events i₀ c =
      After-IsStoredUpTo sent events i₀.conn.db (run_loop clock key events (start i₀)) (
        run_loop-After sent events i₀.conn.db events (start i₀) (λ db_now cutoff h. h) c
          (record {
            upto = record { done = []; left = sent; splits = refl; rows = begin };
            counted = refl;
            pends = λ i p e. absurd (cc);
          }))
