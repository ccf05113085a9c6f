-- ===== src/Stitcher/Lines.antt =====
-- The lines and the events of one queue id in `TransactionStitcher` of stream.go.
use mathlib.Core.List.{append_assoc, append-nil}
use kanyigo.Base.{
  String, ◌≡◌, ◌≢◌, refl, sym, ap, ◌∙◌, Bool, true, false, none, some, List, [], ◌∷◌, ◌++◌, inl,
  inr, arith, str_eq, Bool-cases, if◌then◌else◌, select,
}
use kanyigo.Base.Int.{ℤ}
use kanyigo.Base.Table.{lookup}
use kanyigo.LogEntry.{LogEntry, Time}
use kanyigo.Stitcher.{
  TransactionStitcher, MailTransaction, QueuedTransaction, absorb, queue_or_new, new_queue, is_live,
}
use kanyigo.Stitcher.Invariant.{IsCoherent}
use kanyigo.Stitcher.Slot.{
  Event, line, tick, run, Slot, close, age, slot_step, slot_run, for_key, seen, seen-run,
}

-- The events that concern one queue id: its lines, and the ticks.
abbrev pub concerns : String → Event → Bool
concerns key (line now none) = false
concerns key (line now (some entry)) = str_eq entry.queue_id key
concerns key (tick now) = true

slot_run-select :
    (key : String) (idle : ℤ) (slot : Slot) (es : List Event)
    → slot_run key idle slot (select (concerns key) es) ≡ slot_run key idle slot es
unfolding slot_run slot_step
slot_run-select key idle slot [] = refl
slot_run-select key idle slot (line now none ∷ es) = slot_run-select key idle slot es
slot_run-select key idle slot (line now (some entry) ∷ es) =
    elim (Bool-cases (str_eq entry.queue_id key)) [
      | inl e ↦ rw e (
          rw e (
            rw
              (slot_run-select key idle (close (absorb now entry (queue_or_new entry slot))).1 es)))
      | inr e ↦ rw e (slot_run-select key idle slot es)
    ]
slot_run-select key idle slot (tick now ∷ es) =
    rw (slot_run-select key idle (age now idle slot).1 es)

-- The lines that transactions hold, in order.
abbrev pub lines_of : List MailTransaction → List String
lines_of [] = []
lines_of (tx ∷ txs) = tx.raw ++ lines_of txs

abbrev pub lines_held : Slot → List String
lines_held none = []
lines_held (some queue) = queue.transaction.raw

-- The lines of one queue id in a history.
abbrev pub lines_in : String → List Event → List String
lines_in key [] = []
lines_in key (line now none ∷ es) = lines_in key es
lines_in key (line now (some entry) ∷ es) =
    let rest = lines_in key es in if str_eq entry.queue_id key then entry.raw ∷ rest else rest
lines_in key (tick now ∷ es) = lines_in key es

lines_of-append : (xs ys : List MailTransaction) → lines_of (xs ++ ys) ≡ lines_of xs ++ lines_of ys
lines_of-append [] ys = refl
lines_of-append (x ∷ xs) ys =
    rw (lines_of-append xs ys) (sym (append_assoc x.raw (lines_of xs) (lines_of ys)))

abbrev accounted : List MailTransaction × Slot → List String
accounted r = lines_of r.0 ++ lines_held r.1

accounted-close : (queue : QueuedTransaction) → accounted (close queue) ≡ queue.transaction.raw
unfolding close
accounted-close queue = ground (arith, append-nil queue.transaction.raw)

raw-absorb :
    (now : Time) (entry : LogEntry) (slot : Slot)
    → (absorb now entry (queue_or_new entry slot)).transaction.raw
      ≡ lines_held slot ++ entry.raw ∷ []
unfolding absorb queue_or_new new_queue
raw-absorb now entry none = refl
raw-absorb now entry (some queue) = refl

accounted-age :
    (now : Time) (idle : ℤ) (slot : Slot) → accounted (age now idle slot) ≡ lines_held slot
unfolding age
accounted-age now idle none = refl
accounted-age now idle (some queue) = elim (Bool-cases (is_live now idle queue)) [
  | inl e ↦ rw e
  | inr e ↦ rw e (append-nil (queue.transaction.raw ++ []) ∙ append-nil queue.transaction.raw)
]

accounted-step :
    (key : String) (idle : ℤ) (slot : Slot) (e : Event)
    → accounted (slot_step key idle slot e) ≡ lines_held slot ++ lines_in key (e ∷ [])
unfolding slot_step
accounted-step key idle slot (line now none) = sym (append-nil (lines_held slot))
accounted-step key idle slot (line now (some entry)) =
    elim (Bool-cases (str_eq entry.queue_id key)) [
      | inl e ↦
          rw e (
            accounted-close (absorb now entry (queue_or_new entry slot))
            ∙ raw-absorb now entry slot)
      | inr e ↦ rw e (sym (append-nil (lines_held slot)))
    ]
accounted-step key idle slot (tick now) =
    accounted-age now idle slot ∙ sym (append-nil (lines_held slot))

lines_in-cons :
    (key : String) (e : Event) (es : List Event)
    → lines_in key (e ∷ es) ≡ lines_in key (e ∷ []) ++ lines_in key es
lines_in-cons key (line now none) es = refl
lines_in-cons key (line now (some entry)) es = ground arith
lines_in-cons key (tick now) es = refl

accounted-run :
    (key : String) (idle : ℤ) (slot : Slot) (es : List Event)
    → accounted (slot_run key idle slot es) ≡ lines_held slot ++ lines_in key es
unfolding slot_run
accounted-run key idle slot [] = sym (append-nil (lines_held slot))
accounted-run key idle slot (e ∷ es) =
    let (out, slot') = slot_step key idle slot e in
    let step = accounted-step key idle slot e in
    rw (lines_of-append out (slot_run key idle slot' es).0, lines_in-cons key e es)
      (append_assoc (lines_of out) (lines_of (slot_run key idle slot' es).0) _
        ∙ ap (λ r. lines_of out ++ r) (accounted-run key idle slot' es)
        ∙ sym (append_assoc (lines_of out) (lines_held slot') (lines_in key es))
        ∙ ap (λ r. r ++ lines_in key es) step
        ∙ append_assoc (lines_held slot) (lines_in key (e ∷ [])) (lines_in key es))

-- From coherent queues, for every queue id but the empty one: the lines in the transactions that
-- left with that queue id, in order, and then those in the queue that is still held, are the lines
-- that were held before and then the lines of the history with that queue id, each once, in order.
pub lines-run :
    (key : String) (s : TransactionStitcher) (es : List Event)
    → key ≢ ""
    → IsCoherent s
    → lines_of (for_key key (run s es).0) ++ lines_held (lookup key (run s es).1.queues)
      ≡ lines_held (lookup key s.queues) ++ lines_in key es
lines-run key s es ne h =
    ap accounted (seen-run key s es ne h)
    ∙ accounted-run key s.idle_timeout (lookup key s.queues) es

-- From coherent queues, the events of other queue ids change nothing for a queue id: neither the
-- transactions that leave with it nor the queue that is held for it.
pub seen-run-select :
    (key : String) (s : TransactionStitcher) (es : List Event)
    → key ≢ ""
    → IsCoherent s
    → seen key (run s (select (concerns key) es)) ≡ seen key (run s es)
seen-run-select key s es ne h =
    seen-run key s (select (concerns key) es) ne h
    ∙ slot_run-select key s.idle_timeout (lookup key s.queues) es
    ∙ sym (seen-run key s es ne h)
