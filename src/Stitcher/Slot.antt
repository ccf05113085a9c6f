-- ===== src/Stitcher/Slot.antt =====
-- A machine for one queue id, as a specification of `TransactionStitcher` of stream.go.
use kanyigo.Base.{
  String, ◌≡◌, ◌≢◌, refl, ap, subst, ◌∙◌, true, false, Option, none, some, List, [], ◌∷◌, ◌++◌, inl,
  inr, ◌⊎◌, arith, str_eq, eq_iff, Bool-cases, str_eq-cases, if◌then◌else◌, select, select-append,
}
use text.Mathlib.TextPositions.{eq_refl}
use kanyigo.Base.Int.{ℤ}
use kanyigo.Base.Table.{Table, lookup, insert, retain, IsMap, lookup-insert, lookup-remove}
use kanyigo.LogEntry.{LogEntry, Time}
use kanyigo.Stitcher.{
  TransactionStitcher, QueuedTransaction, MailTransaction, new_transaction_stitcher,
  is_terminal_status, new_queue, absorb, queue_or_new, settle, apply, is_live, evict_expired,
  expire,
}
use kanyigo.Stitcher.Invariant.{
  IsOpen, IsOpenSlot, IsCoherent, new-IsCoherent, apply-IsCoherent, evict_expired-IsCoherent,
}

-- What the ingestor does with its stitcher: it applies a line, or evicts at a tick of its clock.
pub data Event : Type 0 where
  line : Time → Option LogEntry → Event
  tick : Time → Event

abbrev pub to_list {ℓ} : {A : Type ℓ} → Option A → List A
to_list none = []
to_list (some a) = a ∷ []

unfoldable pub step : TransactionStitcher → Event → List MailTransaction × TransactionStitcher
step s (line now entry) = let (done, s') = apply now entry s in (to_list done, s')
step s (tick now) = evict_expired now s

unfoldable pub run : TransactionStitcher → List Event → List MailTransaction × TransactionStitcher
run s [] = ([], s)
run s (e ∷ es) = let (out, s') = step s e in let (outs, s'') = run s' es in (out ++ outs, s'')

pub step-IsCoherent : (s : TransactionStitcher) (e : Event) → IsCoherent s → IsCoherent (step s e).1
unfolding step
step-IsCoherent s (line now entry) h = apply-IsCoherent now entry s h
step-IsCoherent s (tick now) h = evict_expired-IsCoherent now s h

-- The queue of one queue id by itself, which may be missing.
abbrev pub Slot : Type 0
Slot = Option QueuedTransaction

unfoldable pub close : QueuedTransaction → List MailTransaction × Slot
close queue =
    if is_terminal_status queue.transaction.status
    then (queue.transaction ∷ [], none)
    else ([], some queue)

unfoldable pub age : Time → ℤ → Slot → List MailTransaction × Slot
age now idle_timeout none = ([], none)
age now idle_timeout (some queue) =
    if is_live now idle_timeout queue
    then ([], some queue)
    else (record (queue.transaction) { timed_out = true } ∷ [], none)

unfoldable pub slot_step : String → ℤ → Slot → Event → List MailTransaction × Slot
unfolding close age
slot_step key idle_timeout slot (line now none) = ([], slot)
slot_step key idle_timeout slot (line now (some entry)) =
    if str_eq entry.queue_id key
    then close (absorb now entry (queue_or_new entry slot))
    else ([], slot)
slot_step key idle_timeout slot (tick now) = age now idle_timeout slot

unfoldable pub slot_run : String → ℤ → Slot → List Event → List MailTransaction × Slot
slot_run key idle_timeout slot [] = ([], slot)
slot_run key idle_timeout slot (e ∷ es) =
    let (out, slot') = slot_step key idle_timeout slot e in
    let (outs, slot'') = slot_run key idle_timeout slot' es in (out ++ outs, slot'')

-- The transactions of one queue id, in the order in which they left the stitcher.
abbrev pub for_key : String → List MailTransaction → List MailTransaction
for_key key = select (λ tx. str_eq tx.queue_id key)

-- What a client of one queue id sees of the stitcher.
abbrev pub seen : String → List MailTransaction × TransactionStitcher → List MailTransaction × Slot
seen key r = (for_key key r.0, lookup key r.1.queues)

absorb-queue_id :
    (now : Time) (entry : LogEntry) (slot : Slot)
    → IsOpenSlot entry.queue_id slot
    → (absorb now entry (queue_or_new entry slot)).transaction.queue_id ≡ entry.queue_id
unfolding absorb queue_or_new new_queue
absorb-queue_id now entry none h = refl
absorb-queue_id now entry (some queue) h = h.keyed

seen-settle :
    (key j : String) (queue : QueuedTransaction) (s : TransactionStitcher)
    → queue.transaction.queue_id ≡ j
    → (for_key key (to_list (settle j queue s).0), lookup key (settle j queue s).1.queues)
      ≡ (if str_eq j key then close queue else ([], lookup key s.queues))
unfolding settle close
seen-settle key j queue s e = elim (Bool-cases (is_terminal_status queue.transaction.status)) [
  | inl t ↦
      rw (t, lookup-remove j key (insert j queue s.queues), lookup-insert j key queue s.queues, e)
        (ground arith)
  | inr t ↦ rw (t, lookup-insert j key queue s.queues) (ground arith)
]

-- Under the test that two texts are equal, one stands for the other.
if-str_eq_cong {ℓ} :
    {A : Type ℓ} (j k : String) (f : String → A) (r : A)
    → (if str_eq j k then f j else r) ≡ (if str_eq j k then f k else r)
if-str_eq_cong j k f r = elim (str_eq-cases j k) [ inl (e, p) ↦ rw e (ap f p) | inr (e, _) ↦ rw e ]

seen-line :
    (key : String) (now : Time) (entry : LogEntry) (s : TransactionStitcher)
    → key ≢ ""
    → IsCoherent s
    → seen key (step s (line now (some entry)))
      ≡ slot_step key s.idle_timeout (lookup key s.queues) (line now (some entry))
unfolding step slot_step apply
seen-line key now entry s ne h = elim (str_eq-cases entry.queue_id "") [
  | inl (e, p) ↦ rw e (ground (arith, eq_iff entry.queue_id key))
  | inr (e, _) ↦ rw e (
      seen-settle key entry.queue_id (queue entry.queue_id) s
        (absorb-queue_id now entry (lookup entry.queue_id s.queues) (h.at_key entry.queue_id))
      ∙ if-str_eq_cong entry.queue_id key (λ k. close (queue k)) ([], lookup key s.queues))
]
  where
    queue : String → QueuedTransaction
    queue k = absorb now entry (queue_or_new entry (lookup k s.queues))

IsOpenSlot-tail :
    (i j : String) (queue : QueuedTransaction) (m : Table QueuedTransaction)
    → IsMap ((i, queue) ∷ m)
    → IsOpenSlot j (lookup j ((i, queue) ∷ m))
    → IsOpenSlot j (lookup j m)
unfolding IsMap lookup
IsOpenSlot-tail i j queue m u h = elim (str_eq-cases i j) [
  | inl (e, p) ↦ subst (λ k. IsOpenSlot k (lookup k m)) p (rw u.0 tt)
  | inr (e, _) ↦ rw e at h
]

IsOpenSlot-head :
    (i : String) (queue : QueuedTransaction) (m : Table QueuedTransaction)
    → IsOpenSlot i (lookup i ((i, queue) ∷ m))
    → IsOpen i queue
unfolding lookup
IsOpenSlot-head i queue m h = rw (eq_refl i) at h

seen-evict :
    (key : String) (now : Time) (idle : ℤ) (m : Table QueuedTransaction)
    → IsMap m
    → ((j : String) → IsOpenSlot j (lookup j m))
    → (for_key key (expire now idle m), lookup key (retain (is_live now idle) m))
      ≡ age now idle (lookup key m)
unfolding expire retain lookup age IsMap
seen-evict key now idle [] u h = refl
seen-evict key now idle ((i, queue) ∷ m) u h =
    seen_cons (seen-evict key now idle m u.1 (λ j. IsOpenSlot-tail i j queue m u (h j)))
      (str_eq-cases i key) (Bool-cases (is_live now idle queue))
  where
    keyed : queue.transaction.queue_id ≡ i
    keyed = (IsOpenSlot-head i queue m (h i)).keyed

    seen_cons :
        (for_key key (expire now idle m), lookup key (retain (is_live now idle) m))
          ≡ age now idle (lookup key m)
        → ((str_eq i key ≡ true) × (i ≡ key)) ⊎ ((str_eq i key ≡ false) × (i ≢ key))
        → (is_live now idle queue ≡ true) ⊎ (is_live now idle queue ≡ false)
        → (
          for_key key (expire now idle ((i, queue) ∷ m)),
          lookup key (retain (is_live now idle) ((i, queue) ∷ m)),
        )
          ≡ age now idle (lookup key ((i, queue) ∷ m))
    seen_cons ih (inl (e, p)) (inl b) =
        let gone : lookup key m ≡ none = subst (λ k. lookup k m ≡ none) p u.0 in
        let rest = rw gone at ih in rw (e, b) (rw (ap (λ r. r.0) rest) (rw e refl))
    seen_cons ih (inl (e, p)) (inr b) =
        let gone : lookup key m ≡ none = subst (λ k. lookup k m ≡ none) p u.0 in
        let rest = rw gone at ih in
        rw (e, b, keyed) (rw (ap (λ r. r.0) rest, ap (λ r. r.1) rest) (rw e refl))
    seen_cons ih (inr (e, _)) (inl b) = rw (e, b) (rw e ih)
    seen_cons ih (inr (e, _)) (inr b) = rw (e, b, keyed) (rw e ih)

seen-tick :
    (key : String) (now : Time) (s : TransactionStitcher)
    → IsCoherent s
    → seen key (step s (tick now)) ≡ slot_step key s.idle_timeout (lookup key s.queues) (tick now)
unfolding step slot_step evict_expired
seen-tick key now s h = seen-evict key now s.idle_timeout s.queues h.is_map h.at_key

-- One step, seen from one queue id, is a step of that queue id's machine.
pub seen-step :
    (key : String) (s : TransactionStitcher) (e : Event)
    → key ≢ ""
    → IsCoherent s
    → seen key (step s e) ≡ slot_step key s.idle_timeout (lookup key s.queues) e
seen-step key s (line now none) ne h = unfold step slot_step apply in refl
seen-step key s (line now (some entry)) ne h = seen-line key now entry s ne h
seen-step key s (tick now) ne h = seen-tick key now s h

idle_timeout-step :
    (s : TransactionStitcher) (e : Event) → (step s e).1.idle_timeout ≡ s.idle_timeout
unfolding step apply evict_expired
idle_timeout-step s (line now none) = refl
idle_timeout-step s (line now (some entry)) = ground arith
idle_timeout-step s (tick now) = refl

-- From coherent queues, for every queue id but the empty one and every history of lines and ticks,
-- the transactions that leave the stitcher with that queue id, in order, and the queue that it
-- still holds are those of a machine that runs for that queue id alone.
pub seen-run :
    (key : String) (s : TransactionStitcher) (es : List Event)
    → key ≢ ""
    → IsCoherent s
    → seen key (run s es) ≡ slot_run key s.idle_timeout (lookup key s.queues) es
unfolding run slot_run
seen-run key s [] ne h = refl
seen-run key s (e ∷ es) ne h =
    let here = seen-step key s e ne h in
    let later = seen-run key (step s e).1 es ne (step-IsCoherent s e h) in
    rw select-append (
      rw (ap (λ r. r.0) later, ap (λ r. r.1) later, idle_timeout-step s e)
        (rw (ap (λ r. r.0) here, ap (λ r. r.1) here) refl))

run-IsCoherent :
    (s : TransactionStitcher) (es : List Event) → IsCoherent s → IsCoherent (run s es).1
unfolding run
run-IsCoherent s [] h = h
run-IsCoherent s (e ∷ es) h = run-IsCoherent (step s e).1 es (step-IsCoherent s e h)

-- From a new stitcher, after any history, every queue that is held has a non-empty queue id, which
-- its transaction carries, at least one line, no final status, and is not marked as timed out;
-- and no queue id is held twice.
pub run-new-IsCoherent :
    (idle_timeout : ℤ) (es : List Event)
    → IsCoherent (run (new_transaction_stitcher idle_timeout) es).1
run-new-IsCoherent idle_timeout es =
    run-IsCoherent (new_transaction_stitcher idle_timeout) es (new-IsCoherent idle_timeout)
