-- ===== src/Stitcher/Invariant.antt =====
-- What holds of the queues of `TransactionStitcher` between two calls.
use kanyigo.Base.{
  String, ◌≡◌, ◌≢◌, refl, subst, Bool, false, Option, none, some, List, [], ◌∷◌, ◌++◌, inl, inr,
  str_eq, Bool-cases, str_eq-cases,
}
use kanyigo.Base.Int.{ℤ}
use kanyigo.Base.Table.{
  lookup, insert, IsMap, IsMap-insert, IsMap-remove, IsMap-retain, lookup-insert, lookup-remove,
  lookup-retain, retain_value,
}
use kanyigo.LogEntry.{LogEntry, Time}
use kanyigo.Stitcher.{
  TransactionStitcher, QueuedTransaction, new_transaction_stitcher, is_terminal_status, new_queue,
  absorb, queue_or_new, settle, apply, is_live, evict_expired,
}

-- A queue that is held under `key` collects lines of that queue id and has no final status yet.
pub record IsOpen (key : String) (queue : QueuedTransaction) : Type 0 where
  pub named : key ≢ ""
  pub keyed : queue.transaction.queue_id ≡ key
  pub unfinished : is_terminal_status queue.transaction.status ≡ false
  pub in_time : queue.transaction.timed_out ≡ false
  pub has_lines : queue.transaction.raw ≢ []

abbrev pub IsOpenSlot : String → Option QueuedTransaction → Type 0
IsOpenSlot key none = Unit
IsOpenSlot key (some queue) = IsOpen key queue

pub record IsCoherent (s : TransactionStitcher) : Type 0 where
  pub is_map : IsMap s.queues
  pub at_key : (key : String) → IsOpenSlot key (lookup key s.queues)

-- A new stitcher holds no queue.
pub new-IsCoherent : (idle_timeout : ℤ) → IsCoherent (new_transaction_stitcher idle_timeout)
unfolding new_transaction_stitcher IsMap lookup
new-IsCoherent idle_timeout = record { is_map = tt; at_key = λ key. tt }

snoc-ne-nil {ℓ} : {A : Type ℓ} (xs : List A) (x : A) → (xs ++ x ∷ []) ≢ []
snoc-ne-nil [] x e = cc
snoc-ne-nil (y ∷ xs) x e = cc

-- A line that does not end its queue leaves an open queue.
pub absorb-IsOpen :
    (now : Time) (entry : LogEntry) (slot : Option QueuedTransaction)
    → entry.queue_id ≢ ""
    → IsOpenSlot entry.queue_id slot
    → is_terminal_status (absorb now entry (queue_or_new entry slot)).transaction.status ≡ false
    → IsOpen entry.queue_id (absorb now entry (queue_or_new entry slot))
unfolding absorb queue_or_new new_queue
absorb-IsOpen now entry none ne h e = record {
  named = ne;
  keyed = refl;
  unfinished = e;
  in_time = refl;
  has_lines = snoc-ne-nil [] entry.raw;
}
absorb-IsOpen now entry (some queue) ne h e = record {
  named = ne;
  keyed = h.keyed;
  unfinished = e;
  in_time = h.in_time;
  has_lines = snoc-ne-nil queue.transaction.raw entry.raw;
}

-- `settle` keeps the invariant if the queue, where it keeps it, is open.
settle-IsCoherent :
    (key : String) (queue : QueuedTransaction) (s : TransactionStitcher)
    → (is_terminal_status queue.transaction.status ≡ false → IsOpen key queue)
    → IsCoherent s
    → IsCoherent (settle key queue s).1
unfolding settle
settle-IsCoherent key queue s opens h =
    elim (Bool-cases (is_terminal_status queue.transaction.status)) [
      | inl e ↦ rw e (record {
        is_map = IsMap-remove key _ (IsMap-insert key queue s.queues h.is_map);
        at_key = λ j.
            rw (lookup-remove key j (insert key queue s.queues), lookup-insert key j queue s.queues)
              (elim (Bool-cases (str_eq key j)) [ inl b ↦ rw b tt | inr b ↦ rw b (h.at_key j) ]);
      })
      | inr e ↦ rw e (record {
        is_map = IsMap-insert key queue s.queues h.is_map;
        at_key = λ j. rw (lookup-insert key j queue s.queues) (elim (str_eq-cases key j) [
          | inl (b, p) ↦ rw b (subst (λ i. IsOpen i queue) p (opens e))
          | inr (b, _) ↦ rw b (h.at_key j)
        ]);
      })
    ]

-- `Apply` keeps the invariant, whatever the line.
pub apply-IsCoherent :
    (now : Time) (entry : Option LogEntry) (s : TransactionStitcher)
    → IsCoherent s
    → IsCoherent (apply now entry s).1
unfolding apply
apply-IsCoherent now none s h = h
apply-IsCoherent now (some entry) s h = elim (str_eq-cases entry.queue_id "") [
  | inl (e, _) ↦ rw e h
  | inr (e, ne) ↦ rw e (
      settle-IsCoherent entry.queue_id _ s
        (absorb-IsOpen now entry (lookup entry.queue_id s.queues) ne (h.at_key entry.queue_id)) h)
]

retain_value-IsOpenSlot :
    (p : QueuedTransaction → Bool) (key : String) (slot : Option QueuedTransaction)
    → IsOpenSlot key slot
    → IsOpenSlot key (retain_value p slot)
unfolding retain_value
retain_value-IsOpenSlot p key none h = tt
retain_value-IsOpenSlot p key (some queue) h = elim (Bool-cases (p queue)) [
  | inl b ↦ rw b h
  | inr b ↦ rw b tt
]

-- `EvictExpired` keeps it too.
pub evict_expired-IsCoherent :
    (now : Time) (s : TransactionStitcher) → IsCoherent s → IsCoherent (evict_expired now s).1
unfolding evict_expired
evict_expired-IsCoherent now s h = record {
  is_map = IsMap-retain _ s.queues h.is_map;
  at_key = λ j.
      rw (lookup-retain (is_live now s.idle_timeout) j s.queues h.is_map)
        (retain_value-IsOpenSlot (is_live now s.idle_timeout) j (lookup j s.queues) (h.at_key j));
}
