-- ===== src/MailStore/Refines.antt =====
-- The rows of mail_transactions against the queues of the stitcher: the program correlates lines by
-- queue id in mergeMailTransaction and in TransactionStitcher.Apply.
use kanyigo.Base.{
  ℕ, ◌≡◌, ◌≢◌, refl, sym, ap, ◌∙◌, String, Bool, true, false, Option, none, some, inl, inr, arith,
  str_eq, eq_iff, Bool-cases, Option-cases, str_eq-cases, if◌then◌else◌,
}
use kanyigo.Base.Table.{lookup, lookup-insert, lookup-remove, insert}
use kanyigo.LogEntry.{LogEntry, Time}
use kanyigo.Schema.{Database, MailRow, Reals}
use kanyigo.Stitcher.{
  TransactionStitcher, MailTransaction, QueuedTransaction, is_terminal_status, overwrite, absorb,
  new_queue, queue_or_new, settle, apply,
}
use kanyigo.MailStore.{merge_row, new_row, is_active, active, merge_mail_transaction}
use kanyigo.Sql.{ok, Conn}
use kanyigo.MailStore.Agreement.{Agrees, overwrite-nil, new_row-Agrees, merge_row-Agrees}
use kanyigo.MailStore.Merge.{merged, merge_mail_transaction-merged}
use kanyigo.MailStore.Unique.{
  IsUnique, IsPending, active-IsPending, active-IsActive, active-update_active,
}

-- The row that a merge writes.
abbrev pub written : Reals → Time → LogEntry → ℕ → Option MailRow → MailRow
written reals now entry id none = new_row reals id now entry
written reals now entry id (some row) = merge_row reals now entry row

abbrev pub AgreesSlot : Reals → Option MailRow → Option QueuedTransaction → Type 0
AgreesSlot reals none none = Unit
AgreesSlot reals none (some queue) = ⊥
AgreesSlot reals (some row) none = ⊥
AgreesSlot reals (some row) (some queue) = Agrees reals row queue.transaction

-- The active row of every queue id agrees with the queue that is held for it.
pub record Simulates (db : Database) (s : TransactionStitcher) : Type 0 where
  pub at_key :
      (key : String)
      → key ≢ ""
      → AgreesSlot db.reals (active key db.mail_transactions) (lookup key s.queues)

-- A line that completes a transaction in memory completes its row, with the same values up to what a
-- REAL column makes of a float64.
abbrev pub AgreesDone : Reals → MailRow → Option MailTransaction → Type 0
AgreesDone reals row none = row.terminal ≡ false
AgreesDone reals row (some tx) = (row.terminal ≡ true) × Agrees reals row tx

abbrev unless_terminal : MailRow → Option MailRow
unless_terminal row = if row.terminal then none else some row

active-merged :
    (now : Time) (entry : LogEntry) (db : Database) (j : String)
    → IsUnique db.mail_transactions
    → active j (merged now entry db).mail_transactions ≡ (
        if str_eq entry.queue_id j
        then unless_terminal
            (written db.reals now entry db.next_id (active entry.queue_id db.mail_transactions))
        else active j db.mail_transactions)
unfolding merged
active-merged now entry db j u = elim (Option-cases (active entry.queue_id db.mail_transactions)) [
  | inl e ↦
      rw (e, merged) (unfold active is_active new_row in ground (arith, eq_iff entry.queue_id j))
  | inr (row, e) ↦
      rw (e, merged)
        (active-update_active entry.queue_id j (merge_row db.reals now entry) db.mail_transactions
          row (unfold merge_row in λ r. refl) u e)
]

merged-reals :
    (now : Time) (entry : LogEntry) (db : Database) → (merged now entry db).reals ≡ db.reals
unfolding merged
merged-reals now entry db = elim (Option-cases (active entry.queue_id db.mail_transactions)) [
  | inl e ↦ rw (e, merged) refl
  | inr (_, e) ↦ rw (e, merged) refl
]

unless_finished : QueuedTransaction → Option QueuedTransaction
unless_finished queue = if is_terminal_status queue.transaction.status then none else some queue

lookup-settle :
    (key j : String) (queue : QueuedTransaction) (s : TransactionStitcher)
    → lookup j (settle key queue s).1.queues
      ≡ (if str_eq key j then unless_finished queue else lookup j s.queues)
unfolding settle unless_finished
lookup-settle key j queue s = elim (Bool-cases (is_terminal_status queue.transaction.status)) [
  | inl e ↦
      rw (e, lookup-remove key j (insert key queue s.queues), lookup-insert key j queue s.queues)
        (ground arith)
  | inr e ↦ rw (e, lookup-insert key j queue s.queues)
]

terminal-merge_row :
    (reals : Reals) (now later : Time) (entry : LogEntry) (row : MailRow)
    (queue : QueuedTransaction)
    → row.terminal ≡ false
    → IsPending row
    → row.status ≡ queue.transaction.status
    → (merge_row reals now entry row).terminal
      ≡ is_terminal_status (absorb later entry queue).transaction.status
unfolding merge_row absorb overwrite
terminal-merge_row reals now later entry row queue live p e = elim (str_eq-cases entry.status "") [
  | inl (b, q) ↦ rw (b, ← e, live, q, p.unfinished) (unfold is_terminal_status in refl)
  | inr (b, _) ↦ rw (b, live)
]

-- The row and the queue agree on the line, and on whether it ends them.
written_lem :
    (reals : Reals) (now later : Time) (entry : LogEntry) (id : ℕ) (o : Option MailRow)
    (slot : Option QueuedTransaction)
    → ((row : MailRow) → o ≡ some row → (row.terminal ≡ false) × IsPending row)
    → AgreesSlot reals o slot
    → ((written reals now entry id o).terminal
        ≡ is_terminal_status (absorb later entry (queue_or_new entry slot)).transaction.status)
      × Agrees reals
          (written reals now entry id o)
          (absorb later entry (queue_or_new entry slot)).transaction
unfolding queue_or_new
written_lem reals now later entry id none none live h = (
  unfold new_row absorb new_queue in ap is_terminal_status (sym (overwrite-nil entry.status)),
  new_row-Agrees reals id now later entry,
)
written_lem reals now later entry id none (some queue) live h = absurd h
written_lem reals now later entry id (some row) none live h = absurd h
written_lem reals now later entry id (some row) (some queue) live h = (
  terminal-merge_row reals now later entry row queue (live row refl).0 (live row refl).1 h.status,
  merge_row-Agrees reals now later entry row queue h,
)

-- The same facts for the row that the table and the stitcher hold.
merge_step :
    (now later : Time) (entry : LogEntry) (db : Database) (s : TransactionStitcher)
    → entry.queue_id ≢ ""
    → IsUnique db.mail_transactions
    → Simulates db s
    → ((written db.reals now entry db.next_id (active entry.queue_id db.mail_transactions)).terminal
        ≡ is_terminal_status
            (absorb later entry
              (queue_or_new entry (lookup entry.queue_id s.queues))).transaction.status)
      × Agrees db.reals
          (written db.reals now entry db.next_id (active entry.queue_id db.mail_transactions))
          (absorb later entry (queue_or_new entry (lookup entry.queue_id s.queues))).transaction
merge_step now later entry db s ne u h =
    written_lem db.reals now later entry db.next_id (active entry.queue_id db.mail_transactions)
      (lookup entry.queue_id s.queues)
      (λ row e. (
        (active-IsActive entry.queue_id db.mail_transactions row e).1,
        active-IsPending entry.queue_id db.mail_transactions row u e,
      ))
      (h.at_key entry.queue_id ne)

AgreesSlot-if :
    (reals : Reals) (b c : Bool) (row : MailRow) (queue : QueuedTransaction)
    → b ≡ c
    → Agrees reals row queue.transaction
    → AgreesSlot reals (if b then none else some row) (if c then none else some queue)
AgreesSlot-if reals true true row queue e h = tt
AgreesSlot-if reals false false row queue e h = h
AgreesSlot-if reals true false row queue e h = absurd (cc)
AgreesSlot-if reals false true row queue e h = absurd (cc)

AgreesDone-settle :
    (reals : Reals) (key : String) (row : MailRow) (queue : QueuedTransaction)
    (s : TransactionStitcher)
    → row.terminal ≡ is_terminal_status queue.transaction.status
    → Agrees reals row queue.transaction
    → AgreesDone reals row (settle key queue s).0
unfolding settle
AgreesDone-settle reals key row queue s e h =
    elim (Bool-cases (is_terminal_status queue.transaction.status)) [
      | inl b ↦ rw b (e ∙ b, h)
      | inr b ↦ rw b (e ∙ b)
    ]

-- The same after the rows of the merge, for every queue id.
pub merged-Simulates :
    (now later : Time) (entry : LogEntry) (db : Database) (s : TransactionStitcher)
    → entry.queue_id ≢ ""
    → IsUnique db.mail_transactions
    → Simulates db s
    → Simulates (merged now entry db) (apply later (some entry) s).1
      × AgreesDone db.reals
          (written db.reals now entry db.next_id (active entry.queue_id db.mail_transactions))
          (apply later (some entry) s).0
unfolding apply
merged-Simulates now later entry db s ne u h = elim (str_eq-cases entry.queue_id "") [
  | inl (_, p) ↦ absurd (ne p)
  | inr (e, _) ↦
      let (ends, same) = merge_step now later entry db s ne u h in
      rw e (
        record {
          at_key = λ j nj.
              rw
                (
                  merged-reals now entry db,
                  active-merged now entry db j u,
                  lookup-settle entry.queue_id j (queue entry.queue_id) s,
                )
                (elim (Bool-cases (str_eq entry.queue_id j)) [
                  | inl b ↦ rw b (
                      unfold unless_finished in
                      AgreesSlot-if db.reals _ _ (row entry.queue_id) (queue entry.queue_id) ends
                        same)
                  | inr b ↦ rw b (h.at_key j nj)
                ]);
        },
        AgreesDone-settle db.reals entry.queue_id (row entry.queue_id) (queue entry.queue_id) s ends
            same,
      )
]
  where
    queue : String → QueuedTransaction
    queue k = absorb later entry (queue_or_new entry (lookup k s.queues))

    row : String → MailRow
    row k = written db.reals now entry db.next_id (active k db.mail_transactions)

-- Where the rows are unique and agree with the stitcher's queues, and the line has a queue id:
-- after a merge that returns no error and the `Apply` of the line they agree again, for every
-- queue id; and `Apply` completes a transaction exactly if the row that the merge writes is
-- terminal, and then the two have the same values, up to what a REAL column makes of
-- a float64.
pub merge_mail_transaction-Simulates :
    (now later : Time) (entry : LogEntry) (c : Conn Database) (s : TransactionStitcher)
    → entry.queue_id ≢ ""
    → IsUnique c.db.mail_transactions
    → Simulates c.db s
    → (merge_mail_transaction now entry c).0 ≡ ok tt
    → Simulates (merge_mail_transaction now entry c).1.db (apply later (some entry) s).1
      × AgreesDone c.db.reals
          (written c.db.reals now entry c.db.next_id (active entry.queue_id c.db.mail_transactions))
          (apply later (some entry) s).0
merge_mail_transaction-Simulates now later entry c s ne u h success =
    rw (merge_mail_transaction-merged now entry c success)
      (merged-Simulates now later entry c.db s ne u h)
