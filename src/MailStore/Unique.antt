-- ===== src/MailStore/Unique.antt =====
-- The active rows of mail_transactions, which the unique index is about.
use kanyigo.Base.{
  ◌≡◌, refl, sym, subst, String, false, not, ◌&&◌, none, some, List, [], ◌∷◌, inl, inr, arith,
  str_eq, eq_iff, Bool-cases, Option-cases, if◌then◌else◌, ltb,
}
use kanyigo.LogEntry.{LogEntry, Time}
use kanyigo.Schema.{Database, MailRow, Reals}
use kanyigo.Stitcher.{is_terminal_status, overwrite}
use kanyigo.MailStore.{merge_row, new_row, is_active, active, update_active, time_out, evict_rows}
use kanyigo.MailStore.Merge.{merged}

-- What holds of an active row.
pub record IsPending (row : MailRow) : Type 0 where
  pub unfinished : is_terminal_status row.status ≡ false
  pub in_time : row.timed_out ≡ false

-- An active row is pending, and no older row of its queue id is active.
unfoldable pub IsUnique : List MailRow → Type 0
IsUnique [] = Unit
IsUnique (row ∷ rows) =
    (row.terminal ≡ false → (active row.queue_id rows ≡ none) × IsPending row) × IsUnique rows

-- An active row is one of its queue id that is not terminal.
pub active-IsActive :
    (key : String) (rows : List MailRow) (row : MailRow)
    → active key rows ≡ some row
    → (row.queue_id ≡ key) × (row.terminal ≡ false)
unfolding active is_active
active-IsActive key [] row e = cc
active-IsActive key (r ∷ rows) row e =
    ground (arith, eq_iff r.queue_id key, active-IsActive key rows row)

pub active-IsPending :
    (key : String) (rows : List MailRow) (row : MailRow)
    → IsUnique rows
    → active key rows ≡ some row
    → IsPending row
unfolding active is_active IsUnique
active-IsPending key [] row u e = cc
active-IsPending key (r ∷ rows) row u e = ground (arith, u.0, active-IsPending key rows row u.1)

-- The active row of each queue id after an UPDATE that keeps the queue id.
pub active-update_active :
    (key j : String) (f : MailRow → MailRow) (rows : List MailRow) (row : MailRow)
    → ((r : MailRow) → (f r).queue_id ≡ r.queue_id)
    → IsUnique rows
    → active key rows ≡ some row
    → active j (update_active key f rows)
      ≡ (if str_eq key j then (if (f row).terminal then none else some (f row)) else active j rows)
unfolding active update_active is_active IsUnique
active-update_active key j f [] row keep u e = cc
active-update_active key j f (r ∷ rows) row keep u e = ground (
  arith,
  u.0,
  keep r,
  eq_iff r.queue_id key,
  eq_iff r.queue_id j,
  eq_iff key j,
  active-update_active key j f rows row keep u.1,
)

update_active-IsUnique :
    (key : String) (f : MailRow → MailRow) (rows : List MailRow) (row : MailRow)
    → ((r : MailRow) → (f r).queue_id ≡ r.queue_id)
    → ((f row).terminal ≡ false → IsPending (f row))
    → IsUnique rows
    → active key rows ≡ some row
    → IsUnique (update_active key f rows)
unfolding active update_active IsUnique is_active
update_active-IsUnique key f [] row keep pending u e = cc
update_active-IsUnique key f (r ∷ rows) row keep pending u e = elim (Bool-cases (is_active key r)) [
  | inl a ↦
      let here : r ≡ row = ground arith in
      rw a (
        λ live. (
          ground (arith, u.0, keep r),
          subst (λ x. (f x).terminal ≡ false → IsPending (f x)) (sym here) pending live,
        ),
        u.1,
      )
  | inr a ↦
      let later : active key rows ≡ some row = ground arith in
      rw a (
        λ live. (
          ground (
            arith,
            u.0 live,
            eq_iff r.queue_id key,
            eq_iff key r.queue_id,
            active-update_active key r.queue_id f rows row keep u.1 later,
          ),
          (u.0 live).1,
        ),
        update_active-IsUnique key f rows row keep pending u.1 later,
      )
]

merge_row-IsPending :
    (reals : Reals) (now : Time) (entry : LogEntry) (row : MailRow)
    → IsPending row
    → (merge_row reals now entry row).terminal ≡ false
    → IsPending (merge_row reals now entry row)
unfolding merge_row overwrite
merge_row-IsPending reals now entry row p e = ground arith

new_row-IsUnique :
    (now : Time) (entry : LogEntry) (db : Database)
    → active entry.queue_id db.mail_transactions ≡ none
    → IsUnique db.mail_transactions
    → IsUnique (new_row db.reals db.next_id now entry ∷ db.mail_transactions)
unfolding IsUnique new_row
new_row-IsUnique now entry db e u = (λ live. (e, record { unfinished = live; in_time = refl }), u)

-- A merge keeps the rows unique.
pub merged-IsUnique :
    (now : Time) (entry : LogEntry) (db : Database)
    → IsUnique db.mail_transactions
    → IsUnique (merged now entry db).mail_transactions
unfolding merged
merged-IsUnique now entry db u = elim (Option-cases (active entry.queue_id db.mail_transactions)) [
  | inl e ↦ rw (e, merged) (new_row-IsUnique now entry db e u)
  | inr (row, e) ↦
      rw (e, merged)
        (update_active-IsUnique entry.queue_id (merge_row db.reals now entry) db.mail_transactions
          row (unfold merge_row in λ r. refl)
          (merge_row-IsPending db.reals now entry row
            (active-IsPending entry.queue_id db.mail_transactions row u e))
          u e)
]

active-evict_rows :
    (now cutoff : Time) (key : String) (rows : List MailRow)
    → active key rows ≡ none
    → active key (evict_rows now cutoff rows) ≡ none
unfolding active evict_rows is_active time_out
active-evict_rows now cutoff key [] e = refl
active-evict_rows now cutoff key (row ∷ rows) e =
    ground (arith, active-evict_rows now cutoff key rows)

-- An eviction keeps the rows unique.
pub evict_rows-IsUnique :
    (now cutoff : Time) (rows : List MailRow)
    → IsUnique rows
    → IsUnique (evict_rows now cutoff rows)
unfolding IsUnique evict_rows time_out
evict_rows-IsUnique now cutoff [] u = tt
evict_rows-IsUnique now cutoff (row ∷ rows) u =
    elim (Bool-cases (not row.terminal && ltb row.updated_at cutoff)) [
      | inl a ↦ rw a (λ live. absurd (cc), evict_rows-IsUnique now cutoff rows u.1)
      | inr a ↦ rw a (
        λ live. (active-evict_rows now cutoff row.queue_id rows (u.0 live).0, (u.0 live).1),
        evict_rows-IsUnique now cutoff rows u.1,
      )
    ]
