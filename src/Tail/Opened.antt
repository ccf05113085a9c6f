-- ===== src/Tail/Opened.antt =====
-- Where followMailLog of stream.go begins, for a checkpoint and what the calls of the opening answer.
use kanyigo.Base.{
  ℕ, ◌≤◌, String, ◌≡◌, refl, ap, ◌∙◌, ◌⊎◌, inl, inr, Bool-cases, Option-cases, some, List, [],
  arith,
}
use kanyigo.Base.Int.{ℤ, pos}
use kanyigo.Schema.{IngestState}
use kanyigo.Sql.{ok, err, Result-cases}
use kanyigo.Tail.{
  StreamConfig, FileInfo, Opening, Round, validate_stream_config, start_offset, open_mail_log,
  follow, first_round, follow_mail_log,
}

-- What a start may find at the path: the file, with this size, or an error.
abbrev pub Finds : ℤ → ℕ → Opening → Type 0
Finds inode size opening =
    (info : FileInfo) → opening.info ≡ some info → info ≡ record { inode = inode; size = size }

-- The checkpoint is at this offset, or there is none yet.
abbrev pub IsAt : ℤ → ℕ → IngestState → Type 0
IsAt inode n state =
    (state ≡ record { offset_bytes = pos n; inode = inode })
    ⊎ ((state.offset_bytes ≡ pos 0) × (n ≡ 0))

start_offset-at :
    (inode : ℤ) (n size : ℕ) (state : IngestState)
    → n ≤ size
    → IsAt inode n state
    → start_offset state (record { inode = inode; size = size }) ≡ n
unfolding start_offset
start_offset-at inode n size state fits (inl e) = rw e (ground arith)
start_offset-at inode n size state fits (inr (e, z)) = rw (e, z) (ground arith)

-- A start opens the file at the checkpoint, or fails.
pub opened :
    (inode : ℤ) (n size : ℕ) (state : IngestState) (opening : Opening)
    → n ≤ size
    → IsAt inode n state
    → Finds inode size opening
    → (open_mail_log opening state ≡ ok (inode, n))
      ⊎ ((e : String) × (open_mail_log opening state ≡ err e))
unfolding open_mail_log start_offset
opened inode n size state opening fits at finds = elim (Bool-cases opening.open_ok) [
  | inr e ↦ rw e (inr ("open maillog", refl))
  | inl e ↦ elim (Option-cases opening.info) [
    | inl f ↦ rw (e, f) (inr ("stat maillog", refl))
    | inr (info, f) ↦ elim (Bool-cases opening.seek_ok) [
      | inr g ↦ rw (e, f, g) (inr ("seek maillog", refl))
      | inl g ↦
          rw (e, f, g)
            (inl (
              ap (λ i. ok (i.inode, start_offset state i)) (finds info f)
              ∙ ap (λ k. ok (inode, k)) (start_offset-at inode n size state fits at)))
    ]
  ]
]

-- The records of a start are those of the loop from there on, or there are none.
pub sent_from :
    (cfg : StreamConfig) (opening : Opening) (rounds : List Round) (inode : ℤ) (n : ℕ)
    (state : IngestState)
    → (open_mail_log opening state ≡ ok (inode, n))
      ⊎ ((e : String) × (open_mail_log opening state ≡ err e))
    → ((follow_mail_log cfg opening state rounds).0 ≡ [])
      ⊎ ((follow_mail_log cfg opening state rounds).0 ≡ (follow cfg rounds (first_round inode n)).0)
unfolding follow_mail_log
sent_from cfg opening rounds inode n state o = elim (Result-cases (validate_stream_config cfg)) [
  | inr (_, e) ↦ rw (follow_mail_log, e) (inl refl)
  | inl (_, e) ↦ elim o [
    | inr (_, f) ↦ rw (follow_mail_log, e, f) (inl refl)
    | inl f ↦ rw (follow_mail_log, e, f) (inr refl)
  ]
]
