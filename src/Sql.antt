-- ===== src/Sql.antt =====
-- Statements and transactions of database/sql, as the program uses them. PostgreSQL is outside of
-- the repository: what each statement does to its tables is translated from the statement's text,
-- and whether it succeeds is chosen by a list of outcomes, one for each call that reaches the server.
pub mod Atomic
use kanyigo.Base.{String, ◌≡◌, refl, ◌⊎◌, inl, inr, List, [], ◌∷◌}

pub data Result {ℓ} (A : Type ℓ) : Type ℓ where
  ok : A → Result A
  err : String → Result A

pub Result-cases {ℓ} :
    {A : Type ℓ} (r : Result A) → ((a : A) × (r ≡ ok a)) ⊎ ((e : String) × (r ≡ err e))
Result-cases (ok a) = inl (a, refl)
Result-cases (err e) = inr (e, refl)

-- `lost`: the server did the work, and the answer did not arrive. `refused`: it did nothing.
pub data Outcome : Type 0 where
  done refused lost : Outcome

pub record Conn {ℓ} (D : Type ℓ) : Type ℓ where
  pub db : D
  pub outcomes : List Outcome

abbrev pub Sql {ℓ} : Type ℓ → Type ℓ → Type ℓ
Sql D A = Conn D → Result A × Conn D

abbrev pub first : List Outcome → Outcome
first [] = done
first (o ∷ os) = o

abbrev pub rest : List Outcome → List Outcome
rest [] = []
rest (o ∷ os) = os

module _ {ℓ} {D A : Type ℓ} where
  abbrev pub pure : A → Sql D A
  pure a c = (ok a, c)

  unfoldable pub fail : String → Sql D A
  fail e c = (err e, c)

module _ {ℓ} {D A B : Type ℓ} where
  abbrev pub continue : Result A → (A → Sql D B) → Sql D B
  continue (ok a) f c = f a c
  continue (err e) f c = (err e, c)

  infixl 5 ◌>>=◌ ◌>>◌
  -- `if err != nil { return err }` after each call
  unfoldable pub ◌>>=◌ : Sql D A → (A → Sql D B) → Sql D B
  ◌>>=◌ m f c = let (r, c') = m c in continue r f c'

  abbrev pub ◌>>◌ : Sql D A → Sql D B → Sql D B
  m >> n = m >>= λ _. n

module _ {ℓ} {D A : Type ℓ} where
  abbrev pub effect : Conn D → Result (A × D) → Result A × Conn D
  effect c (ok (a, d)) = (ok a, record c { db = d })
  effect c (err e) = (err e, c)

  -- tx.Exec and tx.QueryRow: inside a transaction a failure leaves the rows as they were.
  unfoldable pub exec : (D → Result (A × D)) → Sql D A
  exec f c =
      let c' = record c { outcomes = rest c.outcomes } in
      elim (first c.outcomes) [ done ↦ effect c' (f c.db) | _ ↦ (err "statement failed", c') ]

  abbrev pub committed : D → Outcome → Result A × Conn D → Result A × Conn D
  committed d done r = r
  committed d refused (r, c) = (err "commit failed", record c { db = d })
  committed d lost (r, c) = (err "commit failed", c)

  -- `tx.Commit()`, or the deferred `tx.Rollback()` where the body returned an error
  abbrev pub finish : D → Result A × Conn D → Result A × Conn D
  finish d (err e, c) = (err e, record c { db = d })
  finish d (ok a, c) =
      committed d (first c.outcomes) (ok a, record c { outcomes = rest c.outcomes })

  abbrev pub begin : Outcome → D → Conn D → Sql D A → Result A × Conn D
  begin done d c body = finish d (body c)
  begin refused d c body = (err "begin failed", c)
  begin lost d c body = (err "begin failed", c)

  -- `tx, err := db.Begin(); …; defer tx.Rollback(); …; return tx.Commit()`
  unfoldable pub in_tx : Sql D A → Sql D A
  in_tx body c = begin (first c.outcomes) c.db (record c { outcomes = rest c.outcomes }) body

  abbrev pub answer : Outcome → Conn D → Result A × Conn D → Result A × Conn D
  answer done c r = r
  answer refused c r = (err "statement failed", c)
  answer lost c (ok a, c') = (err "statement failed", c')
  answer lost c (err e, c') = (err e, c')

  -- db.Exec and db.QueryRow outside of a transaction: a lost answer leaves the effect.
  unfoldable pub exec_auto : (D → Result (A × D)) → Sql D A
  exec_auto f c =
      let c' = record c { outcomes = rest c.outcomes } in
      answer (first c.outcomes) c' (effect c' (f c.db))
