-- ===== src/Sql/Atomic.antt =====
-- How a transaction can end.
use kanyigo.Base.{◌≡◌, refl, sym, ap, String}
use kanyigo.Sql.{
  answer, effect, exec_auto, Result, ok, err, Outcome, done, refused, lost, Conn, Sql, first, rest,
  in_tx, begin, committed, finish, continue, ◌>>=◌,
}

-- The connection with which the body of a transaction runs.
abbrev pub begun {ℓ} : {D : Type ℓ} → Conn D → Conn D
begun c = record c { outcomes = rest c.outcomes }

-- How a transaction may end: with an error and the old rows, or with the rows of its whole body.
pub data Ends {ℓ} {D A : Type ℓ} (body : Sql D A) (c : Conn D) (r : Result A × Conn D)
    : Type ℓ where
  undone : (e : String) → r.0 ≡ err e → r.1.db ≡ c.db → Ends body c r
  through : (a : A) → (body (begun c)).0 ≡ ok a → r.1.db ≡ (body (begun c)).1.db → Ends body c r

module _ {ℓ} {D A : Type ℓ} (body : Sql D A) (c : Conn D) where
  committed-Ends :
      (a : A) (c' : Conn D) (o : Outcome)
      → body (begun c) ≡ (ok a, c')
      → Ends body c (committed c.db o (ok a, record c' { outcomes = rest c'.outcomes }))
  committed-Ends a c' done h = through a (ap (λ r. r.0) h) (sym (ap (λ r. r.1.db) h))
  committed-Ends a c' refused h = undone "commit failed" refl refl
  committed-Ends a c' lost h = through a (ap (λ r. r.0) h) (sym (ap (λ r. r.1.db) h))

  finish-Ends : (r : Result A × Conn D) → body (begun c) ≡ r → Ends body c (finish c.db r)
  finish-Ends (err e, c') h = undone e refl refl
  finish-Ends (ok a, c') h = committed-Ends a c' (first c'.outcomes) h

  begin-Ends : (o : Outcome) → Ends body c (begin o c.db (begun c) body)
  begin-Ends done = finish-Ends (body (begun c)) refl
  begin-Ends refused = undone "begin failed" refl refl
  begin-Ends lost = undone "begin failed" refl refl

  -- Whatever fails, and whenever, a transaction ends with an error and the rows that it began with,
  -- or its body succeeded and the rows are the body's.
  pub in_tx-Ends : Ends body c (in_tx body c)
  unfolding in_tx
  in_tx-Ends = begin-Ends (first c.outcomes)

module _ {ℓ} {D A B : Type ℓ} where
  continue-ok :
      (r : Result A × Conn D) (f : A → Sql D B) {b : B}
      → (continue r.0 f r.1).0 ≡ ok b
      → (a : A) × (r.0 ≡ ok a) × (continue r.0 f r.1 ≡ f a r.1)
  continue-ok (ok a, c) f h = (a, refl, refl)
  continue-ok (err e, c) f h = absurd (cc)

  -- A sequence of two calls succeeds only if the first does, and then it is the second.
  pub >>=-ok :
      (m : Sql D A) (f : A → Sql D B) (c : Conn D) {b : B}
      → ((m >>= f) c).0 ≡ ok b
      → (a : A) × ((m c).0 ≡ ok a) × ((m >>= f) c ≡ f a (m c).1)
  unfolding ◌>>=◌
  >>=-ok m f c h = continue-ok (m c) f h

module _ {A D : Type 0} (f : D → Result (A × D)) (c : Conn D) where
  abbrev ran : Outcome → Result (A × D) → Result A × Conn D
  ran o r = answer o (begun c) (effect (begun c) r)

  -- A statement by itself leaves the rows or does its work.
  pub exec_auto_keeps :
      (P : D → Type 0)
      → P c.db
      → ((a : A) (d : D) → f c.db ≡ ok (a, d) → P d)
      → P (exec_auto f c).1.db
  unfolding exec_auto
  exec_auto_keeps P p g = by_result (first c.outcomes) (f c.db) g
    where
      by_result :
          (o : Outcome) (r : Result (A × D))
          → ((a : A) (d : D) → r ≡ ok (a, d) → P d)
          → P (ran o r).1.db
      by_result done (ok (a, d)) h = h a d refl
      by_result done (err e) h = p
      by_result refused r h = p
      by_result lost (ok (a, d)) h = h a d refl
      by_result lost (err e) h = p

  -- One that returns no error has done its work.
  pub exec_auto_ok : {a : A} → (exec_auto f c).0 ≡ ok a → f c.db ≡ ok (a, (exec_auto f c).1.db)
  unfolding exec_auto
  exec_auto_ok {a} h = by_result (first c.outcomes) (f c.db) h
    where
      by_result :
          (o : Outcome) (r : Result (A × D)) → (ran o r).0 ≡ ok a → r ≡ ok (a, (ran o r).1.db)
      by_result done (ok (b, d)) e = let p : b ≡ a = cc in ap (λ x. ok (x, d)) p
      by_result done (err x) e = absurd cc
      by_result refused r e = absurd cc
      by_result lost (ok (b, d)) e = absurd cc
      by_result lost (err x) e = absurd cc
