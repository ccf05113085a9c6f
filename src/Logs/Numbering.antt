-- ===== src/Logs/Numbering.antt =====
-- The numbers of the placeholders that handleLogs of server.go builds.
use kanyigo.Base.{
  String, ℕ, zero, suc, ◌≤◌, ◌≡◌, refl, sym, ◌∙◌, Bool, true, false, ◌&&◌, ◌||◌, some, List, [],
  ◌∷◌, ◌++◌, All, length, length-append, arith, inl, inr, Bool-cases, str_eq,
}
use kanyigo.Schema.{MailRow}
use kanyigo.Logs.{
  Arg, Test, Statement, Postgres, add_arg, add_test, add_filter, arg_at, holds, binds, all_hold,
  all_bind,
}

-- Every placeholder names an argument.
abbrev pub AreNumbered : List Arg → List (Test × ℕ) → Type 0
AreNumbered args = All (λ t. t.1 ≤ length args)

pub arg_at-append :
    (n : ℕ) (args more : List Arg) → n ≤ length args → arg_at n (args ++ more) ≡ arg_at n args
unfolding arg_at
arg_at-append zero [] [] h = refl
arg_at-append zero [] (v ∷ more) h = refl
arg_at-append (suc n) [] more h = absurd (omega arith)
arg_at-append zero (v ∷ args) more h = refl
arg_at-append (suc zero) (v ∷ args) more h = refl
arg_at-append (suc (suc n)) (v ∷ args) more h = arg_at-append (suc n) args more (omega arith)

pub arg_at-last :
    (args : List Arg) (v : Arg) → arg_at (length (args ++ v ∷ [])) (args ++ v ∷ []) ≡ some v
unfolding arg_at
arg_at-last [] v = refl
arg_at-last (w ∷ []) v = refl
arg_at-last (w ∷ w' ∷ args) v = arg_at-last (w' ∷ args) v

pub AreNumbered-append :
    (args more : List Arg) (tests : List (Test × ℕ))
    → AreNumbered args tests
    → AreNumbered (args ++ more) tests
AreNumbered-append args more [] h = tt
AreNumbered-append args more ((t, n) ∷ tests) (h, hs) =
    (omega (arith, length-append args more), AreNumbered-append args more tests hs)

AreNumbered-snoc :
    (args : List Arg) (tests : List (Test × ℕ)) (t : Test) (n : ℕ)
    → AreNumbered args tests
    → n ≤ length args
    → AreNumbered args (tests ++ (t, n) ∷ [])
AreNumbered-snoc args [] t n h l = (l, tt)
AreNumbered-snoc args (c ∷ tests) t n (h, hs) l = (h, AreNumbered-snoc args tests t n hs l)

module _ (pg : Postgres) where
  -- More arguments change nothing for the conditions that are there.
  pub all_hold-append :
      (args more : List Arg) (tests : List (Test × ℕ)) (row : MailRow)
      → AreNumbered args tests
      → all_hold pg (args ++ more) tests row ≡ all_hold pg args tests row
  unfolding all_hold
  all_hold-append args more [] row h = refl
  all_hold-append args more ((t, n) ∷ tests) row (h, hs) =
      rw (arg_at-append n args more h, all_hold-append args more tests row hs) refl

  pub all_bind-append :
      (args more : List Arg) (tests : List (Test × ℕ))
      → AreNumbered args tests
      → all_bind pg (args ++ more) tests ≡ all_bind pg args tests
  unfolding all_bind
  all_bind-append args more [] h = refl
  all_bind-append args more ((t, n) ∷ tests) (h, hs) =
      rw (arg_at-append n args more h, all_bind-append args more tests hs) refl

  all_hold-snoc :
      (args : List Arg) (tests : List (Test × ℕ)) (t : Test) (n : ℕ) (row : MailRow)
      → all_hold pg args (tests ++ (t, n) ∷ []) row
        ≡ (all_hold pg args tests row && holds pg t (arg_at n args) row)
  unfolding all_hold
  all_hold-snoc args [] t n row = ground arith
  all_hold-snoc args ((u, m) ∷ tests) t n row = rw (all_hold-snoc args tests t n row) (ground arith)

  all_bind-snoc :
      (args : List Arg) (tests : List (Test × ℕ)) (t : Test) (n : ℕ)
      → all_bind pg args (tests ++ (t, n) ∷ [])
        ≡ (all_bind pg args tests && binds pg t (arg_at n args))
  unfolding all_bind
  all_bind-snoc args [] t n = ground arith
  all_bind-snoc args ((u, m) ∷ tests) t n = rw (all_bind-snoc args tests t n) (ground arith)

  -- What a statement selects, whatever it is made of.
  pub record Selects (s : Statement) (p : MailRow → Bool) (b : Bool) : Type 0 where
    pub numbered : AreNumbered s.args s.where'
    pub selects : (row : MailRow) → all_hold pg s.args s.where' row ≡ p row
    pub binds_if : all_bind pg s.args s.where' ≡ b

  Selects-add_test :
      (t : Test) (v : Arg) (s : Statement) {p : MailRow → Bool} {b : Bool}
      → Selects s p b
      → Selects
          (add_test t v s)
          (λ row. p row && holds pg t (some v) row)
          (b && binds pg t (some v))
  unfolding add_test add_arg
  Selects-add_test t v s h =
      let args = s.args ++ v ∷ [] in
      let old = AreNumbered-append s.args (v ∷ []) s.where' h.numbered in
      let here = arg_at-last s.args v in
      record {
        numbered = AreNumbered-snoc args s.where' t (length args) old (omega arith);
        selects = λ row.
            all_hold-snoc args s.where' t (length args) row
            ∙ rw (here, all_hold-append s.args (v ∷ []) s.where' row h.numbered, h.selects row)
                refl;
        binds_if =
            all_bind-snoc args s.where' t (length args)
            ∙ rw (here, all_bind-append s.args (v ∷ []) s.where' h.numbered, h.binds_if) refl;
      }

  -- A filter that is not given selects every row.
  pub Selects-add_filter :
      (value : String) (t : Test) (v : Arg) (s : Statement) {p : MailRow → Bool} {b : Bool}
      → Selects s p b
      → Selects
          (add_filter value t v s)
          (λ row. p row && (str_eq value "" || holds pg t (some v) row))
          (b && (str_eq value "" || binds pg t (some v)))
  unfolding add_filter
  Selects-add_filter value t v s {p} {b} h = elim (Bool-cases (str_eq value "")) [
    | inr e ↦ rw e (Selects-add_test t v s h)
    | inl e ↦ rw e (record {
      numbered = h.numbered;
      selects = λ row. h.selects row ∙ sym (and_true (p row));
      binds_if = h.binds_if ∙ sym (and_true b);
    })
  ]
    where
      and_true : (c : Bool) → (c && true) ≡ c
      and_true true = refl
      and_true false = refl
