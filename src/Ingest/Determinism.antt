-- ===== src/Ingest/Determinism.antt =====
-- The order in which the workers hand over their records, and the end of the loop.
use kanyigo.Base.{
  ℕ, ◌<◌, ◌≡◌, refl, sym, ap, ◌∙◌, subst, Option, none, some, List, arith, inl, inr, Bool-cases,
  ==_iff, ◌==◌,
}
use mathlib.Core.Path.{fun_ext}
use kanyigo.Sql.{Result, ok, err}
use kanyigo.Ingest.{ParsedRecord, Action, find, Loop, receive_all, start}
use kanyigo.Ingest.Order.{
  IsDistinct, InOrder, begin, next, InOrder-found, Processed, waiting, failed, receive_all-in_order,
}

module _ {S : Type 0} (process : ParsedRecord → Action S) (s₀ : S)
    (f : ℕ → Option ParsedRecord) where
  InOrder-unique : {n : ℕ} {s t : S} → InOrder process s₀ f n s → InOrder process s₀ f n t → s ≡ t
  InOrder-unique begin begin = refl
  InOrder-unique (next p o e q) (next p' o' e' q') = let same = InOrder-unique o o' in cc

  -- The step that processed the record `i`.
  InOrder-step :
      (i : ℕ) {n : ℕ} {s : S}
      → InOrder process s₀ f n s
      → i < n
      → (p : ParsedRecord) × (t : S) × (t' : S) × InOrder process s₀ f i t
        × (f i ≡ some p)
        × (process p t ≡ (ok tt, t'))
  InOrder-step i begin h = absurd (omega arith)
  InOrder-step i (next {n = n} {s = t} {s' = t'} p o e q) h = elim (Bool-cases (i == n)) [
    | inl b ↦
        let same : i ≡ n = (==_iff i n).0 b in
        (p, t, t', subst (λ k. InOrder process s₀ f k t) (sym same) o, ap f same ∙ e, q)
    | inr b ↦ InOrder-step i o (ground arith)
  ]

  -- The result and the state of two runs.
  abbrev Same : Result (Unit {0}) × Loop S → Result (Unit {0}) × Loop S → Type 0
  Same r r' = (r.0 ≡ r'.0) × (r.1.state ≡ r'.1.state)

  -- How a run ends that has processed the first `n` records and reached `s`.
  data End (n : ℕ) (s : S) (r : Result (Unit {0}) × Loop S) : Type 0 where
    stops : f n ≡ none → r.0 ≡ ok tt → r.1.state ≡ s → End n s r
    fails :
        {e : _} (p : ParsedRecord)
        → f n ≡ some p
        → r.0 ≡ err e
        → process p s ≡ (err e, r.1.state)
        → End n s r

  End-of :
      {r : Result (Unit {0}) × Loop S}
      → Processed process s₀ f r
      → (n : ℕ) × (s : S) × InOrder process s₀ f n s × End n s r
  End-of {r} (waiting e o w) = (r.1.next_sequence, r.1.state, o, stops w e refl)
  End-of (failed {n = n} {s = s} p e o c q) = (n, s, o, fails p c e q)

  -- Nothing is processed after the end of a run.
  not-lt-End :
      {n m : ℕ} {s t : S} {r : Result (Unit {0}) × Loop S}
      → InOrder process s₀ f n s
      → End n s r
      → InOrder process s₀ f m t
      → ¬ (n < m)
  not-lt-End {n} o (stops w e d) o' = λ lt. InOrder-found process s₀ f n o' lt w
  not-lt-End {n} o (fails p c e q) o' =
      λ lt. let (p', t, t', u, c', q') = InOrder-step n o' lt in let same = InOrder-unique o u in cc

  End-unique :
      {n : ℕ} {s : S} {r r' : Result (Unit {0}) × Loop S} → End n s r → End n s r' → Same r r'
  End-unique (stops w e d) (stops w' e' d') = (cc, cc)
  End-unique (stops w e d) (fails p c e' q) = (absurd (cc), absurd (cc))
  End-unique (fails p c e q) (stops w e' d) = (absurd (cc), absurd (cc))
  End-unique (fails p c e q) (fails p' c' e' q') = (cc, cc)

  Processed-unique :
      (r r' : Result (Unit {0}) × Loop S)
      → Processed process s₀ f r
      → Processed process s₀ f r'
      → Same r r'
  Processed-unique r r' h h' =
      let (n, s, o, d) = End-of h in
      let (n', s', o', d') = End-of h' in
      let level : n' ≡ n = omega (arith, not-lt-End o d o', not-lt-End o' d' o) in
      let o'' = subst (λ k. InOrder process s₀ f k s') level o' in
      let same = InOrder-unique o'' o in
      End-unique d (subst (λ t. End n t r') same (subst (λ k. End k s' r') level d'))

  Processed-ext :
      (g : ℕ → Option ParsedRecord) {r : Result (Unit {0}) × Loop S}
      → ((i : ℕ) → g i ≡ f i)
      → Processed process s₀ g r
      → Processed process s₀ f r
  Processed-ext g {r} e h = subst (λ k. Processed process s₀ k r) (fun_ext e) h

-- Two orders of arrival of the same records, with distinct sequence numbers, end with the same
-- result and the same state, whatever the processing of a record does and wherever it fails.
pub receive_all-order :
    {S : Type 0} (process : ParsedRecord → Action S) (s₀ : S) (ps qs : List ParsedRecord)
    → IsDistinct ps
    → IsDistinct qs
    → ((i : ℕ) → find i qs ≡ find i ps)
    → ((receive_all process ps (start s₀)).0 ≡ (receive_all process qs (start s₀)).0)
      × ((receive_all process ps (start s₀)).1.state ≡ (receive_all process qs (start s₀)).1.state)
receive_all-order process s₀ ps qs d d' e =
    Processed-unique process s₀ (λ i. find i ps) (receive_all process ps (start s₀))
      (receive_all process qs (start s₀)) (receive_all-in_order process s₀ ps d)
      (Processed-ext process s₀ (λ i. find i ps) (λ i. find i qs) e
        (receive_all-in_order process s₀ qs d'))
