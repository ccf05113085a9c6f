-- ===== src/Ingest/Order.antt =====
-- The order in which the loop of RunMailLogIngestor processes the records that arrive.
use kanyigo.Base.{
  ℕ, zero, suc, ◌≤◌, ◌<◌, ◌≡◌, ◌≢◌, refl, sym, ◌∙◌, Option, none, some, List, [], ◌∷◌, length, ◌==◌,
  ==_iff, if◌then◌else◌, ltb, arith, inl, inr, Option-cases, Bool-cases,
}
use kanyigo.Sql.{Result, ok, err}
use kanyigo.Ingest.{
  ParsedRecord, Action, find, without, Loop, resume, unless_failed, drain, receive, receive_all,
  start,
}

pub find-without :
    (i j : ℕ) (ps : List ParsedRecord)
    → find j (without i ps) ≡ (if i == j then none else find j ps)
unfolding find without
find-without i j [] = ground arith
find-without i j (p ∷ ps) = ground (arith, find-without i j ps)

pub length-without : (i : ℕ) (ps : List ParsedRecord) → length (without i ps) ≤ length ps
unfolding without
length-without i [] = omega arith
length-without i (p ∷ ps) = ground (arith, length-without i ps)

pub length-without_found :
    (i : ℕ) (ps : List ParsedRecord) (p : ParsedRecord)
    → find i ps ≡ some p
    → length (without i ps) < length ps
unfolding find without
length-without_found i [] p e = cc
length-without_found i (q ∷ ps) p e =
    ground (arith, length-without i ps, length-without_found i ps p)

-- No two records have one sequence number.
unfoldable pub IsDistinct : List ParsedRecord → Type 0
IsDistinct [] = Unit
IsDistinct (p ∷ ps) = (find p.record'.sequence ps ≡ none) × IsDistinct ps

module _ {S : Type 0} (process : ParsedRecord → Action S) (s₀ : S) where
  -- The records `f 0`, …, `f (n - 1)` have been processed in this order, and the state is `s`.
  pub data InOrder (f : ℕ → Option ParsedRecord) : ℕ → S → Type 0 where
    begin : InOrder f 0 s₀
    next :
        {n : ℕ} {s : S} {s' : S} (p : ParsedRecord)
        → InOrder f n s
        → f n ≡ some p
        → process p s ≡ (ok tt, s')
        → InOrder f (suc n) s'

  -- Every record up to the first that is missing has been processed, or one failed and none after it
  -- was.
  pub data Processed (f : ℕ → Option ParsedRecord) (r : Result (Unit {0}) × Loop S) : Type 0 where
    waiting :
        r.0 ≡ ok tt
        → InOrder f r.1.next_sequence r.1.state
        → f r.1.next_sequence ≡ none
        → Processed f r
    failed :
        {n : ℕ} {s : S} {e : _} (p : ParsedRecord)
        → r.0 ≡ err e
        → InOrder f n s
        → f n ≡ some p
        → process p s ≡ (err e, r.1.state)
        → Processed f r

  InOrder-mono :
      (f g : ℕ → Option ParsedRecord) {n : ℕ} {s : S}
      → ((i : ℕ) (p : ParsedRecord) → f i ≡ some p → g i ≡ some p)
      → InOrder f n s
      → InOrder g n s
  InOrder-mono f g h begin = begin
  InOrder-mono f g h (next {n = n} p o e q) = next p (InOrder-mono f g h o) (h n p e) q

  pub InOrder-found :
      (f : ℕ → Option ParsedRecord) (i : ℕ) {n : ℕ} {s : S} → InOrder f n s → i < n → f i ≢ none
  InOrder-found f i begin h = λ c. absurd (omega arith)
  InOrder-found f i (next {n = n} p o e q) h = elim (Bool-cases (i == n)) [
    | inl b ↦ λ c. let same : i ≡ n = (==_iff i n).0 b in cc
    | inr b ↦ InOrder-found f i o (ground arith)
  ]

  -- What holds of the loop before and after each record, where `f` gives the records received.
  abbrev Pends : (ℕ → Option ParsedRecord) → Loop S → Type 0
  Pends f l = (i : ℕ) → find i l.pending ≡ (if ltb i l.next_sequence then none else f i)

  data Drained (f : ℕ → Option ParsedRecord) (r : Result (Unit {0}) × Loop S) : Type 0 where
    rests :
        r.0 ≡ ok tt
        → InOrder f r.1.next_sequence r.1.state
        → f r.1.next_sequence ≡ none
        → Pends f r.1
        → Drained f r
    breaks :
        {n : ℕ} {s : S} {e : _} (p : ParsedRecord)
        → r.0 ≡ err e
        → InOrder f n s
        → f n ≡ some p
        → process p s ≡ (err e, r.1.state)
        → Drained f r

  found_next :
      (f : ℕ → Option ParsedRecord) (l : Loop S)
      → Pends f l
      → find l.next_sequence l.pending ≡ f l.next_sequence
  found_next f l h = ground (arith, h l.next_sequence)

  Pends-next :
      (f : ℕ → Option ParsedRecord) (l : Loop S) (s : S)
      → Pends f l
      → Pends f (record {
        pending = without l.next_sequence l.pending;
        next_sequence = suc l.next_sequence;
        state = s;
      })
  Pends-next f l s h i = ground (arith, h i, find-without l.next_sequence i l.pending)

  no_pending : (i : ℕ) (ps : List ParsedRecord) → length ps ≤ 0 → find i ps ≡ none
  unfolding find
  no_pending i [] h = refl
  no_pending i (p ∷ ps) h = absurd (omega arith)

  -- The loop ends by its test or by an error, if it does so from the next record on.
  abbrev Drains : (ℕ → Option ParsedRecord) → ℕ → Type 0
  Drains f fuel =
      (l : Loop S)
      → length l.pending ≤ fuel
      → Pends f l
      → InOrder f l.next_sequence l.state
      → Drained f (drain process fuel l)

  resume-Drained :
      (f : ℕ → Option ParsedRecord) (fuel : ℕ) (l : Loop S) (p : ParsedRecord)
      (r : Result (Unit {0}) × S)
      → Drains f fuel
      → length (without l.next_sequence l.pending) ≤ fuel
      → Pends f l
      → InOrder f l.next_sequence l.state
      → f l.next_sequence ≡ some p
      → process p l.state ≡ r
      → Drained f (resume (drain process fuel) l r)
  resume-Drained f fuel l p (ok _, s) ih small h o e q =
      ih _ small (Pends-next f l s h) (next p o e q)
  resume-Drained f fuel l p (err x, s) ih small h o e q = breaks p refl o e q

  drain-Drained : (f : ℕ → Option ParsedRecord) (fuel : ℕ) → Drains f fuel
  unfolding drain
  drain-Drained f zero l small h o =
      rests refl o (sym (found_next f l h) ∙ no_pending l.next_sequence l.pending small) h
  drain-Drained f (suc fuel) l small h o = elim (Option-cases (find l.next_sequence l.pending)) [
    | inl e ↦ rw (e, drain) (rests refl o (sym (found_next f l h) ∙ e) h)
    | inr (p, e) ↦
        rw (e, drain)
          (resume-Drained f fuel l p (process p l.state) (drain-Drained f fuel)
            (omega (arith, length-without_found l.next_sequence l.pending p e)) h o
            (sym (found_next f l h) ∙ e) refl)
  ]

  -- The records received, with one more.
  abbrev add : ParsedRecord → (ℕ → Option ParsedRecord) → ℕ → Option ParsedRecord
  add p f i = if p.record'.sequence == i then some p else f i

  add_mono :
      (f : ℕ → Option ParsedRecord) (p : ParsedRecord)
      → f p.record'.sequence ≡ none
      → (i : ℕ) (q : ParsedRecord) → f i ≡ some q
      → add p f i ≡ some q
  add_mono f p new i q e = ground arith

  receive-Drained :
      (f : ℕ → Option ParsedRecord) (p : ParsedRecord) (l : Loop S)
      → f p.record'.sequence ≡ none
      → Pends f l
      → InOrder f l.next_sequence l.state
      → Drained (add p f) (receive process p l)
  unfolding receive find
  receive-Drained f p l new h o =
      let late : ¬ (p.record'.sequence < l.next_sequence) =
        λ early. InOrder-found f p.record'.sequence o early new in
      drain-Drained (add p f) _ _ (omega arith)
        (λ i. ground (arith, h i, find-without p.record'.sequence i l.pending, late))
        (InOrder-mono f (add p f) (λ i q e. add_mono f p new i q e) o)

  -- The records of a list that arrives, and before it those that `f` gives.
  abbrev after : List ParsedRecord → (ℕ → Option ParsedRecord) → ℕ → Option ParsedRecord
  after ps f i = elim (find i ps) [ none ↦ f i | some p ↦ some p ]

  after-cons :
      (f : ℕ → Option ParsedRecord) (p : ParsedRecord) (ps : List ParsedRecord)
      → find p.record'.sequence ps ≡ none
      → (i : ℕ) → after (p ∷ ps) f i ≡ after ps (add p f) i
  unfolding find
  after-cons f p ps new i = ground arith

  unless_failed-Processed :
      (f g : ℕ → Option ParsedRecord) (ps : List ParsedRecord) (r : Result (Unit {0}) × Loop S)
      → ((i : ℕ) (p : ParsedRecord) → f i ≡ some p → g i ≡ some p)
      → Drained f r
      → ((l : Loop S)
          → InOrder f l.next_sequence l.state
          → f l.next_sequence ≡ none
          → Pends f l
          → Processed g (receive_all process ps l))
      → Processed g (unless_failed (receive_all process ps) r)
  unless_failed-Processed f g ps (ok _, l) m (rests _ o e h) k = k l o e h
  unless_failed-Processed f g ps (ok _, l) m (breaks p e o c q) k = absurd (cc)
  unless_failed-Processed f g ps (err x, l) m (rests e o c h) k = absurd (cc)
  unless_failed-Processed f g ps (err x, l) m (breaks {n = n} p e o c q) k =
      failed p e (InOrder-mono f g m o) (m n p c) q

  still_fresh :
      (f : ℕ → Option ParsedRecord) (p : ParsedRecord) (ps : List ParsedRecord)
      → find p.record'.sequence ps ≡ none
      → ((i : ℕ) (q : ParsedRecord) → find i (p ∷ ps) ≡ some q → f i ≡ none)
      → (i : ℕ) (q : ParsedRecord) → find i ps ≡ some q
      → add p f i ≡ none
  unfolding find
  still_fresh f p ps new fresh i q e = ground (arith, fresh i q)

  after_mono :
      (f : ℕ → Option ParsedRecord) (p : ParsedRecord) (ps : List ParsedRecord)
      → find p.record'.sequence ps ≡ none
      → ((i : ℕ) (q : ParsedRecord) → find i (p ∷ ps) ≡ some q → f i ≡ none)
      → (i : ℕ) (q : ParsedRecord) → add p f i ≡ some q
      → after ps (add p f) i ≡ some q
  after_mono f p ps new fresh i q e = elim (Option-cases (find i ps)) [
    | inl n ↦ rw (n, after) e
    | inr (q', n) ↦ absurd (ground (arith, still_fresh f p ps new fresh i q' n))
  ]

  receive_all-Processed :
      (f g : ℕ → Option ParsedRecord) (ps : List ParsedRecord) (l : Loop S)
      → IsDistinct ps
      → ((i : ℕ) (p : ParsedRecord) → find i ps ≡ some p → f i ≡ none)
      → ((i : ℕ) → g i ≡ after ps f i)
      → InOrder f l.next_sequence l.state
      → f l.next_sequence ≡ none
      → Pends f l
      → Processed g (receive_all process ps l)
  unfolding receive_all IsDistinct find
  receive_all-Processed f g [] l d fresh e o w h =
      waiting refl (InOrder-mono f g (λ i p q. e i ∙ q) o) (e l.next_sequence ∙ w)
  receive_all-Processed f g (p ∷ ps) l d fresh e o w h =
      unless_failed-Processed (add p f) g ps (receive process p l)
        (λ i q a. e i ∙ after-cons f p ps d.0 i ∙ after_mono f p ps d.0 fresh i q a)
        (receive-Drained f p l (fresh p.record'.sequence p (ground arith)) h o)
        λ l' o' w' h'.
          receive_all-Processed (add p f) g ps l' d.1 (still_fresh f p ps d.0 fresh)
            (λ i. e i ∙ after-cons f p ps d.0 i) o' w' h'

  -- If the sequence numbers are distinct, then after records that arrive in any order: either all
  -- records up to the first sequence number that did not arrive have been processed, in the order of
  -- their numbers from 0, and the loop waits for that number; or the records before some number have
  -- been processed so, the processing of that one failed, and the loop returned its error at once.
  pub receive_all-in_order :
      (ps : List ParsedRecord)
      → IsDistinct ps
      → Processed (λ i. find i ps) (receive_all process ps (start s₀))
  receive_all-in_order ps d =
      receive_all-Processed (λ i. none) (λ i. find i ps) ps (start s₀) d (λ i p e. refl)
        (λ i. ground arith) begin refl (unfold find in λ i. ground arith)
