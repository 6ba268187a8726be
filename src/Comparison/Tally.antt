-- ===== src/Comparison/Tally.antt =====
-- comparison/comparison.go, `Count` and `Rates`: lemmas on the counts.
use arandu_attempt.Base.{
  ℕ, ◌+◌, ◌<◌, ◌≡◌, refl, ap, ap₂, ◌∙◌, Bool, not, ◌&&◌, none, List, [], ◌∷◌, arith, length,
  if◌then◌else◌, zero, suc,
}
use arandu_attempt.Base.Int.{ℤ, pos, ◌-ℤ◌, sub_ℕ, half_word, wrap64, wrap64-pos}
use arandu_attempt.Base.Result.{ok}
use arandu_attempt.Comparison.{
  Pair, Transitions, n, validate_pairs, classify, tally, no_transitions, count, Fraction, Rates,
  fraction, exact_vgr, exact_rr, exact_nvg, rates, rates_of, filled,
}

-- How many pairs pass a test.
abbrev pub count_if : (Pair → Bool) → List Pair → ℕ
count_if test [] = 0
count_if test (p ∷ ps) = (if test p then 1 else 0) + count_if test ps

abbrev pub both : Pair → Bool
both p = p.base && p.candidate

abbrev pub lost : Pair → Bool
lost p = p.base && not p.candidate

abbrev pub gained : Pair → Bool
gained p = not p.base && p.candidate

abbrev pub neither : Pair → Bool
neither p = not p.base && not p.candidate

abbrev pub Counted : Transitions → ℕ → ℕ → ℕ → ℕ → Type 0
Counted t a b c d =
    (t.preserved_correct ≡ pos a)
    × (t.regressed ≡ pos b)
    × (t.recovered ≡ pos c)
    × (t.persistent_error ≡ pos d)

classify-Counted :
    (p : Pair) (t : Transitions) (a b c d : ℕ)
    → Counted t a b c d
    → a + b + c + d + 1 < half_word
    → Counted
        (classify p.base p.candidate t)
        (a + (if both p then 1 else 0))
        (b + (if lost p then 1 else 0))
        (c + (if gained p then 1 else 0))
        (d + (if neither p then 1 else 0))
unfolding classify
classify-Counted p t a b c d h fits =
    ground (arith, wrap64-pos (a + 1), wrap64-pos (b + 1), wrap64-pos (c + 1), wrap64-pos (d + 1))

tally-Counted :
    (ps : List Pair) (t : Transitions) (a b c d : ℕ)
    → Counted t a b c d
    → a + b + c + d + length ps < half_word
    → Counted
        (tally t ps)
        (a + count_if both ps)
        (b + count_if lost ps)
        (c + count_if gained ps)
        (d + count_if neither ps)
unfolding tally
tally-Counted [] t a b c d h fits = ground arith
tally-Counted (p ∷ ps) t a b c d h fits =
    let a' = a + (if both p then 1 else 0) in
    let b' = b + (if lost p then 1 else 0) in
    let c' = c + (if gained p then 1 else 0) in
    let d' = d + (if neither p then 1 else 0) in
    let rest =
      tally-Counted ps (classify p.base p.candidate t) a' b' c' d'
        (classify-Counted p t a b c d h (omega arith)) (ground arith) in
    ground (arith, rest)

count_if-total :
    (ps : List Pair)
    → count_if both ps + count_if lost ps + count_if gained ps + count_if neither ps ≡ length ps
count_if-total [] = refl
count_if-total (p ∷ ps) = ground (arith, count_if-total ps)

count_if-base : (ps : List Pair) → count_if both ps + count_if lost ps ≡ count_if (λ p. p.base) ps
count_if-base [] = refl
count_if-base (p ∷ ps) = ground (arith, count_if-base ps)

count_if-candidate :
    (ps : List Pair) → count_if both ps + count_if gained ps ≡ count_if (λ p. p.candidate) ps
count_if-candidate [] = refl
count_if-candidate (p ∷ ps) = ground (arith, count_if-candidate ps)

count_validates :
    (pairs : List Pair) {t : Transitions}
    → count pairs ≡ ok t
    → (validate_pairs pairs ≡ none) × (t ≡ tally no_transitions pairs)
unfolding count
count_validates pairs h = ground arith

n-Counted :
    (t : Transitions) (a b c d : ℕ)
    → Counted t a b c d
    → a + b + c + d < half_word
    → n t ≡ pos (a + b + c + d)
unfolding n
n-Counted t a b c d h fits =
    ground (arith, wrap64-pos (a + b), wrap64-pos (a + b + c), wrap64-pos (a + b + c + d))

count-Counted :
    (pairs : List Pair) {t : Transitions}
    → length pairs < half_word
    → count pairs ≡ ok t
    → Counted t
        (count_if both pairs)
        (count_if lost pairs)
        (count_if gained pairs)
        (count_if neither pairs)
count-Counted pairs fits h =
    let start = tally-Counted pairs no_transitions 0 0 0 0 (refl, refl, refl, refl) (omega arith) in
    ground (arith, (count_validates pairs h).1, start)

-- The counts that `Count` returns are the numbers of pairs that both models, only the base, only
-- the candidate and neither model answered correctly, and `N` is the number of pairs. The slice
-- has fewer than 2^63 pairs.
pub count_partition :
    (pairs : List Pair) {t : Transitions}
    → length pairs < half_word
    → count pairs ≡ ok t
    → Counted t
        (count_if both pairs)
        (count_if lost pairs)
        (count_if gained pairs)
        (count_if neither pairs)
      × (n t ≡ pos (length pairs))
count_partition pairs {t} fits h =
    let counted = count-Counted pairs fits h in
    let total = count_if-total pairs in
    let sum = n-Counted t _ _ _ _ counted (omega arith) in (counted, sum ∙ ap pos total)

count-pos : (pairs : List Pair) {t : Transitions} → count pairs ≡ ok t → 0 < length pairs
unfolding validate_pairs
count-pos [] h = absurd (cc ((count_validates [] h).0))
count-pos (p ∷ ps) h = omega arith

-- A difference of two `int` counts never wraps, and what both hold cancels.
wrap64-sub :
    (a b k : ℕ) → a < half_word → b < half_word → wrap64 (pos a -ℤ pos b) ≡ sub_ℕ (k + a) (k + b)
unfolding wrap64
wrap64-sub a b k ha hb = ground arith

fraction-pos : (m : ℕ) (num : ℤ) → 0 < m → fraction (pos m) num ≡ record { num = num; den = pos m }
unfolding fraction
fraction-pos zero num h = elim h [ ]
fraction-pos (suc m) num h = refl

module _ {F : Type 0} (nearest : Fraction → F) where
  rates_of-pos :
      (t : Transitions) (m : ℕ)
      → 0 < m
      → rates_of nearest t (pos m) ≡ ok (filled nearest t.recovered t.regressed (pos m))
  unfolding rates_of
  rates_of-pos t zero h = elim h [ ]
  rates_of-pos t (suc m) h = refl

  rates-Counted :
      (t : Transitions) (a b c d : ℕ)
      → Counted t a b c d
      → 0 < a + b + c + d
      → a + b + c + d < half_word
      → rates nearest t ≡ ok (filled nearest (pos c) (pos b) (pos (a + b + c + d)))
  unfolding rates
  rates-Counted t a b c d h some_pair fits =
      ground (arith, n-Counted t a b c d h fits, rates_of-pos t (a + b + c + d) some_pair)

  -- The rates that hold for the numbers of a slice of pairs.
  pub record AreRates (pairs : List Pair) (r : Rates F) : Type 0 where
    pub vgr_is :
        exact_vgr r ≡ record { num = pos (count_if gained pairs); den = pos (length pairs) }
    pub rr_is : exact_rr r ≡ record { num = pos (count_if lost pairs); den = pos (length pairs) }
    pub nvg_is : exact_nvg r ≡ record {
      num = sub_ℕ (count_if (λ p. p.candidate) pairs) (count_if (λ p. p.base) pairs);
      den = pos (length pairs);
    }
    pub vgr_rounded : r.vgr ≡ nearest (exact_vgr r)
    pub rr_rounded : r.rr ≡ nearest (exact_rr r)
    pub nvg_rounded : r.nvg ≡ nearest (exact_nvg r)

  filled-AreRates :
      (pairs : List Pair)
      → 0 < length pairs
      → length pairs < half_word
      → AreRates pairs (
          filled nearest
            (pos (count_if gained pairs))
            (pos (count_if lost pairs))
            (pos (length pairs)))
  unfolding filled exact_vgr exact_rr exact_nvg
  filled-AreRates pairs some_pair fits =
      let total = count_if-total pairs in
      let base = count_if-base pairs in
      let candidate = count_if-candidate pairs in
      let net =
        wrap64-sub (count_if gained pairs) (count_if lost pairs) (count_if both pairs) (omega arith)
          (omega arith)
        ∙ ap₂ sub_ℕ candidate base in
      record {
        vgr_is = fraction-pos _ _ some_pair;
        rr_is = fraction-pos _ _ some_pair;
        nvg_is =
            fraction-pos _ _ some_pair ∙ (λ i. record { num = net i; den = pos (length pairs) });
        vgr_rounded = refl;
        rr_rounded = refl;
        nvg_rounded = refl;
      }

  -- Whenever `Count` accepts a slice of fewer than 2^63 pairs, `Rates` succeeds on its counts: VGR
  -- is the number of pairs gained over the number of pairs, RR that of the pairs lost, NVG the
  -- number of pairs that the candidate answered correctly minus that of the base, over the number
  -- of pairs, and each float field is the rounding of its exact fraction.
  pub rates-count :
      (pairs : List Pair) {t : Transitions}
      → length pairs < half_word
      → count pairs ≡ ok t
      → (r : Rates F) × (rates nearest t ≡ ok r) × AreRates pairs r
  rates-count pairs {t} fits h =
      let total = count_if-total pairs in
      let nonempty = count-pos pairs h in
      (
        filled nearest (pos (count_if gained pairs)) (pos (count_if lost pairs))
            (pos (length pairs)),
        rates-Counted t _ _ _ _ (count-Counted pairs fits h) (omega arith) (omega arith)
            ∙ ap
                (λ m. ok (
                  filled nearest (pos (count_if gained pairs)) (pos (count_if lost pairs)) (pos m)))
                total,
        filled-AreRates pairs nonempty fits,
      )
