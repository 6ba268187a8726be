-- ===== src/Comparison/Bootstrap/Safety.antt =====
-- comparison/bootstrap.go, `bootstrap`: lemmas on the slices that it reads.
use arandu_attempt.Base.{
  ℕ, zero, suc, ◌<◌, ◌≡◌, refl, ap, Option, none, some, List, [], ◌∷◌, arith, length, get_elem?,
  All, ◌∙◌, true, Bool-cases, inl, inr,
}
use arandu_attempt.Base.Int.{pos}
use arandu_attempt.Base.Result.{Result, ok, err}
use arandu_attempt.Comparison.{CompareError}
use arandu_attempt.Comparison.Draw.{draw, draw-lt, word_count}
use arandu_attempt.Comparison.Bootstrap.{
  BootFloats, BootstrapConfig, Interval, Outcome, done, panics, starved, percentile_indices,
  resample_sum, resample, read_interval, sum_floats, ◌>>=◌, supply, index, rounds, bootstrap,
}
use arandu_attempt.Comparison.Bootstrap.Indices.{DecimalIsOpen, percentile_indices-AreIndices}

-- A run does not panic, and what it returns meets `P`; the words may run out.
abbrev pub Ensures : {A : Type 0} → (A → Type 0) → Outcome A → Type 0
Ensures P (done a) = P a
Ensures P panics = ⊥
Ensures P starved = Unit

abbrev AreWords : List ℕ → Type 0
AreWords = All (λ w. w < word_count)

get_elem?-lt {ℓ} :
    {A : Type ℓ} (xs : List A) (j : ℕ) → j < length xs → (x : A) × (get_elem? xs j ≡ some x)
get_elem?-lt [] j h = elim h [ ]
get_elem?-lt (x ∷ xs) zero h = (x, refl)
get_elem?-lt (x ∷ xs) (suc j) h = get_elem?-lt xs j (omega arith)

Ensures-bind :
    {A B : Type 0} (P : A → Type 0) (Q : B → Type 0) (m : Outcome A) (f : A → Outcome B)
    → Ensures P m
    → ((a : A) → P a → Ensures Q (f a))
    → Ensures Q (m >>= f)
Ensures-bind P Q (done a) f h next = next a h
Ensures-bind P Q panics f h next = h
Ensures-bind P Q starved f h next = tt

-- The same, where what follows may use how the first run ended.
Ensures-after :
    {A B : Type 0} (P : A → Type 0) (Q : B → Type 0) (m : Outcome A) (f : A → Outcome B)
    → Ensures P m
    → ((a : A) → m ≡ done a → P a → Ensures Q (f a))
    → Ensures Q (m >>= f)
Ensures-after P Q (done a) f h next = next a refl h
Ensures-after P Q panics f h next = h
Ensures-after P Q starved f h next = tt

module _ (F : BootFloats) where
  open F use {is_finite, Float, add, zero_float, sort_floats, divide}

  draw-Ensures :
      (n : ℕ) (words : List ℕ)
      → 0 < n
      → n < word_count
      → AreWords words
      → Ensures (λ r. (r.0 < n) × AreWords r.1) (supply (draw n words))
  draw-Ensures n words h k all = go (draw n words) refl
    where
      go :
          (o : Option (ℕ × List ℕ))
          → draw n words ≡ o
          → Ensures (λ r. (r.0 < n) × AreWords r.1) (supply o)
      go none e = tt
      go (some (j, rest)) e = draw-lt n words h k all e

  index-Ensures :
      (values : List Float) (j : ℕ)
      → j < length values
      → Ensures (λ _. Unit {0}) (index (get_elem? values j))
  index-Ensures values j h = rw (get_elem?-lt values j h).1 tt

  resample_sum-Ensures :
      (n : ℕ) (values : List Float) (sum : Float) (words : List ℕ)
      → 0 < length values
      → length values < word_count
      → AreWords words
      → Ensures (λ r. AreWords r.1) (resample_sum F n values sum words)
  unfolding resample_sum
  resample_sum-Ensures zero values sum words h k all = all
  resample_sum-Ensures (suc n) values sum words h k all =
      Ensures-bind (λ r. (r.0 < length values) × AreWords r.1) _
        (supply (draw (length values) words)) _ (draw-Ensures (length values) words h k all)
        λ r p.
          Ensures-bind (λ _. Unit {0}) _ (index (get_elem? values r.0)) _
            (index-Ensures values r.0 p.0)
            λ v _. resample_sum-Ensures n values (add sum v) r.1 h k p.1

  resample-Ensures :
      (b : ℕ) (values : List Float) (words : List ℕ)
      → 0 < length values
      → length values < word_count
      → AreWords words
      → Ensures (λ statistics. length statistics ≡ b) (resample F b values words)
  unfolding resample
  resample-Ensures zero values words h k all = refl
  resample-Ensures (suc b) values words h k all =
      Ensures-bind (λ r. AreWords r.1) _ (resample_sum F (length values) values zero_float words) _
        (resample_sum-Ensures (length values) values zero_float words h k all)
        λ r p.
          Ensures-bind (λ statistics. length statistics ≡ b) _ (resample F b values r.1) _
            (resample-Ensures b values r.1 h k p) λ others e. ap suc e

  -- What a successful interval carries: the configuration, its indices, and, as finite floats, the
  -- sorted statistics at these indices.
  abbrev pub Reports :
      List Float → BootstrapConfig F → List ℕ → Result CompareError (Interval F) → Type 0
  Reports values cfg words (err e) = Unit
  Reports values cfg words (ok i) =
      (i.resamples ≡ cfg.resamples)
      × (i.seed ≡ cfg.seed)
      × (i.confidence ≡ cfg.confidence)
      × (percentile_indices F cfg.resamples cfg.confidence ≡ ok (i.lower_index, i.upper_index))
      × ((statistics : List Float) × (resample F (rounds F cfg.resamples) values words
            ≡ done statistics)
          × (get_elem? (sort_floats statistics) i.lower_index ≡ some i.lower)
          × (get_elem? (sort_floats statistics) i.upper_index ≡ some i.upper))
      × ((is_finite i.lower ≡ true) × (is_finite i.upper ≡ true) × (is_finite i.point ≡ true))

  read_interval-Ensures :
      (values : List Float) (cfg : BootstrapConfig F) (words : List ℕ) (l u : ℕ)
      (statistics : List Float)
      → percentile_indices F cfg.resamples cfg.confidence ≡ ok (l, u)
      → resample F (rounds F cfg.resamples) values words ≡ done statistics
      → l < length (sort_floats statistics)
      → u < length (sort_floats statistics)
      → Ensures
          (Reports values cfg words)
          (read_interval F values cfg (l, u) (sort_floats statistics))
  unfolding read_interval
  read_interval-Ensures values cfg words l u statistics e ran hl hu =
      let (a, ea) = get_elem?-lt (sort_floats statistics) l hl in
      let (b, eb) = get_elem?-lt (sort_floats statistics) u hu in
      let point = divide (sum_floats F zero_float values) (length values) in
      elim (Bool-cases (is_finite a)) [
        | inr n ↦ rw (ea, eb, n) tt
        | inl fa ↦ elim (Bool-cases (is_finite b)) [
          | inr n ↦ rw (ea, eb, fa, n) tt
          | inl fb ↦ elim (Bool-cases (is_finite point)) [
            | inr n ↦ rw (ea, eb, fa, fb, n) tt
            | inl fp ↦
                rw (ea, eb, fa, fb, fp)
                  (refl, refl, refl, e, (statistics, ran, ea, eb), (fa, fb, fp))
          ]
        ]
      ]

  -- The facts about the slices that `bootstrap` is given: a sort keeps the length.
  abbrev pub SortKeepsLength : Type 0
  SortKeepsLength = (xs : List Float) → length (sort_floats xs) ≡ length xs

  -- On values that are not empty, `bootstrap` reads no slice out of range, whatever the
  -- configuration is: it ends with an error, with an interval, or for want of words. An interval
  -- carries the configuration and the indices that `PercentileIndices` gives for it, its three floats
  -- are finite, and its bounds are the sorted statistics of the resamples at these indices. There are
  -- fewer than 2^64 values, and the words are 64-bit words.
  pub bootstrap-Ensures :
      DecimalIsOpen F
      → SortKeepsLength
      → (values : List Float) (cfg : BootstrapConfig F) (words : List ℕ) → 0 < length values
      → length values < word_count
      → AreWords words
      → Ensures (Reports values cfg words) (bootstrap F values cfg words)
  unfolding bootstrap
  bootstrap-Ensures open_unit keeps values cfg words h k all =
      go (percentile_indices F cfg.resamples cfg.confidence) refl
    where
      read :
          (l u b : ℕ)
          → percentile_indices F cfg.resamples cfg.confidence ≡ ok (l, u)
          → cfg.resamples ≡ pos b
          → l < u
          → u < b
          → Ensures (Reports values cfg words) (
              resample F (rounds F cfg.resamples) values words >>= λ statistics.
              read_interval F values cfg (l, u) (sort_floats statistics))
      read l u b e eb lu ub =
          Ensures-after (λ statistics. length statistics ≡ b) _
            (resample F (rounds F cfg.resamples) values words) _
            (rw eb (resample-Ensures b values words h k all))
            λ statistics ran n.
              let m : length (sort_floats statistics) ≡ b = keeps statistics ∙ n in
              read_interval-Ensures values cfg words l u statistics e ran (rw m (omega arith))
                (rw m ub)

      go :
          (r : Result CompareError (ℕ × ℕ))
          → percentile_indices F cfg.resamples cfg.confidence ≡ r
          → Ensures (Reports values cfg words) (bootstrap F values cfg words)
      go (err e) p = rw (p, bootstrap) tt
      go (ok (l, u)) p =
          let (b, _, _, eb, _, i) =
            percentile_indices-AreIndices F open_unit cfg.resamples cfg.confidence p in
          rw (p, bootstrap) (read l u b p eb i.in_order i.in_range)
