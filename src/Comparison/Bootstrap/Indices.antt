-- ===== src/Comparison/Bootstrap/Indices.antt =====
-- comparison/bootstrap.go, `PercentileIndices`: lemmas on the indices.
use native.Mathlib.Nat.{mul-le-mul_right, div-mul-le_self, lt-div-mul-add}
use native.Mathlib.Decide.{dec_le}
use arandu_attempt.Base.{
  ℕ, zero, suc, ◌+◌, ◌-◌, ◌*◌, ◌/◌, ◌≤◌, ◌<◌, ◌≡◌, refl, true, Option, some, arith, ◌∙◌, sym, ap,
}
use arandu_attempt.Base.Int.{ℤ, pos, negsuc}
use arandu_attempt.Base.Result.{ok}
use arandu_attempt.Comparison.Bootstrap.{
  min_resamples, BootFloats, with_tail, tail_index, percentile_indices,
}

-- k < b / 2, since the tail is below one half.
tail-lt : (p q b : ℕ) → 0 < p → p < q → 0 < b → (q - p) * b / (q * 2) * 2 < b
tail-lt p q b hp hq hb =
    let k : ℕ = (q - p) * b / (q * 2) in
    let low : k * (q * 2) ≤ (q - p) * b = div-mul-le_self ((q - p) * b) (q * 2) in half k low
  where
    half : (k : ℕ) → k * (q * 2) ≤ (q - p) * b → k * 2 < b
    half k low =
        let d : ℕ = q - p in
        let e : d < q = omega arith in
        let less : d * b < q * b = grind arith in
        let m : k * 2 * q < b * q = omega arith in
        elim (dec_le b (k * 2)) [
          | yes ge ↦ let up : b * q ≤ k * 2 * q = mul-le-mul_right q ge in absurd (omega arith)
          | no lt ↦ omega arith
        ]

-- What `PercentileIndices` promises of `lower` and `upper`, when the confidence is p / q.
pub record AreIndices (b p q lower upper : ℕ) : Type 0 where
  pub enough : min_resamples ≤ b
  pub lower_pos : 0 < lower
  pub in_order : lower < upper
  pub in_range : upper < b
  pub symmetric : lower + upper ≡ b
  pub floor_low : lower * (q * 2) ≤ (q - p) * b
  pub floor_high : (q - p) * b < (lower + 1) * (q * 2)

module _ (F : BootFloats) where
  open F use {Float, is_open_unit, decimal, sort_floats, is_finite}

  -- The shortest decimal of a float strictly between 0 and 1 is a fraction strictly between them.
  abbrev pub DecimalIsOpen : Type 0
  DecimalIsOpen =
      (c : Float)
      → is_open_unit c ≡ true
      → (p : ℕ) × (q : ℕ) × (decimal c ≡ some (p, q)) × (0 < p) × (p < q)

  with_tail-AreIndices :
      (b p q k l u : ℕ)
      → min_resamples ≤ b
      → 0 < p
      → p < q
      → k ≡ (q - p) * b / (q * 2)
      → with_tail b k ≡ ok (l, u)
      → AreIndices b p q l u
  unfolding with_tail
  with_tail-AreIndices b p q zero l u hb hp hq e h = absurd (cc)
  with_tail-AreIndices b p q (suc k) l u hb hp hq e h =
      let el : suc k ≡ l = ground arith in
      let eu : b - suc k ≡ u = ground arith in
      let half : suc k * 2 < b = rw e (tail-lt p q b hp hq (omega arith)) in
      let low : suc k * (q * 2) ≤ (q - p) * b = rw e (div-mul-le_self ((q - p) * b) (q * 2)) in
      let high : (q - p) * b < suc k * (q * 2) + q * 2 =
        rw e (lt-div-mul-add {a = (q - p) * b} {b = q * 2} (omega arith)) in
      rw (← el, ← eu)
        (record {
          enough = hb;
          lower_pos = omega arith;
          in_order = omega arith;
          in_range = omega arith;
          symmetric = omega arith;
          floor_low = low;
          floor_high = omega arith;
        })

  tail_index-with_tail :
      (b p q : ℕ) (o : Option (ℕ × ℕ)) {l u : ℕ}
      → o ≡ some (p, q)
      → tail_index F b o ≡ ok (l, u)
      → with_tail b ((q - p) * b / (q * 2)) ≡ ok (l, u)
  unfolding tail_index
  tail_index-with_tail b p q o e h = ap (tail_index F b) (sym e) ∙ h

  -- Whenever `PercentileIndices` returns indices, the resamples are a number b of at least 1000, the
  -- confidence is a fraction p / q strictly between 0 and 1, the lower index is
  -- floor(b * (1 - p / q) / 2) and positive, the upper one is b less that, and
  -- 0 < lower < upper < b.
  pub percentile_indices-AreIndices :
      DecimalIsOpen
      → (resamples : ℤ) (confidence : Float) {l u : ℕ}
      → percentile_indices F resamples confidence ≡ ok (l, u)
      → (b : ℕ) × (p : ℕ) × (q : ℕ) × (resamples ≡ pos b)
        × (decimal confidence ≡ some (p, q))
        × AreIndices b p q l u
  unfolding percentile_indices
  percentile_indices-AreIndices open_unit (negsuc m) c h = cc
  percentile_indices-AreIndices open_unit (pos b) c {l} {u} h =
      let enough : min_resamples ≤ b = ground arith in
      let inside : is_open_unit c ≡ true = ground arith in
      let (p, q, e, hp, hq) = open_unit c inside in
      let body : tail_index F b (decimal c) ≡ ok (l, u) = ground arith in
      (
        b,
        p,
        q,
        refl,
        e,
        with_tail-AreIndices b p q _ l u enough hp hq refl
            (tail_index-with_tail b p q (decimal c) e body),
      )
