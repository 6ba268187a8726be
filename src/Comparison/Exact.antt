-- ===== src/Comparison/Exact.antt =====
-- comparison/exact.go: the exact two-sided binomial test at 1/2. The operations on float64 are
-- parameters; the integers of math/big are natural numbers, since none is negative here.
use Prim.Native.Nat.{min}
use native.Mathlib.Nat.{div-eq_of_eq-mul_left, add-zero}
use native.Mathlib.Numerals.{add-one}
use native.Mathlib.Decide.{dec_le}
use arandu_attempt.Base.{
  ℕ, zero, suc, ◌+◌, ◌-◌, ◌*◌, ◌/◌, ◌^◌, ◌≤◌, ◌<◌, ◌≡◌, refl, ap, ap₂, ◌∙◌, sym, true, ◌||◌, arith,
}
use arandu_attempt.Base.Int.{
  ℤ, pos, negsuc, ◌+ℤ◌, is_neg, half_word, wrap64, wrap64-pos, wrap64-over, pos-+ℤ,
}
use arandu_attempt.Base.Result.{Result, ok, err}
use arandu_attempt.Comparison.{CompareError, negative_count}

-- What the test uses of float64: `nearest a b` is the float nearest to a / b.
pub record Floats : Type 1 where
  pub Float : Type 0
  pub nearest : ℕ → ℕ → Float
  pub one : Float
  pub twice : Float → Float
  pub min_float : Float → Float → Float

-- The loop of `exactTwoSided`: the rounds left, then `i`, `n`, `coefficient` and `sum`.
tail_loop : ℕ → ℕ → ℕ → ℕ → ℕ → ℕ
tail_loop zero i n coefficient sum = sum
tail_loop (suc rounds) i n coefficient sum =
    tail_loop rounds (i + 1) n (coefficient * (n - i) / (i + 1)) (sum + coefficient)

module _ (f : Floats) where
  open f use {Float, nearest, one, twice, min_float}

  -- What follows the guards; `n` is not negative, and `k` is the smaller count.
  p_value : ℤ → ℕ → Result CompareError Float
  unfolding tail_loop
  p_value (negsuc _) k = err negative_count
  p_value (pos zero) k = ok one
  p_value (pos (suc m)) k =
      let tail = nearest (tail_loop (k + 1) 0 (suc m) 1 0) (2 ^ suc m) in
      ok (min_float one (twice tail))

  unfoldable pub exact_two_sided : ℤ → ℤ → Result CompareError Float
  unfolding p_value
  exact_two_sided (pos a) (pos b) = p_value (wrap64 (pos a +ℤ pos b)) (min a b)
  exact_two_sided _ _ = err negative_count

  unfoldable pub exact_mcnemar : ℤ → ℤ → Result CompareError Float
  unfolding exact_two_sided
  exact_mcnemar regressed recovered = exact_two_sided regressed recovered

  unfoldable pub sign_test : ℤ → ℤ → Result CompareError Float
  unfolding exact_two_sided
  sign_test positive negative = exact_two_sided positive negative

-- Binomial coefficients by Pascal's rule, and the sum of the first of them.
abbrev pub choose : ℕ → ℕ → ℕ
choose n zero = 1
choose zero (suc k) = 0
choose (suc n) (suc k) = choose n k + choose n (suc k)

abbrev pub lower_tail : ℕ → ℕ → ℕ
lower_tail n zero = 1
lower_tail n (suc k) = lower_tail n k + choose n (suc k)

choose_absorb : (n i : ℕ) → suc i * choose n (suc i) + i * choose n i ≡ n * choose n i
choose_absorb zero zero = omega arith
choose_absorb zero (suc i) = omega arith
choose_absorb (suc n) zero = omega (arith, choose_absorb n 0)
choose_absorb (suc n) (suc i) = omega (arith, choose_absorb n i, choose_absorb n (suc i))

choose_over : (n k : ℕ) → n < k → choose n k ≡ 0
choose_over n zero h = elim h [ ]
choose_over zero (suc k) h = refl
choose_over (suc n) (suc k) h =
    omega (arith, choose_over n k (omega arith), choose_over n (suc k) (omega arith))

-- The division in the loop is exact.
choose_step : (n i : ℕ) → choose n i * (n - i) / (i + 1) ≡ choose n (suc i)
choose_step n i = elim (dec_le i n) [
  | yes le ↦ div-eq_of_eq-mul_left (omega arith) (
      let d : ℕ = n - i in
      let e : n ≡ i + d = omega arith in
      let back : choose n i * d + choose n i * i ≡ choose n i * n =
        omega (arith, ap (λ (t : ℕ). choose n i * t) e) in
      omega (arith, choose_absorb n i, back))
  | no gt ↦
      div-eq_of_eq-mul_left (omega arith)
        (rw (choose_over n (suc i) (omega arith), choose_over n i (omega arith)) (omega arith))
]

tail_loop-lower :
    (rounds i n : ℕ)
    → tail_loop rounds (suc i) n (choose n (suc i)) (lower_tail n i) ≡ lower_tail n (i + rounds)
unfolding tail_loop
tail_loop-lower zero i n = rw add-zero
tail_loop-lower (suc r) i n =
    rw (choose_step n (suc i), add-one)
      (tail_loop-lower r (suc i) n ∙ ap (lower_tail n) (omega arith))

-- The whole loop, from `coefficient = 1` and `sum = 0`.
tail_loop_lem : (n k : ℕ) → tail_loop (k + 1) 0 n 1 0 ≡ lower_tail n k
unfolding tail_loop
tail_loop_lem n k =
    let first : 1 * (n - 0) / (0 + 1) ≡ choose n 1 = choose_step n 0 in
    rw add-one (rw first (tail_loop-lower k 0 n ∙ ap (lower_tail n) (omega arith)))

module _ (f : Floats) where
  open f use {Float, nearest, one, twice, min_float}

  -- The two-sided binomial test at 1/2, from the binomial coefficients.
  abbrev pub two_sided : ℕ → ℕ → Float
  two_sided a b = min_float one (twice (nearest (lower_tail (a + b) (min a b)) (2 ^ (a + b))))

  p_value-two_sided :
      (a b m : ℕ) → a + b ≡ m → 0 < m → p_value f (pos m) (min a b) ≡ ok (two_sided a b)
  unfolding p_value
  p_value-two_sided a b zero e h = elim h [ ]
  p_value-two_sided a b (suc m) e h =
      rw (tail_loop_lem (suc m) (min a b))
        (ap (λ t. ok (min_float one (twice (nearest (lower_tail t (min a b)) (2 ^ t))))) (sym e))

  -- For two counts whose sum is positive and fits an `int`, McNemar's test returns
  -- min(1, 2 * t), where t is the float nearest to the sum of the binomial coefficients C(n, i)
  -- for i up to the smaller count, over 2^n, and n is the sum of the counts.
  pub exact_mcnemar-two_sided :
      (a b : ℕ)
      → 0 < a + b
      → a + b < half_word
      → exact_mcnemar f (pos a) (pos b) ≡ ok (two_sided a b)
  unfolding exact_mcnemar
  exact_mcnemar-two_sided a b some_pair fits =
      ap (λ z. p_value f z (min a b)) (ap wrap64 (pos-+ℤ a b) ∙ wrap64-pos (a + b) fits)
      ∙ p_value-two_sided a b (a + b) refl some_pair

  exact_two_sided_comm : (a b : ℤ) → exact_two_sided f a b ≡ exact_two_sided f b a
  unfolding exact_two_sided
  exact_two_sided_comm (pos a) (pos b) =
      ap₂ (λ z k. p_value f (wrap64 z) k) (ground arith) (omega arith)
  exact_two_sided_comm (negsuc a) (pos b) = refl
  exact_two_sided_comm (negsuc a) (negsuc b) = refl
  exact_two_sided_comm (pos a) (negsuc b) = refl

  -- McNemar's test and the sign test are one function, and it is symmetric in its arguments, errors
  -- included.
  pub exact_mcnemar_comm :
      (a b : ℤ)
      → (exact_mcnemar f a b ≡ exact_mcnemar f b a) × (sign_test f a b ≡ exact_mcnemar f b a)
  unfolding exact_mcnemar sign_test
  exact_mcnemar_comm a b = (exact_two_sided_comm a b, exact_two_sided_comm a b)

  p_value_overflow :
      (a b : ℕ)
      → a < half_word
      → b < half_word
      → half_word ≤ a + b
      → exact_two_sided f (pos a) (pos b) ≡ err negative_count
  unfolding exact_two_sided
  p_value_overflow a b ha hb over =
      ap (λ z. p_value f z (min a b))
        (ap wrap64 (pos-+ℤ a b) ∙ wrap64-over (a + b) over (omega arith))

  exact_two_sided_neg :
      (a b : ℤ) → (is_neg a || is_neg b) ≡ true → exact_two_sided f a b ≡ err negative_count
  unfolding exact_two_sided
  exact_two_sided_neg (pos a) (pos b) h = cc
  exact_two_sided_neg (negsuc a) (pos b) h = refl
  exact_two_sided_neg (negsuc a) (negsuc b) h = refl
  exact_two_sided_neg (pos a) (negsuc b) h = refl
