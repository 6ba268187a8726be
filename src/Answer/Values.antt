-- ===== src/Answer/Values.antt =====
-- Lemmas on the rational numbers of the package answer: cross-multiplication, and the quotient of
-- the fractions by it.
use arandu_attempt.Base.{
  ℕ, ◌+◌, ◌*◌, ◌<◌, ◌==◌, ◌≡◌, refl, sym, ap, ◌↔◌, Bool, true, false, ◌&&◌, ◌||◌, if◌then◌else◌,
  arith,
}
use native.Mathlib.Nat.{eq_of_mul-eq-mul_right, ℕ_set}
use mathlib.Core.Quot.{Setoid, Quotient}
use mathlib.Core.Quot.Quotient
use arandu_attempt.Answer.{Rat, same_rat, agree}

-- A fraction with a denominator.
abbrev pub Fraction : Type 0
Fraction = (r : Rat) × (0 < r.den)

-- The two parts of a numerator, one of which is 0.
abbrev pub up : Rat → ℕ
up r = if r.negative then 0 else r.num

abbrev pub down : Rat → ℕ
down r = if r.negative then r.num else 0

-- a and b are equal as fractions, without a subtraction.
abbrev pub Agrees : Rat → Rat → Type 0
Agrees a b = up a * b.den + down b * a.den ≡ up b * a.den + down a * b.den

pub Agrees-trans : (a b c : Fraction) → Agrees (a.0) (b.0) → Agrees (b.0) (c.0) → Agrees (a.0) (c.0)
Agrees-trans (a, _) (b, b_pos) (c, _) h k =
    eq_of_mul-eq-mul_right b.den b_pos _ _
      (omega (arith, ap (λ t. t * c.den) h, ap (λ t. t * a.den) k))

abbrev pub cross : Setoid {0, 0} Fraction
cross = record {
  r = λ a b. Agrees (a.0) (b.0);
  iseqv = record { refl = λ a. refl; symm = λ a b h. sym h; trans = Agrees-trans };
}

-- The rational numbers, and the number that a fraction denotes.
abbrev pub ℚ : Type 0
ℚ = Quotient cross

abbrev pub value : Fraction → ℚ
value a = Quotient.mk cross a

zero_of_mul : (n d : ℕ) → 0 < d → n * d ≡ 0 → n ≡ 0
zero_of_mul n d d_pos h = eq_of_mul-eq-mul_right d d_pos n 0 (omega arith)

-- Numbers with different signs are equal if both are 0.
mixed_lem : (n m d e : ℕ) → 0 < e → ((n * e == m * d && (n == 0)) ≡ true) ↔ (n * e + m * d ≡ 0)
mixed_lem n m d e e_pos = (
  λ h.
      let z : n ≡ 0 = ground (arith, h) in
      let q : n * e ≡ m * d = ground (arith, h) in omega (arith, q, ap (λ t. t * e) z),
  λ h.
      let z : n ≡ 0 = zero_of_mul n e e_pos (omega (arith, h)) in
      let q : n * e ≡ m * d = omega (arith, h) in ground (arith, z, q),
)

-- The test on numbers with the signs apart.
signs_lem :
    (s t : Bool) (n m d e : ℕ)
    → 0 < d
    → 0 < e
    → ((n * e == m * d && (agree s t || n == 0)) ≡ true) ↔ (
        (if s then 0 else n) * e + (if t then m else 0) * d
        ≡ (if t then 0 else m) * d + (if s then n else 0) * e)
signs_lem true true n m d e _ _ = ground arith
signs_lem false false n m d e _ _ = ground arith
signs_lem true false n m d e _ e_pos =
    let both = mixed_lem n m d e e_pos in
    (λ h. omega (arith, both.0 h), λ h. both.1 (omega (arith, h)))
signs_lem false true n m d e _ e_pos =
    let both = mixed_lem n m d e e_pos in
    (λ h. omega (arith, both.0 h), λ h. both.1 (omega (arith, h)))

-- `Cmp` tells the fractions apart that denote different numbers.
pub same_rat_iff : (a b : Fraction) → (same_rat (a.0) (b.0) ≡ true) ↔ (value a ≡ value b)
same_rat_iff (a, a_pos) (b, b_pos) =
    let both = signs_lem a.negative b.negative a.num b.num a.den b.den a_pos b_pos in
    (
      λ h. Quotient.sound cross (both.0 h),
      λ h. both.1 (Quotient.exact cross (λ x y. hlevel ℕ_set) h),
    )
