-- ===== src/Comparison.antt =====
-- comparison/comparison.go: pairs, their transitions and the rates. A count is Go's `int`, an
-- integer wrapped to 64 bits; an exact fraction of math/big is its numerator over its denominator.
-- The rounding of a fraction to a float64 is a parameter. The children have the proofs and the
-- files exact.go and bootstrap.go.
pub mod Validate
pub mod Tally
pub mod Exact
pub mod Draw
pub mod Bootstrap
use arandu_attempt.Base.{
  ℕ, zero, ◌<◌, ◌≡◌, Bool, true, false, ◌||◌, Option, none, some, List, [], ◌∷◌, Bytes, bytes_eq,
  if◌then◌else◌,
}
use arandu_attempt.Base.Int.{ℤ, pos, negsuc, ◌+ℤ◌, ◌-ℤ◌, is_neg, wrap64}
use arandu_attempt.Base.Result.{Result, ok, err}

pub data CompareError : Type 0 where
  empty empty_id duplicate_id negative_count non_finite invalid_config : CompareError

pub record Pair : Type 0 where
  pub id : Bytes
  pub base : Bool
  pub candidate : Bool

pub record Transitions : Type 0 where
  pub preserved_correct : ℤ
  pub regressed : ℤ
  pub recovered : ℤ
  pub persistent_error : ℤ

-- `t.N()`: each sum wraps.
unfoldable pub n : Transitions → ℤ
n t =
    wrap64
      (wrap64 (wrap64 (t.preserved_correct +ℤ t.regressed) +ℤ t.recovered) +ℤ t.persistent_error)

-- A lookup in `seen`, the ids read so far.
unfoldable pub contains : List Bytes → Bytes → Bool
contains [] a = false
contains (x ∷ xs) a = bytes_eq x a || contains xs a

-- The loop of `validatePairs`; `none` is a nil error.
unfoldable pub validate_from : List Bytes → List Pair → Option CompareError
unfolding contains
validate_from seen [] = none
validate_from seen (p ∷ ps) =
    if bytes_eq p.id []
    then some empty_id
    else if contains seen p.id
    then some duplicate_id
    else validate_from (p.id ∷ seen) ps

unfoldable pub validate_pairs : List Pair → Option CompareError
unfolding validate_from
validate_pairs [] = some empty
validate_pairs (p ∷ ps) = validate_from [] (p ∷ ps)

abbrev increment : ℤ → ℤ
increment c = wrap64 (c +ℤ pos 1)

-- The switch in the loop of `Count`, on `p.Base` and `p.Candidate`.
unfoldable pub classify : Bool → Bool → Transitions → Transitions
classify true true t = record t { preserved_correct = increment t.preserved_correct }
classify true false t = record t { regressed = increment t.regressed }
classify false true t = record t { recovered = increment t.recovered }
classify false false t = record t { persistent_error = increment t.persistent_error }

unfoldable pub tally : Transitions → List Pair → Transitions
tally t [] = t
tally t (p ∷ ps) = tally (classify p.base p.candidate t) ps

abbrev pub no_transitions : Transitions
no_transitions = record {
  preserved_correct = pos 0;
  regressed = pos 0;
  recovered = pos 0;
  persistent_error = pos 0;
}

unfoldable pub count : List Pair → Result CompareError Transitions
count pairs = elim (validate_pairs pairs) [
  | none ↦ ok (tally no_transitions pairs)
  | some e ↦ err e
]

-- A `*big.Rat`, as `big.NewRat(num, den)` is given it.
pub record Fraction : Type 0 where
  pub num : ℤ
  pub den : ℤ

-- `Rates`, over the type `F` of float64 values.
pub record Rates (F : Type 0) : Type 0 where
  pub vgr : F
  pub rr : F
  pub nvg : F
  pub recovered : ℤ
  pub regressed : ℤ
  pub examples : ℤ

-- `fraction`, on the number of examples.
unfoldable pub fraction : ℤ → ℤ → Fraction
fraction (pos zero) num = record { num = pos 0; den = pos 1 }
fraction examples num = record { num = num; den = examples }

module _ {F : Type 0} where
  unfoldable pub exact_vgr : Rates F → Fraction
  unfolding fraction
  exact_vgr r = fraction r.examples r.recovered

  unfoldable pub exact_rr : Rates F → Fraction
  unfolding fraction
  exact_rr r = fraction r.examples r.regressed

  unfoldable pub exact_nvg : Rates F → Fraction
  unfolding fraction
  exact_nvg r = fraction r.examples (wrap64 (r.recovered -ℤ r.regressed))

-- `ratFloat` is the parameter `nearest`.
module _ {F : Type 0} (nearest : Fraction → F) where
  -- The three float fields are filled from the exact fractions.
  filled : ℤ → ℤ → ℤ → Rates F
  unfolding fraction
  filled recovered regressed examples = record {
    vgr = nearest (fraction examples recovered);
    rr = nearest (fraction examples regressed);
    nvg = nearest (fraction examples (wrap64 (recovered -ℤ regressed)));
    recovered = recovered;
    regressed = regressed;
    examples = examples;
  }

  rates_of : Transitions → ℤ → Result CompareError (Rates F)
  unfolding filled
  rates_of t (pos zero) = err empty
  rates_of t examples = ok (filled t.recovered t.regressed examples)

  unfoldable pub rates : Transitions → Result CompareError (Rates F)
  unfolding rates_of n
  rates t =
      if is_neg t.preserved_correct
        || is_neg t.regressed
        || is_neg t.recovered
        || is_neg t.persistent_error
      then err negative_count
      else rates_of t (n t)
