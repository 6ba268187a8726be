-- ===== src/Tests/Compare.antt =====
-- The theorems on the comparison at concrete inputs. A float is a number of hundredths here.
use Prim.Native.Nat.{min}
use mathlib.Core.List.{Permᴰ}
use arandu_attempt.Base.{
  ℕ, zero, suc, ◌-◌, All, ◌+◌, ◌*◌, ◌/◌, ◌<◌, ◌≤◌, ◌≡◌, refl, ◌↔◌, ◌&&◌, true, false, none, some,
  List, [], ◌∷◌, codes, bytes_eq, arith, ltb,
}
use arandu_attempt.Base.Int.{ℤ, pos, wrap64}
use arandu_attempt.Base.Result.{ok}
use arandu_attempt.Comparison.{
  Pair, Transitions, n, validate_pairs, classify, tally, count, Fraction, Rates, rates,
}
use arandu_attempt.Comparison.Tally.{
  Counted, AreRates, count_if, both, lost, gained, neither, count_partition, rates-count,
}
use arandu_attempt.Comparison.Exact.{Floats, two_sided, exact_mcnemar, exact_mcnemar-two_sided}
use arandu_attempt.Comparison.Draw.{word_count, draw, draw_uniform}
use arandu_attempt.Comparison.Bootstrap.{
  BootFloats, BootstrapConfig, Interval, done, percentile_indices, bootstrap, bootstrap_paired,
}
use arandu_attempt.Comparison.Bootstrap.Indices.{
  AreIndices, DecimalIsOpen, percentile_indices-AreIndices,
}
use arandu_attempt.Comparison.Bootstrap.Safety.{Reports, bootstrap-Ensures}
use arandu_attempt.Comparison.Bootstrap.Order.{bootstrap_paired-Permᴰ}

abbrev gain : Pair
gain = record { id = codes "p"; base = false; candidate = true }

abbrev loss : Pair
loss = record { id = codes "q"; base = true; candidate = false }

abbrev pairs : List Pair
pairs = gain ∷ loss ∷ []

abbrev counts : Transitions
counts = record {
  preserved_correct = pos 0;
  regressed = pos 1;
  recovered = pos 1;
  persistent_error = pos 0;
}

pairs_valid : validate_pairs pairs ≡ none
unfolding validate_pairs bytes_eq
pairs_valid = refl

pairs-count : count pairs ≡ ok counts
unfolding count validate_pairs bytes_eq tally classify wrap64
pairs-count = refl

abbrev hundredths : Fraction → ℤ
hundredths f = f.num

count_partition_example :
    Counted counts
      (count_if both pairs)
      (count_if lost pairs)
      (count_if gained pairs)
      (count_if neither pairs)
    × (n counts ≡ pos 2)
count_partition_example = count_partition pairs {t = counts} (omega arith) pairs-count

rates-count_example : (r : Rates ℤ) × (rates hundredths counts ≡ ok r) × AreRates hundredths pairs r
rates-count_example = rates-count hundredths pairs {t = counts} (omega arith) pairs-count

abbrev percent : Floats
percent = record {
  Float = ℕ;
  nearest = λ a b. 100 * a / b;
  one = 100;
  twice = λ x. 2 * x;
  min_float = min;
}

exact_mcnemar-two_sided_example : exact_mcnemar percent (pos 1) (pos 5) ≡ ok (two_sided percent 1 5)
exact_mcnemar-two_sided_example = exact_mcnemar-two_sided percent 1 5 (omega arith) (omega arith)

draw_uniform_example :
    (s : ℕ) × (s + word_count / 3 ≤ word_count)
    × ((w : ℕ) → (draw 3 (w ∷ []) ≡ some (1, [])) ↔ ((s ≤ w) × (w < s + word_count / 3)))
draw_uniform_example = draw_uniform 3 1 (omega arith) (omega arith) (omega arith)

drawn : draw 3 (5 ∷ 7 ∷ []) ≡ some (0, 7 ∷ [])
unfolding draw
drawn = refl

abbrev boot : BootFloats
boot = record {
  Float = ℕ;
  is_open_unit = λ c. ltb 0 c && ltb c 100;
  decimal = λ c. some (c, 100);
  is_finite = λ c. true;
  zero_float = 0;
  add = λ a b. a + b;
  divide = λ a b. a / b;
  of_difference = λ c b. 0;
  sort_floats = λ xs. xs;
}

boot-DecimalIsOpen : DecimalIsOpen boot
boot-DecimalIsOpen c h = (c, 100, refl, ground (arith, h), ground (arith, h))

indices_lem : percentile_indices boot (pos 1000) 95 ≡ ok (25, 975)
unfolding percentile_indices
indices_lem = refl

percentile_indices-AreIndices_example :
    (b : ℕ) × (p : ℕ) × (q : ℕ) × (pos 1000 ≡ pos b)
    × (boot.decimal 95 ≡ some (p, q))
    × AreIndices b p q 25 975
percentile_indices-AreIndices_example =
    percentile_indices-AreIndices boot boot-DecimalIsOpen (pos 1000) 95 {l = 25} {u = 975}
      indices_lem

abbrev config : BootstrapConfig boot
config = record { resamples = pos 1000; seed = 7; confidence = 95 }

abbrev repeated : ℕ → ℕ → List ℕ → List ℕ
repeated w zero rest = rest
repeated w (suc k) rest = w ∷ repeated w k rest

repeated-All :
    (w k : ℕ) (rest : List ℕ)
    → w < word_count
    → All (λ x. x < word_count) rest
    → All (λ x. x < word_count) (repeated w k rest)
repeated-All w zero rest h all = all
repeated-All w (suc k) rest h all = (h, repeated-All w k rest h all)

-- Words that draw the first of two values 1000 times, and then the second.
abbrev two_halves : List ℕ
two_halves = repeated 0 1000 (repeated (word_count - 1) 1000 [])

two_halves-All : All (λ x. x < word_count) two_halves
two_halves-All =
    repeated-All 0 1000 (repeated (word_count - 1) 1000 []) (omega arith)
      (repeated-All (word_count - 1) 1000 [] (omega arith) tt)

abbrev halved : Interval boot
halved = record {
  lower = 3;
  upper = 5;
  point = 4;
  resamples = pos 1000;
  seed = 7;
  confidence = 95;
  lower_index = 25;
  upper_index = 975;
}

-- With words enough there is an interval: 1000 sums of two values, and two reads of them.
resampled : bootstrap boot (3 ∷ 5 ∷ []) config two_halves ≡ done (ok halved)
unfolding bootstrap draw
resampled = refl

bootstrap-Ensures_example : Reports boot (3 ∷ 5 ∷ []) config two_halves (ok halved)
unfolding bootstrap draw
bootstrap-Ensures_example =
    bootstrap-Ensures boot boot-DecimalIsOpen (λ xs. refl) (3 ∷ 5 ∷ []) config two_halves
      (omega arith) (omega arith) two_halves-All

bootstrap_paired-Permᴰ_example :
    bootstrap_paired boot pairs config (5 ∷ 7 ∷ [])
    ≡ bootstrap_paired boot (loss ∷ gain ∷ []) config (5 ∷ 7 ∷ [])
bootstrap_paired-Permᴰ_example =
    bootstrap_paired-Permᴰ boot pairs (loss ∷ gain ∷ []) config (5 ∷ 7 ∷ []) pairs_valid
      (Permᴰ.swap refl refl)
