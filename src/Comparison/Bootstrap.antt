-- ===== src/Comparison/Bootstrap.antt =====
-- comparison/bootstrap.go: the percentile bootstrap. The operations on float64 and the sort of a
-- slice of them are parameters, and so are the words of the generator: a list that may end early,
-- which is an outcome of its own. `sort.Slice` is an insertion sort here.
pub mod Indices
pub mod Safety
pub mod Order
use arandu_attempt.Base.{
  ℕ, zero, suc, ◌+◌, ◌-◌, ◌*◌, ◌/◌, ◌≤◌, ◌<◌, ◌≡◌, refl, Bool, true, false, not, ◌||◌, ◌&&◌, Option,
  none, some, List, [], ◌∷◌, arith, ltb, ◌==◌, if◌then◌else◌, length, get_elem?, Bytes, bytes_lt,
}
use arandu_attempt.Base.Int.{ℤ, pos, negsuc, lt_nat}
use arandu_attempt.Base.Result.{Result, ok, err}
use arandu_attempt.Comparison.{
  CompareError, empty, invalid_config, non_finite, Pair, validate_pairs,
}
use arandu_attempt.Comparison.Draw.{draw}

abbrev pub min_resamples : ℕ
min_resamples = 1000

-- What the bootstrap uses of float64. `decimal` reads the shortest decimal of a float back as a
-- numerator and a denominator.
pub record BootFloats : Type 1 where
  pub Float : Type 0
  pub is_open_unit : Float → Bool
  pub decimal : Float → Option (ℕ × ℕ)
  pub is_finite : Float → Bool
  pub zero_float : Float
  pub add : Float → Float → Float
  pub divide : Float → ℕ → Float
  pub of_difference : Bool → Bool → Float
  pub sort_floats : List Float → List Float

-- The end of `PercentileIndices`, on `k`.
with_tail : ℕ → ℕ → Result CompareError (ℕ × ℕ)
with_tail b zero = err invalid_config
with_tail b (suc k) = ok (suc k, b - suc k)

pub record BootstrapConfig (F : BootFloats) : Type 0 where
  pub resamples : ℤ
  pub seed : ℕ
  pub confidence : F.Float

pub record Interval (F : BootFloats) : Type 0 where
  pub lower : F.Float
  pub upper : F.Float
  pub point : F.Float
  pub resamples : ℤ
  pub seed : ℕ
  pub confidence : F.Float
  pub lower_index : ℕ
  pub upper_index : ℕ

-- How a run ends: with a result, by a panic (an index out of range), or with the words used up.
pub data Outcome (A : Type 0) : Type 0 where
  done : A → Outcome A
  panics : Outcome A
  starved : Outcome A

infixl 5 ◌>>=◌
abbrev pub ◌>>=◌ : {A B : Type 0} → Outcome A → (A → Outcome B) → Outcome B
done a >>= f = f a
panics >>= f = panics
starved >>= f = starved

-- A word that `draw` found, and an element of a slice.
abbrev pub supply : {A : Type 0} → Option A → Outcome A
supply none = starved
supply (some a) = done a

abbrev pub index : {A : Type 0} → Option A → Outcome A
index none = panics
index (some a) = done a

-- `sort.Slice` by `sorted[i].ID < sorted[j].ID`.
unfoldable pub insert : Pair → List Pair → List Pair
unfolding bytes_lt
insert p [] = p ∷ []
insert p (q ∷ qs) = let later = insert p qs in if bytes_lt p.id q.id then p ∷ q ∷ qs else q ∷ later

unfoldable pub sort_pairs : List Pair → List Pair
unfolding insert
sort_pairs [] = []
sort_pairs (p ∷ ps) = insert p (sort_pairs ps)

module _ (F : BootFloats) where
  open F use {
    Float, is_open_unit, decimal, is_finite, zero_float, add, divide, of_difference, sort_floats,
  }

  -- k = floor(resamples * (1 - c) / 2), c = p / q in exact arithmetic.
  tail_index : ℕ → Option (ℕ × ℕ) → Result CompareError (ℕ × ℕ)
  unfolding with_tail
  tail_index b none = err invalid_config
  tail_index b (some (p, q)) = with_tail b ((q - p) * b / (q * 2))

  unfoldable pub percentile_indices : ℤ → Float → Result CompareError (ℕ × ℕ)
  unfolding tail_index
  percentile_indices (negsuc _) confidence = err invalid_config
  percentile_indices (pos b) confidence =
      if ltb b min_resamples
      then err invalid_config
      else if not (is_open_unit confidence)
      then err invalid_config
      else tail_index b (decimal confidence)

  -- `for range n { sum += values[draw(source, n)] }`: the rounds left, then `values`, `sum`.
  unfoldable pub resample_sum : ℕ → List Float → Float → List ℕ → Outcome (Float × List ℕ)
  resample_sum zero values sum words = done (sum, words)
  resample_sum (suc rounds) values sum words = do
    (j, rest) ← supply (draw (length values) words)
    v ← index (get_elem? values j)
    resample_sum rounds values (add sum v) rest

  -- The loop over `statistics`: the resamples left.
  unfoldable pub resample : ℕ → List Float → List ℕ → Outcome (List Float)
  unfolding resample_sum
  resample zero values words = done []
  resample (suc b) values words = do
    (sum, rest) ← resample_sum (length values) values zero_float words
    others ← resample b values rest
    done (divide sum (length values) ∷ others)

  sum_floats : Float → List Float → Float
  sum_floats sum [] = sum
  sum_floats sum (v ∷ vs) = sum_floats (add sum v) vs

  -- `Interval{Lower: statistics[lower], …}`, and the check of the three floats.
  read_interval :
      List Float
      → BootstrapConfig F
      → ℕ × ℕ
      → List Float
      → Outcome (Result CompareError (Interval F))
  unfolding sum_floats
  read_interval values cfg bounds sorted = do
    a ← index (get_elem? sorted bounds.0)
    b ← index (get_elem? sorted bounds.1)
    let point = divide (sum_floats zero_float values) (length values)
    done (
        if not (is_finite a) || not (is_finite b) || not (is_finite point)
        then err non_finite
        else ok (record {
          lower = a;
          upper = b;
          point = point;
          resamples = cfg.resamples;
          seed = cfg.seed;
          confidence = cfg.confidence;
          lower_index = bounds.0;
          upper_index = bounds.1;
        }))

  -- `make([]float64, cfg.Resamples)` has a length that the indices have shown to be positive.
  abbrev rounds : ℤ → ℕ
  rounds (pos b) = b
  rounds (negsuc _) = 0

  unfoldable pub bootstrap :
      List Float → BootstrapConfig F → List ℕ → Outcome (Result CompareError (Interval F))
  unfolding percentile_indices resample read_interval
  bootstrap values cfg words = elim (percentile_indices cfg.resamples cfg.confidence) [
    | err e ↦ done (err e)
    | ok bounds ↦ do
      statistics ← resample (rounds cfg.resamples) values words
      read_interval values cfg bounds (sort_floats statistics)
  ]

  unfoldable pub differences : List Pair → List Float
  differences [] = []
  differences (p ∷ ps) = of_difference p.candidate p.base ∷ differences ps

  unfoldable pub bootstrap_paired :
      List Pair → BootstrapConfig F → List ℕ → Outcome (Result CompareError (Interval F))
  unfolding bootstrap differences
  bootstrap_paired pairs cfg words = elim (validate_pairs pairs) [
    | some e ↦ done (err e)
    | none ↦ bootstrap (differences (sort_pairs pairs)) cfg words
  ]

  all_finite : List Float → Bool
  all_finite [] = true
  all_finite (v ∷ vs) = is_finite v && all_finite vs

  unfoldable pub bootstrap_mean :
      List Float → BootstrapConfig F → List ℕ → Outcome (Result CompareError (Interval F))
  unfolding bootstrap all_finite
  bootstrap_mean [] cfg words = done (err empty)
  bootstrap_mean (v ∷ vs) cfg words =
      if all_finite (v ∷ vs)
      then bootstrap (sort_floats (v ∷ vs)) cfg words
      else done (err non_finite)
