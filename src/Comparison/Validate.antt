-- ===== src/Comparison/Validate.antt =====
-- comparison/comparison.go, `validatePairs`: lemmas on the ids.
use arandu_attempt.Base.{
  ◌≡◌, refl, ◌≢◌, ◌↔◌, false, none, List, [], ◌∷◌, Bytes, bytes_eq_iff, arith, All,
}
use arandu_attempt.Comparison.{Pair, contains, validate_from, validate_pairs}

-- Every id is there, and no id stands twice.
abbrev pub IsDistinct : List Pair → Type 0
IsDistinct [] = Unit
IsDistinct (p ∷ ps) = (p.id ≢ []) × All (λ q. q.id ≢ p.id) ps × IsDistinct ps

abbrev Fresh : List Bytes → List Pair → Type 0
Fresh seen ps = All (λ q. contains seen q.id ≡ false) ps

Fresh-cons :
    (seen : List Bytes) (a : Bytes) (ps : List Pair)
    → Fresh seen ps
    → All (λ q. q.id ≢ a) ps
    → Fresh (a ∷ seen) ps
unfolding contains
Fresh-cons seen a [] f d = tt
Fresh-cons seen a (p ∷ ps) (f, fs) (d, ds) =
    (ground (arith, bytes_eq_iff a p.id), Fresh-cons seen a ps fs ds)

Fresh-head :
    (seen : List Bytes) (a : Bytes) (ps : List Pair)
    → Fresh (a ∷ seen) ps
    → Fresh seen ps × All (λ q. q.id ≢ a) ps
unfolding contains
Fresh-head seen a [] f = (tt, tt)
Fresh-head seen a (p ∷ ps) (f, fs) =
    let (g, d) = Fresh-head seen a ps fs in
    ((ground (arith, bytes_eq_iff a p.id), g), (ground (arith, bytes_eq_iff a p.id), d))

validate_from_sound :
    (seen : List Bytes) (ps : List Pair)
    → validate_from seen ps ≡ none
    → Fresh seen ps × IsDistinct ps
unfolding validate_from
validate_from_sound seen [] h = (tt, tt)
validate_from_sound seen (p ∷ ps) h =
    let rest : validate_from (p.id ∷ seen) ps ≡ none = ground arith in
    let (fresh, distinct) = validate_from_sound (p.id ∷ seen) ps rest in
    let (old, new) = Fresh-head seen p.id ps fresh in
    ((ground arith, old), (ground (arith, bytes_eq_iff p.id []), new, distinct))

validate_from_complete :
    (seen : List Bytes) (ps : List Pair)
    → Fresh seen ps
    → IsDistinct ps
    → validate_from seen ps ≡ none
unfolding validate_from
validate_from_complete seen [] f d = refl
validate_from_complete seen (p ∷ ps) (f, fs) (ne, new, ds) = ground (
  arith,
  bytes_eq_iff p.id [],
  validate_from_complete (p.id ∷ seen) ps (Fresh-cons seen p.id ps fs new) ds,
)

Fresh-nil : (ps : List Pair) → Fresh [] ps
unfolding contains
Fresh-nil [] = tt
Fresh-nil (p ∷ ps) = (refl, Fresh-nil ps)

-- `validatePairs` accepts a slice exactly when it is not empty, every pair has an id, and no two
-- pairs have the same id.
pub validate_pairs_iff :
    (pairs : List Pair) → (validate_pairs pairs ≡ none) ↔ ((pairs ≢ []) × IsDistinct pairs)
unfolding validate_pairs
validate_pairs_iff [] = (λ h. cc, λ h. absurd (h.0 refl))
validate_pairs_iff (p ∷ ps) = (
  λ h. (ground arith, (validate_from_sound [] (p ∷ ps) h).1),
  λ h. validate_from_complete [] (p ∷ ps) (Fresh-nil (p ∷ ps)) h.1,
)
