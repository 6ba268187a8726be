-- ===== src/Comparison/Bootstrap/Order.antt =====
-- comparison/bootstrap.go, `BootstrapPaired`: lemmas on the order of the pairs.
use mathlib.Core.List.{Permᴰ}
use arandu_attempt.Base.{
  ℕ, ◌≡◌, refl, ◌≢◌, sym, ap, ap₂, ◌∙◌, true, none, List, [], ◌∷◌, arith, Bytes, bytes_lt, All,
  subst, not,
}
use arandu_attempt.Comparison.{Pair, validate_pairs}
use arandu_attempt.Comparison.Validate.{IsDistinct, validate_pairs_iff}
use arandu_attempt.Comparison.Bootstrap.{
  BootFloats, BootstrapConfig, insert, sort_pairs, differences, bootstrap, bootstrap_paired,
}

bytes_lt_trans : (a b c : Bytes) → bytes_lt a b ≡ true → bytes_lt b c ≡ true → bytes_lt a c ≡ true
unfolding bytes_lt
bytes_lt_trans a b [] h k = ground arith
bytes_lt_trans [] b (z ∷ zs) h k = refl
bytes_lt_trans (x ∷ xs) [] (z ∷ zs) h k = cc
bytes_lt_trans (x ∷ xs) (y ∷ ys) (z ∷ zs) h k = ground (arith, bytes_lt_trans xs ys zs)

bytes_lt_total : (a b : Bytes) → a ≢ b → bytes_lt a b ≡ not (bytes_lt b a)
unfolding bytes_lt
bytes_lt_total [] [] h = absurd (h refl)
bytes_lt_total [] (y ∷ ys) h = refl
bytes_lt_total (x ∷ xs) [] h = refl
bytes_lt_total (x ∷ xs) (y ∷ ys) h = ground (arith, bytes_lt_total xs ys)

-- Two insertions of pairs with different ids commute.
insert_comm :
    (p q : Pair) (l : List Pair) → p.id ≢ q.id → insert p (insert q l) ≡ insert q (insert p l)
unfolding insert
insert_comm p q [] h = ground (arith, bytes_lt_total p.id q.id h)
insert_comm p q (r ∷ l) h = ground (
  arith,
  bytes_lt_total p.id q.id h,
  bytes_lt_trans p.id q.id r.id,
  bytes_lt_trans q.id p.id r.id,
  insert_comm p q l h,
)

module _ (a : Bytes) where
  Misses-Permᴰ : {ps qs : List Pair} → Permᴰ ps qs → All (λ r. r.id ≢ a) ps → All (λ r. r.id ≢ a) qs
  Misses-Permᴰ Permᴰ.nil h = tt
  Misses-Permᴰ (Permᴰ.cons e t) (h, hs) = (subst (λ r. r.id ≢ a) e h, Misses-Permᴰ t hs)
  Misses-Permᴰ (Permᴰ.swap {l = l} e f) (h, (k, ks)) =
      (subst (λ r. r.id ≢ a) f k, (subst (λ r. r.id ≢ a) e h, ks))
  Misses-Permᴰ (Permᴰ.trans s t) h = Misses-Permᴰ t (Misses-Permᴰ s h)

IsDistinct-Permᴰ : {ps qs : List Pair} → Permᴰ ps qs → IsDistinct ps → IsDistinct qs
IsDistinct-Permᴰ Permᴰ.nil h = tt
IsDistinct-Permᴰ (Permᴰ.cons {a} {l₂ = l₂} e t) h =
    subst (λ r. IsDistinct (r ∷ l₂)) e (h.0, Misses-Permᴰ a.id t h.1, IsDistinct-Permᴰ t h.2)
IsDistinct-Permᴰ (Permᴰ.swap {a} {b} {b' = b'} {l = l} e f) h =
    let swapped : IsDistinct (b ∷ a ∷ l) =
      (h.2.0, ((λ p. h.1.0 (sym p)), h.2.1), (h.0, h.1.1, h.2.2)) in
    subst (λ x. IsDistinct (x ∷ b' ∷ l)) f (subst (λ y. IsDistinct (b ∷ y ∷ l)) e swapped)
IsDistinct-Permᴰ (Permᴰ.trans s t) h = IsDistinct-Permᴰ t (IsDistinct-Permᴰ s h)

sort_pairs-Permᴰ : {ps qs : List Pair} → Permᴰ ps qs → IsDistinct ps → sort_pairs ps ≡ sort_pairs qs
unfolding sort_pairs
sort_pairs-Permᴰ Permᴰ.nil h = refl
sort_pairs-Permᴰ (Permᴰ.cons {l₁ = l₁} e t) h = ap₂ insert e (sort_pairs-Permᴰ t h.2)
sort_pairs-Permᴰ (Permᴰ.swap {a} {b} {l = l} e f) h =
    insert_comm a b (sort_pairs l) (λ p. h.1.0 (sym p))
    ∙ ap₂ (λ x y. insert x (insert y (sort_pairs l))) f e
sort_pairs-Permᴰ (Permᴰ.trans s t) h =
    sort_pairs-Permᴰ s h ∙ sort_pairs-Permᴰ t (IsDistinct-Permᴰ s h)

ne_nil-Permᴰ : {ps qs : List Pair} → Permᴰ ps qs → ps ≢ [] → qs ≢ []
ne_nil-Permᴰ Permᴰ.nil h = h
ne_nil-Permᴰ (Permᴰ.cons e t) h = λ p. cc
ne_nil-Permᴰ (Permᴰ.swap e f) h = λ p. cc
ne_nil-Permᴰ (Permᴰ.trans s t) h = ne_nil-Permᴰ t (ne_nil-Permᴰ s h)

-- For pairs that the validation accepts, `BootstrapPaired` gives the same outcome in whatever order
-- the pairs stand, under every configuration and every stream of words.
pub bootstrap_paired-Permᴰ :
    (F : BootFloats) (ps qs : List Pair) (cfg : BootstrapConfig F) (words : List ℕ)
    → validate_pairs ps ≡ none
    → Permᴰ ps qs
    → bootstrap_paired F ps cfg words ≡ bootstrap_paired F qs cfg words
unfolding bootstrap_paired
bootstrap_paired-Permᴰ F ps qs cfg words valid t =
    let (ne, distinct) = (validate_pairs_iff ps).0 valid in
    let valid' = (validate_pairs_iff qs).1 (ne_nil-Permᴰ t ne, IsDistinct-Permᴰ t distinct) in
    rw (valid, valid', bootstrap_paired)
      (ap (λ l. bootstrap F (differences F l) cfg words) (sort_pairs-Permᴰ t distinct))
