-- ===== src/Comparison/Draw.antt =====
-- comparison/bootstrap.go, `draw`: Lemire's multiply-and-reject over 64-bit words. The generator is
-- the list of the words that it yields; `none` says that the list ended before a word was accepted.
use native.Mathlib.Nat.{div-lt_iff_lt-mul, div-add-mod, mod-lt, mod-eq-sub-mod}
use native.Mathlib.Decide.{dec_le}
use arandu_attempt.Base.{
  ℕ, ◌+◌, ◌-◌, ◌*◌, ◌/◌, ◌%◌, ◌^◌, ◌≤◌, ◌<◌, ◌≡◌, refl, sym, ap, subst, ◌∙◌, ◌↔◌, Bool, true, not,
  Option, none, some, List, [], ◌∷◌, arith, ltb, if◌then◌else◌, Bool-cases, inl, inr, All,
}

abbrev pub word_count : ℕ
word_count = 2 ^ 64

-- `bits.Mul64(w, n)`.
abbrev pub hi : ℕ → ℕ → ℕ
hi w n = w * n / word_count

abbrev pub lo : ℕ → ℕ → ℕ
lo w n = w * n % word_count

-- `-n % n` on uint64.
abbrev pub threshold : ℕ → ℕ
threshold n = (word_count - n) % word_count % n

-- `for lo < threshold`, on the word that was read last and the words to come.
retry : ℕ → ℕ → List ℕ → Option (ℕ × List ℕ)
retry n w [] = if ltb (lo w n) (threshold n) then none else some (hi w n, [])
retry n w (x ∷ rest) =
    let again = retry n x rest in
    if ltb (lo w n) (threshold n) then again else some (hi w n, x ∷ rest)

unfoldable pub draw : ℕ → List ℕ → Option (ℕ × List ℕ)
unfolding retry
draw n [] = none
draw n (w ∷ rest) =
    let loop = retry n w rest in if ltb (lo w n) n then loop else some (hi w n, rest)

-- A word is accepted when its low half is not below 2^64 mod n.
abbrev pub accepts : ℕ → ℕ → Bool
accepts n w = not (ltb (lo w n) (word_count % n))

-- The reference: the high half of the first accepted word.
abbrev first_accepted : ℕ → List ℕ → Option (ℕ × List ℕ)
first_accepted n [] = none
first_accepted n (w ∷ rest) =
    let later = first_accepted n rest in if accepts n w then some (hi w n, rest) else later

threshold_mod : (n : ℕ) → 0 < n → n < word_count → threshold n ≡ word_count % n
threshold_mod n h k = ap (λ (t : ℕ). t % n) (omega arith) ∙ sym (mod-eq-sub-mod (omega arith))

retry-first_accepted :
    (n w : ℕ) (rest : List ℕ)
    → 0 < n
    → n < word_count
    → retry n w rest ≡ first_accepted n (w ∷ rest)
unfolding retry
retry-first_accepted n w [] h k = rw (threshold_mod n h k) (ground arith)
retry-first_accepted n w (x ∷ rest) h k =
    rw (threshold_mod n h k) (ground (arith, retry-first_accepted n x rest h k))

-- `draw` returns the high half of the first accepted word, and leaves the words behind it: the test
-- `lo < n` in front of the loop only saves a division. Here 0 < n < 2^64.
draw-first_accepted :
    (n : ℕ) (words : List ℕ) → 0 < n → n < word_count → draw n words ≡ first_accepted n words
unfolding draw
draw-first_accepted n [] h k = refl
draw-first_accepted n (w ∷ rest) h k =
    ground (arith, retry-first_accepted n w rest h k, mod-lt word_count h)

-- The first of the words that give index `j`.
abbrev first_word : ℕ → ℕ → ℕ
first_word n j = (j * word_count + word_count % n + n - 1) / n

first_word_le :
    (n j w : ℕ) → 0 < n → (first_word n j ≤ w) ↔ (j * word_count + word_count % n ≤ w * n)
first_word_le n j w h =
    let x = j * word_count + word_count % n in
    let iff : (((x + n - 1) / n) < w + 1) ↔ (x + n - 1 < (w + 1) * n) = div-lt_iff_lt-mul h in
    (
      λ le. let lt = iff.0 (omega arith) in omega arith,
      λ le. let lt = iff.1 (omega arith) in omega arith,
    )

-- Behind `first_word`, 2^64 / n words stay below the next multiple of 2^64.
word_below :
    (n j w : ℕ)
    → 0 < n
    → (w < first_word n j + word_count / n) ↔ (w * n < j * word_count + word_count)
word_below n j w h =
    let q = word_count / n in
    let whole = div-add-mod word_count n in
    let d : ℕ = w - q in
    elim (dec_le q w) [
      | yes le ↦
          let iff = first_word_le n j d h in
          let split : w ≡ q + d = omega arith in
          let times : w * n ≡ q * n + d * n = omega (arith, ap (λ (t : ℕ). t * n) split) in
          (elim (dec_le (first_word n j) d) [
            | yes f ↦ let x = iff.0 f in (λ lt. omega arith, λ lt. omega arith)
            | no g ↦
                let x : ¬ (j * word_count + word_count % n ≤ d * n) = λ p. g (iff.1 p) in
                (λ lt. omega arith, λ lt. omega arith)
          ])
      | no gt ↦ let few : w * n < q * n = grind arith in (λ lt. omega arith, λ lt. omega arith)
    ]

accepts_bounds :
    (n j w : ℕ)
    → accepts n w ≡ true
    → hi w n ≡ j
    → (j * word_count + word_count % n ≤ w * n) × (w * n < j * word_count + word_count)
accepts_bounds n j w a e = ground arith

bounds_accepts :
    (n j w : ℕ)
    → j * word_count + word_count % n ≤ w * n
    → w * n < j * word_count + word_count
    → (accepts n w ≡ true) × (hi w n ≡ j)
bounds_accepts n j w a b = ground arith

-- The last of the words that give an index is a 64-bit word.
room_lem : (n j : ℕ) → 0 < n → n < word_count → j < n → first_word n j + word_count / n ≤ word_count
room_lem n j h k hj =
    let most : j * word_count + word_count ≤ n * word_count = grind arith in
    elim (dec_le (first_word n j + word_count / n) word_count) [
      | yes fits ↦ fits
      | no over ↦ let below = (word_below n j word_count h).0 (omega arith) in absurd (omega arith)
    ]

draw_one :
    (n j w : ℕ)
    → 0 < n
    → n < word_count
    → (draw n (w ∷ []) ≡ some (j, [])) ↔ ((accepts n w ≡ true) × (hi w n ≡ j))
draw_one n j w h k =
    let one = draw-first_accepted n (w ∷ []) h k in (λ p. ground arith, λ p. ground arith)

-- `draw` is uniform: for every index below n, the words on which it returns that index at once are
-- exactly 2^64 / n consecutive words, all of them below 2^64. Here 0 < n < 2^64.
pub draw_uniform :
    (n j : ℕ)
    → 0 < n
    → n < word_count
    → j < n
    → (s : ℕ) × (s + word_count / n ≤ word_count)
      × ((w : ℕ) → (draw n (w ∷ []) ≡ some (j, [])) ↔ ((s ≤ w) × (w < s + word_count / n)))
draw_uniform n j h k hj = (
  first_word n j,
  room_lem n j h k hj,
  λ w. (
    λ p.
        let (a, e) = (draw_one n j w h k).0 p in
        let (low, high) = accepts_bounds n j w a e in
        ((first_word_le n j w h).1 low, (word_below n j w h).1 high),
    λ p.
        (draw_one n j w h k).1
          (bounds_accepts n j w ((first_word_le n j w h).0 p.0) ((word_below n j w h).0 p.1)),
  ),
)

hi-lt : (n w : ℕ) → 0 < n → w < word_count → hi w n < n
hi-lt n w h k = let less : w * n < n * word_count = grind arith in omega arith

abbrev AreWords : List ℕ → Type 0
AreWords = All (λ w. w < word_count)

first_accepted-lt :
    (n : ℕ) (words : List ℕ) {j : ℕ} {rest : List ℕ}
    → 0 < n
    → AreWords words
    → first_accepted n words ≡ some (j, rest)
    → (j < n) × AreWords rest
first_accepted-lt n [] pos_n all h = cc
first_accepted-lt n (w ∷ ws) {j} {rest} pos_n (fits, all) h = elim (Bool-cases (accepts n w)) [
  | inl yes_it ↦
      let first : hi w n ≡ j = ground arith in
      let left : ws ≡ rest = ground arith in
      (rw (← first) (hi-lt n w pos_n fits), subst AreWords left all)
  | inr no_it ↦ first_accepted-lt n ws pos_n all (ground arith)
]

-- What `draw` returns is an index below n, and it leaves 64-bit words. Here 0 < n < 2^64.
pub draw-lt :
    (n : ℕ) (words : List ℕ) {j : ℕ} {rest : List ℕ}
    → 0 < n
    → n < word_count
    → All (λ w. w < word_count) words
    → draw n words ≡ some (j, rest)
    → (j < n) × All (λ w. w < word_count) rest
draw-lt n words h k all e =
    first_accepted-lt n words h all (sym (draw-first_accepted n words h k) ∙ e)
