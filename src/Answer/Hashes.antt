-- ===== src/Answer/Hashes.antt =====
-- Lemmas on the answer behind four hash signs.
use arandu_attempt.Base.{
  ℕ, suc, ◌+◌, ◌==◌, ◌≡◌, refl, ap, true, false, ◌||◌, some, none, [], ◌∷◌, ◌++◌, Bytes, codes,
  length, drop, has_prefix, All, arith,
}
use arandu_attempt.Answer.Text.{
  last_index, last_index_from, trim_space, trim_left, trim_from, decode, is_space,
}
use arandu_attempt.Answer.Extract.{first_line, hash_answer}

-- The last four hash signs of a text, if none follows them.
abbrev pub NoHash : Bytes → Type 0
NoHash s = All (λ c. (c == b'#') ≡ false) s

abbrev pub hashes : Bytes
hashes = codes "####"

last_index_from-skip :
    (i c : ℕ) (s : Bytes)
    → last_index_from (i + 1) s hashes ≡ none
    → has_prefix (c ∷ s) hashes ≡ false
    → last_index_from i (c ∷ s) hashes ≡ none
unfolding last_index_from
last_index_from-skip i c s h k = rw (h, last_index_from) (rw k refl)

last_index_from-NoHash : (i : ℕ) (s : Bytes) → NoHash s → last_index_from i s hashes ≡ none
unfolding last_index_from has_prefix
last_index_from-NoHash i [] h = refl
last_index_from-NoHash i (c ∷ s) (h, hs) =
    last_index_from-skip i c s (last_index_from-NoHash (i + 1) s hs) (rw h refl)

-- Fewer than four hash signs are not found.
few_hashes :
    (s : Bytes)
    → NoHash s
    → (has_prefix (codes "###" ++ s) hashes ≡ false)
      × (has_prefix (codes "##" ++ s) hashes ≡ false)
      × (has_prefix (codes "#" ++ s) hashes ≡ false)
unfolding has_prefix
few_hashes [] h = (refl, refl, refl)
few_hashes (c ∷ s) (h, _) = rw h (refl, refl, refl)

last_index_from-hashes :
    (i : ℕ) (pre tail : Bytes)
    → NoHash tail
    → last_index_from i (pre ++ hashes ++ tail) hashes ≡ some (i + length pre)
unfolding last_index_from has_prefix
last_index_from-hashes i [] tail h =
    let (three, two, one) = few_hashes tail h in
    let third =
      last_index_from-skip (i + 1 + 1 + 1) b'#' tail (last_index_from-NoHash _ tail h) one in
    let second = last_index_from-skip (i + 1 + 1) b'#' (codes "#" ++ tail) third two in
    let first = last_index_from-skip (i + 1) b'#' (codes "##" ++ tail) second three in
    rw first (ap some (omega arith))
last_index_from-hashes i (c ∷ pre) tail h =
    rw (last_index_from-hashes (i + 1) pre tail h, last_index_from) (ap some (omega arith))

drop-hashes : (pre tail : Bytes) → drop (length pre + 4) (pre ++ hashes ++ tail) ≡ tail
drop-hashes [] tail = refl
drop-hashes (c ∷ pre) tail =
    let n : suc (length pre) + 4 ≡ suc (length pre + 4) = omega arith in rw n (drop-hashes pre tail)

pub trim_space-blank : (s : Bytes) → trim_space (b' ' ∷ s) ≡ trim_space s
unfolding trim_space trim_left trim_from decode is_space
trim_space-blank s = refl

-- A line and what ends it.
abbrev pub InLine : Bytes → Type 0
InLine s = All (λ c. (c == 13 || c == 10) ≡ false) s

abbrev pub EndsLine : Bytes → Type 0
EndsLine [] = Unit
EndsLine (c ∷ s) = (c == 13 || c == 10) ≡ true

first_line-append :
    (line post : Bytes) → InLine line → EndsLine post → first_line (line ++ post) ≡ line
unfolding first_line
first_line-append [] [] h e = refl
first_line-append [] (c ∷ post) h e = rw e refl
first_line-append (c ∷ line) post (h, hs) e = rw h (ap (c ∷◌) (first_line-append line post hs e))

-- The answer behind the last four hash signs is the rest of their line, trimmed.
pub hash_answer-line :
    (pre line post : Bytes)
    → NoHash (line ++ post)
    → InLine line
    → EndsLine post
    → hash_answer (pre ++ hashes ++ (line ++ post)) ≡ some (trim_space line)
unfolding hash_answer last_index
hash_answer-line pre line post h k e =
    let zero_left : 0 + length pre + 4 ≡ length pre + 4 = omega arith in
    rw (last_index_from-hashes 0 pre (line ++ post) h, hash_answer)
      (rw (zero_left, drop-hashes pre (line ++ post), first_line-append line post k e) refl)
