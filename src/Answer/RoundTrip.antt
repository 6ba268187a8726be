-- ===== src/Answer/RoundTrip.antt =====
-- Lemmas on numerals that are written and read back by Parse and by Verify.
use arandu_attempt.Base.{
  ℕ, ◌+◌, ◌==◌, ◌<◌, ◌≡◌, refl, sym, ap, ◌∙◌, true, false, ◌||◌, some, List, [], ◌∷◌, ◌++◌,
  append-nil, Bytes, length, All, All-append, arith,
}
use arandu_attempt.Base.Result.{ok}
use arandu_attempt.Answer.{Unicode, same_rat}
use arandu_attempt.Answer.Latex.{is_digit}
use arandu_attempt.Answer.Number.{parse_decimal}
use arandu_attempt.Answer.Parse.{parse}
use arandu_attempt.Answer.Extract.{hash_answer}
use arandu_attempt.Answer.Verdict.{verify, verdict_of}
use arandu_attempt.Answer.Numerals.{
  Numeral, write_groups, write_fraction, write_numeral, IsDigit, AreDigits, MayGroup, IsNumeral,
  denote, parse_decimal-write,
}
use arandu_attempt.Answer.Trim.{Last, Last-append}
use arandu_attempt.Answer.Written.{is_start, IsBare, parse-bare, trim_space-bare, All-Last}
use arandu_attempt.Answer.Verdicts.{verify_lem, extract_hash, decided-correct}
use arandu_attempt.Answer.Hashes.{NoHash, hashes, trim_space-blank, EndsLine, hash_answer-line}

-- A numeral is such a text.
write_groups-Last : (gs : List (ℕ × ℕ × ℕ)) → AreDigits gs → Last IsDigit (write_groups gs)
write_groups-Last [] h = tt
write_groups-Last ((x, y, z) ∷ []) ((_, _, hz), _) = hz
write_groups-Last ((x, y, z) ∷ (x', y', z') ∷ gs) (_, h) = write_groups-Last ((x', y', z') ∷ gs) h

write_fraction-Last : (f : Bytes) → All IsDigit f → Last IsDigit (write_fraction f)
write_fraction-Last [] h = tt
write_fraction-Last (c ∷ f) h = All-Last (c ∷ f) h

Last-join : (s t : Bytes) → Last IsDigit s → Last IsDigit t → Last IsDigit (s ++ t)
Last-join s [] h k = rw (append-nil s) h
Last-join s (d ∷ t) h k = Last-append IsDigit s d t k

IsDigit-start : (c : ℕ) → IsDigit c → is_start c ≡ true
IsDigit-start c h = rw h refl

bare_lem :
    (w : Bytes) (gs : List (ℕ × ℕ × ℕ)) (f : Bytes)
    → All IsDigit w
    → AreDigits gs
    → All IsDigit f
    → MayGroup w gs
    → 0 < length w + length f
    → IsBare (w ++ write_groups gs ++ write_fraction f)
unfolding is_digit
bare_lem [] [] [] hw hg hf may digits = absurd (omega (arith, digits))
bare_lem [] [] (d ∷ f) hw hg hf may digits = (refl, write_fraction-Last (d ∷ f) hf)
bare_lem [] (g ∷ gs) f hw hg hf (some_digit, _, _) digits = absurd (omega (arith, some_digit))
bare_lem (c ∷ w) gs f (hc, hw) hg hf may digits = (
  IsDigit-start c hc,
  Last-join (c ∷ w ++ write_groups gs) (write_fraction f)
      (Last-join (c ∷ w) (write_groups gs) (All-Last (c ∷ w) (hc, hw)) (write_groups-Last gs hg))
      (write_fraction-Last f hf),
)

pub write_numeral-IsBare : (n : Numeral) → IsNumeral n → IsBare (write_numeral n)
write_numeral-IsBare n (hw, hg, hf, may, digits) =
    bare_lem n.whole n.groups n.fraction hw hg hf may digits

-- A numeral alone is read as the number that it denotes.
pub parse-write :
    (u : Unicode) (n : Numeral) → IsNumeral n → parse u (write_numeral n) ≡ ok (denote n)
parse-write u n h = parse-bare u (write_numeral n) (denote n) (write_numeral-IsBare n h) (
    ap parse_decimal (sym (append-nil (write_numeral n)))
    ∙ parse_decimal-write n [] h (refl, refl, refl))

-- What holds of digits, commas and periods holds of every byte of a numeral.
module _ (P : ℕ → Type 0) (digit : (c : ℕ) → IsDigit c → P c) (comma : P b',')
    (point : P b'.') where
  All-digits : (s : Bytes) → All IsDigit s → All P s
  All-digits [] h = tt
  All-digits (c ∷ s) (h, hs) = (digit c h, All-digits s hs)

  All-groups : (gs : List (ℕ × ℕ × ℕ)) → AreDigits gs → All P (write_groups gs)
  All-groups [] h = tt
  All-groups ((x, y, z) ∷ gs) ((hx, hy, hz), hs) =
      (comma, (digit x hx, (digit y hy, (digit z hz, All-groups gs hs))))

  All-fraction : (f : Bytes) → All IsDigit f → All P (write_fraction f)
  All-fraction [] h = tt
  All-fraction (c ∷ f) h = (point, All-digits (c ∷ f) h)

  All-write_numeral : (n : Numeral) → IsNumeral n → All P (write_numeral n)
  All-write_numeral n (hw, hg, hf, _, _) =
      All-append P (n.whole ++ write_groups n.groups) _
        (All-append P n.whole _ (All-digits n.whole hw) (All-groups n.groups hg))
        (All-fraction n.fraction hf)

IsDigit-no_hash : (c : ℕ) → IsDigit c → (c == b'#') ≡ false
unfolding is_digit
IsDigit-no_hash c h = ground (arith, h)

IsDigit-in_line : (c : ℕ) → IsDigit c → (c == 13 || c == 10) ≡ false
unfolding is_digit
IsDigit-in_line c h = ground (arith, h)

-- A response with an answer behind four hash signs.
abbrev pub answer_line : Bytes → Numeral → Bytes → Bytes
answer_line pre n post = pre ++ hashes ++ (b' ' ∷ write_numeral n ++ post)

hash_answer-numeral :
    (pre : Bytes) (n : Numeral) (post : Bytes)
    → IsNumeral n
    → NoHash post
    → EndsLine post
    → hash_answer (answer_line pre n post) ≡ some (write_numeral n)
hash_answer-numeral pre n post h clean e =
    hash_answer-line pre (b' ' ∷ write_numeral n) post
      (
        refl,
        All-append _ (write_numeral n) post (All-write_numeral _ IsDigit-no_hash refl refl n h)
            clean,
      )
      (refl, All-write_numeral _ IsDigit-in_line refl refl n h) e
    ∙ ap some (
        trim_space-blank (write_numeral n)
        ∙ trim_space-bare (write_numeral n) (write_numeral-IsBare n h))

-- On a response that has four hash signs, a blank and a numeral up to the end of a line and no hash
-- sign behind them, and a reference that is a numeral, Verify is the comparison of the two numbers,
-- whatever stands before the hash signs.
pub verify-write :
    (u : Unicode) (pre : Bytes) (n : Numeral) (post : Bytes) (m : Numeral)
    → IsNumeral n
    → IsNumeral m
    → NoHash post
    → EndsLine post
    → (verify u (answer_line pre n post) (write_numeral m)).correct ≡ same_rat (denote n) (denote m)
unfolding verdict_of
verify-write u pre n post m hn hm clean e =
    let found =
      extract_hash u (answer_line pre n post) (write_numeral n)
        (hash_answer-numeral pre n post hn clean e) in
    rw (verify_lem u (answer_line pre n post) (write_numeral m), found, parse-write u m hm)
      (rw (parse-write u n hn, verdict_of) (decided-correct _ (denote n) (denote m)))
