-- ===== src/Answer/Numerals.antt =====
-- Lemmas on decimals: the numerals with thousands separators that parseDecimal reads.
use arandu_attempt.Base.{
  ℕ, ◌+◌, ◌-◌, ◌*◌, ◌^◌, ◌==◌, ltb, ◌≤◌, ◌<◌, ◌≡◌, refl, ap, ap₂, ◌∙◌, true, false, ◌&&◌, List, [],
  ◌∷◌, ◌++◌, append_assoc, Bytes, length, All, arith,
}
use arandu_attempt.Base.Result.{ok}
use native.Mathlib.Nat.{pow-succ'}
use arandu_attempt.Answer.{Rat}
use arandu_attempt.Answer.Latex.{is_digit, starts_with, take_digits, drop_digits}
use arandu_attempt.Answer.Number.{
  is_comma, take_groups, grouped, fraction_of, decimal_of, parse_decimal, value_onto,
}

-- A numeral: the first digits, the groups of three digits behind commas, and the digits behind the
-- decimal point.
pub record Numeral : Type 0 where
  pub whole : Bytes
  pub groups : List (ℕ × ℕ × ℕ)
  pub fraction : Bytes

-- How a numeral is written.
abbrev pub write_groups : List (ℕ × ℕ × ℕ) → Bytes
write_groups [] = []
write_groups ((x, y, z) ∷ gs) = b',' ∷ x ∷ y ∷ z ∷ write_groups gs

abbrev pub write_fraction : Bytes → Bytes
write_fraction [] = []
write_fraction (c ∷ s) = b'.' ∷ c ∷ s

abbrev pub write_numeral : Numeral → Bytes
write_numeral n = n.whole ++ write_groups n.groups ++ write_fraction n.fraction

abbrev pub group_digits : List (ℕ × ℕ × ℕ) → Bytes
group_digits [] = []
group_digits ((x, y, z) ∷ gs) = x ∷ y ∷ z ∷ group_digits gs

-- The number that the digits s denote: the sum of each digit times a power of ten.
abbrev pub denoted : Bytes → ℕ
denoted [] = 0
denoted (c ∷ s) = (c - b'0') * 10 ^ length s + denoted s

abbrev pub IsDigit : ℕ → Type 0
IsDigit c = is_digit c ≡ true

abbrev pub AreDigits : List (ℕ × ℕ × ℕ) → Type 0
AreDigits gs = All (λ (x, y, z). IsDigit x × IsDigit y × IsDigit z) gs

-- The first group is short and does not start with 0 if there are others.
abbrev pub MayGroup : Bytes → List (ℕ × ℕ × ℕ) → Type 0
MayGroup whole [] = Unit
MayGroup whole (g ∷ gs) =
    (0 < length whole) × (length whole ≤ 3) × (starts_with (λ c. c == b'0') whole ≡ false)

-- What may follow a numeral: no digit, no comma and no period.
abbrev pub IsEnd : Bytes → Type 0
IsEnd s =
    (starts_with is_digit s ≡ false)
    × (starts_with is_comma s ≡ false)
    × (starts_with (λ c. c == b'.') s ≡ false)

abbrev pub IsNumeral : Numeral → Type 0
IsNumeral n =
    All IsDigit n.whole
    × AreDigits n.groups
    × All IsDigit n.fraction
    × MayGroup n.whole n.groups
    × (0 < length n.whole + length n.fraction)

take_digits-append :
    (ds s : Bytes) → All IsDigit ds → starts_with is_digit s ≡ false → take_digits (ds ++ s) ≡ ds
unfolding take_digits
take_digits-append [] [] h k = refl
take_digits-append [] (c ∷ s) h k = rw k refl
take_digits-append (d ∷ ds) s (h, hs) k = rw h (ap (d ∷◌) (take_digits-append ds s hs k))

drop_digits-append :
    (ds s : Bytes) → All IsDigit ds → starts_with is_digit s ≡ false → drop_digits (ds ++ s) ≡ s
unfolding drop_digits
drop_digits-append [] [] h k = refl
drop_digits-append [] (c ∷ s) h k = rw k refl
drop_digits-append (d ∷ ds) s (h, hs) k = rw h (drop_digits-append ds s hs k)

horner : (n k p v : ℕ) → (n * 10 + k) * p + v ≡ n * (10 * p) + (k * p + v)
horner n k p v = omega arith

value_onto-append : (n : ℕ) (s : Bytes) → value_onto n s ≡ n * 10 ^ length s + denoted s
unfolding value_onto
value_onto-append n [] = omega arith
value_onto-append n (c ∷ s) =
    value_onto-append (n * 10 + (c - b'0')) s
    ∙ rw (pow-succ' 10 (length s)) (horner n (c - b'0') (10 ^ length s) (denoted s))

pub value_onto-denoted : (s : Bytes) → value_onto 0 s ≡ denoted s
value_onto-denoted s = value_onto-append 0 s ∙ omega arith

-- A text that neither a digit nor a comma starts.
abbrev pub IsApart : Bytes → Type 0
IsApart s = (starts_with is_digit s ≡ false) × (starts_with is_comma s ≡ false)

take_groups-IsApart : (s : Bytes) → starts_with is_comma s ≡ false → take_groups s ≡ ok ([], s)
unfolding take_groups
take_groups-IsApart [] h = refl
take_groups-IsApart (c ∷ []) h = rw h refl
take_groups-IsApart (c ∷ x ∷ []) h = rw h refl
take_groups-IsApart (c ∷ x ∷ y ∷ []) h = rw h refl
take_groups-IsApart (c ∷ x ∷ y ∷ z ∷ s) h = rw h refl

write_groups-IsApart :
    (gs : List (ℕ × ℕ × ℕ)) (s : Bytes)
    → starts_with is_digit s ≡ false
    → starts_with is_digit (write_groups gs ++ s) ≡ false
unfolding is_digit
write_groups-IsApart [] s h = h
write_groups-IsApart (g ∷ gs) s h = refl

take_groups-write :
    (gs : List (ℕ × ℕ × ℕ)) (s : Bytes)
    → AreDigits gs
    → IsApart s
    → take_groups (write_groups gs ++ s) ≡ ok (group_digits gs, s)
unfolding take_groups
take_groups-write [] s h (apart, comma) = take_groups-IsApart s comma
take_groups-write ((x, y, z) ∷ gs) s ((hx, hy, hz), hs) (apart, comma) =
    let three : take_digits (x ∷ y ∷ z ∷ (write_groups gs ++ s)) ≡ x ∷ y ∷ z ∷ [] =
      take_digits-append (x ∷ y ∷ z ∷ []) (write_groups gs ++ s) (hx, (hy, (hz, tt)))
        (write_groups-IsApart gs s apart) in
    rw (three, take_groups-write gs s hs (apart, comma)) refl

grouped-write :
    (whole : Bytes) (gs : List (ℕ × ℕ × ℕ)) (s : Bytes)
    → AreDigits gs
    → MayGroup whole gs
    → IsApart s
    → grouped whole (write_groups gs ++ s) ≡ ok (group_digits gs, s)
unfolding grouped
grouped-write whole [] s h may (apart, comma) = rw comma (ground arith)
grouped-write whole (g ∷ gs) s h (some_digit, few, no_zero) apart =
    let first : ltb 0 (length whole) ≡ true = ground arith in
    let short : ltb 3 (length whole) ≡ false = ground arith in
    rw (first, short, no_zero) (take_groups-write (g ∷ gs) s h apart)

fraction_of-write :
    (f s : Bytes) → All IsDigit f → IsEnd s → fraction_of (write_fraction f ++ s) ≡ (f, s)
unfolding fraction_of
fraction_of-write [] [] h e = refl
fraction_of-write [] (c ∷ s) h (_, _, e) = rw e refl
fraction_of-write (d ∷ f) s (h, hs) (apart, _, _) = rw h (
    ap₂ (λ x y. (x, y)) (ap (d ∷◌) (take_digits-append f s hs apart))
      (drop_digits-append f s hs apart))

write_fraction-IsApart : (f s : Bytes) → IsEnd s → IsApart (write_fraction f ++ s)
unfolding is_digit
write_fraction-IsApart [] s (apart, comma, _) = (apart, comma)
write_fraction-IsApart (d ∷ f) s e = (refl, refl)

-- The number that a numeral denotes.
abbrev pub denote : Numeral → Rat
denote n = record {
  negative = false;
  num = denoted (n.whole ++ group_digits n.groups ++ n.fraction);
  den = 10 ^ length n.fraction;
}

decimal_of-denote :
    (n : Numeral)
    → 0 < length n.whole + length n.fraction
    → decimal_of n.whole (group_digits n.groups) n.fraction ≡ ok (denote n)
unfolding decimal_of
decimal_of-denote n h =
    let some_digit : (length n.whole == 0 && length n.fraction == 0) ≡ false = ground (arith, h) in
    rw (some_digit, value_onto-denoted (n.whole ++ group_digits n.groups ++ n.fraction)) refl

-- Reading a numeral that has been written gives the number that it denotes, whatever follows it, if
-- that starts with no digit, comma or period.
pub parse_decimal-write :
    (n : Numeral) (rest : Bytes)
    → IsNumeral n
    → IsEnd rest
    → parse_decimal (write_numeral n ++ rest) ≡ ok (denote n, rest)
unfolding parse_decimal
parse_decimal-write n rest (hw, hg, hf, may, digits) e =
    let behind = write_fraction n.fraction ++ rest in
    let tail = write_groups n.groups ++ behind in
    let whole : write_numeral n ++ rest ≡ n.whole ++ tail = simp append_assoc refl in
    let apart : IsApart behind = write_fraction-IsApart n.fraction rest e in
    let at_tail = write_groups-IsApart n.groups behind (apart.0) in
    rw
      (
        whole,
        take_digits-append n.whole tail hw at_tail,
        drop_digits-append n.whole tail hw at_tail,
        grouped-write n.whole n.groups behind hg may apart,
        fraction_of-write n.fraction rest hf e,
        decimal_of-denote n digits,
      )
      refl
