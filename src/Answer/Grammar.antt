-- ===== src/Answer/Grammar.antt =====
-- Lemmas on the texts that parseDecimal accepts.
use arandu_attempt.Base.{
  ℕ, ◌+◌, ◌^◌, ◌==◌, ltb, ◌<◌, ◌≡◌, refl, ap, ap₂, ◌∙◌, Bool, true, false, ◌&&◌, ◌||◌,
  if◌then◌else◌, if-intro, Bool-cases, inl, inr, List, [], ◌∷◌, ◌++◌, append_assoc, Bytes, length,
  All, arith,
}
use arandu_attempt.Base.Result.{ok, err, Outcome, bind-Outcome, map-Outcome}
use arandu_attempt.Answer.{Rat, AnswerError}
use arandu_attempt.Answer.Latex.{is_digit, starts_with, take_digits, drop_digits}
use arandu_attempt.Answer.Number.{
  is_comma, take_groups, grouped, fraction_of, decimal_of, parse_decimal,
}
use arandu_attempt.Answer.Numerals.{
  Numeral, write_groups, write_fraction, write_numeral, group_digits, IsDigit, AreDigits, MayGroup,
  IsNumeral, denote, denoted, value_onto-denoted,
}

take_digits-All : (s : Bytes) → All IsDigit (take_digits s)
unfolding take_digits
take_digits-All [] = tt
take_digits-All (c ∷ s) =
    if-intro (All IsDigit) (is_digit c) (c ∷ take_digits s) [] (λ h. (h, take_digits-All s))
      (λ h. tt)

take_digits-drop : (s : Bytes) → s ≡ take_digits s ++ drop_digits s
unfolding take_digits drop_digits
take_digits-drop [] = refl
take_digits-drop (c ∷ s) = elim (Bool-cases (is_digit c)) [
  | inl e ↦ rw e (ap (c ∷◌) (take_digits-drop s))
  | inr e ↦ rw e refl
]

three_digits :
    (x y z : ℕ) (s : Bytes)
    → (length (take_digits (x ∷ y ∷ z ∷ s)) == 3) ≡ true
    → IsDigit x × IsDigit y × IsDigit z
unfolding take_digits
three_digits x y z s h = ground (arith, h)

-- The groups that are read off a text.
abbrev GroupsOf : Bytes → Bytes × Bytes → Type 0
GroupsOf s found =
    (gs : List (ℕ × ℕ × ℕ)) × AreDigits gs
    × (found.0 ≡ group_digits gs)
    × (s ≡ write_groups gs ++ found.1)

abbrev Any : AnswerError → Type 0
Any e = Unit

no_groups : (s : Bytes) → GroupsOf s ([], s)
no_groups s = ([], tt, refl, refl)

short_groups :
    (c : ℕ) (s : Bytes)
    → Outcome Any
        (GroupsOf (c ∷ s))
        (if is_comma c then err AnswerError.ambiguous else ok ([], c ∷ s))
short_groups c s =
    if-intro (Outcome Any (GroupsOf (c ∷ s))) (is_comma c) _ _ (λ comma. tt)
      (λ other. no_groups (c ∷ s))

take_groups-GroupsOf : (s : Bytes) → Outcome Any (GroupsOf s) (take_groups s)
unfolding take_groups
take_groups-GroupsOf [] = no_groups []
take_groups-GroupsOf (c ∷ []) = short_groups c []
take_groups-GroupsOf (c ∷ x ∷ []) = short_groups c (x ∷ [])
take_groups-GroupsOf (c ∷ x ∷ y ∷ []) = short_groups c (x ∷ y ∷ [])
take_groups-GroupsOf (c ∷ x ∷ y ∷ z ∷ s) =
    if-intro (Outcome Any (GroupsOf (c ∷ x ∷ y ∷ z ∷ s))) (is_comma c) _ _
      (λ comma.
        if-intro (Outcome Any (GroupsOf (c ∷ x ∷ y ∷ z ∷ s)))
          (length (take_digits (x ∷ y ∷ z ∷ s)) == 3) _ _
          (λ three.
            bind-Outcome Any (GroupsOf s) (GroupsOf (c ∷ x ∷ y ∷ z ∷ s)) (take_groups s) _
              (take_groups-GroupsOf s)
              (λ found (gs, hs, ds, e).
                let is : c ≡ b',' = ground (arith, comma) in
                (
                  (x, y, z) ∷ gs,
                  ((three_digits x y z s three), hs),
                  ap (λ t. x ∷ y ∷ z ∷ t) ds,
                  ap₂ (λ a t. a ∷ x ∷ y ∷ z ∷ t) is e,
                )))
          (λ other. tt))
      (λ other. no_groups (c ∷ x ∷ y ∷ z ∷ s))

-- The groups behind the first digits are there only if these are short.
abbrev TailOf : Bytes → Bytes → Bytes × Bytes → Type 0
TailOf whole s found =
    (gs : List (ℕ × ℕ × ℕ)) × AreDigits gs
    × MayGroup whole gs
    × (found.0 ≡ group_digits gs)
    × (s ≡ write_groups gs ++ found.1)

may_group :
    (whole : Bytes) (gs : List (ℕ × ℕ × ℕ)) (comma : Bool)
    → (ltb 0 (length whole) && comma) ≡ true
    → (ltb 3 (length whole) || starts_with (λ c. c == b'0') whole) ≡ false
    → MayGroup whole gs
may_group whole [] comma h k = tt
may_group whole (g ∷ gs) comma h k = ground (arith, h, k)

grouped-TailOf : (whole after : Bytes) → Outcome Any (TailOf whole after) (grouped whole after)
unfolding grouped
grouped-TailOf whole after =
    if-intro (Outcome Any (TailOf whole after)) (ltb 0 (length whole) && starts_with is_comma after)
      _ _
      (λ comma.
        if-intro (Outcome Any (TailOf whole after))
          (ltb 3 (length whole) || starts_with (λ c. c == b'0') whole) _ _ (λ long. tt)
          (λ short.
            map-Outcome Any (GroupsOf after) (TailOf whole after) (take_groups after)
              (take_groups-GroupsOf after)
              (λ found (gs, hs, ds, e).
                (gs, hs, may_group whole gs (starts_with is_comma after) comma short, ds, e))))
      (λ other. ([], tt, tt, refl, refl))

-- The digits of a fraction that are read off a text.
abbrev FractionOf : Bytes → Bytes × Bytes → Type 0
FractionOf s found = All IsDigit (found.0) × (s ≡ write_fraction (found.0) ++ found.1)

write_fraction-take :
    (s : Bytes)
    → starts_with is_digit s ≡ true
    → write_fraction (take_digits s) ≡ b'.' ∷ take_digits s
unfolding take_digits
write_fraction-take [] h = absurd (cc h)
write_fraction-take (c ∷ s) h = rw h refl

fraction_of-FractionOf : (s : Bytes) → FractionOf s (fraction_of s)
unfolding fraction_of
fraction_of-FractionOf [] = (tt, refl)
fraction_of-FractionOf (c ∷ s) =
    if-intro (FractionOf (c ∷ s)) (c == b'.' && starts_with is_digit s) _ _
      (λ h.
        let point : c ≡ b'.' = ground (arith, h) in
        let first : starts_with is_digit s ≡ true = ground (arith, h) in
        (
          take_digits-All s,
          rw (point, write_fraction-take s first) (ap (b'.' ∷◌) (take_digits-drop s)),
        ))
      (λ other. (tt, refl))

-- What the digits of a numeral give.
abbrev ValueOf : Bytes → Bytes → Bytes → Rat → Type 0
ValueOf whole more f v =
    (0 < length whole + length f)
    × (v ≡ record { negative = false; num = denoted (whole ++ more ++ f); den = 10 ^ length f })

decimal_of-ValueOf :
    (whole more f : Bytes) → Outcome Any (ValueOf whole more f) (decimal_of whole more f)
unfolding decimal_of
decimal_of-ValueOf whole more f =
    if-intro (Outcome Any (ValueOf whole more f)) (length whole == 0 && length f == 0) _ _
      (λ empty. tt) (λ h. (ground (arith, h), rw (value_onto-denoted (whole ++ more ++ f)) refl))

-- The numeral at the front of a text, its number, and what follows it.
abbrev pub Read : Bytes → Rat × Bytes → Type 0
Read s found = (n : Numeral) × IsNumeral n × (s ≡ write_numeral n ++ found.1) × (found.0 ≡ denote n)

parse_decimal-Outcome : (s : Bytes) → Outcome Any (Read s) (parse_decimal s)
unfolding parse_decimal
parse_decimal-Outcome s =
    let w = take_digits s in
    bind-Outcome Any (TailOf w (drop_digits s)) (Read s) (grouped w (drop_digits s)) _
      (grouped-TailOf w (drop_digits s))
      (λ found (gs, hg, may, ds, e).
        let f = (fraction_of (found.1)).0 in
        let (hf, q) = fraction_of-FractionOf (found.1) in
        bind-Outcome Any (ValueOf w (found.0) f) (Read s) (decimal_of w (found.0) f) _
          (decimal_of-ValueOf w (found.0) f)
          (λ v (digits, is). (
            record { whole = w; groups = gs; fraction = f },
            (take_digits-All s, hg, hf, may, digits),
            take_digits-drop s
                ∙ ap (w ++◌) e
                ∙ ap (λ t. w ++ (write_groups gs ++ t)) q
                ∙ simp append_assoc refl,
            is
                ∙ ap
                    (λ t. record {
                      negative = false;
                      num = denoted (w ++ t ++ f);
                      den = 10 ^ length f;
                    })
                    ds,
          )))

-- A text that is read as a decimal starts with a numeral that denotes the number, and what follows
-- the numeral is what is left.
pub parse_decimal-Read :
    (s : Bytes) (v : Rat) (rest : Bytes) → parse_decimal s ≡ ok (v, rest) → Read s (v, rest)
parse_decimal-Read s v rest e = let h = parse_decimal-Outcome s in rw e at h
