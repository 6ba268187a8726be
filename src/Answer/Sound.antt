-- ===== src/Answer/Sound.antt =====
-- Lemmas on the numbers and the errors that Parse returns.
use arandu_attempt.Base.{
  ℕ, zero, suc, ◌<◌, ◌==◌, ◌≡◌, refl, inl, inr, Bool, [], ◌&&◌, if-intro, some, none, Option-cases,
  Bytes, codes, drop, length, has_prefix, arith,
}
use arandu_attempt.Base.Result.{Result, ok, err, Outcome, bind-Outcome}
use native.Mathlib.Nat.{mul-pos, one-le-pow}
use arandu_attempt.Answer.{Rat, Unicode, AnswerError, is_zero, negate}
use arandu_attempt.Answer.Text.{trim_space, trim_left}
use arandu_attempt.Answer.Latex.{take_digits, drop_digits, frac_command}
use arandu_attempt.Answer.Number.{
  divide, grouped, fraction_of, decimal_of, parse_decimal, frac_argument,
}
use arandu_attempt.Answer.Parse.{
  whole_number, parse_argument, parse_frac, parse_body, parse_inner, parse_layer, parse, prefix,
  unwrap, drop_trailing_period, leading_sign, max_layers,
}
use arandu_attempt.Answer.Refusals.{
  IsParseError, Anything, refusal-IsParseError, grouped-Refuses, frac_argument-Refuses,
  prefix-Refuses,
}

abbrev pub HasDen : Rat → Type 0
HasDen v = 0 < v.den

-- A number with a denominator, or an error of Parse.
abbrev pub IsSound : Result AnswerError Rat → Type 0
IsSound r = Outcome IsParseError HasDen r

abbrev FirstHasDen : Rat × Bytes → Type 0
FirstHasDen found = HasDen (found.0)

-- The same for a number at the front of a text.
abbrev Reads : Result AnswerError (Rat × Bytes) → Type 0
Reads r = Outcome IsParseError FirstHasDen r

divide-Reads : (a b : Rat) (rest : Bytes) → HasDen a → Reads (divide a b rest)
unfolding divide
divide-Reads a b rest a_pos =
    if-intro Reads (is_zero b) _ _ (λ yes. refl)
      (λ no. mul-pos a_pos (let n_pos : 0 < b.num = ground (arith, no) in n_pos))

decimal_of-IsSound : (whole more fraction : Bytes) → IsSound (decimal_of whole more fraction)
unfolding decimal_of
decimal_of-IsSound whole more fraction =
    if-intro IsSound (length whole == 0 && length fraction == 0) _ _ (λ yes. refl)
      (λ no. one-le-pow (length fraction) 10 (omega arith))

parse_decimal-Reads : (s : Bytes) → Reads (parse_decimal s)
unfolding parse_decimal
parse_decimal-Reads s =
    let groups = grouped (take_digits s) (drop_digits s) in
    bind-Outcome IsParseError Anything FirstHasDen groups _
      (grouped-Refuses (take_digits s) (drop_digits s))
      (λ found _.
        let fraction = (fraction_of (found.1)).0 in
        bind-Outcome IsParseError HasDen FirstHasDen (decimal_of (take_digits s) (found.0) fraction)
          _ (decimal_of-IsSound (take_digits s) (found.0) fraction) (λ v h. h))

whole_number-IsSound :
    (u : Unicode) (s : Bytes) (negative : Bool) (r : Result AnswerError (Rat × Bytes))
    → Reads r
    → IsSound (whole_number u s negative r)
unfolding whole_number
whole_number-IsSound u s negative (err e) h = refusal-IsParseError u s [] (some e) h
whole_number-IsSound u s negative (ok (v, rest)) h =
    if-intro IsSound (length (trim_space rest) == 0) _ _
      (λ yes. if-intro HasDen negative (negate v) v (λ yes. h) (λ no. h))
      (λ no. refusal-IsParseError u s rest none tt)

parse_argument-IsSound : (u : Unicode) (arg : Bytes) → IsSound (parse_argument u arg)
unfolding parse_argument
parse_argument-IsSound u arg =
    let s = trim_space arg in
    let body = trim_left (drop ((leading_sign s).1) s) in
    if-intro IsSound (length s == 0) _ _ (λ yes. refl)
      (λ no.
        whole_number-IsSound u s ((leading_sign s).0) (parse_decimal body)
          (parse_decimal-Reads body))

parse_frac-Reads : (u : Unicode) (s : Bytes) (n : ℕ) → Reads (parse_frac u s n)
unfolding parse_frac
parse_frac-Reads u s n =
    bind-Outcome IsParseError Anything FirstHasDen (frac_argument (drop n s)) _
      (frac_argument-Refuses (drop n s))
      (λ top _.
        bind-Outcome IsParseError Anything FirstHasDen (frac_argument (top.1)) _
          (frac_argument-Refuses (top.1))
          (λ bottom _.
            bind-Outcome IsParseError HasDen FirstHasDen (parse_argument u (top.0)) _
              (parse_argument-IsSound u (top.0))
              (λ a a_pos.
                bind-Outcome IsParseError HasDen FirstHasDen (parse_argument u (bottom.0)) _
                  (parse_argument-IsSound u (bottom.0))
                  (λ b _. divide-Reads a b (bottom.1) a_pos))))

parse_body-Reads : (u : Unicode) (s : Bytes) → Reads (parse_body u s)
unfolding parse_body
parse_body-Reads u s = elim (Option-cases (frac_command s)) [
  | inr (n, e) ↦ rw (e, parse_body) (parse_frac-Reads u s n)
  | inl e ↦
      rw (e, parse_body)
        (bind-Outcome IsParseError FirstHasDen FirstHasDen (parse_decimal s) _
          (parse_decimal-Reads s)
          (λ a a_pos.
            let below = trim_left (drop 1 (trim_left (a.1))) in
            if-intro Reads (has_prefix (trim_left (a.1)) (codes "/")) _ _
              (λ yes.
                bind-Outcome IsParseError FirstHasDen FirstHasDen (parse_decimal below) _
                  (parse_decimal-Reads below) (λ b _. divide-Reads (a.0) (b.0) (b.1) a_pos))
              (λ no. a_pos)))
]

parse_inner-IsSound : (u : Unicode) (s : Bytes) → IsSound (parse_inner u s)
unfolding parse_inner
parse_inner-IsSound u s =
    bind-Outcome IsParseError Anything HasDen (prefix s) _ (prefix-Refuses s) (λ marks _.
      whole_number-IsSound u s (marks.0) (parse_body u (marks.1)) (parse_body-Reads u (marks.1)))

parse_layer-IsSound : (u : Unicode) (layers : ℕ) (raw : Bytes) → IsSound (parse_layer u layers raw)
unfolding parse_layer
parse_layer-IsSound u zero raw =
    if-intro IsSound (length (trim_space raw) == 0) _ _ (λ yes. refl)
      (λ no. elim (Option-cases (unwrap (drop_trailing_period (trim_space raw)))) [
        | inl e ↦ rw e (parse_inner-IsSound u (drop_trailing_period (trim_space raw)))
        | inr (inner, e) ↦ rw e refl
      ])
parse_layer-IsSound u (suc layers) raw =
    if-intro IsSound (length (trim_space raw) == 0) _ _ (λ yes. refl)
      (λ no. elim (Option-cases (unwrap (drop_trailing_period (trim_space raw)))) [
        | inl e ↦ rw e (parse_inner-IsSound u (drop_trailing_period (trim_space raw)))
        | inr (inner, e) ↦ rw e (parse_layer-IsSound u layers inner)
      ])

-- Parse returns a number whose denominator is not zero, or an error other than the one that stands
-- for a text without an answer.
pub parse-IsSound : (u : Unicode) (raw : Bytes) → IsSound (parse u raw)
unfolding parse
parse-IsSound u raw = parse_layer-IsSound u max_layers raw

pub parse-HasDen : (u : Unicode) (raw : Bytes) {v : Rat} → parse u raw ≡ ok v → 0 < v.den
parse-HasDen u raw e = let h = parse-IsSound u raw in rw e at h
