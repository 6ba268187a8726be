-- ===== src/Answer/Marks.antt =====
-- Lemmas on the loop of prefix and its fuel.
use arandu_attempt.Base.{
  ℕ, zero, suc, ◌-◌, ltb, ◌≤◌, ◌<◌, ◌≡◌, refl, ◌⊎◌, inl, inr, Bool, if-intro, [], ◌∷◌, Bytes, codes,
  length, length-drop, drop, has_prefix, has_prefix-length, arith,
}
use arandu_attempt.Answer.Text.{decode, is_space, trim_from, trim_left}
use arandu_attempt.Answer.Parse.{Mark, leading_sign, leading_mark, Marks, take_marks}
use arandu_attempt.Answer.Refusal.{minus}

trim_from-le : (skip : ℕ) (s : Bytes) → length (trim_from skip s) ≤ length s
unfolding trim_from
trim_from-le skip [] = omega arith
trim_from-le (suc skip) (c ∷ s) = omega (arith, trim_from-le skip s)
trim_from-le zero (c ∷ s) =
    if-intro (λ t. length t ≤ suc (length s)) (is_space ((decode (c ∷ s)).0)) _ (c ∷ s)
      (λ yes. omega (arith, trim_from-le ((decode (c ∷ s)).1 - 1) s)) (λ other. omega arith)

trim_left-le : (s : Bytes) → length (trim_left s) ≤ length s
unfolding trim_left
trim_left-le s = trim_from-le 0 s

-- A mark has bytes, and they are in the text.
abbrev Takes : Bytes → Mark → Type 0
Takes s (Mark.sign negative width) = (0 < width) × (width ≤ length s)
Takes s (Mark.currency width) = (0 < width) × (width ≤ length s)
Takes s Mark.no_mark = Unit

leading_sign-le : (s : Bytes) → (leading_sign s).1 ≤ length s
unfolding leading_sign
leading_sign-le s =
    if-intro (λ (r : Bool × ℕ). r.1 ≤ length s) (has_prefix s (codes "-")) _ _
      (has_prefix-length s (codes "-"))
      (λ _.
        if-intro (λ (r : Bool × ℕ). r.1 ≤ length s) (has_prefix s (codes "+")) _ _
          (has_prefix-length s (codes "+"))
          (λ _.
            if-intro (λ (r : Bool × ℕ). r.1 ≤ length s) (has_prefix s minus) _ _
              (has_prefix-length s minus) (λ _. omega arith)))

leading_mark-Takes : (s : Bytes) → Takes s (leading_mark s)
unfolding leading_mark
leading_mark-Takes s =
    if-intro (Takes s) (ltb 0 ((leading_sign s).1)) _ _
      (λ h. (ground (arith, h), leading_sign-le s))
      (λ _.
        if-intro (Takes s) (has_prefix s (codes "\\$")) _ _
          (λ h. (omega arith, has_prefix-length s (codes "\\$") h))
          (λ _.
            if-intro (Takes s) (has_prefix s (codes "$")) _ _
              (λ h. (omega arith, has_prefix-length s (codes "$") h)) (λ _. tt)))

Mark-cases :
    (k : Mark)
    → ((negative : Bool) × (width : ℕ) × (k ≡ Mark.sign negative width))
      ⊎ (((width : ℕ) × (k ≡ Mark.currency width)) ⊎ (k ≡ Mark.no_mark))
Mark-cases (Mark.sign negative width) = inl (negative, width, refl)
Mark-cases (Mark.currency width) = inr (inl (width, refl))
Mark-cases Mark.no_mark = inr (inr refl)

-- What is left behind a mark is shorter.
behind-lt :
    (fuel width : ℕ) (s : Bytes)
    → (0 < width) × (width ≤ length s)
    → length s < suc fuel
    → length (trim_left (drop width s)) < fuel
behind-lt fuel width s (lo, hi) h =
    omega (arith, lo, hi, h, trim_left-le (drop width s), length-drop width s)

-- With fuel for one round more than the bytes that are left, the loop of prefix ends in front of a
-- text that no sign and no currency mark starts.
take_marks-no_mark :
    (fuel : ℕ) (m : Marks)
    → length m.body < fuel
    → leading_mark ((take_marks fuel m).body) ≡ Mark.no_mark
unfolding take_marks
take_marks-no_mark zero m h = absurd (omega (arith, h))
take_marks-no_mark (suc fuel) m h =
    let takes = leading_mark-Takes m.body in
    elim (Mark-cases (leading_mark m.body)) [
      | inl (negative, width, e) ↦
          rw (e, take_marks)
            (take_marks-no_mark fuel _ (behind-lt fuel width m.body (rw e at takes) h))
      | inr (inl (width, e)) ↦
          rw (e, take_marks)
            (take_marks-no_mark fuel _ (behind-lt fuel width m.body (rw e at takes) h))
      | inr (inr e) ↦ rw (e, take_marks) e
    ]
