-- ===== src/Answer/Boxes.antt =====
-- Lemmas on lastCommand, the search for the last command of a text.
use arandu_attempt.Base.{
  ℕ, zero, suc, ◌+◌, ◌==◌, ltb, ◌≤◌, ◌<◌, ◌≡◌, refl, sym, ap, ◌∙◌, ◌⊎◌, inl, inr, not, ◌||◌,
  Bool-cases, Option, some, none, Option-cases, [], ◌∷◌, Bytes, codes, length, length-drop,
  has_prefix-length, drop, take, has_prefix, arith, if-intro,
}
use arandu_attempt.Answer.Text.{last_index}
use arandu_attempt.Answer.Latex.{
  command, is_ascii_letter, starts_with, find_command, later_span, last_of, last_command,
  box_commands,
}
use arandu_attempt.Answer.Commands.{
  At, Clear, Last, last_index-Last, At-take, take-At, IsName, no_overlap,
}

-- A command stands at an index.
abbrev pub Stands : Bytes → Bytes → ℕ → Type 0
Stands text name j = (j < length text) × (command (drop j text) name ≡ some (length name))

-- The last place of one command.
abbrev LastPlace : Bytes → Bytes → Option ℕ → Type 0
LastPlace text name none = (j : ℕ) → Stands text name j → j < 0
LastPlace text name (some at) = Stands text name at × ((j : ℕ) → Stands text name j → j ≤ at)

command-some : (s name : Bytes) {n : ℕ} → command s name ≡ some n → n ≡ length name
unfolding command
command-some s name {n} =
    if-intro (λ r. r ≡ some n → n ≡ length name)
      (not (has_prefix s name) || starts_with is_ascii_letter (drop (length name) s)) _ _
      (λ yes e. absurd (cc e)) (λ other e. cc (sym e))

Stands-At : (text name : Bytes) (j : ℕ) → Stands text name j → At text name j
unfolding command
Stands-At text name j (lo, here) = elim (Bool-cases (has_prefix (drop j text) name)) [
  | inl e ↦ (lo, e)
  | inr e ↦ absurd (cc (rw e at here))
]

name_pos : (name : Bytes) → IsName name → 0 < length name
name_pos [] h = absurd (cc h)
name_pos (c ∷ s) h = omega arith

-- The search below a limit, when every place of the command ends there.
abbrev EndsBelow : Bytes → Bytes → ℕ → Type 0
EndsBelow text name limit = (j : ℕ) → Stands text name j → j + length name ≤ limit

-- Then no place lies behind the last one that the text up to the limit shows.
below_last :
    (text name : Bytes) (limit k : ℕ)
    → IsName name
    → limit ≤ length text
    → EndsBelow text name limit
    → Clear (take limit text) name k
    → (j : ℕ) → Stands text name j
    → j < k
below_last text name limit k h top all clear j here = clear j (
    At-take text name limit j top (all j here) (Stands-At text name j here)
      (omega (arith, all j here, name_pos name h)))

-- If the last place is not a command, every command ends in front of it.
ends_before :
    (text name : Bytes) (k : ℕ)
    → IsName name
    → At text name k
    → command (drop k text) name ≡ none
    → ((j : ℕ) → Stands text name j → j < suc k)
    → EndsBelow text name k
ends_before text name k h there miss below j here = elim (Bool-cases (j == k)) [
  | inl e ↦
      let same : j ≡ k = ground (arith, e) in
      absurd (cc (sym (here.1) ∙ ap (λ m. command (drop m text) name) same ∙ miss))
  | inr e ↦
      let lt : j < k = ground (arith, e, below j here) in
      no_overlap text name j k h (Stands-At text name j here) there lt
]

find_command-LastPlace :
    (fuel limit : ℕ) (text name : Bytes)
    → IsName name
    → limit < fuel
    → limit ≤ length text
    → EndsBelow text name limit
    → LastPlace text name (find_command fuel limit text name)
unfolding find_command
find_command-LastPlace zero limit text name h lt top all = absurd (omega (arith, lt))
find_command-LastPlace (suc fuel) limit text name h lt top all =
    let found = last_index-Last (take limit text) name in
    elim (Option-cases (last_index (take limit text) name)) [
      | inl e ↦
          let clear : Clear (take limit text) name 0 = rw e at found in
          rw (e, find_command) (below_last text name limit 0 h top all clear)
      | inr (at, e) ↦
          let (k, q, here, clear) : Last 0 (take limit text) name (some at) = rw e at found in
          let same : at ≡ k = omega (arith, q) in
          let (fits, there) = take-At text name limit k top here in
          let below = below_last text name limit (suc k) h top all clear in
          elim (Option-cases (command (drop k text) name)) [
            | inl miss ↦
                rw (e, same, miss, find_command)
                  (rw same (
                    find_command-LastPlace fuel k text name h
                      (omega (arith, fits, lt, name_pos name h)) (omega (arith, fits, top))
                      (ends_before text name k h there miss below)))
            | inr (n, hit) ↦
                rw (e, same, hit, find_command)
                  (rw same (
                    (there.0, hit ∙ ap some (command-some (drop k text) name hit)),
                    λ j stands. omega (arith, below j stands),
                  ))
          ]
    ]

abbrev pub boxed_name : Bytes
boxed_name = codes "\\boxed"

abbrev pub fbox_name : Bytes
fbox_name = codes "\\fbox"

-- One of the two boxes stands at an index.
abbrev pub Box : Bytes → ℕ → Type 0
Box text j = Stands text boxed_name j ⊎ Stands text fbox_name j

-- The last box of a text, and where its name ends.
abbrev pub IsLastBox : Bytes → Option (ℕ × ℕ) → Type 0
IsLastBox text none = (j : ℕ) → Box text j → j < 0
IsLastBox text (some (start, end)) =
    ((Stands text boxed_name start × (end ≡ start + 6))
      ⊎ (Stands text fbox_name start × (end ≡ start + 5)))
    × ((j : ℕ) → Box text j → j ≤ start)

later_span-IsLastBox :
    (text : Bytes) (a b : Option ℕ)
    → LastPlace text boxed_name a
    → LastPlace text fbox_name b
    → IsLastBox text (later_span (later_span none a 6) b 5)
unfolding later_span
later_span-IsLastBox text none none h k = λ j box. elim box [ inl s ↦ h j s | inr s ↦ k j s ]
later_span-IsLastBox text (some a) none (here, h) k =
    (inl (here, refl), λ j box. elim box [ inl s ↦ h j s | inr s ↦ absurd (omega (arith, k j s)) ])
later_span-IsLastBox text none (some b) h (here, k) =
    (inr (here, refl), λ j box. elim box [ inl s ↦ absurd (omega (arith, h j s)) | inr s ↦ k j s ])
later_span-IsLastBox text (some a) (some b) (here, h) (there, k) =
    if-intro (IsLastBox text) (ltb a b) (some (b, b + 5)) (some (a, a + 6))
      (λ yes. (
        inr (there, refl),
        λ j box. elim box [ inl s ↦ (let n = h j s in ground (arith, n, yes)) | inr s ↦ k j s ],
      ))
      (λ other. (
        inl (here, refl),
        λ j box. elim box [ inl s ↦ h j s | inr s ↦ (let n = k j s in ground (arith, n, other)) ],
      ))

find_name :
    (text name : Bytes)
    → IsName name
    → LastPlace text name (find_command (length text + 1) (length text) text name)
find_name text name h =
    find_command-LastPlace (length text + 1) (length text) text name h (omega arith) (omega arith)
      (λ j s.
        let (lo, here) = Stands-At text name j s in
        omega (arith, lo, has_prefix-length (drop j text) name here, length-drop j text))

-- lastCommand finds the last box of a text and the end of its name, and finds none only if there is
-- none.
pub last_command-IsLastBox : (text : Bytes) → IsLastBox text (last_command text box_commands)
unfolding last_command last_of
last_command-IsLastBox text =
    later_span-IsLastBox text _ _
      (find_name text boxed_name (refl, (refl, (refl, (refl, (refl, (refl, tt)))))))
      (find_name text fbox_name (refl, (refl, (refl, (refl, (refl, tt))))))
