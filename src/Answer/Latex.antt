-- ===== src/Answer/Latex.antt =====
-- answer/latex.go: commands, braces and digits.
use arandu_attempt.Base.{
  ℕ, zero, suc, ◌+◌, ◌-◌, ◌==◌, ltb, Bool, true, false, not, ◌&&◌, ◌||◌, Option, none, some, List,
  [], ◌∷◌, Bytes, codes, length, drop, take, has_prefix, if◌then◌else◌,
}
use arandu_attempt.Answer.Text.{last_index, between}

-- `isDigit`.
unfoldable pub is_digit : ℕ → Bool
is_digit b = between b'0' b'9' b

-- `isASCIILetter`.
unfoldable pub is_ascii_letter : ℕ → Bool
is_ascii_letter b = between b'a' b'z' b || between b'A' b'Z' b

-- Whether a text starts with a byte that passes a test.
abbrev pub starts_with : (ℕ → Bool) → Bytes → Bool
starts_with p [] = false
starts_with p (c ∷ s) = p c

-- `command`: the length of the name.
unfoldable pub command : Bytes → Bytes → Option ℕ
command s name =
    if not (has_prefix s name) || starts_with is_ascii_letter (drop (length name) s)
    then none
    else some (length name)

abbrev pub frac_commands : List Bytes
frac_commands = codes "\\frac" ∷ codes "\\dfrac" ∷ codes "\\tfrac" ∷ []

abbrev pub box_commands : List Bytes
box_commands = codes "\\boxed" ∷ codes "\\fbox" ∷ []

unfoldable pub first_command : Bytes → List Bytes → Option ℕ
first_command s [] = none
first_command s (name ∷ names) = elim (command s name) [
  | some n ↦ some n
  | none ↦ first_command s names
]

-- `fracCommand`.
unfoldable pub frac_command : Bytes → Option ℕ
frac_command s = first_command s frac_commands

-- The inner loop of `lastCommand`; the limit goes down in every round.
unfoldable pub find_command : ℕ → ℕ → Bytes → Bytes → Option ℕ
find_command zero limit text name = none
find_command (suc fuel) limit text name = elim (last_index (take limit text) name) [
  | none ↦ none
  | some at ↦ elim (command (drop at text) name) [
    | none ↦ find_command fuel at text name
    | some n ↦ some at
  ]
]

-- The later of two spans, `at > start`.
unfoldable pub later_span : Option (ℕ × ℕ) → Option ℕ → ℕ → Option (ℕ × ℕ)
later_span best none width = best
later_span none (some at) width = some (at, at + width)
later_span (some (start, end)) (some at) width =
    if ltb start at then some (at, at + width) else some (start, end)

unfoldable pub last_of : Option (ℕ × ℕ) → Bytes → List Bytes → Option (ℕ × ℕ)
last_of best text [] = best
last_of best text (name ∷ names) =
    last_of (later_span best (find_command (length text + 1) (length text) text name) (length name))
      text names

-- `lastCommand`: where the command starts and where its name ends.
unfoldable pub last_command : Bytes → List Bytes → Option (ℕ × ℕ)
last_command text names = last_of none text names

-- `depth++` and `depth--` of the loops over braces.
unfoldable pub depth_after : ℕ → ℕ → ℕ
depth_after c depth = if c == b'{' then depth + 1 else if c == b'}' then depth - 1 else depth

-- The loop of `closingBrace`, from an opening brace on: whether the byte is escaped, its index, and
-- the braces that are open.
unfoldable pub close_from : Bool → ℕ → ℕ → Bytes → Option ℕ
unfolding depth_after
close_from escaped i depth [] = none
close_from true i depth (c ∷ s) = close_from false (i + 1) depth s
close_from false i depth (c ∷ s) =
    let rest = close_from (c == b'\\') (i + 1) (depth_after c depth) s in
    if c == b'}' && depth == 1 then some i else rest

-- `closingBrace`, on a text that has a brace at `open`.
unfoldable pub closing_brace : Bytes → ℕ → Option ℕ
unfolding close_from
closing_brace s open_at = close_from false open_at 0 (drop open_at s)

-- `balanced`.
unfoldable pub balanced_from : Bool → ℕ → Bytes → Bool
unfolding depth_after
balanced_from escaped depth [] = depth == 0
balanced_from true depth (c ∷ s) = balanced_from false depth s
balanced_from false depth (c ∷ s) =
    let rest = balanced_from (c == b'\\') (depth_after c depth) s in
    if c == b'}' && depth == 0 then false else rest

unfoldable pub balanced : Bytes → Bool
unfolding balanced_from
balanced s = balanced_from false 0 s

-- `s[from:digitsAt(s, from)]` and what follows it, on `s[from:]`.
unfoldable pub take_digits : Bytes → Bytes
unfolding is_digit
take_digits [] = []
take_digits (c ∷ s) = if is_digit c then c ∷ take_digits s else []

unfoldable pub drop_digits : Bytes → Bytes
unfolding is_digit
drop_digits [] = []
drop_digits (c ∷ s) = if is_digit c then drop_digits s else c ∷ s
