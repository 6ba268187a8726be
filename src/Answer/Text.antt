-- ===== src/Answer/Text.antt =====
-- What the package uses of unicode/utf8, unicode and strings: the code point at either end of a
-- text, and white space.
use arandu_attempt.Base.{
  ℕ, zero, suc, ◌+◌, ◌-◌, ◌*◌, ◌%◌, ◌==◌, leb, ltb, Bool, false, ◌&&◌, ◌||◌, Option, none, some, [],
  ◌∷◌, Bytes, length, drop, take, get_elem?, has_prefix, if◌then◌else◌,
}

-- `utf8.RuneError`.
abbrev pub rune_error : ℕ
rune_error = 0xFFFD

abbrev pub between : ℕ → ℕ → ℕ → Bool
between lo hi b = leb lo b && leb b hi

-- The encodings of two, three and four bytes; anything else is an error one byte wide.
decode_two : ℕ → Bytes → ℕ × ℕ
decode_two a [] = (rune_error, 1)
decode_two a (b ∷ s) = if between 0x80 0xBF b then (a % 32 * 64 + b % 64, 2) else (rune_error, 1)

decode_three : ℕ → Bytes → ℕ × ℕ
decode_three a [] = (rune_error, 1)
decode_three a (b ∷ []) = (rune_error, 1)
decode_three a (b ∷ c ∷ s) =
    let lo : ℕ = if a == 0xE0 then 0xA0 else 0x80 in
    let hi : ℕ = if a == 0xED then 0x9F else 0xBF in
    if between lo hi b && between 0x80 0xBF c
    then (a % 16 * 4096 + b % 64 * 64 + c % 64, 3)
    else (rune_error, 1)

decode_four : ℕ → Bytes → ℕ × ℕ
decode_four a (b ∷ c ∷ d ∷ s) =
    let lo : ℕ = if a == 0xF0 then 0x90 else 0x80 in
    let hi : ℕ = if a == 0xF4 then 0x8F else 0xBF in
    if between lo hi b && between 0x80 0xBF c && between 0x80 0xBF d
    then (a % 8 * 262144 + b % 64 * 4096 + c % 64 * 64 + d % 64, 4)
    else (rune_error, 1)
decode_four a _ = (rune_error, 1)

-- `utf8.DecodeRuneInString`: the code point and its width.
unfoldable pub decode : Bytes → ℕ × ℕ
unfolding decode_two decode_three decode_four
decode [] = (rune_error, 0)
decode (a ∷ s) =
    if ltb a 0x80
    then (a, 1)
    else if between 0xC2 0xDF a
    then decode_two a s
    else if between 0xE0 0xEF a
    then decode_three a s
    else if between 0xF0 0xF4 a
    then decode_four a s
    else (rune_error, 1)

abbrev pub byte_at : Bytes → ℕ → ℕ
byte_at s i = elim (get_elem? s i) [ none ↦ 0 | some b ↦ b ]

-- Where the last code point starts: the bytes `k` from the end and further back are looked at.
unfoldable pub rune_back : ℕ → ℕ → Bytes → ℕ
rune_back zero k s = length s - k
rune_back (suc rounds) k s =
    if ltb (length s) k
    then 0
    else if between 0x80 0xBF (byte_at s (length s - k))
    then rune_back rounds (k + 1) s
    else length s - k

unfoldable pub rune_ending : ℕ → Bytes → ℕ × ℕ
rune_ending start s =
    let found = decode (drop start s) in
    if start + found.1 == length s then found else (rune_error, 1)

-- `utf8.DecodeLastRuneInString`.
unfoldable pub decode_last : Bytes → ℕ × ℕ
decode_last [] = (rune_error, 0)
decode_last (a ∷ s) =
    let last = byte_at (a ∷ s) (length s) in
    if ltb last 0x80 then (last, 1) else rune_ending (rune_back 3 2 (a ∷ s)) (a ∷ s)

-- `unicode.IsSpace`.
unfoldable pub is_space : ℕ → Bool
is_space r =
    between 0x09 0x0D r
    || r == 0x20
    || r == 0x85
    || r == 0xA0
    || r == 0x1680
    || between 0x2000 0x200A r
    || r == 0x2028
    || r == 0x2029
    || r == 0x202F
    || r == 0x205F
    || r == 0x3000

-- `strings.TrimLeftFunc(s, unicode.IsSpace)`: so many bytes are still to be left out.
unfoldable pub trim_from : ℕ → Bytes → Bytes
unfolding is_space decode
trim_from skip [] = []
trim_from (suc skip) (c ∷ s) = trim_from skip s
trim_from zero (c ∷ s) =
    let rune = decode (c ∷ s) in
    let rest = trim_from (rune.1 - 1) s in if is_space rune.0 then rest else c ∷ s

unfoldable pub trim_left : Bytes → Bytes
unfolding trim_from
trim_left s = trim_from 0 s

-- `strings.TrimRightFunc(s, unicode.IsSpace)`: each round takes a byte or more off the end.
unfoldable pub trim_back : ℕ → Bytes → Bytes
unfolding is_space decode_last
trim_back zero s = s
trim_back (suc rounds) [] = []
trim_back (suc rounds) (c ∷ s) =
    let rune = decode_last (c ∷ s) in
    let rest = trim_back rounds (take (suc (length s) - rune.1) (c ∷ s)) in
    if is_space rune.0 then rest else c ∷ s

unfoldable pub trim_right : Bytes → Bytes
unfolding trim_back
trim_right s = trim_back (length s) s

-- `strings.TrimSpace`.
unfoldable pub trim_space : Bytes → Bytes
trim_space s = trim_right (trim_left s)

-- `strings.LastIndex(s, part)`, `part` not empty.
unfoldable pub last_index_from : ℕ → Bytes → Bytes → Option ℕ
last_index_from i [] part = none
last_index_from i (c ∷ s) part = elim (last_index_from (i + 1) s part) [
  | some at ↦ some at
  | none ↦ if has_prefix (c ∷ s) part then some i else none
]

unfoldable pub last_index : Bytes → Bytes → Option ℕ
unfolding last_index_from
last_index s part = last_index_from 0 s part

-- `strings.ContainsRune` and `strings.IndexByte(…) >= 0`, on a literal.
unfoldable pub is_one_of : ℕ → Bytes → Bool
is_one_of r [] = false
is_one_of r (c ∷ cs) = r == c || is_one_of r cs
