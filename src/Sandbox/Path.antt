-- ===== src/Sandbox/Path.antt =====
-- The functions of path and path/filepath that the sandbox uses, on Unix, and `sort.Strings`.
use arandu_attempt.Base.{
  Bool, true, false, ◌||◌, Option, none, some, List, [], ◌∷◌, ◌++◌, Bytes, codes, bytes_eq,
  bytes_lt, ◌==◌, if◌then◌else◌, length, ◌≡◌, refl, ◌<◌, ◌⊎◌, inl, inr, Option-cases, arith,
}

-- The parts between slashes, the first of them read last.
split_slash : Bytes → List Bytes
split_slash [] = [] ∷ []
split_slash (c ∷ s) = elim (split_slash s) [
  | [] ↦ []
  | p ∷ ps ↦ if c == b'/' then [] ∷ p ∷ ps else (c ∷ p) ∷ ps
]

-- What one element does to the elements kept so far, the last of them first.
push_element : Bool → List Bytes → Bytes → List Bytes
push_element rooted stack c =
    if bytes_eq c [] || bytes_eq c (codes ".")
    then stack
    else if bytes_eq c (codes "..")
    then elim stack [
      | [] ↦ if rooted then [] else c ∷ []
      | top ∷ below ↦ if bytes_eq top (codes "..") then c ∷ top ∷ below else below
    ]
    else c ∷ stack

push_elements : Bool → List Bytes → List Bytes → List Bytes
unfolding push_element
push_elements rooted stack [] = stack
push_elements rooted stack (c ∷ cs) = push_elements rooted (push_element rooted stack c) cs

-- The kept elements with slashes between them, in front of `after`.
join_onto : List Bytes → Bytes → Bytes
join_onto [] after = after
join_onto (c ∷ []) after = c ++ after
join_onto (c ∷ d ∷ cs) after = join_onto (d ∷ cs) (b'/' ∷ c ++ after)

-- `path.Clean`.
unfoldable pub clean : Bytes → Bytes
unfolding split_slash push_elements join_onto
clean [] = codes "."
clean (c ∷ s) =
    if c == b'/'
    then b'/' ∷ join_onto (push_elements true [] (split_slash s)) []
    else let kept = push_elements false [] (split_slash (c ∷ s)) in
      elim kept [ [] ↦ codes "." | top ∷ below ↦ join_onto (top ∷ below) [] ]

-- `filepath.Join(root, rel)`, neither part empty.
unfoldable pub join : Bytes → Bytes → Bytes
unfolding clean
join root rel = clean (root ++ b'/' ∷ rel)

-- What stands in front of the last slash; `none` if there is no slash.
before_slash : Bytes → Option Bytes
before_slash [] = none
before_slash (c ∷ s) = elim (before_slash s) [
  | some p ↦ some (c ∷ p)
  | none ↦ if c == b'/' then some [] else none
]

-- `filepath.Dir` of a clean absolute path.
unfoldable pub parent_dir : Bytes → Bytes
unfolding before_slash
parent_dir p = elim (before_slash p) [
  | none ↦ codes "."
  | some [] ↦ codes "/"
  | some (c ∷ q) ↦ c ∷ q
]

-- `strings.TrimSuffix(s, "/")`.
unfoldable pub trim_slash : Bytes → Bytes
trim_slash [] = []
trim_slash (c ∷ []) = if c == b'/' then [] else c ∷ []
trim_slash (c ∷ d ∷ s) = c ∷ trim_slash (d ∷ s)

insert : Bytes → List Bytes → List Bytes
unfolding bytes_lt
insert a [] = a ∷ []
insert a (b ∷ bs) = let later = insert a bs in if bytes_lt b a then b ∷ later else a ∷ b ∷ bs

-- `sort.Strings`.
unfoldable pub sort_strings : List Bytes → List Bytes
unfolding insert
sort_strings [] = []
sort_strings (a ∷ as') = insert a (sort_strings as')

tests_clean :
    (bytes_eq (clean (codes "a//b/./../c/")) (codes "a/c") ≡ true)
    × (bytes_eq (clean (codes "../../x")) (codes "../../x") ≡ true)
    × (bytes_eq (clean (codes "/../x/..")) (codes "/") ≡ true)
    × (bytes_eq (clean (codes "x/..")) (codes ".") ≡ true)
    × (bytes_eq (parent_dir (codes "/a/b")) (codes "/a") ≡ true)
unfolding clean parent_dir bytes_eq
tests_clean = (refl, refl, refl, refl, refl)

-- A path that starts with a slash.
abbrev pub IsAbs : Bytes → Type 0
IsAbs p = (q : Bytes) × (p ≡ b'/' ∷ q)

before_slash-lt : (s : Bytes) {q : Bytes} → before_slash s ≡ some q → length q < length s
unfolding before_slash
before_slash-lt [] h = cc
before_slash-lt (c ∷ s) h = elim (Option-cases (before_slash s)) [
  | inl e ↦ ground (arith, e)
  | inr (p, e) ↦ ground (arith, e, before_slash-lt s e)
]

parent_dir_top : (t : Bytes) → before_slash t ≡ none → parent_dir (b'/' ∷ t) ≡ b'/' ∷ []
unfolding parent_dir
parent_dir_top t e = ground (arith, e)

parent_dir_below : (t p : Bytes) → before_slash t ≡ some p → parent_dir (b'/' ∷ t) ≡ b'/' ∷ p
unfolding parent_dir
parent_dir_below t p e = ground (arith, e)

one_slash : (t : Bytes) → (◌≡◌ {A = Bytes} (b'/' ∷ []) (b'/' ∷ t)) ⊎ (1 < length (b'/' ∷ t))
one_slash [] = inl refl
one_slash (c ∷ t) = inr (omega arith)

-- The parent of an absolute path is absolute, and shorter unless it is the same path.
pub parent_dir-IsAbs :
    (t : Bytes)
    → IsAbs (parent_dir (b'/' ∷ t))
      × ((parent_dir (b'/' ∷ t) ≡ b'/' ∷ t) ⊎ (length (parent_dir (b'/' ∷ t)) < length (b'/' ∷ t)))
parent_dir-IsAbs t = elim (Option-cases (before_slash t)) [
  | inl e ↦ rw (parent_dir_top t e) (([], refl), one_slash t)
  | inr (p, e) ↦
      let less = before_slash-lt t e in rw (parent_dir_below t p e) ((p, refl), inr (omega arith))
]

-- `Join` of an absolute root is absolute.
pub join-IsAbs : (root rel : Bytes) → IsAbs root → IsAbs (join root rel)
unfolding join
join-IsAbs root rel (q, e) = rw e (_, refl)
