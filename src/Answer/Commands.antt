-- ===== src/Answer/Commands.antt =====
-- Lemmas on the last occurrence of a part in a text, and on names that do not overlap.
use arandu_attempt.Base.{
  ℕ, zero, suc, ◌+◌, ◌-◌, ◌==◌, ltb, ◌≤◌, ◌<◌, ◌≡◌, refl, sym, ap, ◌∙◌, inl, inr, true, false,
  Bool-cases, Option, some, none, Option-cases, [], ◌∷◌, Bytes, length, length-drop,
  has_prefix-length, drop, take, has_prefix, All, arith, if-intro,
}
use arandu_attempt.Answer.Text.{last_index, last_index_from}

-- Whether a part stands at an index.
abbrev pub At : Bytes → Bytes → ℕ → Type 0
At s part j = (j < length s) × (has_prefix (drop j s) part ≡ true)

-- No part stands at an index from `k` on.
abbrev pub Clear : Bytes → Bytes → ℕ → Type 0
Clear s part k = (j : ℕ) → At s part j → j < k

Clear-cons : (c k : ℕ) (s part : Bytes) → Clear s part k → Clear (c ∷ s) part (suc k)
Clear-cons c k s part h zero here = omega arith
Clear-cons c k s part h (suc j) (lo, here) =
    let below : j < k = h j (omega (arith, lo), here) in omega (arith, below)

Clear-first :
    (c : ℕ) (s part : Bytes)
    → Clear s part 0
    → has_prefix (c ∷ s) part ≡ false
    → Clear (c ∷ s) part 0
Clear-first c s part h e zero (lo, here) = absurd (cc (sym e ∙ here))
Clear-first c s part h e (suc j) (lo, here) =
    let below : j < 0 = h j (omega (arith, lo), here) in absurd (omega (arith, below))

-- What a search for the last part returns, counted from an offset.
abbrev pub Last : ℕ → Bytes → Bytes → Option ℕ → Type 0
Last i s part none = Clear s part 0
Last i s part (some at) = (k : ℕ) × (at ≡ i + k) × At s part k × Clear s part (suc k)

last_index_from-Last : (i : ℕ) (s part : Bytes) → Last i s part (last_index_from i s part)
unfolding last_index_from
last_index_from-Last i [] part = λ j (h, _). absurd (omega (arith, h))
last_index_from-Last i (c ∷ s) part =
    let ih = last_index_from-Last (i + 1) s part in
    elim (Option-cases (last_index_from (i + 1) s part)) [
      | inr (at, e) ↦
          let (k, q, (lo, here), clear) : Last (i + 1) s part (some at) = rw e at ih in
          rw (e, last_index_from)
            (suc k, omega (arith, q), (omega (arith, lo), here), Clear-cons c (suc k) s part clear)
      | inl e ↦
          let clear : Clear s part 0 = rw e at ih in
          rw (e, last_index_from)
            (if-intro (Last i (c ∷ s) part) (has_prefix (c ∷ s) part) (some i) none
              (λ here. (0, omega arith, (omega arith, here), Clear-cons c 0 s part clear))
              (λ other. Clear-first c s part clear other))
    ]

pub last_index-Last : (s part : Bytes) → Last 0 s part (last_index s part)
unfolding last_index
last_index-Last s part = last_index_from-Last 0 s part

-- A part stands in the first bytes of a text if it ends among them.
has_prefix-take :
    (n : ℕ) (s part : Bytes) → length part ≤ n → has_prefix (take n s) part ≡ has_prefix s part
unfolding has_prefix
has_prefix-take n s [] h = refl
has_prefix-take zero s (p ∷ part) h = absurd (omega (arith, h))
has_prefix-take (suc n) [] (p ∷ part) h = refl
has_prefix-take (suc n) (c ∷ s) (p ∷ part) h = rw (has_prefix-take n s part (omega (arith, h))) refl

take-nil : (n : ℕ) → take {A = ℕ} n [] ≡ []
take-nil zero = refl
take-nil (suc n) = refl

drop-take : (j n : ℕ) (s : Bytes) → drop j (take n s) ≡ take (n - j) (drop j s)
drop-take zero n s = ap (λ m. take m s) (omega arith)
drop-take (suc j) zero s =
    let none_left : 0 ≡ 0 - suc j = omega arith in ap (λ m. take m (drop (suc j) s)) none_left
drop-take (suc j) (suc n) [] = sym (take-nil (suc n - suc j))
drop-take (suc j) (suc n) (c ∷ s) =
    let left : n - j ≡ suc n - suc j = omega arith in
    drop-take j n s ∙ ap (λ m. take m (drop j s)) left

length-take : (n : ℕ) (s : Bytes) → n ≤ length s → length (take n s) ≡ n
length-take zero s h = refl
length-take (suc n) [] h = absurd (omega (arith, h))
length-take (suc n) (c ∷ s) h = omega (arith, length-take n s (omega (arith, h)))

-- A part stands below the limit exactly when it stands there in the bytes up to the limit.
pub At-take :
    (text part : Bytes) (limit j : ℕ)
    → limit ≤ length text
    → j + length part ≤ limit
    → At text part j
    → j < limit
    → At (take limit text) part j
At-take text part limit j h fits (lo, here) below = (
  omega (arith, length-take limit text h, below),
  rw (drop-take j limit text)
      (has_prefix-take (limit - j) (drop j text) part (omega (arith, fits)) ∙ here),
)

pub take-At :
    (text part : Bytes) (limit j : ℕ)
    → limit ≤ length text
    → At (take limit text) part j
    → (j + length part ≤ limit) × At text part j
take-At text part limit j h (lo, here) =
    let len = length-take limit text h in
    let fits : length part ≤ limit - j = omega (
      arith,
      len,
      has_prefix-length (drop j (take limit text)) part here,
      length-drop j (take limit text),
    ) in
    (
      omega (arith, fits, lo, len),
      (
        omega (arith, lo, len, h),
        sym (has_prefix-take (limit - j) (drop j text) part fits)
            ∙ rw (drop-take j limit text) at here,
      ),
    )

-- A name starts with a backslash and has no other one.
abbrev pub IsName : Bytes → Type 0
IsName [] = (true ≡ false)
IsName (c ∷ s) = (c ≡ b'\\') × All (λ b. (b == b'\\') ≡ false) s

-- Two places of a name do not overlap.
plain-inside :
    (d : ℕ) (s t u : Bytes)
    → All (λ b. (b == b'\\') ≡ false) t
    → has_prefix s t ≡ true
    → d < length t
    → has_prefix (drop d s) (b'\\' ∷ u) ≡ false
unfolding has_prefix
plain-inside d s [] u h k lt = absurd (omega (arith, lt))
plain-inside d [] (p ∷ t) u h k lt = absurd (cc k)
plain-inside zero (c ∷ s) (p ∷ t) u (h, hs) k lt = ground (arith, h, k)
plain-inside (suc d) (c ∷ s) (p ∷ t) u (h, hs) k lt =
    let k' : has_prefix s t ≡ true = ground (arith, k) in
    plain-inside d s t u hs k' (omega (arith, lt))

inside_name :
    (d : ℕ) (s name : Bytes)
    → IsName name
    → has_prefix s name ≡ true
    → suc d < length name
    → has_prefix (drop (suc d) s) name ≡ false
unfolding has_prefix
inside_name d s [] h k lt = absurd (cc h)
inside_name d [] (n ∷ t) h k lt = absurd (cc k)
inside_name d (c ∷ s) (n ∷ t) (is, plain) k lt =
    let k' : has_prefix s t ≡ true = ground (arith, k) in
    rw is (plain-inside d s t t plain k' (omega (arith, lt)))

drop-nil : (n : ℕ) → drop {A = ℕ} n [] ≡ []
drop-nil zero = refl
drop-nil (suc n) = refl

drop-drop : (j d : ℕ) (s : Bytes) → drop (j + d) s ≡ drop d (drop j s)
drop-drop zero d s = ap (λ m. drop m s) (omega arith)
drop-drop (suc j) d [] = drop-nil (suc j + d) ∙ sym (drop-nil d)
drop-drop (suc j) d (c ∷ s) =
    let next : suc j + d ≡ suc (j + d) = omega arith in
    ap (λ m. drop m (c ∷ s)) next ∙ drop-drop j d s

pub no_overlap :
    (text name : Bytes) (j k : ℕ)
    → IsName name
    → At text name j
    → At text name k
    → j < k
    → j + length name ≤ k
no_overlap text name j k h (lo, here) (lo', there) lt =
    elim (Bool-cases (ltb k (j + length name))) [
      | inr e ↦ ground (arith, e)
      | inl e ↦
          let short : suc (k - j - 1) < length name = ground (arith, e, lt) in
          let at : k ≡ j + suc (k - j - 1) = omega (arith, lt) in
          let miss = inside_name (k - j - 1) (drop j text) name h here short in
          absurd (
            cc (
              sym there
              ∙ ap (λ m. has_prefix (drop m text) name) at
              ∙ ap (λ s. has_prefix s name) (drop-drop j (suc (k - j - 1)) text)
              ∙ miss))
    ]
