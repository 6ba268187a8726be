-- ===== src/Answer/Trim.antt =====
-- Lemmas on white space, and texts of graphic ASCII bytes.
use arandu_attempt.Base.{ℕ, ltb, ◌<◌, ◌≡◌, refl, true, false, [], ◌∷◌, ◌++◌, Bytes, length, arith}
use arandu_attempt.Answer.Text.{
  byte_at, decode, decode_last, is_space, trim_left, trim_right, trim_space,
}

-- A byte from `!` to `~`.
abbrev pub IsGraphic : ℕ → Type 0
IsGraphic c = (0x20 < c) × (c < 0x7F)

is_space-IsGraphic : (c : ℕ) → IsGraphic c → is_space c ≡ false
unfolding is_space
is_space-IsGraphic c h = ground arith

decode_ascii : (c : ℕ) (s : Bytes) → c < 0x80 → decode (c ∷ s) ≡ (c, 1)
unfolding decode
decode_ascii c s h = let e : ltb c 0x80 ≡ true = ground arith in rw e refl

-- The last byte of a text.
abbrev pub Last {ℓ} : (ℕ → Type ℓ) → Bytes → Type ℓ
Last P [] = Unit
Last P (c ∷ []) = P c
Last P (c ∷ d ∷ s) = Last P (d ∷ s)

pub Last-byte_at {ℓ} :
    (P : ℕ → Type ℓ) (c : ℕ) (s : Bytes) → Last P (c ∷ s) → P (byte_at (c ∷ s) (length s))
Last-byte_at P c [] h = h
Last-byte_at P c (d ∷ s) h = Last-byte_at P d s h

pub Last-append {ℓ} :
    (P : ℕ → Type ℓ) (s : Bytes) (d : ℕ) (t : Bytes) → Last P (d ∷ t) → Last P (s ++ d ∷ t)
Last-append P [] d t h = h
Last-append P (c ∷ []) d t h = h
Last-append P (c ∷ e ∷ s) d t h = Last-append P (e ∷ s) d t h

decode_last_ascii :
    (c : ℕ) (s : Bytes)
    → Last IsGraphic (c ∷ s)
    → decode_last (c ∷ s) ≡ (byte_at (c ∷ s) (length s), 1)
unfolding decode_last
decode_last_ascii c s h =
    let (lo, hi) = Last-byte_at IsGraphic c s h in
    let e : ltb (byte_at (c ∷ s) (length s)) 0x80 ≡ true = ground arith in rw e refl

pub trim_left-IsGraphic : (c : ℕ) (s : Bytes) → IsGraphic c → trim_left (c ∷ s) ≡ c ∷ s
unfolding trim_left
trim_left-IsGraphic c s h = rw (decode_ascii c s (omega arith), is_space-IsGraphic c h) refl

trim_right-IsGraphic : (c : ℕ) (s : Bytes) → Last IsGraphic (c ∷ s) → trim_right (c ∷ s) ≡ c ∷ s
unfolding trim_right
trim_right-IsGraphic c s h =
    rw (decode_last_ascii c s h, is_space-IsGraphic _ (Last-byte_at IsGraphic c s h)) refl

pub trim_space-IsGraphic :
    (c : ℕ) (s : Bytes) → IsGraphic c → Last IsGraphic (c ∷ s) → trim_space (c ∷ s) ≡ c ∷ s
unfolding trim_space
trim_space-IsGraphic c s h k = rw (trim_left-IsGraphic c s h) (trim_right-IsGraphic c s k)
