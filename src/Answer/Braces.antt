-- ===== src/Answer/Braces.antt =====
-- Lemmas on braces: the two loops over them, closingBrace and balanced.
use arandu_attempt.Base.{
  ℕ, zero, suc, ◌+◌, ◌==◌, ◌≡◌, refl, sym, ap, ◌∙◌, ◌↔◌, inl, inr, Bool, true, false, ◌&&◌,
  Bool-cases, some, [], ◌∷◌, ◌++◌, Bytes, length, drop, arith,
}
use arandu_attempt.Answer.Latex.{depth_after, close_from, closing_brace, balanced_from, balanced}

-- Whether the byte behind a text is escaped by a backslash.
abbrev pub ends_escaped : Bool → Bytes → Bool
ends_escaped escaped [] = escaped
ends_escaped true (c ∷ s) = ends_escaped false s
ends_escaped false (c ∷ s) = ends_escaped (c == b'\\') s

-- The inside of a group: every brace in it is closed, and a brace behind it is not escaped.
abbrev IsInside : Bool → ℕ → Bytes → Type 0
IsInside escaped depth inner =
    (balanced_from escaped depth inner ≡ true) × (ends_escaped escaped inner ≡ false)

-- An inner brace moves both depths alike.
depth_after-suc :
    (c d : ℕ) → (c == b'}' && d == 0) ≡ false → depth_after c (suc d) ≡ suc (depth_after c d)
unfolding depth_after
depth_after-suc c d h = ground arith

-- One byte of both loops: the brace that closes the group, or any other byte.
abbrev is_end : ℕ → ℕ → Bool
is_end c d = c == b'}' && d == 0

close_from-end :
    (i c d : ℕ) (s : Bytes) → is_end c d ≡ true → close_from false i (suc d) (c ∷ s) ≡ some i
unfolding close_from
close_from-end i c d s h = let e : (c == b'}' && suc d == 1) ≡ true = ground (arith, h) in rw e refl

close_from-stay :
    (i c d : ℕ) (s : Bytes)
    → is_end c d ≡ false
    → close_from false i (suc d) (c ∷ s) ≡ close_from (c == b'\\') (i + 1) (suc (depth_after c d)) s
unfolding close_from
close_from-stay i c d s h =
    let e : (c == b'}' && suc d == 1) ≡ false = ground (arith, h) in
    rw (e, depth_after-suc c d h) refl

balanced_from-end :
    (c d : ℕ) (s : Bytes) → is_end c d ≡ true → balanced_from false d (c ∷ s) ≡ false
unfolding balanced_from
balanced_from-end c d s h = rw h refl

balanced_from-stay :
    (c d : ℕ) (s : Bytes)
    → is_end c d ≡ false
    → balanced_from false d (c ∷ s) ≡ balanced_from (c == b'\\') (depth_after c d) s
unfolding balanced_from
balanced_from-stay c d s h = rw h refl

close_from-IsInside :
    (escaped : Bool) (i d : ℕ) (inner post : Bytes)
    → IsInside escaped d inner
    → close_from escaped i (suc d) (inner ++ b'}' ∷ post) ≡ some (i + length inner)
unfolding close_from balanced_from
close_from-IsInside true i d [] post (h, k) = absurd (cc k)
close_from-IsInside false i zero [] post (h, k) = ap some (omega arith)
close_from-IsInside false i (suc d) [] post (h, k) = ground (arith, h)
close_from-IsInside true i d (c ∷ inner) post (h, k) =
    close_from-IsInside false (i + 1) d inner post (h, k) ∙ ap some (omega arith)
close_from-IsInside false i d (c ∷ inner) post (h, k) = elim (Bool-cases (is_end c d)) [
  | inl e ↦ absurd (cc (sym h ∙ balanced_from-end c d inner e))
  | inr e ↦
      close_from-stay i c d _ e
      ∙ close_from-IsInside (c == b'\\') (i + 1) (depth_after c d) inner post
          (sym (balanced_from-stay c d inner e) ∙ h, k)
      ∙ ap some (omega arith)
]

-- What the loop has passed over when it returns.
abbrev Closed : Bool → ℕ → ℕ → ℕ → Bytes → Type 0
Closed escaped i d end s =
    (inner : Bytes) × (post : Bytes) × (s ≡ inner ++ b'}' ∷ post)
    × (end ≡ i + length inner)
    × IsInside escaped d inner

IsInside-close_from :
    (escaped : Bool) (i d end : ℕ) (s : Bytes)
    → close_from escaped i (suc d) s ≡ some end
    → Closed escaped i d end s
unfolding close_from balanced_from
IsInside-close_from escaped i d end [] h = absurd (cc h)
IsInside-close_from true i d end (c ∷ s) h =
    let (inner, post, e, at, inside) = IsInside-close_from false (i + 1) d end s h in
    (c ∷ inner, post, ap (c ∷◌) e, omega (arith, at), inside)
IsInside-close_from false i d end (c ∷ s) h = elim (Bool-cases (is_end c d)) [
  | inl e ↦
      let brace : c ≡ b'}' = ground (arith, e) in
      let at : i ≡ end = cc (sym (close_from-end i c d s e) ∙ h) in
      ([], s, ap (λ t. t ∷ s) brace, omega (arith, at), (ground (arith, e), refl))
  | inr e ↦
      let (inner, post, q, at, (b, k)) =
        IsInside-close_from (c == b'\\') (i + 1) (depth_after c d) end s
          (sym (close_from-stay i c d s e) ∙ h) in
      (c ∷ inner, post, ap (c ∷◌) q, omega (arith, at), (balanced_from-stay c d inner e ∙ b, k))
]

drop-length_append : (pre s : Bytes) → drop (length pre) (pre ++ s) ≡ s
drop-length_append [] s = refl
drop-length_append (c ∷ pre) s = drop-length_append pre s

closing_brace_lem :
    (pre s : Bytes)
    → closing_brace (pre ++ b'{' ∷ s) (length pre) ≡ close_from false (length pre + 1) 1 s
unfolding closing_brace close_from depth_after
closing_brace_lem pre s = rw (drop-length_append pre (b'{' ∷ s)) refl

-- From an opening brace, closingBrace returns the index of a closing brace exactly when the text
-- between the two is balanced and does not escape it.
pub closing_brace_iff :
    (pre s : Bytes) (end : ℕ)
    → (closing_brace (pre ++ b'{' ∷ s) (length pre) ≡ some end) ↔ (
        (inner : Bytes) × (post : Bytes) × (s ≡ inner ++ b'}' ∷ post)
        × (end ≡ length pre + 1 + length inner)
        × (balanced inner ≡ true)
        × (ends_escaped false inner ≡ false))
unfolding balanced
closing_brace_iff pre s end = rw (closing_brace_lem pre s) (
  λ h.
      let (inner, post, e, at, inside) = IsInside-close_from false (length pre + 1) 0 end s h in
      (inner, post, e, at, inside.0, inside.1),
  λ (inner, post, e, at, b, k).
      rw (e, at) (close_from-IsInside false (length pre + 1) 0 inner post (b, k)),
)
