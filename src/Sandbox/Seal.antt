-- ===== src/Sandbox/Seal.antt =====
-- sandbox.go, `seal`, `VerifySeal` and `digestReserved`: lemmas on the digests.
use arandu_attempt.Base.{
  ◌≡◌, refl, ap, ◌∙◌, ◌↔◌, inl, inr, false, List, [], ◌∷◌, ◌++◌, Bytes, codes, bytes_eq, bytes_lt,
  subst, bytes_eq_iff, bytes_eq_refl, arith, if◌then◌else◌, Bool-cases, All, map, append_assoc,
}
use arandu_attempt.Base.Result.{ok, err, bind-eq-ok}
use arandu_attempt.World.{World, Entry, dir, file}
use arandu_attempt.Sandbox.Path.{sort_strings, clean, trim_slash}
use arandu_attempt.Sandbox.{
  Sandbox, reserved_changed, lookup_or_empty, digest_reserved, seal_from, seal, verify_from,
  verify_seal, digest_input, new_sandbox, sealed_box, system, entry_line,
}

module _ (w : World) where
  open w use {State}

  -- Every reserved prefix has the digest that the seal holds for it.
  abbrev pub Intact : State → Sandbox → List Bytes → Type 0
  Intact s box = All (λ r. digest_reserved w s box.root r ≡ ok (lookup_or_empty r box.sealed))

  verify_from_iff :
      (s : State) (box : Sandbox) (rs : List Bytes)
      → (verify_from w s box rs ≡ ok tt) ↔ Intact s box rs
  unfolding verify_from
  verify_from_iff s box [] = (λ h. tt, λ h. refl)
  verify_from_iff s box (r ∷ rs) =
      let sealed = lookup_or_empty r box.sealed in
      let ih = verify_from_iff s box rs in
      (
        λ h.
            let (sum, e, rest) =
              bind-eq-ok (digest_reserved w s box.root r)
                (λ sum.
                  if bytes_eq sum sealed then verify_from w s box rs else err (reserved_changed r))
                h in
            elim (Bool-cases (bytes_eq sum sealed)) [
              | inl y ↦ (e ∙ ap ok ((bytes_eq_iff sum sealed).0 y), ih.0 (rw y at rest))
              | inr n ↦ cc (rw n at rest)
            ],
        λ h. rw h.0 (rw (bytes_eq_refl sealed) (ih.1 h.1)),
      )

  -- `VerifySeal` reports nothing exactly when every reserved subtree can be read and has the digest
  -- that was sealed for it.
  pub verify_seal_iff :
      (s : State) (box : Sandbox) → (verify_seal w s box ≡ ok tt) ↔ Intact s box box.reserved
  unfolding verify_seal
  verify_seal_iff s box = verify_from_iff s box box.reserved

  -- Every digest of a list of sums is that of its prefix, in the state `s`.
  abbrev AreSums : State → Bytes → List (Bytes × Bytes) → Type 0
  AreSums s root = All (λ e. digest_reserved w s root e.0 ≡ ok e.1)

  abbrev HasKey : Bytes → List (Bytes × Bytes) → Type 0
  HasKey k m =
      (a : List (Bytes × Bytes)) × (v : Bytes) × (b : List (Bytes × Bytes)) × (m ≡ a ++ (k, v) ∷ b)

  lookup-AreSums :
      (s : State) (root k : Bytes) (a : List (Bytes × Bytes)) (v : Bytes) (b : List (Bytes × Bytes))
      → AreSums s root (a ++ (k, v) ∷ b)
      → digest_reserved w s root k ≡ ok (lookup_or_empty k (a ++ (k, v) ∷ b))
  unfolding lookup_or_empty
  lookup-AreSums s root k [] v b (h, hs) = rw (bytes_eq_refl k) h
  lookup-AreSums s root k ((j, u) ∷ a) v b (h, hs) = elim (Bool-cases (bytes_eq j k)) [
    | inl y ↦ rw y (subst (λ t. digest_reserved w s root t ≡ ok u) ((bytes_eq_iff j k).0 y) h)
    | inr n ↦ rw n (lookup-AreSums s root k a v b hs)
  ]

  seal_from-AreSums :
      (s : State) (root : Bytes) (rs : List Bytes) (start sums : List (Bytes × Bytes))
      → AreSums s root start
      → seal_from w s root rs start ≡ ok sums
      → AreSums s root sums
        × All (λ r. HasKey r sums) rs
        × ((k : Bytes) → HasKey k start → HasKey k sums)
  unfolding seal_from
  seal_from-AreSums s root [] start sums a h =
      let e : start ≡ sums = ground arith in
      (subst (AreSums s root) e a, tt, λ k m. subst (HasKey k) e m)
  seal_from-AreSums s root (r ∷ rs) start sums a h =
      let (sum, e, rest) =
        bind-eq-ok (digest_reserved w s root r) (λ sum. seal_from w s root rs ((r, sum) ∷ start))
          h in
      let (b, keys, old) = seal_from-AreSums s root rs ((r, sum) ∷ start) sums (e, a) rest in
      (
        b,
        (old r ([], sum, start, refl), keys),
        λ k m. old k ((r, sum) ∷ m.0, m.1, m.2, ap (◌∷◌ (r, sum)) m.3),
      )

  sealed-Intact :
      (s : State) (root : Bytes) (rs : List Bytes) (sums : List (Bytes × Bytes))
      → AreSums s root sums
      → All (λ r. HasKey r sums) rs
      → All (λ r. digest_reserved w s root r ≡ ok (lookup_or_empty r sums)) rs
  sealed-Intact s root [] sums a keys = tt
  sealed-Intact s root (r ∷ rs) sums a ((b, v, c, e), keys) =
      (rw e (lookup-AreSums s root r b v c (rw e at a)), sealed-Intact s root rs sums a keys)

  fresh :
      (s : State) (root : Bytes) (kept : List Bytes) (sums : List (Bytes × Bytes))
      (allowed : List Bytes)
      → seal w s root kept ≡ ok sums
      → verify_seal w s (sealed_box root allowed kept sums) ≡ ok tt
  unfolding seal sealed_box
  fresh s root kept sums allowed e =
      let (a, keys, _) = seal_from-AreSums s root kept [] sums tt e in
      (verify_seal_iff s (sealed_box root allowed kept sums)).1
        (sealed-Intact s root kept sums a keys)

  -- A sandbox that `NewSandbox` has just made passes `VerifySeal` as long as nothing has changed.
  pub verify_seal-new_sandbox :
      (s : State) (root : Bytes) (allowed reserved : List Bytes) {box : Sandbox}
      → new_sandbox w s root allowed reserved ≡ ok box
      → verify_seal w s box ≡ ok tt
  unfolding new_sandbox
  verify_seal-new_sandbox s root allowed reserved {box} h =
      let kept = map (λ p. trim_slash (clean p)) reserved in
      let (abs, _, h1) = bind-eq-ok (system (w.absolute s root)) _ h in
      let (resolved, _, h2) = bind-eq-ok (system (w.eval_symlinks s abs)) _ h1 in
      let (is_dir, _, h3) = bind-eq-ok (system (w.is_directory s resolved)) _ h2 in
      elim (Bool-cases is_dir) [
        | inl y ↦
            let (sums, e, h4) = bind-eq-ok (seal w s resolved kept) _ (rw y at h3) in
            let made : sealed_box resolved allowed kept sums ≡ box = ground arith in
            subst (λ b. verify_seal w s b ≡ ok tt) made (fresh s resolved kept sums allowed e)
        | inr n ↦ cc (rw n at h3)
      ]

-- The tree with two files, and the tree with one whose body holds the second one's lines.
abbrev pub two_files : Bytes → Bytes → Bytes → Bytes → List Entry
two_files a x b y = dir (codes ".") ∷ file a x 0 ∷ file b y 0 ∷ []

abbrev pub one_file : Bytes → Bytes → Bytes → Bytes → List Entry
one_file a x b y = dir (codes ".") ∷ file a (x ++ 0 ∷ (entry_line (file b y 0) ++ 0 ∷ y)) 0 ∷ []

-- The seal does not tell these trees apart: what is hashed for a directory of two files is what is
-- hashed for the first file alone, with the second one's line and body appended to its body. The
-- names are different, in order, and neither is that of the directory.
pub digest_input_collision :
    (a x b y : Bytes)
    → bytes_lt b a ≡ false
    → bytes_eq a b ≡ false
    → bytes_eq a (codes ".") ≡ false
    → bytes_eq b (codes ".") ≡ false
    → digest_input (two_files a x b y) ≡ digest_input (one_file a x b y)
unfolding digest_input sort_strings
digest_input_collision a x b y order differ dot_a dot_b =
    rw (order, dot_a, dot_b, differ, bytes_eq_refl a, bytes_eq_refl b) (simp append_assoc)
