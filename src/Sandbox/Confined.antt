-- ===== src/Sandbox/Confined.antt =====
-- sandbox.go, `Confine`: lemmas on its paths and on the search for an ancestor.
use arandu_attempt.Base.{
  ℕ, zero, suc, ◌+◌, ◌<◌, ◌≡◌, refl, sym, subst, ◌≢◌, ◌↔◌, ◌⊎◌, inl, inr, true, false, List, [],
  ◌∷◌, ◌++◌, Bytes, codes, bytes_eq, bytes_eq_iff, has_prefix, has_prefix_iff, All, length, arith,
  if◌then◌else◌, Bool-cases,
}
use arandu_attempt.Base.Result.{Result, ok, err, bind-eq-ok}
use arandu_attempt.World.{World}
use arandu_attempt.Sandbox.Path.{clean, join, parent_dir, IsAbs, parent_dir-IsAbs, join-IsAbs}
use arandu_attempt.Sandbox.{
  Sandbox, outside, system, is_reserved, is_within, probe, resolve, confine,
}

step_up :
    (p : Bytes)
    → IsAbs p
    → IsAbs (parent_dir p) × ((parent_dir p ≡ p) ⊎ (length (parent_dir p) < length p))
step_up p (t, e) = rw e (parent_dir-IsAbs t)

-- `c` is the directory `r`, or lies below it.
abbrev pub Under : Bytes → Bytes → Type 0
Under r c = (c ≡ r) ⊎ ((t : Bytes) × (c ≡ (r ++ codes "/") ++ t))

is_within_iff : (root p : Bytes) → (is_within root p ≡ true) ↔ Under root p
unfolding is_within
is_within_iff root p =
    let a = bytes_eq_iff p root in
    let b = has_prefix_iff p (root ++ codes "/") in
    (
      λ h. elim (Bool-cases (bytes_eq p root)) [
        | inl y ↦ inl (a.0 y)
        | inr n ↦ inr (b.0 (ground (arith, n, h)))
      ],
      λ h. elim h [ inl e ↦ ground (arith, a.1 e) | inr t ↦ ground (arith, b.1 t) ],
    )

is_reserved_iff :
    (rs : List Bytes) (c : Bytes) → (is_reserved rs c ≡ false) ↔ All (λ r. ¬ Under r c) rs
unfolding is_reserved
is_reserved_iff [] c = (λ h. tt, λ h. refl)
is_reserved_iff (r ∷ rs) c =
    let iff = is_within_iff r c in
    let ih = is_reserved_iff rs c in
    (
      λ h. ((λ u. cc (iff.1 u, h)), ih.0 (ground (arith, h))),
      λ h. elim (Bool-cases (is_within r c)) [
        | inl y ↦ absurd (h.0 (iff.0 y))
        | inr n ↦ ground (arith, n, ih.1 h.1)
      ],
    )

pub system-ok : {A : Type 0} (m : Result Bytes A) {a : A} → system m ≡ ok a → m ≡ ok a
system-ok (ok a) h = ground arith
system-ok (err e) h = cc

module _ (w : World) where
  open w use {State, exists, eval_symlinks}

  -- The search has stopped: the path exists, or it is its own parent.
  abbrev pub Stops : State → Bytes → Type 0
  Stops s p = (exists s p ≡ true) ⊎ (parent_dir p ≡ p)

  -- `a` is `p` or, if `p` does not exist and is not its own parent, the same of its parent: no path
  -- between the two exists, and `a` does or has no parent.
  pub data Nearest (s : State) (a : Bytes) : Bytes → Type 0 where
    here : Stops s a → Nearest s a a
    above :
        {p : Bytes}
        → exists s p ≡ false
        → parent_dir p ≢ p
        → Nearest s a (parent_dir p)
        → Nearest s a p

  -- From an absolute path shorter than the fuel, the search for an existing ancestor stops by
  -- itself, at the first path that exists or at the root of the file system.
  probe-Nearest :
      (fuel : ℕ) (s : State) (p : Bytes)
      → IsAbs p
      → length p < fuel
      → Nearest s (probe w fuel s p) p
  unfolding probe
  probe-Nearest zero s p a h = elim h [ ]
  probe-Nearest (suc fuel) s p (t, e) h = elim (Bool-cases (exists s p)) [
    | inl there ↦ rw (there, probe) (here (inl there))
    | inr missing ↦ elim (Bool-cases (bytes_eq (parent_dir p) p)) [
      | inl top ↦ rw (missing, top) (here (inr ((bytes_eq_iff (parent_dir p) p).0 top)))
      | inr up ↦
          let (a', o) = step_up p (t, e) in
          elim o [
            | inl same ↦ absurd (cc (up, (bytes_eq_iff (parent_dir p) p).1 same))
            | inr less ↦
                rw (missing, up)
                  (above missing (λ same. cc (up, (bytes_eq_iff (parent_dir p) p).1 same))
                    (probe-Nearest fuel s (parent_dir p) a' (omega arith)))
          ]
    ]
  ]

  -- What `Confine` promises of the path `p` that it returns for `rel`.
  pub record Confined (s : State) (box : Sandbox) (rel p : Bytes) : Type 0 where
    pub not_empty : rel ≢ []
    pub not_absolute : (t : Bytes) → rel ≢ b'/' ∷ t
    pub inside : ¬ Under (codes "..") (clean rel)
    pub free : All (λ r. ¬ Under r (clean rel)) box.reserved
    pub path_is : p ≡ join box.root (clean rel)
    pub ancestor : Bytes
    pub nearest : Nearest s ancestor p
    pub resolved : Bytes
    pub resolves : eval_symlinks s ancestor ≡ ok resolved
    pub within : Under box.root resolved

  resolve-ok :
      (s : State) (box : Sandbox) (abs p : Bytes)
      → resolve w s box abs ≡ ok p
      → (r : Bytes) × (eval_symlinks s (probe w (length abs + 1) s abs) ≡ ok r)
        × Under box.root r
        × (p ≡ abs)
  unfolding resolve
  resolve-ok s box abs p h =
      let (r, e, rest) =
        bind-eq-ok (system (eval_symlinks s (probe w (length abs + 1) s abs)))
          (λ r. if is_within box.root r then ok abs else err outside) h in
      elim (Bool-cases (is_within box.root r)) [
        | inl y ↦ (r, system-ok _ e, (is_within_iff box.root r).0 y, ground arith)
        | inr n ↦ cc (rw n at rest)
      ]

  -- A path that `Confine` returns is the root of the sandbox joined with the cleaned path; the
  -- given path is not empty and not absolute, the cleaned one is neither `..` nor below it, nor a
  -- reserved path nor below one, and the nearest ancestor of the returned path that exists (itself,
  -- if it does, and the root of the file system, if none does) resolves, through its symlinks, to the
  -- root of the sandbox or below it. The root of the sandbox is absolute.
  pub confine-Confined :
      (s : State) (box : Sandbox) (rel : Bytes) {p : Bytes}
      → IsAbs box.root
      → confine w s box rel ≡ ok p
      → Confined s box rel p
  unfolding confine
  confine-Confined s box rel {p} a h =
      let c = clean rel in
      let not_empty : bytes_eq rel [] ≡ false = ground arith in
      let relative : has_prefix rel (codes "/") ≡ false = ground arith in
      let below : is_within (codes "..") c ≡ false = ground arith in
      let free : is_reserved box.reserved c ≡ false = ground arith in
      let body : resolve w s box (join box.root c) ≡ ok p = ground arith in
      let (r, e, u, path) = resolve-ok s box (join box.root c) p body in
      record {
        not_empty = λ q. cc ((bytes_eq_iff rel []).1 q);
        not_absolute = λ t q. cc ((has_prefix_iff rel (codes "/")).1 (t, q));
        inside = λ q. cc ((is_within_iff (codes "..") c).1 q);
        free = (is_reserved_iff box.reserved c).0 free;
        path_is = path;
        ancestor = probe w (length (join box.root c) + 1) s (join box.root c);
        nearest =
            subst (Nearest s (probe w (length (join box.root c) + 1) s (join box.root c)))
              (sym path) (probe-Nearest _ s _ (join-IsAbs box.root c a) (omega arith));
        resolved = r;
        resolves = e;
        within = u;
      }
