-- ===== src/Sandbox/Writes.antt =====
-- sandbox.go, `Write`: the calls of the operating system that it makes.
use arandu_attempt.Base.{
  ◌≡◌, ◌⊎◌, inl, inr, true, List, [], ◌∷◌, Bytes, bytes_eq, bytes_eq_iff, Bool-cases,
}
use arandu_attempt.Base.Result.{Result, ok, err, Result-cases}
use arandu_attempt.World.{World}
use arandu_attempt.Sandbox.Path.{clean}
use arandu_attempt.Sandbox.{Sandbox, Fault, not_writable, failed, member, confine, write}

abbrev pub Listed : Bytes → List Bytes → Type 0
Listed a [] = ⊥
Listed a (b ∷ bs) = (b ≡ a) ⊎ Listed a bs

member-Listed : (a : Bytes) (bs : List Bytes) → member a bs ≡ true → Listed a bs
unfolding member
member-Listed a [] h = cc
member-Listed a (b ∷ bs) h = elim (Bool-cases (bytes_eq b a)) [
  | inl y ↦ inl ((bytes_eq_iff b a).0 y)
  | inr n ↦ inr (member-Listed a bs (rw n at h))
]

module _ (w : World) where
  open w use {State, write_file}

  -- What a write did: it was refused and changed nothing, or it wrote the content to the path that
  -- `Confine` gives, of a file that the task allows, and nothing else.
  pub data Wrote (s : State) (box : Sandbox) (rel content : Bytes)
      : State × Result Fault (Unit {0}) → Type 0 where
    refused : (e : Fault) → Wrote s box rel content (s, err e)
    stored :
        (p : Bytes)
        → Listed (clean rel) box.allowed_write
        → confine w s box (clean rel) ≡ ok p
        → Wrote s box rel content
            ((write_file s p content 0o644).0, failed (write_file s p content 0o644).1)

  -- Every `Write` is refused without any change, or it makes one `os.WriteFile` of the content, at
  -- the confined path of an allowed file, and answers with what that call answered.
  pub write-Wrote :
      (s : State) (box : Sandbox) (rel content : Bytes)
      → Wrote s box rel content (write w s box rel content)
  unfolding write
  write-Wrote s box rel content = elim (Bool-cases (member (clean rel) box.allowed_write)) [
    | inl y ↦ elim (Result-cases (confine w s box (clean rel))) [
      | inl (p, e) ↦ rw (y, write) (rw e (stored p (member-Listed _ _ y) e))
      | inr (f, e) ↦ rw (y, write) (rw e (refused f))
    ]
    | inr n ↦ rw (n, write) (refused not_writable)
  ]
