-- ===== src/Base/Result.antt =====
-- A pair `(T, error)` of Go: the value, or the error that is not nil.
use mathlib.Core.Path.{◌≡◌, refl}
use mathlib.Core.Logic.{◌⊎◌, inl, inr}

pub data Result {κ} (Fail Good : Type κ) : Type κ where
  err : Fail → Result Fail Good
  ok : Good → Result Fail Good

-- Every outcome is one of the two.
pub Result-cases {κ} :
    {Fail Good : Type κ} (r : Result Fail Good)
    → ((g : Good) × (r ≡ ok g)) ⊎ ((f : Fail) × (r ≡ err f))
Result-cases (err f) = inr (f, refl)
Result-cases (ok g) = inl (g, refl)

module _ {κ} {Fail Good Next : Type κ} where
  -- `if err != nil { return err }`, and what follows.
  infixl 5 ◌>>=◌
  abbrev pub ◌>>=◌ : Result Fail Good → (Good → Result Fail Next) → Result Fail Next
  err f >>= k = err f
  ok g >>= k = k g

  -- A chain that ends well has passed its first call.
  pub bind-eq-ok :
      (r : Result Fail Good) (k : Good → Result Fail Next) {last : Next}
      → r >>= k ≡ ok last
      → (g : Good) × (r ≡ ok g) × (k g ≡ ok last)
  bind-eq-ok (ok g) k e = (g, refl, e)
  bind-eq-ok (err f) k e = absurd (cc e)

-- A property of the error, or of the value.
abbrev pub Outcome {κ ℓ} :
    {Fail Good : Type κ} → (Fail → Type ℓ) → (Good → Type ℓ) → Result Fail Good → Type ℓ
Outcome F P (err f) = F f
Outcome F P (ok g) = P g

pub bind-Outcome {κ ℓ} :
    {Fail Good Next : Type κ} (F : Fail → Type ℓ) (P : Good → Type ℓ) (Q : Next → Type ℓ)
    (r : Result Fail Good) (k : Good → Result Fail Next)
    → Outcome F P r
    → ((g : Good) → P g → Outcome F Q (k g))
    → Outcome F Q (r >>= k)
bind-Outcome F P Q (err f) k h step = h
bind-Outcome F P Q (ok g) k h step = step g h

pub map-Outcome {κ ℓ} :
    {Fail Good : Type κ} (F : Fail → Type ℓ) (P Q : Good → Type ℓ) (r : Result Fail Good)
    → Outcome F P r
    → ((g : Good) → P g → Q g)
    → Outcome F Q r
map-Outcome F P Q (err f) h step = h
map-Outcome F P Q (ok g) h step = step g h
