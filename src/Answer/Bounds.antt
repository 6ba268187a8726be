-- ===== src/Answer/Bounds.antt =====
-- Lemmas on the indices of lastNumber.
use arandu_attempt.Base.{ℕ, ◌≤◌, ◌<◌, ◌≡◌, Bool, true, Option, some, none}

-- A length that is inside a text, if there is one.
abbrev Inside : ℕ → Option ℕ → Type 0
Inside top none = Unit
Inside top (some n) = (0 < n) × (n ≤ top)

-- A number that starts here is not empty and ends inside the text.
abbrev Fits : ℕ → Bool × ℕ → Type 0
Fits top found = found.0 ≡ true → (0 < found.1) × (found.1 ≤ top)

-- The indices of a number, if there is one.
abbrev Within : ℕ → Option (ℕ × ℕ) → Type 0
Within top none = Unit
Within top (some (start, end)) = (start < end) × (end ≤ top)
