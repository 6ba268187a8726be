-- ===== src/AttemptQuery/Conversions.antt =====
-- AttemptQuery.go: lemmas on the conversion of rows into a collection and back.
use arandu_attempt.Base.{
  ℕ, zero, suc, ◌≢◌, subst, get_elem?, ◌≡◌, refl, ap, ◌∙◌, ◌↔◌, ◌⊎◌, inl, inr, Option, none, some,
  List, [], ◌∷◌,
}
use arandu_attempt.Service.{Attempt}
use arandu_attempt.AttemptQuery.{
  Entity, no_entity, attempt, other, Rows, returned, panicked, asserted, attempt_collection_of,
  entities, rows,
}

pub asserted-entities :
    (O : Type 0) (c : List (Option Attempt)) → asserted {O = O} (entities c) ≡ returned c
unfolding asserted
asserted-entities O [] = refl
asserted-entities O (row ∷ c) = rw (asserted-entities O c) refl

module _ {O : Type 0} where
  asserted_cases :
      (l : List (Entity O))
      → (asserted l ≡ panicked)
        ⊎ ((c : List (Option Attempt)) × (asserted l ≡ returned c) × (l ≡ entities c))
  unfolding asserted
  asserted_cases [] = inr ([], refl, refl)
  asserted_cases (no_entity ∷ l) = inl refl
  asserted_cases (other o ∷ l) = inl refl
  asserted_cases (attempt row ∷ l) = elim (asserted_cases l) [
    | inl e ↦ inl (rw e refl)
    | inr (c, e, whole) ↦ inr (row ∷ c, rw e refl, ap (λ t. attempt row ∷ t) whole)
  ]

  -- An entity that is not a row, nil among them.
  abbrev pub IsForeign : Entity O → Type 0
  IsForeign e = (row : Option Attempt) → e ≢ attempt row

  abbrev pub HasForeign : Rows O → Type 0
  HasForeign r =
      (l : List (Entity O)) × (i : ℕ) × (e : Entity O) × (r ≡ some l)
      × (get_elem? l i ≡ some e)
      × IsForeign e

  IsForeign-panicked :
      (l : List (Entity O)) (i : ℕ) (e : Entity O)
      → get_elem? l i ≡ some e
      → IsForeign e
      → asserted l ≡ panicked
  unfolding asserted
  IsForeign-panicked [] i e found foreign = absurd (cc found)
  IsForeign-panicked (no_entity ∷ l) i e found foreign = refl
  IsForeign-panicked (other o ∷ l) i e found foreign = refl
  IsForeign-panicked (attempt row ∷ l) zero e found foreign = absurd (foreign row (cc found))
  IsForeign-panicked (attempt row ∷ l) (suc i) e found foreign =
      rw (IsForeign-panicked l i e found foreign) refl

  panicked-IsForeign :
      (l : List (Entity O))
      → asserted l ≡ panicked
      → (i : ℕ) × (e : Entity O) × (get_elem? l i ≡ some e) × IsForeign e
  unfolding asserted
  panicked-IsForeign [] h = absurd (cc h)
  panicked-IsForeign (no_entity ∷ l) h = (0, no_entity, refl, λ row q. cc q)
  panicked-IsForeign (other o ∷ l) h = (0, other o, refl, λ row q. cc q)
  panicked-IsForeign (attempt row ∷ l) h = elim (asserted_cases l) [
    | inl bad ↦ let (i, e, found, foreign) = panicked-IsForeign l bad in (suc i, e, found, foreign)
    | inr (c, good, _) ↦ absurd (cc (rw (good, asserted) at h))
  ]

  collected_iff :
      (r : Rows O) (c : List (Option Attempt))
      → (attempt_collection_of r ≡ returned (some c)) ↔ (r ≡ rows (some c))
  unfolding rows attempt_collection_of
  collected_iff none c = (λ e. absurd (cc e), λ e. absurd (cc e))
  collected_iff (some l) c = (there (asserted_cases l), back)
    where
      there :
          (asserted l ≡ panicked)
            ⊎ ((d : List (Option Attempt)) × (asserted l ≡ returned d) × (l ≡ entities d))
          → attempt_collection_of (some l) ≡ returned (some c)
          → some l ≡ some (entities c)
      there (inl bad) e = absurd (cc (rw (bad, attempt_collection_of) at e))
      there (inr (d, good, whole)) e =
          let same : d ≡ c = cc (rw (good, attempt_collection_of) at e) in
          ap some (whole ∙ ap entities same)

      back : some l ≡ some (entities c) → attempt_collection_of (some l) ≡ returned (some c)
      back e =
          let whole : l ≡ entities c = cc e in
          rw (whole, attempt_collection_of, asserted-entities O c) refl

  nil_iff : (r : Rows O) → (attempt_collection_of r ≡ returned none) ↔ (r ≡ none)
  unfolding attempt_collection_of
  nil_iff none = (λ h. refl, λ h. refl)
  nil_iff (some l) = (
    λ h. elim (asserted_cases l) [
      | inl bad ↦ absurd (cc (rw (bad, attempt_collection_of) at h))
      | inr (c, good, _) ↦ absurd (cc (rw (good, attempt_collection_of) at h))
    ],
    λ h. absurd (cc h),
  )

  panicked_iff : (r : Rows O) → (attempt_collection_of r ≡ panicked) ↔ HasForeign r
  unfolding attempt_collection_of
  panicked_iff none = (λ h. absurd (cc h), λ (l, i, e, given, _, _). absurd (cc given))
  panicked_iff (some l) = (
    λ h. elim (asserted_cases l) [
      | inl bad ↦
          let (i, e, found, foreign) = panicked-IsForeign l bad in (l, i, e, refl, found, foreign)
      | inr (c, good, _) ↦ absurd (cc (rw (good, attempt_collection_of) at h))
    ],
    λ (l', i, e, given, found, foreign).
        let same : l' ≡ l = cc given in
        let bad : asserted l ≡ panicked =
          subst (λ k. asserted k ≡ panicked) same (IsForeign-panicked l' i e found foreign) in
        rw (bad, attempt_collection_of) refl,
  )

  -- Rows are converted into a collection exactly when they are the rows of that collection, a nil
  -- slice into a nil collection and nothing else into one; and the conversion panics exactly when an
  -- entity among the rows is nil or of another type.
  pub attempt_collection_of_iff :
      (r : Rows O)
      → ((c : List (Option Attempt))
          → (attempt_collection_of r ≡ returned (some c)) ↔ (r ≡ rows (some c)))
        × ((attempt_collection_of r ≡ returned none) ↔ (r ≡ none))
        × ((attempt_collection_of r ≡ panicked) ↔ HasForeign r)
  attempt_collection_of_iff r = (collected_iff r, nil_iff r, panicked_iff r)
