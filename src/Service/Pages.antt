-- ===== src/Service/Pages.antt =====
-- service.go, `List`: a table, and lemmas on the page after a cursor.
use arandu_attempt.Base.{
  ◌≡◌, ◌≢◌, refl, sym, ap, subst, ◌∙◌, Bool, true, false, ◌&&◌, ◌||◌, Option, some, List, [], ◌∷◌,
  ◌++◌, Bytes, codes, bytes_eq, bytes_eq_iff, take, All, inl, inr, Bool-cases, if◌then◌else◌,
}
use arandu_attempt.Base.Result.{ok}
use arandu_attempt.Service.{
  Attempt, blank, Action, attempt_list, Subject, can, Cond, everything, compares, both, either,
  Query, Framework, PageQuery, sortable_attempt, page_limit, lifted, after_anchor, page, anchored,
  sorted, list,
}

-- The rows that a condition selects.
abbrev pub select : (Attempt → Bool) → List Attempt → List Attempt
select p [] = []
select p (r ∷ rs) = let rest = select p rs in if p r then r ∷ rest else rest

pub select-All :
    (p : Attempt → Bool) (rs : List Attempt) → All (λ r. p r ≡ true) rs → select p rs ≡ rs
select-All p [] h = refl
select-All p (r ∷ rs) (y, h) = rw (y, select-All p rs h) refl

select_after :
    (p : Attempt → Bool) (before rs : List Attempt)
    → All (λ r. p r ≡ false) before
    → select p (before ++ rs) ≡ select p rs
select_after p [] rs h = refl
select_after p (r ∷ before) rs (n, h) = rw (n, select_after p before rs h) refl

-- How a database compares: the order and the equality of two values, any other operator, and the
-- cells of a row.
module _ (f : Framework) where
  open f use {State, Grant, Column}

  pub record Table : Type 0 where
    pub less : Column → Column → Bool
    pub equal : Column → Column → Bool
    pub compare : Bytes → Column → Column → Bool
    pub cell : Attempt → Bytes → Column
    pub asymmetric : (a b : Column) → less a b ≡ true → less b a ≡ false
    pub apart : (a b : Column) → less a b ≡ true → (equal a b ≡ false) × (equal b a ≡ false)
    pub id_cell : (r : Attempt) → f.text_column r.id ≡ cell r (codes "id")

  module _ (t : Table) where
    abbrev pub holds : Cond Column → Attempt → Bool
    holds everything r = true
    holds (compares column op v) r =
        if bytes_eq op (codes ">")
        then t.less v (t.cell r column)
        else if bytes_eq op (codes "=")
        then t.equal v (t.cell r column)
        else t.compare op (t.cell r column) v
    holds (both a b) r = holds a r && holds b r
    holds (either a b) r = holds a r || holds b r

    -- A row stands before another in the order of a column and then of the id.
    abbrev pub precedes : Bytes → Attempt → Attempt → Bool
    precedes column x y =
        t.less (t.cell x column) (t.cell y column)
        || (t.equal (t.cell x column) (t.cell y column)
            && t.less (t.cell x (codes "id")) (t.cell y (codes "id")))

    abbrev pub IsOrdered : Bytes → List Attempt → Type 0
    IsOrdered column [] = Unit
    IsOrdered column (x ∷ rows) = All (λ y. precedes column x y ≡ true) rows × IsOrdered column rows

    -- What `List` relies on in the model: a query gives the first rows that its filter selects, in
    -- its order; and `Value` reads a column of the row with a key.
    pub record Reads : Type 0 where
      pub rows : State → Grant → List Bytes → List Attempt
      pub ordered :
          (s : State) (g : Grant) (column : Bytes)
          → IsOrdered column (rows s g (column ∷ codes "id" ∷ []))
      pub gets :
          (s : State) (g : Grant) (q : Query Column)
          → f.get s g q ≡ ok (take q.limit (select (holds q.filter) (rows s g q.order)))
      pub reads :
          (s : State) (g : Grant) (order : List Bytes) (before after : List Attempt) (r : Attempt)
          (column : Bytes)
          → rows s g order ≡ before ++ r ∷ after
          → f.value s g r.id column ≡ ok (some (t.cell r column))

    abbrev anchor_of : Bytes → Attempt → Cond Column
    anchor_of column x = after_anchor f (λ _ _ _. false) column (t.cell x column) x.id

    anchor_of_iff :
        (column : Bytes) (x y : Attempt) → holds (anchor_of column x) y ≡ precedes column x y
    unfolding bytes_eq
    anchor_of_iff column x y = rw (t.id_cell x) refl

    precedes_asym :
        (column : Bytes) (x y : Attempt) → precedes column x y ≡ true → precedes column y x ≡ false
    precedes_asym column x y h =
        let back = t.asymmetric (t.cell x column) (t.cell y column) in
        let differ = t.apart (t.cell x column) (t.cell y column) in
        let ahead = t.apart (t.cell y column) (t.cell x column) in
        let ids = t.asymmetric (t.cell x (codes "id")) (t.cell y (codes "id")) in
        elim (Bool-cases (t.less (t.cell x column) (t.cell y column))) [
          | inl less ↦ rw (back less, (differ less).1) refl
          | inr n ↦ elim (Bool-cases (t.less (t.cell y column) (t.cell x column))) [
            | inl more ↦ absurd (cc (rw (n, (ahead more).1) at h))
            | inr m ↦ elim (Bool-cases (t.less (t.cell x (codes "id")) (t.cell y (codes "id")))) [
              | inl first ↦ rw (m, ids first) (and_false _)
              | inr last ↦
                  absurd (
                    cc (rw (n, last, and_false (t.equal (t.cell x column) (t.cell y column))) at h))
            ]
          ]
        ]
      where
        and_false : (b : Bool) → (b && false) ≡ false
        and_false true = refl
        and_false false = refl

    precedes_irrefl : (column : Bytes) (x : Attempt) → precedes column x x ≡ false
    precedes_irrefl column x = elim (Bool-cases (precedes column x x)) [
      | inl y ↦ precedes_asym column x x y
      | inr n ↦ n
    ]

    All-map :
        (P Q : Attempt → Type 0) (rs : List Attempt)
        → ((r : Attempt) → P r → Q r)
        → All P rs
        → All Q rs
    All-map P Q [] g h = tt
    All-map P Q (r ∷ rs) g (p, h) = (g r p, All-map P Q rs g h)

    All-middle :
        (P : Attempt → Type 0) (before after : List Attempt) (x : Attempt)
        → All P (before ++ x ∷ after)
        → P x
    All-middle P [] after x (p, _) = p
    All-middle P (r ∷ before) after x (_, h) = All-middle P before after x h

    ordered-split :
        (column : Bytes) (before after : List Attempt) (x : Attempt)
        → IsOrdered column (before ++ x ∷ after)
        → All (λ r. holds (anchor_of column x) r ≡ false) before
          × All (λ r. holds (anchor_of column x) r ≡ true) after
    ordered-split column [] after x (h, _) =
        (tt, All-map _ _ after (λ r p. anchor_of_iff column x r ∙ p) h)
    ordered-split column (b ∷ before) after x (h, rest) =
        let (n, y) = ordered-split column before after x rest in
        let first : precedes column b x ≡ true = All-middle _ before after x h in
        ((anchor_of_iff column x b ∙ precedes_asym column b x first, n), y)

    -- The filter of `List` selects the rows after the anchor.
    select-anchor :
        (column : Bytes) (before after : List Attempt) (x : Attempt)
        → IsOrdered column (before ++ x ∷ after)
        → select (holds (anchor_of column x)) (before ++ x ∷ after) ≡ after
    select-anchor column before after x h =
        let (n, y) = ordered-split column before after x h in
        let itself = anchor_of_iff column x x ∙ precedes_irrefl column x in
        select_after (holds (anchor_of column x)) before (x ∷ after) n
        ∙ (rw (itself) (select-All (holds (anchor_of column x)) after y))

    module _ (custom : Subject → Action → Attempt → Bool) (db : Reads) (s : State) (actor : Subject)
        (g : Grant) where
      page_after :
          (q : PageQuery) (column : Bytes) (before after : List Attempt) (x : Attempt)
          → db.rows s g (column ∷ codes "id" ∷ []) ≡ before ++ x ∷ after
          → page f custom s g column (page_limit q.limit) (anchor_of column x)
            ≡ ok (take (page_limit q.limit) after)
      unfolding page lifted
      page_after q column before after x rows =
          let split = subst (IsOrdered column) rows (db.ordered s g column) in
          let selected : select (holds (anchor_of column x))
                (db.rows s g (column ∷ codes "id" ∷ []))
              ≡ after =
            ap (select (holds (anchor_of column x))) rows
            ∙ select-anchor column before after x split in
          ap (lifted f custom) (
            db.gets s g (record {
              filter = anchor_of column x;
              order = column ∷ codes "id" ∷ [];
              limit = page_limit q.limit;
            })
            ∙ ap (λ l. ok (take (page_limit q.limit) l)) selected)

      sorted_after :
          (q : PageQuery) (column : Bytes) (before after : List Attempt) (x : Attempt)
          (o : Option Bytes)
          → o ≡ some column
          → db.rows s g (column ∷ codes "id" ∷ []) ≡ before ++ x ∷ after
          → q.cursor ≡ x.id
          → x.id ≢ []
          → sorted f custom s g q o ≡ ok (take (page_limit q.limit) after)
      unfolding sorted lifted anchored
      sorted_after q column before after x o sort rows cursor named =
          let asked : bytes_eq q.cursor [] ≡ false = elim (Bool-cases (bytes_eq q.cursor [])) [
            | inl y ↦ absurd (named (sym cursor ∙ (bytes_eq_iff q.cursor []).0 y))
            | inr n ↦ n
          ] in
          let read = db.reads s g (column ∷ codes "id" ∷ []) before after x column rows in
          rw (sort, sorted) (rw (asked, cursor, read) (page_after q column before after x rows))

      -- `List` with a cursor gives the page that follows the row of the cursor, and no other row:
      -- under a grant, for an allowed sort, it is the first rows after that one in the order of the
      -- column and the id, as many as the limit allows, which is 50 if the request names none and
      -- at most 200. The model answers queries as a table that is ordered.
      pub list_after :
          (q : PageQuery) (column : Bytes) (before after : List Attempt) (x : Attempt)
          → f.authorize (can custom) actor attempt_list blank ≡ ok g
          → sortable_attempt q.sort ≡ some column
          → db.rows s g (column ∷ codes "id" ∷ []) ≡ before ++ x ∷ after
          → q.cursor ≡ x.id
          → x.id ≢ []
          → list f custom s actor q ≡ ok (take (page_limit q.limit) after)
      unfolding list lifted
      list_after q column before after x granted sort rows cursor named =
          rw (granted, list)
            (sorted_after q column before after x (sortable_attempt q.sort) sort rows cursor named)
