-- ===== src/AttemptQuery/Meaning.antt =====
-- What a query means: its conditions in the order in which they were added, its order and its limit;
-- and what is relied on in the builder.
use arandu_attempt.Base.{
  ℕ, ◌≡◌, Bool, true, false, ◌&&◌, ◌||◌, Option, none, some, List, [], ◌∷◌, ◌++◌, map, Bytes,
}
use arandu_attempt.Base.Int.{pos}
use arandu_attempt.Base.Result.{Result, ok, err}
use arandu_attempt.Service.{Attempt, Framework, Query, compares}
use arandu_attempt.Service.Pages.{Table, holds}
use arandu_attempt.AttemptQuery.{
  Entity, no_entity, attempt, One, entities, Operand, Clause, Scalar, Rows, Core,
}

-- Conditions, each with whether it is joined by OR.
abbrev pub Conditions : Type 0
Conditions = List (Bool × (Attempt → Bool))

-- AND binds tighter than OR.
abbrev pub meets_from : Bool → Conditions → Attempt → Bool
meets_from met [] r = met
meets_from met ((false, p) ∷ cs) r = meets_from (met && p r) cs r
meets_from met ((true, p) ∷ cs) r = met || meets_from (p r) cs r

-- How the first condition is joined is not read, and no condition selects every row.
abbrev pub meets : Conditions → Attempt → Bool
meets [] r = true
meets ((_, p) ∷ cs) r = meets_from (p r) cs r

pub record Meaning : Type 0 where
  pub conditions : Conditions
  pub order : List Bytes
  pub limit : Option ℕ

abbrev pub all_rows : Meaning
all_rows = record { conditions = []; order = []; limit = none }

abbrev pub joined : Bool → (Attempt → Bool) → Meaning → Meaning
joined by_or p m = record m { conditions = m.conditions ++ (by_or, p) ∷ [] }

-- A list of rows, or a value, as the pair that a terminal returns.
abbrev pub row_pair : {O E : Type 0} → Result E (List Attempt) → Rows O × Option E
row_pair (ok l) = (some (entities (map some l)), none)
row_pair (err e) = (none, some e)

abbrev pub value_pair : {V E : Type 0} → Result E (Option V) → Option V × Option E
value_pair (ok v) = (v, none)
value_pair (err e) = (none, some e)

abbrev pub first_pair : {O E : Type 0} → Result E (Option Attempt) → Entity O × Option E
first_pair (ok none) = (no_entity, none)
first_pair (ok (some r)) = (attempt (some r), none)
first_pair (err e) = (no_entity, some e)

abbrev pub new_pair : {O E : Type 0} → Result E Attempt → Entity O × Option E
new_pair (ok r) = (attempt (some r), none)
new_pair (err e) = (no_entity, some e)

module _ (f : Framework) (core : Core f) (t : Table f) where
  open core use {Builder, Other, SubQuery}

  abbrev pub named_column : Bytes → Operand Builder f.Column
  named_column column = Operand.value (some (f.text_column column))

  abbrev pub compared : Bytes → f.Column → List (Option f.Column)
  compared op v = some (f.text_column op) ∷ some v ∷ []

  -- What the calls of `List` do: a condition is added behind the others, a group has the conditions
  -- that its closure adds to a builder without any, if it adds one; an order goes behind the orders, and a limit
  -- replaces the limit.
  pub record Builds : Type 0 where
    pub meaning : Builder → Meaning
    pub start_meaning : meaning core.start ≡ all_rows
    pub group_of : Builder → Builder
    pub group_start : (b : Builder) → meaning (group_of b) ≡ all_rows
    pub compares_by_and :
        (b : Builder) (column op : Bytes) (v : f.Column)
        → meaning (core.build b (Clause.where_clause (named_column column) (compared op v)))
          ≡ joined false (holds f t (compares column op v)) (meaning b)
    pub groups_by_and :
        (b : Builder) (g : Builder → Builder) (c : Bool × (Attempt → Bool)) (cs : Conditions)
        → (meaning (g (group_of b))).conditions ≡ c ∷ cs
        → meaning (core.build b (Clause.where_clause (Operand.group g) []))
          ≡ joined false (meets (c ∷ cs)) (meaning b)
    pub groups_by_or :
        (b : Builder) (g : Builder → Builder) (c : Bool × (Attempt → Bool)) (cs : Conditions)
        → (meaning (g (group_of b))).conditions ≡ c ∷ cs
        → meaning (core.build b (Clause.or_where (Operand.group g) []))
          ≡ joined true (meets (c ∷ cs)) (meaning b)
    pub orders :
        (b : Builder) (column : Bytes)
        → meaning (core.build b (Clause.order_by (some (f.text_column column)) []))
          ≡ record (meaning b) { order = (meaning b).order ++ column ∷ [] }
    pub limits :
        (b : Builder) (n : ℕ)
        → meaning (core.build b (Clause.limit (pos n))) ≡ record (meaning b) { limit = some n }
    -- A statement reads what any other with the same rows, order and limit reads.
    pub gets :
        (s : f.State) (g : f.Grant) (b : Builder) (q : Query f.Column)
        → ((r : Attempt) → meets (meaning b).conditions r ≡ holds f t q.filter r)
        → (meaning b).order ≡ q.order
        → (meaning b).limit ≡ some q.limit
        → core.get s g b [] ≡ row_pair (f.get s g q)
    pub values :
        (s : f.State) (g : f.Grant) (key column : Bytes)
        → core.scalar s g
            (core.build core.start (Clause.where_key (some (f.text_column key))))
            (Scalar.value column)
          ≡ value_pair (f.value s g key column)
    pub firsts :
        (s : f.State) (g : f.Grant) (key : Bytes)
        → core.one s g
            (core.build core.start (Clause.where_key (some (f.text_column key))))
            (One.first [])
          ≡ first_pair (f.first s g key)
    pub news : core.new_instance core.start ≡ new_pair f.new_row
