-- ===== src/AttemptQuery.antt =====
-- AttemptQuery.go: the query of the entity over the query builder of the model layer. The builder is
-- the record `Core`; what a method passes on to it is one call, a `Clause`.
pub mod Build
pub mod Terminals
pub mod Collection
pub mod Conversions
pub mod Listing
pub mod Meaning
pub mod Refines
pub mod Records
pub mod Refined
use arandu_attempt.Base.{ℕ, Bool, Option, none, some, List, [], ◌∷◌, Bytes}
use arandu_attempt.Base.Int.{ℤ}
use arandu_attempt.Service.{Attempt, Framework}

-- What stands for `model.Entity`: nil, a pointer to an Attempt, which may be nil, or another type.
pub data Entity (O : Type 0) : Type 0 where
  no_entity : Entity O
  attempt : Option Attempt → Entity O
  other : O → Entity O

-- `model.Rows`, which may be nil.
abbrev pub Rows : Type 0 → Type 0
Rows O = Option (List (Entity O))

-- `AttemptCollection`, which may be nil.
abbrev pub AttemptCollection : Type 0
AttemptCollection = Option (List (Option Attempt))

-- A call that returns, or panics.
pub data Panicking (A : Type 0) : Type 0 where
  returned : A → Panicking A
  panicked : Panicking A

-- A column as the builder takes it: a closure over the builder, or another value.
pub data Operand (B V : Type 0) : Type 0 where
  group : (B → B) → Operand B V
  value : Option V → Operand B V

-- A call of the builder that returns the builder. A value of type any may be nil; S stands for a
-- closure over `query.Builder`.
pub data Clause (B V S O : Type 0) : Type 0 where
  where_clause : Operand B V → List (Option V) → Clause B V S O
  or_where : Operand B V → List (Option V) → Clause B V S O
  where_not : Operand B V → List (Option V) → Clause B V S O
  or_where_not : Operand B V → List (Option V) → Clause B V S O
  where_in : Option V → List (Option V) → Clause B V S O
  where_not_in : Option V → List (Option V) → Clause B V S O
  where_null : List (Option V) → Clause B V S O
  where_not_null : List (Option V) → Clause B V S O
  where_between : Option V → Option V → Option V → Clause B V S O
  where_column : Option V → List (Option V) → Clause B V S O
  where_key : Option V → Clause B V S O
  where_exists : S → Clause B V S O
  where_not_exists : S → Clause B V S O
  where_has : Bytes → S → Clause B V S O
  or_where_has : Bytes → S → Clause B V S O
  where_doesnt_have : Bytes → S → Clause B V S O
  or_where_doesnt_have : Bytes → S → Clause B V S O
  where_relation : Bytes → Option V → List (Option V) → Clause B V S O
  or_where_relation : Bytes → Option V → List (Option V) → Clause B V S O
  where_has_count : Bytes → S → Bytes → ℤ → Clause B V S O
  where_belongs_to : Bytes → List (Entity O) → Clause B V S O
  has : Bytes → Bytes → ℤ → Bytes → S → Clause B V S O
  or_has : Bytes → Bytes → ℤ → Clause B V S O
  doesnt_have : Bytes → Bytes → S → Clause B V S O
  or_doesnt_have : Bytes → Clause B V S O
  select : List (Option V) → Clause B V S O
  add_select : List (Option V) → Clause B V S O
  select_raw : Bytes → List (Option V) → Clause B V S O
  join : Option V → Option V → List (Option V) → Clause B V S O
  group_by : List (Option V) → Clause B V S O
  order_by : Option V → List Bytes → Clause B V S O
  order_by_desc : Option V → Clause B V S O
  latest : List Bytes → Clause B V S O
  oldest : List Bytes → Clause B V S O
  limit : ℤ → Clause B V S O
  offset : ℤ → Clause B V S O
  for_page : ℤ → ℤ → Clause B V S O
  with : List Bytes → Clause B V S O
  with_count : List Bytes → Clause B V S O
  with_exists : Bytes → Clause B V S O
  with_sum : Bytes → Bytes → Clause B V S O
  with_avg : Bytes → Bytes → Clause B V S O
  with_min : Bytes → Bytes → Clause B V S O
  with_max : Bytes → Bytes → Clause B V S O
  without : List Bytes → Clause B V S O
  without_global_scope : Bytes → Clause B V S O
  without_global_scopes : List Bytes → Clause B V S O

-- A terminal that gives one entity, and one that may write it.
pub data One (V M : Type 0) : Type 0 where
  first : List (Option V) → One V M
  first_or_fail : List (Option V) → One V M
  first_where : Option V → List (Option V) → One V M
  first_or_new : M → M → One V M
  find : Option V → List (Option V) → One V M
  find_or_fail : Option V → List (Option V) → One V M
  find_or_new : Option V → List (Option V) → One V M
  sole : List (Option V) → One V M

pub data Saved (M : Type 0) : Type 0 where
  first_or_create : M → M → Saved M
  create : M → Saved M
  force_create : M → Saved M
  update_or_create : M → M → Saved M

-- A terminal that gives one value, and one that changes rows and counts them.
pub data Scalar (V : Type 0) : Type 0 where
  value : Bytes → Scalar V
  value_or_fail : Bytes → Scalar V
  sole_value : Bytes → Scalar V
  sum : Option V → Scalar V
  avg : Option V → Scalar V
  min : Option V → Scalar V
  max : Option V → Scalar V

pub data Change (V M : Type 0) : Type 0 where
  update : M → Change V M
  delete : Change V M
  increment : Bytes → Option V → M → Change V M
  decrement : Bytes → Option V → M → Change V M
  upsert : List M → List Bytes → List Bytes → Change V M
  touch : List Bytes → Change V M

-- What the model layer gives.
pub record Core (f : Framework) : Type 1 where
  pub Builder : Type 0
  pub Other : Type 0
  pub SubQuery : Type 0
  -- `map[string]any`, `pagination.Options`, and pointers to a cursor and to the three pages.
  pub Attributes : Type 0
  pub Options : Type 0
  pub PageCursor : Type 0
  pub LengthAwarePage : Type 0
  pub SimplePage : Type 0
  pub CursorPage : Type 0
  -- `attemptTable.Query(db)`.
  pub start : Builder
  pub clone : Builder → Builder
  pub build : Builder → Clause Builder f.Column SubQuery Other → Builder
  pub new_instance : Builder → Entity Other × Option f.Error
  pub one : f.State → f.Grant → Builder → One f.Column Attributes → Entity Other × Option f.Error
  pub saved :
      f.State → f.Grant → Builder → Saved Attributes → f.State × (Entity Other × Option f.Error)
  pub get : f.State → f.Grant → Builder → List (Option f.Column) → Rows Other × Option f.Error
  pub find_many :
      f.State
      → f.Grant
      → Builder
      → List (Option f.Column)
      → List (Option f.Column)
      → Rows Other × Option f.Error
  pub paginate :
      f.State
      → f.Grant
      → Builder
      → ℤ
      → ℤ
      → Options
      → List (Option f.Column)
      → Rows Other × (LengthAwarePage × Option f.Error)
  pub simple_paginate :
      f.State
      → f.Grant
      → Builder
      → ℤ
      → ℤ
      → Options
      → List (Option f.Column)
      → Rows Other × (SimplePage × Option f.Error)
  pub cursor_paginate :
      f.State
      → f.Grant
      → Builder
      → ℤ
      → PageCursor
      → Options
      → List (Option f.Column)
      → Rows Other × (CursorPage × Option f.Error)
  -- `Chunk` and `Each` with a callback, which changes a state of its own and may panic.
  pub chunk :
      (S : Type 0)
      → f.State
      → f.Grant
      → Builder
      → ℤ
      → (S → Rows Other → ℤ → Panicking (S × Bool × Option f.Error))
      → S
      → Panicking (S × Option f.Error)
  pub each :
      (S : Type 0)
      → f.State
      → f.Grant
      → Builder
      → ℤ
      → (S → Entity Other → ℤ → S × Bool × Option f.Error)
      → S
      → S × Option f.Error
  -- What `Cursor` yields in turn.
  pub cursor : f.State → f.Grant → Builder → List (Entity Other × Option f.Error)
  pub count : f.State → f.Grant → Builder → List (Option f.Column) → ℤ × Option f.Error
  pub exists : f.State → f.Grant → Builder → Bool × Option f.Error
  pub doesnt_exist : f.State → f.Grant → Builder → Bool × Option f.Error
  pub pluck : f.State → f.Grant → Builder → Bytes → List (Option f.Column) × Option f.Error
  pub scalar : f.State → f.Grant → Builder → Scalar f.Column → Option f.Column × Option f.Error
  pub change :
      f.State → f.Grant → Builder → Change f.Column Attributes → f.State × (ℤ × Option f.Error)
  pub insert : f.State → f.Grant → Builder → List Attributes → f.State × (Bool × Option f.Error)
  pub insert_or_ignore :
      f.State → f.Grant → Builder → List Attributes → f.State × (Bool × Option f.Error)
  -- The methods of `model.Rows`, and of the model that a row embeds.
  pub model_keys : Rows Other → List (Option f.Column)
  pub find_row : Rows Other → Option f.Column → Entity Other
  pub find_row_or_fail : Rows Other → Option f.Column → Entity Other × Option f.Error
  pub contains : Rows Other → Option f.Column → Bool
  pub pluck_rows : Rows Other → Bytes → List (Option f.Column)
  pub only : Rows Other → List (Option f.Column) → Rows Other
  pub except : Rows Other → List (Option f.Column) → Rows Other
  pub unique : Rows Other → Rows Other
  pub load : f.State → f.Grant → Rows Other → List Bytes → f.State × Option f.Error
  pub load_missing : f.State → f.Grant → Rows Other → List Bytes → f.State × Option f.Error
  pub load_count : f.State → f.Grant → Rows Other → List Bytes → f.State × Option f.Error
  pub fresh_rows : f.State → f.Grant → Rows Other → List Bytes → Rows Other × Option f.Error
  pub to_array : Rows Other → List Attributes
  pub fresh : f.State → f.Grant → Attempt → List Bytes → Entity Other × Option f.Error
  pub replicate : Attempt → List Bytes → Entity Other × Option f.Error

-- `AttemptQuery`.
pub record AttemptQuery (B : Type 0) : Type 0 where
  pub b : B

-- `attemptOf`.
unfoldable pub attempt_of : {O : Type 0} → Entity O → Option Attempt
attempt_of no_entity = none
attempt_of (attempt row) = row
attempt_of (other o) = none

-- The loop of `AttemptCollectionOf`: the assertion panics on what is not a pointer to an Attempt.
unfoldable pub asserted : {O : Type 0} → List (Entity O) → Panicking (List (Option Attempt))
asserted [] = returned []
asserted (no_entity ∷ rows) = panicked
asserted (other o ∷ rows) = panicked
asserted (attempt row ∷ rows) = elim (asserted rows) [
  | returned out ↦ returned (row ∷ out)
  | panicked ↦ panicked
]

-- `AttemptCollectionOf`.
unfoldable pub attempt_collection_of : {O : Type 0} → Rows O → Panicking AttemptCollection
unfolding asserted
attempt_collection_of none = returned none
attempt_collection_of (some rows) = elim (asserted rows) [
  | returned out ↦ returned (some out)
  | panicked ↦ panicked
]

-- `AttemptCollection.Rows`.
abbrev pub entities : {O : Type 0} → List (Option Attempt) → List (Entity O)
entities [] = []
entities (row ∷ rows) = attempt row ∷ entities rows

unfoldable pub rows : {O : Type 0} → AttemptCollection → Rows O
rows none = some []
rows (some c) = some (entities c)
