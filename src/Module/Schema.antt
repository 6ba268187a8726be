-- ===== src/Module/Schema.antt =====
-- module.go, the migration, the name and the boot hook, and model.go, the table. The schema builder
-- of a connection is the record `Connection`.
use arandu_attempt.Base.{Bool, true, Option, none, some, List, [], ◌∷◌, Bytes, codes}
use arandu_attempt.Service.{blank}
use arandu_attempt.AttemptQuery.{Entity, attempt}

-- What a migration declares of a table.
pub data Declaration : Type 0 where
  string : Bytes → Declaration
  primary_string : Bytes → Declaration
  timestamp : Bytes → Declaration
  index : List Bytes → Bytes → Declaration

pub record Connection : Type 1 where
  pub State : Type 0
  pub Error : Type 0
  pub create : State → Bytes → List Declaration → State × Option Error
  pub drop_if_exists : State → Bytes → State × Option Error

abbrev pub attempts_name : Bytes
attempts_name = codes "attempts"

-- The closure of `Up`.
abbrev pub attempts_columns : List Declaration
attempts_columns =
    Declaration.primary_string (codes "id")
    ∷ Declaration.string (codes "tenant_id")
    ∷ Declaration.string (codes "name")
    ∷ Declaration.timestamp (codes "created_at")
    ∷ Declaration.index (codes "tenant_id" ∷ codes "created_at" ∷ codes "id" ∷ [])
        (codes "attempts_tenant_created_idx")
    ∷ []

-- `GetName`.
abbrev pub migration_name : Bytes
migration_name = codes "20260823_0001_create_attempts"

module _ (c : Connection) where
  pub record Migration : Type 0 where
    pub name : Bytes
    pub up : c.State → c.State × Option c.Error
    pub down : c.State → c.State × Option c.Error

  -- `Up` and `Down`.
  unfoldable pub up : c.State → c.State × Option c.Error
  up s = c.create s attempts_name attempts_columns

  unfoldable pub down : c.State → c.State × Option c.Error
  down s = c.drop_if_exists s attempts_name

  -- `Migrations`.
  abbrev pub migrations : List Migration
  migrations = record { name = migration_name; up = up; down = down } ∷ []

-- `Name` and `Boot`.
abbrev pub module_name : Bytes
module_name = codes "attempt"

unfoldable pub boot : (E : Type 0) → Option E
boot E = none

-- `attemptTable`.
pub record TableSpec (O : Type 0) : Type 0 where
  pub name : Bytes
  pub new : Entity O
  pub manual_key : Bool

abbrev pub attempt_table : (O : Type 0) → TableSpec O
attempt_table O = record { name = codes "attempts"; new = attempt (some blank); manual_key = true }
