-- ===== src/AttemptQuery/Build.antt =====
-- AttemptQuery.go: the methods that build. A method changes the builder that it shares with the
-- query and returns the query, which is the query with the changed builder.
use arandu_attempt.Base.{Option, List, Bytes}
use arandu_attempt.Base.Int.{ℤ}
use arandu_attempt.Service.{Attempt, Framework}
use arandu_attempt.AttemptQuery.{Entity, Operand, Clause, Core, AttemptQuery, attempt_of}

module _ (f : Framework) (core : Core f) where
  open core use {Builder, Other, SubQuery}

  abbrev pub Query : Type 0
  Query = AttemptQuery Builder

  abbrev pub Any : Type 0
  Any = Option f.Column

  -- A column as a method takes it: a closure over the query, or another value.
  pub data Column : Type 0 where
    group : (Query → Query) → Column
    value : Any → Column

  -- `attemptColumn`.
  unfoldable pub attempt_column : Column → Operand Builder f.Column
  attempt_column (group g) = Operand.group (λ b. (g (record { b = b })).b)
  attempt_column (value v) = Operand.value v

  -- `Attempts`.
  abbrev pub attempts : Query
  attempts = record { b = core.start }

  -- `Base`, `New` and `Clone`.
  unfoldable pub base : Query → Builder
  base q = q.b

  unfoldable pub new : Query → Option Attempt × Option f.Error
  unfolding attempt_of
  new q = let (e, err) = core.new_instance q.b in (attempt_of e, err)

  unfoldable pub clone : Query → Query
  clone q = record { b = core.clone q.b }

  unfoldable pub where_clause : Query → Column → List Any → Query
  unfolding attempt_column
  where_clause q column args = record {
    b = core.build q.b (Clause.where_clause (attempt_column column) args);
  }

  unfoldable pub or_where : Query → Column → List Any → Query
  unfolding attempt_column
  or_where q column args = record {
    b = core.build q.b (Clause.or_where (attempt_column column) args);
  }

  unfoldable pub where_not : Query → Column → List Any → Query
  unfolding attempt_column
  where_not q column args = record {
    b = core.build q.b (Clause.where_not (attempt_column column) args);
  }

  unfoldable pub or_where_not : Query → Column → List Any → Query
  unfolding attempt_column
  or_where_not q column args = record {
    b = core.build q.b (Clause.or_where_not (attempt_column column) args);
  }

  unfoldable pub where_in : Query → Any → List Any → Query
  where_in q column values = record { b = core.build q.b (Clause.where_in column values) }

  unfoldable pub where_not_in : Query → Any → List Any → Query
  where_not_in q column values = record { b = core.build q.b (Clause.where_not_in column values) }

  unfoldable pub where_null : Query → List Any → Query
  where_null q columns = record { b = core.build q.b (Clause.where_null columns) }

  unfoldable pub where_not_null : Query → List Any → Query
  where_not_null q columns = record { b = core.build q.b (Clause.where_not_null columns) }

  unfoldable pub where_between : Query → Any → Any → Any → Query
  where_between q column from to = record {
    b = core.build q.b (Clause.where_between column from to);
  }

  unfoldable pub where_column : Query → Any → List Any → Query
  where_column q first args = record { b = core.build q.b (Clause.where_column first args) }

  unfoldable pub where_key : Query → Any → Query
  where_key q id = record { b = core.build q.b (Clause.where_key id) }

  unfoldable pub where_exists : Query → SubQuery → Query
  where_exists q callback = record { b = core.build q.b (Clause.where_exists callback) }

  unfoldable pub where_not_exists : Query → SubQuery → Query
  where_not_exists q callback = record { b = core.build q.b (Clause.where_not_exists callback) }

  unfoldable pub where_has : Query → Bytes → SubQuery → Query
  where_has q relation callback = record { b = core.build q.b (Clause.where_has relation callback) }

  unfoldable pub or_where_has : Query → Bytes → SubQuery → Query
  or_where_has q relation callback = record {
    b = core.build q.b (Clause.or_where_has relation callback);
  }

  unfoldable pub where_doesnt_have : Query → Bytes → SubQuery → Query
  where_doesnt_have q relation callback = record {
    b = core.build q.b (Clause.where_doesnt_have relation callback);
  }

  unfoldable pub or_where_doesnt_have : Query → Bytes → SubQuery → Query
  or_where_doesnt_have q relation callback = record {
    b = core.build q.b (Clause.or_where_doesnt_have relation callback);
  }

  unfoldable pub where_relation : Query → Bytes → Any → List Any → Query
  where_relation q relation column args = record {
    b = core.build q.b (Clause.where_relation relation column args);
  }

  unfoldable pub or_where_relation : Query → Bytes → Any → List Any → Query
  or_where_relation q relation column args = record {
    b = core.build q.b (Clause.or_where_relation relation column args);
  }

  unfoldable pub where_has_count : Query → Bytes → SubQuery → Bytes → ℤ → Query
  where_has_count q relation callback operator count = record {
    b = core.build q.b (Clause.where_has_count relation callback operator count);
  }

  unfoldable pub where_belongs_to : Query → Bytes → List (Entity Other) → Query
  where_belongs_to q relationship_name related = record {
    b = core.build q.b (Clause.where_belongs_to relationship_name related);
  }

  unfoldable pub has : Query → Bytes → Bytes → ℤ → Bytes → SubQuery → Query
  has q relation operator count boolean callback = record {
    b = core.build q.b (Clause.has relation operator count boolean callback);
  }

  unfoldable pub or_has : Query → Bytes → Bytes → ℤ → Query
  or_has q relation operator count = record {
    b = core.build q.b (Clause.or_has relation operator count);
  }

  unfoldable pub doesnt_have : Query → Bytes → Bytes → SubQuery → Query
  doesnt_have q relation boolean callback = record {
    b = core.build q.b (Clause.doesnt_have relation boolean callback);
  }

  unfoldable pub or_doesnt_have : Query → Bytes → Query
  or_doesnt_have q relation = record { b = core.build q.b (Clause.or_doesnt_have relation) }

  unfoldable pub select : Query → List Any → Query
  select q columns = record { b = core.build q.b (Clause.select columns) }

  unfoldable pub add_select : Query → List Any → Query
  add_select q columns = record { b = core.build q.b (Clause.add_select columns) }

  unfoldable pub select_raw : Query → Bytes → List Any → Query
  select_raw q expression bindings = record {
    b = core.build q.b (Clause.select_raw expression bindings);
  }

  unfoldable pub join : Query → Any → Any → List Any → Query
  join q table first args = record { b = core.build q.b (Clause.join table first args) }

  unfoldable pub group_by : Query → List Any → Query
  group_by q groups = record { b = core.build q.b (Clause.group_by groups) }

  unfoldable pub order_by : Query → Any → List Bytes → Query
  order_by q column direction = record { b = core.build q.b (Clause.order_by column direction) }

  unfoldable pub order_by_desc : Query → Any → Query
  order_by_desc q column = record { b = core.build q.b (Clause.order_by_desc column) }

  unfoldable pub latest : Query → List Bytes → Query
  latest q column = record { b = core.build q.b (Clause.latest column) }

  unfoldable pub oldest : Query → List Bytes → Query
  oldest q column = record { b = core.build q.b (Clause.oldest column) }

  unfoldable pub limit : Query → ℤ → Query
  limit q n = record { b = core.build q.b (Clause.limit n) }

  unfoldable pub offset : Query → ℤ → Query
  offset q n = record { b = core.build q.b (Clause.offset n) }

  unfoldable pub for_page : Query → ℤ → ℤ → Query
  for_page q page per_page = record { b = core.build q.b (Clause.for_page page per_page) }

  unfoldable pub with : Query → List Bytes → Query
  with q relations = record { b = core.build q.b (Clause.with relations) }

  unfoldable pub with_count : Query → List Bytes → Query
  with_count q relations = record { b = core.build q.b (Clause.with_count relations) }

  unfoldable pub with_exists : Query → Bytes → Query
  with_exists q relation = record { b = core.build q.b (Clause.with_exists relation) }

  unfoldable pub with_sum : Query → Bytes → Bytes → Query
  with_sum q relation column = record { b = core.build q.b (Clause.with_sum relation column) }

  unfoldable pub with_avg : Query → Bytes → Bytes → Query
  with_avg q relation column = record { b = core.build q.b (Clause.with_avg relation column) }

  unfoldable pub with_min : Query → Bytes → Bytes → Query
  with_min q relation column = record { b = core.build q.b (Clause.with_min relation column) }

  unfoldable pub with_max : Query → Bytes → Bytes → Query
  with_max q relation column = record { b = core.build q.b (Clause.with_max relation column) }

  unfoldable pub without : Query → List Bytes → Query
  without q relations = record { b = core.build q.b (Clause.without relations) }

  unfoldable pub without_global_scope : Query → Bytes → Query
  without_global_scope q identifier = record {
    b = core.build q.b (Clause.without_global_scope identifier);
  }

  unfoldable pub without_global_scopes : Query → List Bytes → Query
  without_global_scopes q identifiers = record {
    b = core.build q.b (Clause.without_global_scopes identifiers);
  }
