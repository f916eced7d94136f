-- ===== src/Query.antt =====
-- `SyncQuery` of src/syncengine/SyncQuery.{h,cpp}, and `exec` and `query` of
-- src/syncengine/SyncableDatabase.cpp, over the statements of SQLite. Texts stand for their UTF-8 form.
pub mod Ownership
pub mod Rows
pub mod Rebinding
use qsqlite_sync_engine.Prelude.{
  ℕ, zero, suc, ◌+◌, ℤ, pos, Bool, true, false, not, Option, none, some, List, [], ◌∷◌, ◌++◌, ◌==◌,
  if◌then◌else◌,
}
use qsqlite_sync_engine.Text.{QString, codes}
use qsqlite_sync_engine.Sqlite.{Bytes}
use qsqlite_sync_engine.Statements.{
  Statements, Bound, null_value, int_value, int64_value, double_value, blob_value, text_value,
  sqlite_ok, sqlite_row, sqlite_done, integer_type, float_type, blob_type, null_type,
}

-- `db` says whether the pointer to the database is set, `stmt` is the address of the statement.
pub record SyncQuery : Type 0 where
  pub db : Bool
  pub stmt : Option ℕ
  pub last_db_error : QString

-- `QMetaType::Int` and so on
pub data TypeId : Type 0 where
  int uint bool long_long ulong_long double float byte_array : TypeId
  other : ℕ → TypeId

-- what the program reads of a `QVariant`: its type, and Qt's conversions of it
pub record Variant (D : Type 0) : Type 0 where
  pub is_null : Bool
  pub type_id : TypeId
  pub to_int : ℤ
  pub to_long_long : ℤ
  pub to_double : D
  pub to_byte_array : Bytes
  pub to_text : QString

-- the `QVariant` that `value` returns; `invalid` is the one without a value
pub data Value (D : Type 0) : Type 0 where
  invalid : Value D
  long_long_value : ℤ → Value D
  double_result : D → Value D
  bytes_value : Bytes → Value D
  text_result : QString → Value D

abbrev pub text_or_empty : Option QString → QString
text_or_empty none = []
text_or_empty (some s) = s

-- the switch on the type of a value that is not null
unfoldable pub bound_of : {D : Type 0} → TypeId → Variant D → Bound D
bound_of int v = int_value v.to_int
bound_of uint v = int_value v.to_int
bound_of bool v = int_value v.to_int
bound_of long_long v = int64_value v.to_long_long
bound_of ulong_long v = int64_value v.to_long_long
bound_of double v = double_value v.to_double
bound_of float v = double_value v.to_double
bound_of byte_array v = blob_value v.to_byte_array
bound_of (other id) v = text_value v.to_text

-- the constructor
abbrev pub make_query : Bool → SyncQuery
make_query db = record { db = db; stmt = none; last_db_error = [] }

-- The move constructor: the new query, and what stays of the other one. `left` is what Qt leaves in a
-- text that was moved from.
unfoldable pub move_construct : QString → SyncQuery → SyncQuery × SyncQuery
move_construct left source = (source, record source { stmt = none; last_db_error = left })

module _ {C D : Type 0} (sql : Statements C D) where
  unfoldable pub finalize : SyncQuery → C → SyncQuery × C
  finalize q c = elim q.stmt [
    | none ↦ (q, c)
    | some s ↦ (record q { stmt = none }, sql.finalize s c)
  ]

  -- The move assignment between two objects. (An assignment of an object to itself does nothing.)
  unfoldable pub move_assign : QString → SyncQuery → SyncQuery → C → SyncQuery × SyncQuery × C
  unfolding finalize
  move_assign left q source c =
      (source, record source { stmt = none; last_db_error = left }, (finalize q c).1)

  unfoldable pub prepare : QString → SyncQuery → C → Bool × SyncQuery × C
  unfolding finalize
  prepare text q c =
      let (q1, c1) = finalize q c in
      let r = sql.prepare text c1 in
      if not (r.code == sqlite_ok)
      then (false, record q1 { stmt = none; last_db_error = sql.errmsg r.connection }, r.connection)
      else (true, record q1 { stmt = r.stmt; last_db_error = [] }, r.connection)

  -- SQLite counts parameters from 1. What the binding returns is not looked at.
  unfoldable pub bind_value : ℕ → Variant D → SyncQuery → C → C
  unfolding bound_of
  bind_value index value q c = elim q.stmt [
    | none ↦ c
    | some s ↦
        sql.bind s (index + 1) (if value.is_null then null_value else bound_of value.type_id value)
          c
  ]

  -- what is done with the result of a step
  exec_result : ℕ → SyncQuery → ℕ × C → Bool × SyncQuery × C
  exec_result s q r =
      let q' = record q { last_db_error = [] } in
      if r.0 == sqlite_done
      then (true, q', r.1)
      else if r.0 == sqlite_row
      then (true, q', sql.reset s r.1)
      else (false, record q { last_db_error = sql.errmsg r.1 }, r.1)

  unfoldable pub exec : SyncQuery → C → Bool × SyncQuery × C
  unfolding exec_result
  exec q c = elim q.stmt [
    | none ↦ (false, record q { last_db_error = codes "No prepared statement" }, c)
    | some s ↦ exec_result s q (sql.step s c)
  ]

  unfoldable pub exec_text : QString → SyncQuery → C → Bool × SyncQuery × C
  unfolding prepare exec
  exec_text text q c =
      let (ok, q', c') = prepare text q c in if not ok then (false, q', c') else exec q' c'

  next_result : SyncQuery → ℕ × C → Bool × SyncQuery × C
  next_result q r =
      if r.0 == sqlite_row
      then (true, q, r.1)
      else if not (r.0 == sqlite_done)
      then (false, record q { last_db_error = sql.errmsg r.1 }, r.1)
      else (false, q, r.1)

  unfoldable pub next : SyncQuery → C → Bool × SyncQuery × C
  unfolding next_result
  next q c = elim q.stmt [ none ↦ (false, q, c) | some s ↦ next_result q (sql.step s c) ]

  value_of : ℕ → ℕ → C → Value D
  value_of s index c =
      let type = sql.column_type s index c in
      if type == integer_type
      then long_long_value (sql.column_int64 s index c)
      else if type == float_type
      then double_result (sql.column_double s index c)
      else if type == blob_type
      then bytes_value (sql.column_blob s index c)
      else if type == null_type
      then invalid
      else text_result (text_or_empty (sql.column_text s index c))

  unfoldable pub value : ℕ → SyncQuery → C → Value D
  unfolding value_of
  value index q c = elim q.stmt [ none ↦ invalid | some s ↦ value_of s index c ]

  unfoldable pub column_count : SyncQuery → C → ℕ
  column_count q c = elim q.stmt [ none ↦ 0 | some s ↦ sql.column_count s c ]

  unfoldable pub column_name : ℕ → SyncQuery → C → QString
  column_name index q c = elim q.stmt [
    | none ↦ []
    | some s ↦ text_or_empty (sql.column_name s index c)
  ]

  unfoldable pub num_rows_affected : SyncQuery → C → ℕ
  num_rows_affected q c = if q.db then sql.changes c else 0

  unfoldable pub last_insert_id : SyncQuery → C → ℤ
  last_insert_id q c = if q.db then sql.last_insert_rowid c else pos 0

  -- `SyncableDatabase::exec`
  unfoldable pub database_exec : QString → C → Bool × C
  database_exec text c =
      if not (sql.is_open c)
      then (false, c)
      else let (code, c') = sql.exec text c in
        if not (code == sqlite_ok) then (false, c') else (true, c')

  -- the columns from `i` on, of which `n` are left
  row_from : ℕ → ℕ → ℕ → C → List QString
  row_from s zero i c = []
  row_from s (suc n) i c = text_or_empty (sql.column_text s i c) ∷ row_from s n (i + 1) c

  unfoldable pub row_texts : ℕ → C → List QString
  unfolding row_from
  row_texts s c = row_from s (sql.column_count s c) 0 c

  -- the loop over the rows, on fuel
  unfoldable pub collect : ℕ → ℕ → List (List QString) → C → Option (List (List QString) × C)
  unfolding row_texts
  collect zero s results c = none
  collect (suc fuel) s results c =
      let (code, c') = sql.step s c in
      let rest = collect fuel s (results ++ row_texts s c' ∷ []) c' in
      if code == sqlite_row then rest else some (results, c')

  -- the loop, and `sqlite3_finalize`
  query_stmt : ℕ → Option ℕ → C → Option (List (List QString) × C)
  unfolding collect
  query_stmt fuel none c = some ([], c)
  query_stmt fuel (some s) c = elim (collect fuel s [] c) [
    | none ↦ none
    | some (results, c') ↦ some (results, sql.finalize s c')
  ]

  -- `SyncableDatabase::query`. Of an empty text no statement is made, and a step of none is refused.
  unfoldable pub database_query : ℕ → QString → C → Option (List (List QString) × C)
  unfolding query_stmt
  database_query fuel text c =
      if not (sql.is_open c)
      then some ([], c)
      else let r = sql.prepare text c in
        if not (r.code == sqlite_ok)
        then some ([], r.connection)
        else query_stmt fuel r.stmt r.connection
