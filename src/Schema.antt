-- ===== src/Schema.antt =====
-- The schema table: `SyncEngine::discoverUserTables` of src/syncengine/SyncEngine.cpp, and
-- `SyncableDatabase::generateSnapshot` of src/syncengine/SyncableDatabase.cpp.
pub mod Like
pub mod Hidden
use qsqlite_sync_engine.Prelude.{
  Bool, true, false, not, ◌&&◌, ◌||◌, Option, none, some, List, [], ◌∷◌, ◌++◌, ◌==◌, if◌then◌else◌,
  select, map,
}
use qsqlite_sync_engine.Text.{QString, codes, starts_with, str_eq}
use qsqlite_sync_engine.Sqlite.{Bytes, Tables, MasterRow, Sqlite}
use qsqlite_sync_engine.Database.{SyncableDatabase, is_empty, or_empty}
use Like.{like}

-- SELECT name FROM sqlite_master WHERE sql LIKE 'CREATE VIRTUAL TABLE%'
unfoldable pub is_virtual : MasterRow → Bool
unfolding like
is_virtual r = like (codes "CREATE VIRTUAL TABLE%") r.sql

-- the WHERE clause of the second query
unfoldable pub is_user_row : MasterRow → Bool
unfolding like
is_user_row r =
    r.is_table
    && (like (codes "CREATE TABLE%") r.sql
        && (not (like (codes "_sync_%") r.name) && not (like (codes "sqlite_%") r.name)))

-- the loop over the names of the virtual tables
unfoldable pub is_shadow : QString → List QString → Bool
unfolding starts_with
is_shadow name [] = false
is_shadow name (vt ∷ vts) = starts_with name (vt ++ b'_' ∷ []) || is_shadow name vts

abbrev pub virtual_table_names : List MasterRow → List QString
virtual_table_names rows = map (λ (r : MasterRow). r.name) (select is_virtual rows)

-- `createSql.mid(parenPos)`, or none without a parenthesis
from_paren : QString → Option QString
from_paren [] = none
from_paren (c ∷ s) = let rest = from_paren s in if c == b'(' then some (c ∷ s) else rest

-- SELECT sql FROM sqlite_master WHERE type='table' AND name=?
create_sql : QString → List MasterRow → QString
create_sql table [] = []
create_sql table (r ∷ rows) =
    let rest = create_sql table rows in if r.is_table && str_eq r.name table then r.sql else rest

create_in_empty : QString → QString → QString
create_in_empty table columns =
    codes "CREATE TABLE _snapshot_empty." ++ (b'"' ∷ (table ++ (b'"' ∷ b' ' ∷ columns)))

module _ {U S : Type 0} (sqlite : Sqlite U S) where
  unfoldable pub discover_user_tables : SyncableDatabase U S → List QString
  unfolding is_virtual is_user_row is_shadow select
  discover_user_tables db =
      if not db.handle
      then []
      else let rows = sqlite.master db.tables in
        let names = map (λ (r : MasterRow). r.name) (select is_user_row rows) in
        select (λ name. not (is_shadow name (virtual_table_names rows))) names

  -- The loop over the tables. The list holds the statements that were executed in the empty database.
  diff_tables : List QString → List QString → Tables U → S → S
  diff_tables [] executed t s = s
  diff_tables (table ∷ tables) executed t s =
      elim (from_paren (create_sql table (sqlite.master t))) [
        | none ↦ diff_tables tables executed t s
        | some columns ↦
            let executed' = executed ++ create_in_empty table columns ∷ [] in
            diff_tables tables executed' t (sqlite.session_diff executed' table t s)
      ]

  snapshot_bytes : List QString → Tables U → Option S → Bytes
  snapshot_bytes tables t none = []
  snapshot_bytes tables t (some s) =
      or_empty (sqlite.session_changeset (diff_tables tables [] t (sqlite.session_attach s).1) t)

  -- A session of its own: the connection's session stays as it is, and the empty database is detached
  -- on each path, so nothing of the connection changes.
  unfoldable pub generate_snapshot : List QString → SyncableDatabase U S → Bytes
  unfolding snapshot_bytes diff_tables create_sql from_paren create_in_empty
  generate_snapshot tables db =
      if not db.handle
      then []
      else if is_empty tables
      then []
      else if not (sqlite.attaches db.tables)
      then []
      else snapshot_bytes tables db.tables (sqlite.session_create db.tables)
