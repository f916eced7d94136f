-- ===== src/Sqlite.antt =====
-- What the sync engine sees of SQLite and of its session extension. SQLite is not part of this
-- repository: its answers are the fields of `Sqlite`, and the contents of the application's own
-- tables are a type `U`, a session object a type `S`.
use qsqlite_sync_engine.Prelude.{ℕ, ℤ, Bool, List, Option}
use qsqlite_sync_engine.Text.{QString}

abbrev pub Bytes : Type 0
Bytes = List ℕ

-- a row of `_sync_applied`; its column `applied_at` is never read
pub record Applied : Type 0 where
  pub changeset_id : QString
  pub client_id : QString
  pub hlc : ℕ

-- A row of `_sync_row_hlc`. The timestamp is stored as a 64-bit pattern.
pub record RowHlc : Type 0 where
  pub table_name : QString
  pub rowid : ℤ
  pub hlc : ℕ
  pub client_id : QString

-- the contents of the database file: the application's tables, and the three of the sync engine
pub record Tables (U : Type 0) : Type 0 where
  pub user : U
  pub applied : List Applied
  pub row_hlcs : List RowHlc
  pub clients : List QString

-- the statements that the sync engine runs on its own tables
pub data Statement : Type 0 where
  create_applied create_row_hlc create_client : Statement
  insert_client insert_applied select_applied replace_row_hlc select_row_hlc : Statement

-- SQLITE_CHANGESET_DATA and so on; `other` is any further code
pub data ConflictType : Type 0 where
  changed_data not_found existing_row constraint foreign_key : ConflictType
  other : ℕ → ConflictType

-- SQLITE_CHANGESET_OMIT, SQLITE_CHANGESET_REPLACE and SQLITE_CHANGESET_ABORT
pub data Reply : Type 0 where
  omit replace abort : Reply

-- A run of `sqlite3changeset_apply`, as the callbacks see it: a log message, a call of the conflict
-- handler (with the table's name and column 0 of the conflicting row, as an integer, where SQLite
-- has them), or the end: whether SQLITE_OK is returned, and what SQLite has written, on top of what
-- the conflict handler wrote.
pub data Apply (U : Type 0) : Type 0 where
  finish : Bool → (Tables U → Tables U) → Apply U
  log : ℕ → QString → Apply U → Apply U
  conflict : ConflictType → Option QString → Option ℤ → (Reply → Apply U) → Apply U

pub data Op : Type 0 where
  insert update delete : Op

-- one step of a changeset iterator: column 0 of the new and of the old values, as integers
pub record Change : Type 0 where
  pub op : Op
  pub table : Option QString
  pub new_pk : Option ℤ
  pub old_pk : Option ℤ

-- a row of `sqlite_master`; a column `sql` that is NULL is an empty text
pub record MasterRow : Type 0 where
  pub is_table : Bool
  pub name : QString
  pub sql : QString

pub record Sqlite (U S : Type 0) : Type 0 where
  -- whether a statement is prepared and executed without an error
  pub runs : Statement → Tables U → Bool
  -- `sqlite3_open`: whether it returns SQLITE_OK, and whether it sets the handle
  pub opens : QString → Bool × Bool
  -- `sqlite3session_create`
  pub session_create : Tables U → Option S
  -- `sqlite3session_attach` with all tables: whether it returns SQLITE_OK, and the session
  pub session_attach : S → Bool × S
  -- `sqlite3session_changeset`: what was written since the session began
  pub session_changeset : S → Tables U → Option Bytes
  -- `sqlite3session_diff` with an attached database in which some statements were executed
  pub session_diff : List QString → QString → Tables U → S → S
  -- whether an empty database can be attached
  pub attaches : Tables U → Bool
  -- `sqlite3changeset_apply`
  pub changeset_apply : Bytes → Tables U → Apply U
  -- the steps of an iterator, or none if `sqlite3changeset_start` fails
  pub changeset_iterate : Bytes → Option (List Change)
  -- the table `sqlite_master`
  pub master : Tables U → List MasterRow
