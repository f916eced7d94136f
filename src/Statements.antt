-- ===== src/Statements.antt =====
-- SQLite's interface of prepared statements, as far as the program calls it. SQLite is not part of
-- this repository: `C` is the state of a connection with its statement objects, `D` the type of the
-- floating point numbers, and a statement object is known by its address.
use qsqlite_sync_engine.Prelude.{ℕ, ℤ, Bool, Option}
use qsqlite_sync_engine.Text.{QString}
use qsqlite_sync_engine.Sqlite.{Bytes}

abbrev pub sqlite_ok : ℕ
sqlite_ok = 0

abbrev pub sqlite_row : ℕ
sqlite_row = 100

abbrev pub sqlite_done : ℕ
sqlite_done = 101

-- SQLITE_INTEGER, SQLITE_FLOAT, SQLITE_TEXT, SQLITE_BLOB and SQLITE_NULL
abbrev pub integer_type : ℕ
integer_type = 1

abbrev pub float_type : ℕ
float_type = 2

abbrev pub text_type : ℕ
text_type = 3

abbrev pub blob_type : ℕ
blob_type = 4

abbrev pub null_type : ℕ
null_type = 5

-- the arguments of `sqlite3_bind_null`, `sqlite3_bind_int` and so on
pub data Bound (D : Type 0) : Type 0 where
  null_value : Bound D
  int_value int64_value : ℤ → Bound D
  double_value : D → Bound D
  blob_value : Bytes → Bound D
  text_value : QString → Bound D

-- the result of `sqlite3_prepare_v2`; no statement is made of an empty text
pub record Prepared (C : Type 0) : Type 0 where
  pub code : ℕ
  pub stmt : Option ℕ
  pub connection : C

-- The indices of parameters start at 1 and those of columns at 0.
pub record Statements (C D : Type 0) : Type 0 where
  -- whether the connection is open: `db->handle()` is set
  pub is_open : C → Bool
  pub prepare : QString → C → Prepared C
  pub finalize : ℕ → C → C
  pub step : ℕ → C → ℕ × C
  pub reset : ℕ → C → C
  pub bind : ℕ → ℕ → Bound D → C → C
  pub column_count : ℕ → C → ℕ
  pub column_name : ℕ → ℕ → C → Option QString
  pub column_type : ℕ → ℕ → C → ℕ
  pub column_int64 : ℕ → ℕ → C → ℤ
  pub column_double : ℕ → ℕ → C → D
  pub column_blob : ℕ → ℕ → C → Bytes
  pub column_text : ℕ → ℕ → C → Option QString
  pub errmsg : C → QString
  pub changes : C → ℕ
  pub last_insert_rowid : C → ℤ
  -- `sqlite3_exec` without a callback
  pub exec : QString → C → ℕ × C
