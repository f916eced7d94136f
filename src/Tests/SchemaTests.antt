-- ===== src/Tests/SchemaTests.antt =====
-- A database with the tables `items` and `async_jobs`.
use mathlib.Core.List.{Mem}
use qsqlite_sync_engine.Prelude.{ℕ, ◌≡◌, refl, true, false, none, [], ◌∷◌}
use qsqlite_sync_engine.Text.{codes}
use qsqlite_sync_engine.Sqlite.{Sqlite}
use qsqlite_sync_engine.Database.{SyncableDatabase}
use qsqlite_sync_engine.Schema.{discover_user_tables}
use qsqlite_sync_engine.Schema.Hidden.{hidden_table}
use qsqlite_sync_engine.Tests.Toy.{toy, empty_tables}

abbrev two_tables : Sqlite ℕ ℕ
two_tables = record toy {
  master = λ t.
      (record { is_table = true; name = codes "items"; sql = codes "CREATE TABLE items (id)" })
      ∷ (record {
        is_table = true;
        name = codes "async_jobs";
        sql = codes "CREATE TABLE async_jobs (id)";
      })
      ∷ [];
}

abbrev open_db : SyncableDatabase ℕ ℕ
open_db = record {
  db_path = [];
  client_identifier = codes "a";
  handle = true;
  owns_handle = false;
  session = none;
  hlc_clock = 0;
  tables = empty_tables;
}

-- only the first of them is found
one_found : discover_user_tables two_tables open_db ≡ codes "items" ∷ []
unfolding discover_user_tables
one_found = refl

hidden_table_example : ¬ Mem (codes "async_jobs") (discover_user_tables two_tables open_db)
hidden_table_example = hidden_table b'a' b'_' (codes "jobs") two_tables open_db
