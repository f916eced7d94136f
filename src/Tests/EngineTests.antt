-- ===== src/Tests/EngineTests.antt =====
-- An engine over the toy database and a folder.
use mathlib.Core.List.{Mem, mem-cons_self, mem-cons_of_mem}
use qsqlite_sync_engine.Prelude.{
  ℕ, pos, ◌+◌, ◌≡◌, ◌≢◌, refl, true, false, some, none, [], ◌∷◌, ◌++◌, arith, if◌then◌else◌, not,
  ◌&&◌,
}
use qsqlite_sync_engine.Text.{
  QString, codes, split, ends_with, chop, last, remove_last, starts_with,
}
use qsqlite_sync_engine.Filename.{parse_filename, parse_parts, base_name}
use qsqlite_sync_engine.Transport.{Transport}
use qsqlite_sync_engine.Manager.Pending.{is_pending}
use qsqlite_sync_engine.Engine.Upgrade.{IsNewer, newer_stays_pending}
use qsqlite_sync_engine.Metadata.{stored_hlc, is_changeset_applied}
use qsqlite_sync_engine.Database.{end_session}
use qsqlite_sync_engine.Engine.{SyncEngine, sync_error_occurred, transport_error}
use qsqlite_sync_engine.Engine.Rows.{record_row_hlcs}
use qsqlite_sync_engine.Sqlite.{Sqlite, Tables}
use qsqlite_sync_engine.Manager.Writing.{next_filename}
use qsqlite_sync_engine.Engine.Delivered.{stamp}
use qsqlite_sync_engine.Engine.Echo.{sync_echoes}
use qsqlite_sync_engine.Engine.Push.{end_write, on_transaction_committed}
use qsqlite_sync_engine.Engine.Sync.{sync}
use qsqlite_sync_engine.Engine.Pulled.{Pulled, pending, sync-Pulled}
use qsqlite_sync_engine.Engine.Stamped.{touched_rows, record_row_hlcs_lem}
use qsqlite_sync_engine.Engine.Published.{refused_changes}
use qsqlite_sync_engine.Tests.Decimal.{decimal_qt}
use qsqlite_sync_engine.Tests.Toy.{
  toy, toy_books, toy-OrdinaryFiles, Files, folder, read_only, empty_tables,
}

abbrev engine : SyncEngine ℕ ℕ Files
engine = record {
  manager = record {
    db = record {
      db_path = [];
      client_identifier = codes "a";
      handle = true;
      owns_handle = false;
      session = some 0;
      hlc_clock = 0;
      tables = record empty_tables { user = 3 };
    };
    transport = (codes "b_20_1_v0.changeset", 8 ∷ []) ∷ (codes "c_10_1_v2.changeset", 7 ∷ []) ∷ [];
    sequence = 0;
    schema_ver = pos 0;
  };
  sync_timer = none;
  running = true;
  current_schema_version = pos 0;
  auto_capture = true;
  in_manual_write = false;
  commit_hook = true;
  wall_reads = 1;
  signals = [];
}

abbrev wall : ℕ → ℕ
wall n = 100 + n

abbrev synced : ℕ × SyncEngine ℕ ℕ Files
synced = sync decimal_qt toy folder wall engine

sync-Pulled_example : Pulled (pending decimal_qt toy folder wall engine) engine synced
sync-Pulled_example =
    sync-Pulled decimal_qt toy folder wall toy_books engine
      (toy-OrdinaryFiles folder engine.transport)

record_row_hlcs_lem_example :
    stored_hlc
      (codes "items")
      (pos 1)
      (record_row_hlcs toy (codes "a") 40 (8 ∷ []) empty_tables).row_hlcs
    ≡ (if not (starts_with (codes "items") (codes "_sync_"))
          && touched_rows (codes "items") (pos 1) (toy.changeset_iterate (8 ∷ []))
        then 40
        else stored_hlc (codes "items") (pos 1) [])
record_row_hlcs_lem_example =
    record_row_hlcs_lem toy (λ t. refl) (codes "a") 40 (codes "items") (pos 1) (8 ∷ []) empty_tables

captured : (end_session toy engine.db).0 ≢ []
unfolding end_session
captured e = ground arith

refused_changes_example :
    ((end_write decimal_qt toy read_only wall engine).0 ≡ [])
    × ((end_write decimal_qt toy read_only wall engine).1.signals
        ≡ [] ++ sync_error_occurred transport_error (codes "Failed to write changeset") ∷ [])
    × ((on_transaction_committed decimal_qt toy read_only wall engine).signals ≡ [])
refused_changes_example =
    refused_changes decimal_qt toy read_only wall (λ name b files. refl) engine captured refl refl

abbrev newer_file : QString
newer_file = codes "c_10_1_v2.changeset"

-- a folder in which the two files stay
abbrev lasting : Transport Files
lasting = record folder {
  list_changesets = λ files. (codes "b_20_1_v0.changeset" ∷ newer_file ∷ [], files);
}

is_newer : IsNewer decimal_qt toy lasting wall engine newer_file
unfolding parse_filename split base_name ends_with chop last parse_parts remove_last decimal_qt
is_newer = refl

is_waiting : is_pending decimal_qt toy engine.db.tables newer_file ≡ true
unfolding parse_filename split base_name ends_with chop last parse_parts remove_last decimal_qt
    is_changeset_applied
is_waiting = refl

newer_stays_pending_example :
    Mem
      (parse_filename decimal_qt newer_file)
      (pending decimal_qt toy lasting wall (sync decimal_qt toy lasting wall engine).1)
newer_stays_pending_example =
    newer_stays_pending decimal_qt toy lasting wall toy_books engine newer_file
      (toy-OrdinaryFiles lasting engine.transport) (λ t. refl) is_newer is_waiting
      (mem-cons_of_mem _ mem-cons_self)

-- a session that has recorded the row's new value
abbrev capturing : Sqlite ℕ ℕ
capturing = record toy { session_changeset = λ s t. some (8 ∷ []) }

abbrev caught_up : SyncEngine ℕ ℕ Files
caught_up = (sync decimal_qt capturing folder wall engine).1

sync_echoes_example :
    (on_transaction_committed decimal_qt capturing folder wall caught_up).transport
    ≡ (next_filename decimal_qt (stamp wall caught_up) caught_up.manager, 8 ∷ [])
      ∷ caught_up.transport
sync_echoes_example =
    sync_echoes decimal_qt capturing folder wall engine 0 (8 ∷ []) refl refl refl refl refl

abbrev ended : Tables ℕ
ended = (end_write decimal_qt toy folder wall engine).1.db.tables
