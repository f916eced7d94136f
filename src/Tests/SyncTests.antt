-- ===== src/Tests/SyncTests.antt =====
-- Whole calls of `sync` over the disk.
use qsqlite_sync_engine.Prelude.{
  ℕ, ◌+◌, pos, ◌≡◌, refl, All, select, true, false, some, none, [], ◌∷◌, arith,
}
use qsqlite_sync_engine.Text.{
  QString, codes, str_eq, split, join, ends_with, chop, last, remove_last,
}
use qsqlite_sync_engine.Filename.{ChangesetInfo, parse_filename, base_name, parse_parts}
use qsqlite_sync_engine.Sqlite.{Tables}
use qsqlite_sync_engine.Metadata.{has_applied, is_changeset_applied}
use qsqlite_sync_engine.Transport.{Transport, StoresFiles}
use qsqlite_sync_engine.SharedFolder.{FileSystem, shared_folder, read_file, list_files}
use qsqlite_sync_engine.SharedFolder.Laws.{IsName, Fits, shared_folder-StoresFiles}
use qsqlite_sync_engine.Manager.{unapplied, pending_changesets}
use qsqlite_sync_engine.Manager.Sort.{sort}
use qsqlite_sync_engine.Conflict.{conflict_callback, handler, resolve}
use qsqlite_sync_engine.Database.{apply_changeset, run_apply}
use qsqlite_sync_engine.Engine.{SyncEngine}
use qsqlite_sync_engine.Engine.Sync.{sync}
use qsqlite_sync_engine.Engine.Pulled.{pending}
use qsqlite_sync_engine.Engine.Marking.{Applies}
use qsqlite_sync_engine.Engine.Reference.{IsApplicable, plain_sync, sync-plain_sync}
use qsqlite_sync_engine.Engine.Idle.{second_sync_idle}
use qsqlite_sync_engine.Tests.Decimal.{decimal_qt}
use qsqlite_sync_engine.Tests.Toy.{toy, toy_books, toy-OrdinaryFiles, empty_tables}
use qsqlite_sync_engine.Tests.Disk.{Disk, disk, disk_laws, object}

abbrev pub fs : FileSystem Disk
fs = disk 4

abbrev pub folder : Transport Disk
folder = shared_folder fs object

pub stores : StoresFiles folder IsName (Fits fs (codes "d"))
stores = shared_folder-StoresFiles fs object (disk_laws 4)

abbrev pub wall : ℕ → ℕ
wall n = 100 + n

abbrev pub client : QString → ℕ → Tables ℕ → Disk → SyncEngine ℕ ℕ Disk
client id hlc t files = record {
  manager = record {
    db = record {
      db_path = [];
      client_identifier = id;
      handle = true;
      owns_handle = false;
      session = some 0;
      hlc_clock = hlc;
      tables = t;
    };
    transport = files;
    sequence = 0;
    schema_ver = pos 0;
  };
  sync_timer = none;
  running = true;
  current_schema_version = pos 0;
  auto_capture = true;
  in_manual_write = false;
  commit_hook = true;
  wall_reads = 1;
  signals = [];
}

abbrev pub entry : QString → QString → ℕ → ChangesetInfo
entry filename client_id hlc = record {
  filename = filename;
  client_id = client_id;
  hlc = hlc;
  sequence = 1;
  schema_version = pos 0;
}

abbrev reader : SyncEngine ℕ ℕ Disk
reader =
    client (codes "a") 0 (record empty_tables { user = 3 })
      ((record { name = codes "b_20_1_v0.changeset"; bytes = 8 ∷ [] }) ∷ [])

abbrev from_b_file : ChangesetInfo
from_b_file = entry (codes "b_20_1_v0.changeset") (codes "b") 20

one_pending : pending decimal_qt toy folder wall reader ≡ from_b_file ∷ []
unfolding pending_changesets unapplied is_changeset_applied has_applied parse_filename split
    base_name ends_with chop last parse_parts remove_last decimal_qt list_files disk select join
    sort
one_pending = refl

eight-Applies : Applies toy (8 ∷ [])
unfolding apply_changeset run_apply conflict_callback handler resolve
eight-Applies local_client client hlc db opened = ground (arith, opened)

applicable : IsApplicable decimal_qt toy folder wall reader from_b_file
unfolding read_file disk str_eq
applicable = record { allowed = refl; full = refl; applies = eight-Applies }

All-IsApplicable :
    All (IsApplicable decimal_qt toy folder wall reader) (pending decimal_qt toy folder wall reader)
All-IsApplicable = rw one_pending (applicable, tt)

sync-plain_sync_example :
    sync decimal_qt toy folder wall reader
    ≡ plain_sync decimal_qt toy folder wall IsName (Fits fs (codes "d")) stores reader
sync-plain_sync_example =
    sync-plain_sync decimal_qt toy folder wall IsName (Fits fs (codes "d")) stores reader refl
      All-IsApplicable

abbrev caught_up : SyncEngine ℕ ℕ Disk
caught_up = (sync decimal_qt toy folder wall reader).1

second_sync_idle_example :
    (pending decimal_qt toy folder wall caught_up ≡ [])
    × (sync decimal_qt toy folder wall caught_up ≡ (
      0,
      record caught_up { manager = (pending_changesets decimal_qt toy folder caught_up.manager).1 },
    ))
second_sync_idle_example =
    second_sync_idle decimal_qt toy folder wall IsName (Fits fs (codes "d")) stores toy_books
      (λ t. refl) reader (toy-OrdinaryFiles folder reader.transport) refl All-IsApplicable
