-- ===== src/Tests/SharedFolderTests.antt =====
-- The shared folder over the disk, and an engine that publishes through it.
use mathlib.Core.List.{mem-cons_self}
use qsqlite_sync_engine.Prelude.{
  ℕ, ◌+◌, pos, ◌<◌, ◌≡◌, ◌≢◌, refl, All, select, true, false, some, none, [], ◌∷◌, arith,
}
use qsqlite_sync_engine.Text.{
  codes, split, join, starts_with, ends_with, chop, last, remove_last, str_eq,
}
use qsqlite_sync_engine.Filename.{
  ChangesetInfo, parse_filename, base_name, parse_parts, build_filename,
}
use qsqlite_sync_engine.Filename.RoundTrip.{build_filename-IsName}
use qsqlite_sync_engine.Metadata.{is_changeset_applied}
use qsqlite_sync_engine.Transport.{Transport, StoresFiles}
use qsqlite_sync_engine.SharedFolder.{
  FileSystem, shared_folder, write_file, read_file, list_files, make_transport,
}
use qsqlite_sync_engine.SharedFolder.Laws.{IsName, Fits, shared_folder-StoresFiles}
use qsqlite_sync_engine.Manager.{ChangesetManager, write_changeset, pending_changesets}
use qsqlite_sync_engine.Manager.Writing.{next_filename}
use qsqlite_sync_engine.Engine.{SyncEngine, clock_now}
use qsqlite_sync_engine.Engine.Push.{publish}
use qsqlite_sync_engine.Database.{is_empty, apply_changeset, run_apply, end_session}
use qsqlite_sync_engine.Conflict.{conflict_callback, handler, resolve}
use qsqlite_sync_engine.Metadata.{has_applied}
use qsqlite_sync_engine.Engine.Push.{end_write}
use qsqlite_sync_engine.Engine.Sync.{sync}
use qsqlite_sync_engine.Engine.Progress.{applied_names, contains}
use qsqlite_sync_engine.Engine.Marking.{Applies}
use qsqlite_sync_engine.Engine.Snapshot.{published_keeps}
use qsqlite_sync_engine.Engine.Push.{snapshot_if_needed}
use qsqlite_sync_engine.Engine.Arrival.{written_arrives}
use qsqlite_sync_engine.Tests.Toy.{toy_books, toy-OrdinaryFiles}
use qsqlite_sync_engine.Engine.Causal.{RoomFor, sync_advances}
use qsqlite_sync_engine.Clock.{logical_component}
use qsqlite_sync_engine.Clock.Chain.{HasRoom}
use qsqlite_sync_engine.Engine.Pulled.{pending}
use qsqlite_sync_engine.Manager.{unapplied}
use qsqlite_sync_engine.Engine.Delivered.{stamp}
use qsqlite_sync_engine.Tests.Decimal.{decimal_qt, decimal_laws}
use qsqlite_sync_engine.Tests.Toy.{toy, empty_tables}
use qsqlite_sync_engine.Tests.Disk.{Disk, disk, disk_laws, object}

abbrev fs : FileSystem Disk
fs = disk 4

abbrev folder : Transport Disk
folder = shared_folder fs object

made : (make_transport fs (codes "d") []).0 ≡ object
unfolding make_transport disk
made = refl

abbrev two_files : Disk
two_files =
    (write_file fs (codes "d") (codes "b.changeset") (7 ∷ 8 ∷ [])
      (write_file fs (codes "d") (codes "a.txt") (9 ∷ []) []).1).1

listed : list_files fs (codes "d") two_files ≡ codes "b.changeset" ∷ []
unfolding list_files write_file disk str_eq
listed = refl

shared_folder-StoresFiles_example : StoresFiles folder IsName (Fits fs (codes "d"))
shared_folder-StoresFiles_example = shared_folder-StoresFiles fs object (disk_laws 4)

abbrev writer : SyncEngine ℕ ℕ Disk
writer = record {
  manager = record {
    db = record {
      db_path = [];
      client_identifier = codes "a";
      handle = true;
      owns_handle = false;
      session = some 0;
      hlc_clock = 0;
      tables = record empty_tables { user = 3 };
    };
    transport = [];
    sequence = 0;
    schema_ver = pos 0;
  };
  sync_timer = none;
  running = true;
  current_schema_version = pos 0;
  auto_capture = true;
  in_manual_write = false;
  commit_hook = true;
  wall_reads = 1;
  signals = [];
}

abbrev wall : ℕ → ℕ
wall n = 100 + n

abbrev publishing : SyncEngine ℕ ℕ Disk
publishing = (publish decimal_qt toy folder wall (3 ∷ []) writer).1

-- another client, before its first sync
abbrev reader : ChangesetManager ℕ ℕ Disk
reader = record writer.manager {
  db = record writer.manager.db { client_identifier = codes "b"; tables = empty_tables };
  transport = publishing.transport;
}

is_published : (publish decimal_qt toy folder wall (3 ∷ []) writer).0 ≢ []
unfolding publish clock_now write_changeset build_filename decimal_qt write_file disk
is_published e = ground arith

fits : Fits fs (codes "d") (next_filename decimal_qt (stamp wall writer) writer.manager) (3 ∷ []) []
unfolding disk
fits = refl

no_dot : starts_with (codes "a") (codes ".") ≡ false
unfolding starts_with
no_dot = refl

named : IsName (next_filename decimal_qt (stamp wall writer) writer.manager)
named =
    build_filename-IsName decimal_qt decimal_laws (codes "a") (stamp wall writer) 0 (pos 0)
      (omega arith) (omega arith) no_dot (omega arith)

abbrev reading : SyncEngine ℕ ℕ Disk
reading = record writer {
  manager = record reader { transport = (end_write decimal_qt toy folder wall writer).1.transport };
}

applies : Applies toy (3 ∷ [])
unfolding apply_changeset run_apply conflict_callback handler resolve
applies local_client client hlc db opened = ground (arith, opened)

is_written : (end_write decimal_qt toy folder wall writer).0 ≢ []
unfolding end_write end_session publish clock_now write_changeset build_filename decimal_qt
    write_file disk
is_written e = ground arith

written_arrives_example :
    (has_applied
        (end_write decimal_qt toy folder wall writer).0
        (sync decimal_qt toy folder wall reading).1.db.tables.applied
      ≡ true)
    × (contains
          (end_write decimal_qt toy folder wall writer).0
          (applied_names (sync decimal_qt toy folder wall reading).1.signals)
        ≡ true)
unfolding end_session has_applied
written_arrives_example =
    written_arrives decimal_qt decimal_laws toy folder wall wall IsName (Fits fs (codes "d"))
      (shared_folder-StoresFiles fs object (disk_laws 4)) toy_books writer reading (omega arith)
      (omega arith) (omega arith) named fits is_written refl refl
      (toy-OrdinaryFiles folder reading.transport) refl refl (λ t. Unit)
      (record { over_apply = λ c l r h db u. u; over_mark = λ c id h t u. u })
      (λ l c h db o u. applies l c h db o) tt

-- a client that finds one file in the folder
abbrev finding : SyncEngine ℕ ℕ Disk
finding = record writer {
  manager = record writer.manager {
    transport = (record { name = codes "b_20_1_v0.changeset"; bytes = 8 ∷ [] }) ∷ [];
  };
}

abbrev found : ChangesetInfo
found = record {
  filename = codes "b_20_1_v0.changeset";
  client_id = codes "b";
  hlc = 20;
  sequence = 1;
  schema_version = pos 0;
}

-- a system clock that stands still
abbrev steady : ℕ → ℕ
steady n = 100

the_pending_one : pending decimal_qt toy folder steady finding ≡ found ∷ []
unfolding pending_changesets unapplied is_changeset_applied has_applied parse_filename split
    base_name ends_with chop last parse_parts remove_last decimal_qt list_files disk select join
the_pending_one = refl

rooms : All (RoomFor 3) (found ∷ [])
unfolding logical_component
rooms = ((omega arith, omega arith), tt)

clock_room : HasRoom 3 finding.db.hlc_clock
unfolding logical_component
clock_room = (omega arith, omega arith)

found_full : is_empty (folder.read_changeset found.filename finding.transport).0 ≡ false
unfolding read_file disk str_eq
found_full = refl

sync_advances_example : found.hlc < stamp steady (sync decimal_qt toy folder steady finding).1
sync_advances_example =
    sync_advances decimal_qt toy folder steady 3 (λ k. omega arith) IsName (Fits fs (codes "d"))
      (shared_folder-StoresFiles fs object (disk_laws 4)) finding found (rw the_pending_one rooms)
      clock_room (rw the_pending_one (omega arith)) (rw the_pending_one mem-cons_self) refl
      found_full

-- the engine after its first changeset
abbrev restarted : SyncEngine ℕ ℕ Disk
restarted = record writer { manager = record writer.manager { transport = publishing.transport } }

published_keeps_example :
    snapshot_if_needed decimal_qt toy folder wall restarted ≡ record restarted {
      manager = record restarted.manager {
        transport = (folder.list_changesets restarted.transport).1;
      };
    }
published_keeps_example =
    published_keeps decimal_qt decimal_laws toy folder IsName (Fits fs (codes "d"))
      (shared_folder-StoresFiles fs object (disk_laws 4)) wall (3 ∷ []) writer restarted
      (omega arith) (omega arith) (omega arith) named is_published refl refl
