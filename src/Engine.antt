-- ===== src/Engine.antt =====
-- `SyncEngine` of src/syncengine/SyncEngine.{h,cpp}: its state, its signals and the clock. The
-- operations are in the modules below: Rows (`recordRowHlcs`), Pull (`applyOneChangeset`,
-- `emitApplyError`), Sync (`sync`), Push (`beginWrite`, `endWrite`, `onTransactionCommitted`,
-- `snapshotIfNeeded`) and Lifecycle (`start`, `stop`, `setSchemaVersion`).
pub mod Rows
pub mod Pull
pub mod Sync
pub mod Push
pub mod Lifecycle
pub mod Ordinary
pub mod Progress
pub mod Passes
pub mod Pulled
pub mod Stamped
pub mod Published
pub mod Delivered
pub mod Upgrade
pub mod Frame
pub mod Marking
pub mod Arrival
pub mod Echo
pub mod Reference
pub mod Idle
pub mod Converging
pub mod Snapshot
pub mod Clocks
pub mod Causal
pub mod LocalWrites
pub mod Reachable
use qsqlite_sync_engine.Prelude.{ℕ, ◌+◌, ℤ, Bool, Option, List, [], ◌∷◌, ◌++◌}
use qsqlite_sync_engine.Text.{QString}
use qsqlite_sync_engine.Clock
use qsqlite_sync_engine.Sqlite.{Tables}
use qsqlite_sync_engine.Database.{SyncableDatabase}
use qsqlite_sync_engine.Manager.{ChangesetManager}

pub data SyncError : Type 0 where
  no_error database_error transport_error version_mismatch schema_mismatch changeset_error :
      SyncError

pub data Signal : Type 0 where
  changeset_applied : QString → Signal
  sync_error_occurred : SyncError → QString → Signal
  sync_completed : ℕ → Signal

-- `sync_timer` is the interval of a running timer; `commit_hook` says whether the hook is installed;
-- `signals` are those emitted so far, the latest last; `wall_reads` counts the readings of the
-- system clock. The database and the transport stand in the manager, which shares them.
pub record SyncEngine (U S T : Type 0) : Type 0 where
  pub manager : ChangesetManager U S T
  pub open manager use {db, transport}
  pub sync_timer : Option ℤ
  pub running : Bool
  pub current_schema_version : ℤ
  pub auto_capture : Bool
  pub in_manual_write : Bool
  pub commit_hook : Bool
  pub wall_reads : ℕ
  pub signals : List Signal

module _ {U S T : Type 0} where
  abbrev pub emit : Signal → SyncEngine U S T → SyncEngine U S T
  emit signal e = record e { signals = e.signals ++ signal ∷ [] }

  abbrev pub with_db : SyncableDatabase U S → SyncEngine U S T → SyncEngine U S T
  with_db db e = record e { manager = record e.manager { db = db } }

  abbrev pub with_tables : Tables U → SyncEngine U S T → SyncEngine U S T
  with_tables t e = with_db (record e.db { tables = t }) e

  abbrev with_clock : ℕ → SyncEngine U S T → SyncEngine U S T
  with_clock hlc e = record e {
    manager = record e.manager { db = record e.db { hlc_clock = hlc } };
    wall_reads = e.wall_reads + 1;
  }

module _ {U S T : Type 0} (wall : ℕ → ℕ) where
  -- `db->clock().now()`; `wall n` is the reading number `n` of the system clock.
  unfoldable pub clock_now : SyncEngine U S T → ℕ × SyncEngine U S T
  clock_now e = let hlc = Clock.now (wall e.wall_reads) e.db.hlc_clock in (hlc, with_clock hlc e)

  -- `db->clock().receive(remote)`
  unfoldable pub clock_receive : ℕ → SyncEngine U S T → SyncEngine U S T
  clock_receive remote e = with_clock (Clock.receive (wall e.wall_reads) e.db.hlc_clock remote) e
