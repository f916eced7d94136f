-- ===== src/Engine/Lifecycle.antt =====
-- The constructors, `start`, `stop`, `installCommitHook` and `setSchemaVersion` of
-- src/syncengine/SyncEngine.cpp.
use qsqlite_sync_engine.Prelude.{
  ℕ, ℤ, pos, ltb_ℤ, Bool, true, false, not, ◌&&◌, none, some, [], if◌then◌else◌,
}
use qsqlite_sync_engine.Text.{QString, codes}
use qsqlite_sync_engine.Qt.{Qt}
use qsqlite_sync_engine.Clock
use qsqlite_sync_engine.Sqlite.{Tables, Sqlite}
use qsqlite_sync_engine.Database.{SyncableDatabase, open_database, close_database, begin_session}
use qsqlite_sync_engine.Transport.{Transport}
use qsqlite_sync_engine.Engine.{SyncEngine, sync_error_occurred, database_error, emit, with_db}
use qsqlite_sync_engine.Engine.Push.{snapshot_if_needed}
use qsqlite_sync_engine.Engine.Sync.{sync}

-- the two constructors of `SyncableDatabase`; `wall` is the reading of the system clock, and `opened`
-- says whether the handle that is borrowed is not null
unfoldable pub owned_database :
    {U S : Type 0} → QString → QString → ℕ → Tables U → SyncableDatabase U S
owned_database path client_id wall t = record {
  db_path = path;
  client_identifier = client_id;
  handle = false;
  owns_handle = true;
  session = none;
  hlc_clock = Clock.init wall;
  tables = t;
}

unfoldable pub borrowed_database :
    {U S : Type 0} → Bool → QString → ℕ → Tables U → SyncableDatabase U S
borrowed_database opened client_id wall t = record {
  db_path = [];
  client_identifier = client_id;
  handle = opened;
  owns_handle = false;
  session = none;
  hlc_clock = Clock.init wall;
  tables = t;
}

-- an engine that is not started; `wall_reads` is 1, since the clock was read once
unfoldable pub make_engine : {U S T : Type 0} → SyncableDatabase U S → T → Bool → SyncEngine U S T
make_engine db stored auto_capture = record {
  manager = record { db = db; transport = stored; sequence = 0; schema_ver = pos 0 };
  sync_timer = none;
  running = false;
  current_schema_version = pos 0;
  auto_capture = auto_capture;
  in_manual_write = false;
  commit_hook = false;
  wall_reads = 1;
  signals = [];
}

-- The constructor over a `QSqlDatabase`: the handle of a QSQLITE_SYNC connection is borrowed and its
-- writes are captured; any other driver gets a second connection and no capture. `opened` says whether
-- the `QSqlDatabase` is open: the driver of a closed one has a null handle.
unfoldable pub engine_of_connection :
    {U S T : Type 0} → Bool → Bool → QString → QString → ℕ → Tables U → T → SyncEngine U S T
unfolding make_engine owned_database borrowed_database
engine_of_connection is_sync_driver opened path client_id wall t stored =
    if is_sync_driver
    then make_engine (borrowed_database opened client_id wall t) stored true
    else make_engine (owned_database path client_id wall t) stored false

-- the constructors over a path
unfoldable pub engine_of_path :
    {U S T : Type 0} → QString → QString → ℕ → Tables U → T → SyncEngine U S T
unfolding make_engine owned_database
engine_of_path path client_id wall t stored =
    make_engine (owned_database path client_id wall t) stored false

unfoldable pub set_schema_version : {U S T : Type 0} → ℤ → SyncEngine U S T → SyncEngine U S T
set_schema_version version e = record e {
  current_schema_version = version;
  manager = record e.manager { schema_ver = version };
}

module _ {U S T : Type 0} (qt : Qt) (sqlite : Sqlite U S) (transport : Transport T)
    (wall : ℕ → ℕ) where
  unfoldable pub install_commit_hook : SyncEngine U S T → SyncEngine U S T
  install_commit_hook e =
      if not e.db.handle
      then e
      else record (with_db (begin_session sqlite e.db).1 e) { commit_hook = true }

  -- the interval 0 and less starts no timer
  unfoldable pub start : ℤ → SyncEngine U S T → Bool × SyncEngine U S T
  unfolding install_commit_hook
  start sync_interval_ms e =
      if e.running
      then (true, e)
      else let (ok, db) = open_database sqlite e.db in
        let e1 = with_db db e in
        if not ok
        then (false, emit (sync_error_occurred database_error (codes "Failed to open database")) e1)
        else let e2 : SyncEngine U S T = record e1 { running = true } in
          let e3 = if e2.auto_capture then install_commit_hook e2 else e2 in
          let e4 =
            (sync qt sqlite transport wall (snapshot_if_needed qt sqlite transport wall e3)).1 in
          (
            true,
            (if ltb_ℤ (pos 0) sync_interval_ms
                then record e4 { sync_timer = some sync_interval_ms }
                else e4),
          )

  unfoldable pub stop : SyncEngine U S T → SyncEngine U S T
  stop e =
      let e1 : SyncEngine U S T = record e {
        sync_timer = none;
        commit_hook = (if e.auto_capture && e.db.handle then false else e.commit_hook);
        running = false;
      } in
      with_db (close_database sqlite e1.db) e1
