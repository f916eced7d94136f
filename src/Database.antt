-- ===== src/Database.antt =====
-- `SyncableDatabase` of src/syncengine/SyncableDatabase.{h,cpp}: the connection, the session and the
-- application of changesets.
pub mod Applying
pub mod Monotone
pub mod Stale
pub mod Versions
pub mod Convergence
use qsqlite_sync_engine.Prelude.{
  ℕ, ℤ, Bool, true, false, not, ◌&&◌, Option, none, some, List, [], ◌∷◌, if◌then◌else◌,
}
use qsqlite_sync_engine.Text.{QString}
use qsqlite_sync_engine.Sqlite.{Bytes, Tables, Sqlite, Apply, finish, log, conflict}
use qsqlite_sync_engine.Metadata.{init_sync_metadata}
use qsqlite_sync_engine.LogCapture.{
  Warning, ActiveGuard, enter_guard, leave_guard, log_callback, guard_warnings,
}
use qsqlite_sync_engine.Conflict.{ConflictHandler, conflict_callback}

-- `handle` says whether the pointer `db` is set. `tables` is the database file, which stays when the
-- connection is closed. `hlc_clock` is the clock's value.
pub record SyncableDatabase (U S : Type 0) : Type 0 where
  pub db_path : QString
  pub client_identifier : QString
  pub handle : Bool
  pub owns_handle : Bool
  pub session : Option S
  pub hlc_clock : ℕ
  pub tables : Tables U

abbrev pub is_empty {ℓ} : {A : Type ℓ} → List A → Bool
is_empty [] = true
is_empty (x ∷ xs) = false

abbrev pub or_empty : Option Bytes → Bytes
or_empty none = []
or_empty (some b) = b

module _ {U S : Type 0} (sqlite : Sqlite U S) where
  with_metadata : SyncableDatabase U S → Bool × SyncableDatabase U S
  with_metadata db =
      let (ok, t) = init_sync_metadata sqlite db.client_identifier db.tables in
      (ok, record db { tables = t })

  -- A borrowed handle is open already. The result of the journal pragma is not looked at.
  unfoldable pub open_database : SyncableDatabase U S → Bool × SyncableDatabase U S
  unfolding with_metadata
  open_database db =
      if db.handle && not db.owns_handle
      then with_metadata db
      else let (ok, set) = sqlite.opens db.db_path in
        if ok
        then with_metadata (record db { handle = set })
        else (false, record db { handle = set })

  unfoldable pub close_database : SyncableDatabase U S → SyncableDatabase U S
  close_database db = record db {
    session = none;
    handle = (if db.handle && db.owns_handle then false else db.handle);
  }

  -- creates a session and attaches all tables to it
  attached : Bool × S → Option S
  attached (true, s) = some s
  attached (false, s) = none

  new_session : Tables U → Option S
  unfolding attached
  new_session t = elim (sqlite.session_create t) [
    | none ↦ none
    | some s ↦ attached (sqlite.session_attach s)
  ]

  is_some : Option S → Bool
  is_some none = false
  is_some (some s) = true

  -- An active session is dropped, and what it has captured with it.
  unfoldable pub begin_session : SyncableDatabase U S → Bool × SyncableDatabase U S
  unfolding new_session is_some
  begin_session db =
      if not db.handle
      then (false, db)
      else let s = new_session db.tables in (is_some s, record db { session = s })

  session_bytes : Option S → Tables U → Bytes
  session_bytes none t = []
  session_bytes (some s) t = or_empty (sqlite.session_changeset s t)

  unfoldable pub end_session : SyncableDatabase U S → Bytes × SyncableDatabase U S
  unfolding session_bytes
  end_session db = (session_bytes db.session db.tables, record db { session = none })

-- The end of a run: whether SQLITE_OK was returned, the tables and the log capture's guard.
pub record ApplyEnd (U : Type 0) : Type 0 where
  pub ok : Bool
  pub tables : Tables U
  pub guard : ActiveGuard

-- the calls that SQLite makes while it applies a changeset
unfoldable pub run_apply :
    {U : Type 0} → Option (ConflictHandler U) → Apply U → Tables U → ActiveGuard → ApplyEnd U
unfolding log_callback
run_apply handler (finish ok write) t guard = record { ok = ok; tables = write t; guard = guard }
run_apply handler (log code message rest) t guard =
    run_apply handler rest t (log_callback code message guard)
run_apply handler (conflict type table pk rest) t guard =
    let (reply, t') = conflict_callback handler type table pk t in
    run_apply handler (rest reply) t' guard

-- the result of `applyChangeset`, with what it leaves in `outWarnings`
pub record Outcome : Type 0 where
  pub success : Bool
  pub warnings : List Warning

-- The end of `applyChangeset`. What a run that fails leaves in the database is up to SQLite.
finish_apply : {U : Type 0} → ApplyEnd U → Outcome × Tables U
unfolding guard_warnings
finish_apply r = if not r.ok then (record { success = false; warnings = [] }, r.tables) else (
  record { success = is_empty (guard_warnings r.guard); warnings = guard_warnings r.guard },
  r.tables,
)

module _ {U S : Type 0} (sqlite : Sqlite U S) where
  unfoldable pub apply_changeset :
      Bytes → Option (ConflictHandler U) → SyncableDatabase U S → Outcome × SyncableDatabase U S
  unfolding finish_apply enter_guard
  apply_changeset changeset handler db =
      if not db.handle
      then (record { success = false; warnings = [] }, db)
      else if is_empty changeset
      then (record { success = false; warnings = [] }, db)
      else let steps = sqlite.changeset_apply changeset db.tables in
        let r = run_apply handler steps db.tables (enter_guard none) in
        let (outcome, t) = finish_apply r in (outcome, record db { tables = t })
