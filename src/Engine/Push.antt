-- ===== src/Engine/Push.antt =====
-- `SyncEngine::beginWrite`, `endWrite`, `onTransactionCommitted`, `commitHookCallback` and
-- `snapshotIfNeeded` of src/syncengine/SyncEngine.cpp.
use qsqlite_sync_engine.Prelude.{ℕ, Bool, true, false, not, ◌||◌, List, [], ◌∷◌, if◌then◌else◌}
use qsqlite_sync_engine.Text.{QString, codes, str_eq}
use qsqlite_sync_engine.Qt.{Qt}
use qsqlite_sync_engine.Filename.{parse_filename}
use qsqlite_sync_engine.Sqlite.{Bytes, Sqlite}
use qsqlite_sync_engine.Database.{is_empty, begin_session, end_session}
use qsqlite_sync_engine.Transport.{Transport}
use qsqlite_sync_engine.Manager.{write_changeset}
use qsqlite_sync_engine.Schema.{discover_user_tables, generate_snapshot}
use qsqlite_sync_engine.Engine.{
  SyncEngine, sync_error_occurred, transport_error, emit, with_db, with_tables, clock_now,
}
use qsqlite_sync_engine.Engine.Rows.{record_row_hlcs}

module _ {U S T : Type 0} (qt : Qt) (sqlite : Sqlite U S) (transport : Transport T)
    (wall : ℕ → ℕ) where
  -- Stamps a changeset, records the timestamp for its rows and writes it.
  unfoldable pub publish : Bytes → SyncEngine U S T → QString × SyncEngine U S T
  publish changeset e =
      let (hlc, e1) = clock_now wall e in
      let e2 =
        with_tables (record_row_hlcs sqlite e1.db.client_identifier hlc changeset e1.db.tables)
          e1 in
      let (filename, m) = write_changeset qt sqlite transport changeset hlc e2.manager in
      (filename, record e2 { manager = m })

  -- `publish`, and the error signal if nothing was written
  publish_or_report : QString → Bytes → SyncEngine U S T → QString × SyncEngine U S T
  publish_or_report message changeset e =
      let (filename, e') = publish changeset e in
      (
        filename,
        (if is_empty filename then emit (sync_error_occurred transport_error message) e' else e'),
      )

  restart_session : SyncEngine U S T → SyncEngine U S T
  restart_session e = if e.auto_capture then with_db (begin_session sqlite e.db).1 e else e

  unfoldable pub begin_write : SyncEngine U S T → Bool × SyncEngine U S T
  begin_write e =
      let (ok, db) = begin_session sqlite e.db in
      (ok, record (with_db db e) { in_manual_write = true })

  unfoldable pub end_write : SyncEngine U S T → QString × SyncEngine U S T
  unfolding publish_or_report restart_session
  end_write e =
      let (changeset, db) = end_session sqlite e.db in
      let e1 = record (with_db db e) { in_manual_write = false } in
      if is_empty changeset
      then ([], restart_session e1)
      else let (filename, e2) =
          publish_or_report (codes "Failed to write changeset") changeset e1 in
        (filename, restart_session e2)

  -- The commit hook only queues this slot. The file name, and with it a failure, is not looked at.
  unfoldable pub on_transaction_committed : SyncEngine U S T → SyncEngine U S T
  on_transaction_committed e =
      if not e.running || e.in_manual_write
      then e
      else let (changeset, db) = end_session sqlite e.db in
        let e1 = with_db db e in
        let e2 = if is_empty changeset then e1 else (publish changeset e1).1 in
        with_db (begin_session sqlite e2.db).1 e2

  -- the loop over the listed files
  unfoldable pub has_own_file : QString → List QString → Bool
  has_own_file my_id [] = false
  has_own_file my_id (file ∷ files) =
      str_eq (parse_filename qt file).client_id my_id || has_own_file my_id files

  unfoldable pub snapshot_if_needed : SyncEngine U S T → SyncEngine U S T
  unfolding has_own_file publish_or_report
  snapshot_if_needed e =
      let (all_files, stored) = transport.list_changesets e.transport in
      let e1 : SyncEngine U S T = record e { manager = record e.manager { transport = stored } } in
      if has_own_file e1.db.client_identifier all_files
      then e1
      else let tables = discover_user_tables sqlite e1.db in
        if is_empty tables
        then e1
        else let changeset = generate_snapshot sqlite tables e1.db in
          if is_empty changeset
          then e1
          else (publish_or_report (codes "Failed to write initial snapshot") changeset e1).1
