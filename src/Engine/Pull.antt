-- ===== src/Engine/Pull.antt =====
-- `SyncEngine::applyOneChangeset` and `SyncEngine::emitApplyError` of
-- src/syncengine/SyncEngine.cpp. The slots that are connected to the signals are not modelled.
use qsqlite_sync_engine.Prelude.{
  ℕ, ◌+◌, ltb_ℤ, Bool, true, false, not, some, List, [], ◌∷◌, if◌then◌else◌,
}
use qsqlite_sync_engine.Text.{QString, codes}
use qsqlite_sync_engine.Qt.{Qt}
use qsqlite_sync_engine.Filename.{ChangesetInfo}
use qsqlite_sync_engine.Sqlite.{Bytes, Sqlite}
use qsqlite_sync_engine.Metadata.{mark_changeset_applied}
use qsqlite_sync_engine.LogCapture.{Warning}
use qsqlite_sync_engine.Conflict.{handler}
use qsqlite_sync_engine.Database.{Outcome, is_empty, apply_changeset}
use qsqlite_sync_engine.Transport.{Transport}
use qsqlite_sync_engine.Engine.{
  SyncEngine, changeset_applied, sync_error_occurred, version_mismatch, schema_mismatch,
  changeset_error, emit, with_db, with_tables, clock_receive,
}

-- The result of `applyOneChangeset`: false asks for a retry. `applied` and `warnings` are the two
-- parameters that it writes through.
pub record Step (U S T : Type 0) : Type 0 where
  pub handled : Bool
  pub applied : ℕ
  pub warnings : List Warning
  pub engine : SyncEngine U S T

pub record DeferredItem : Type 0 where
  pub info : ChangesetInfo
  pub warnings : List Warning

module _ {U S T : Type 0} (qt : Qt) (sqlite : Sqlite U S) (transport : Transport T)
    (wall : ℕ → ℕ) where
  version_message : ChangesetInfo → SyncEngine U S T → QString
  version_message info e =
      let text =
        codes
          "Changeset %1 requires schema version %2 but this client is on version %3. Please upgrade to the latest version of the application." in
      qt.arg (qt.arg (qt.arg text info.filename) (qt.int_text info.schema_version))
        (qt.int_text e.current_schema_version)

  failed_message : ChangesetInfo → QString
  failed_message info = qt.arg (codes "Failed to apply changeset: %1") info.filename

  -- what is done with the outcome of `applyChangeset`
  unfoldable pub conclude : ChangesetInfo → ℕ → Outcome → SyncEngine U S T → Step U S T
  unfolding failed_message
  conclude info applied outcome e =
      if outcome.success
      then (let marked =
            (mark_changeset_applied sqlite e.db.client_identifier info.filename info.hlc
              e.db.tables).1 in
          record {
            handled = true;
            applied = applied + 1;
            warnings = [];
            engine = emit (changeset_applied info.filename) (with_tables marked e);
          })
      else if not (is_empty outcome.warnings)
      then record { handled = false; applied = applied; warnings = outcome.warnings; engine = e }
      else record {
        handled = true;
        applied = applied;
        warnings = [];
        engine = emit (sync_error_occurred changeset_error (failed_message info)) e;
      }

  -- from `db->clock().receive(…)` on
  unfoldable pub apply_data : ChangesetInfo → ℕ → Bytes → SyncEngine U S T → Step U S T
  unfolding conclude
  apply_data info applied changeset e =
      let e' = clock_receive wall info.hlc e in
      let resolver = handler sqlite e'.db.client_identifier info.hlc info.client_id in
      let (outcome, db) = apply_changeset sqlite changeset (some resolver) e'.db in
      conclude info applied outcome (with_db db e')

  unfoldable pub apply_one_changeset : ChangesetInfo → ℕ → SyncEngine U S T → Step U S T
  unfolding apply_data version_message
  apply_one_changeset info applied e =
      if ltb_ℤ e.current_schema_version info.schema_version
      then record {
        handled = true;
        applied = applied;
        warnings = [];
        engine = emit (sync_error_occurred version_mismatch (version_message info e)) e;
      }
      else let (changeset, stored) = transport.read_changeset info.filename e.transport in
        let e' : SyncEngine U S T = record e {
          manager = record e.manager { transport = stored };
        } in
        if is_empty changeset
        then record { handled = true; applied = applied; warnings = []; engine = e' }
        else apply_data info applied changeset e'

  unfoldable pub emit_warnings : ChangesetInfo → List Warning → SyncEngine U S T → SyncEngine U S T
  emit_warnings info [] e = e
  emit_warnings info (w ∷ ws) e =
      let message = qt.arg2 (codes "Schema mismatch applying %1: %2") info.filename w.message in
      emit_warnings info ws (emit (sync_error_occurred schema_mismatch message) e)

  unfoldable pub emit_apply_error : DeferredItem → SyncEngine U S T → SyncEngine U S T
  unfolding emit_warnings failed_message
  emit_apply_error item e =
      if is_empty item.warnings
      then emit (sync_error_occurred changeset_error (failed_message item.info)) e
      else emit_warnings item.info item.warnings e
