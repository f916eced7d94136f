-- ===== src/Engine/Sync.antt =====
-- `SyncEngine::sync` of src/syncengine/SyncEngine.cpp.
use qsqlite_sync_engine.Prelude.{ℕ, not, ◌&&◌, ◌||◌, List, [], ◌∷◌, ◌++◌, map, ltb, if◌then◌else◌}
use qsqlite_sync_engine.Qt.{Qt}
use qsqlite_sync_engine.Filename.{ChangesetInfo}
use qsqlite_sync_engine.Sqlite.{Sqlite}
use qsqlite_sync_engine.Database.{is_empty}
use qsqlite_sync_engine.Transport.{Transport}
use qsqlite_sync_engine.Manager.{pending_changesets}
use qsqlite_sync_engine.Engine.{SyncEngine, sync_completed, emit}
use qsqlite_sync_engine.Engine.Pull.{Step, DeferredItem, apply_one_changeset, emit_apply_error}

-- the variables of a pass: the counter, the changesets to try again, and the engine
pub record Pass (U S T : Type 0) : Type 0 where
  pub applied : ℕ
  pub deferred : List DeferredItem
  pub engine : SyncEngine U S T

-- `if (!applyOneChangeset(…)) deferred.append(…)`
unfoldable pub defer_step :
    {U S T : Type 0} → ChangesetInfo → Step U S T → List DeferredItem → Pass U S T
defer_step info s deferred = record {
  applied = s.applied;
  deferred =
      (if s.handled
        then deferred
        else deferred ++ (record { info = info; warnings = s.warnings }) ∷ []);
  engine = s.engine;
}

module _ {U S T : Type 0} (qt : Qt) (sqlite : Sqlite U S) (transport : Transport T)
    (wall : ℕ → ℕ) where
  -- one loop over changesets
  unfoldable pub apply_pass : List ChangesetInfo → Pass U S T → Pass U S T
  unfolding defer_step
  apply_pass [] p = p
  apply_pass (info ∷ infos) p = apply_pass infos (
      defer_step info (apply_one_changeset qt sqlite transport wall info p.applied p.engine)
        p.deferred)

  -- The retry pass, over the changesets that the first pass deferred, if one was applied.
  unfoldable pub retry_pass : Pass U S T → Pass U S T
  retry_pass p =
      if not (is_empty p.deferred) && ltb 0 p.applied
      then apply_pass (map (λ (item : DeferredItem). item.info) p.deferred)
          (record p { deferred = [] })
      else p

  unfoldable pub emit_apply_errors : List DeferredItem → SyncEngine U S T → SyncEngine U S T
  emit_apply_errors [] e = e
  emit_apply_errors (item ∷ items) e =
      emit_apply_errors items (emit_apply_error qt sqlite transport wall item e)

  -- the end of `sync`: the errors, and the signal that it is complete
  unfoldable pub complete : List ChangesetInfo → Pass U S T → ℕ × SyncEngine U S T
  complete pending p =
      let e = emit_apply_errors p.deferred p.engine in
      (
        p.applied,
        (if ltb 0 p.applied || not (is_empty pending)
            then emit (sync_completed p.applied) e
            else e),
      )

  unfoldable pub sync : SyncEngine U S T → ℕ × SyncEngine U S T
  unfolding complete retry_pass apply_pass emit_apply_errors
  sync e =
      let (pending, m) = pending_changesets qt sqlite transport e.manager in
      let start : Pass U S T = record {
        applied = 0;
        deferred = [];
        engine = record e { manager = m };
      } in
      complete pending (retry_pass (apply_pass pending start))
