-- ===== src/Engine/Clocks.antt =====
-- What the steps of `sync` do with the clock, and what its end leaves alone.
use qsqlite_sync_engine.Prelude.{ℕ, ◌≡◌, ◌⊎◌, ltb_ℤ, refl, false, List, [], ◌∷◌, arith}
use qsqlite_sync_engine.Qt.{Qt}
use qsqlite_sync_engine.Filename.{ChangesetInfo}
use qsqlite_sync_engine.LogCapture.{Warning}
use qsqlite_sync_engine.Sqlite.{Sqlite}
use qsqlite_sync_engine.Clock.{receive}
use qsqlite_sync_engine.Database.{is_empty, apply_changeset}
use qsqlite_sync_engine.Transport.{Transport}
use qsqlite_sync_engine.Engine.{SyncEngine, clock_receive}
use qsqlite_sync_engine.Engine.Pull.{
  DeferredItem, apply_one_changeset, apply_data, conclude, emit_apply_error, emit_warnings,
}
use qsqlite_sync_engine.Engine.Sync.{Pass, complete, emit_apply_errors}

module _ {U S T : Type 0} (qt : Qt) (sqlite : Sqlite U S) (transport : Transport T)
    (wall : ℕ → ℕ) where
  pub clock_cases :
      (info : ChangesetInfo) (applied : ℕ) (e : SyncEngine U S T)
      → let after =
          (apply_one_changeset qt sqlite transport wall info applied e).engine.db.hlc_clock in
        (after ≡ e.db.hlc_clock) ⊎ (after ≡ receive (wall e.wall_reads) e.db.hlc_clock info.hlc)
  unfolding apply_one_changeset apply_data conclude clock_receive apply_changeset
  clock_cases info applied e = ground arith

  pub clock_received :
      (info : ChangesetInfo) (applied : ℕ) (e : SyncEngine U S T)
      → ltb_ℤ e.current_schema_version info.schema_version ≡ false
      → is_empty (transport.read_changeset info.filename e.transport).0 ≡ false
      → (apply_one_changeset qt sqlite transport wall info applied e).engine.db.hlc_clock
        ≡ receive (wall e.wall_reads) e.db.hlc_clock info.hlc
  unfolding apply_one_changeset apply_data conclude clock_receive apply_changeset
  clock_received info applied e allowed full = ground (arith, allowed, full)

  pub version_kept :
      (info : ChangesetInfo) (applied : ℕ) (e : SyncEngine U S T)
      → (apply_one_changeset qt sqlite transport wall info applied e).engine.current_schema_version
        ≡ e.current_schema_version
  unfolding apply_one_changeset apply_data conclude clock_receive apply_changeset
  version_kept info applied e = ground arith

  db-warnings :
      (info : ChangesetInfo) (ws : List Warning) (e : SyncEngine U S T)
      → (emit_warnings qt sqlite transport wall info ws e).db ≡ e.db
  unfolding emit_warnings
  db-warnings info [] e = refl
  db-warnings info (w ∷ ws) e = db-warnings info ws _

  db-errors :
      (items : List DeferredItem) (e : SyncEngine U S T)
      → (emit_apply_errors qt sqlite transport wall items e).db ≡ e.db
  unfolding emit_apply_errors emit_apply_error
  db-errors [] e = refl
  db-errors (item ∷ items) e = ground (
    arith,
    db-errors items (emit_apply_error qt sqlite transport wall item e),
    db-warnings item.info item.warnings e,
  )

  pub db-complete :
      (infos : List ChangesetInfo) (p : Pass U S T)
      → (complete qt sqlite transport wall infos p).1.db ≡ p.engine.db
  unfolding complete
  db-complete infos p = ground (arith, db-errors p.deferred p.engine)
