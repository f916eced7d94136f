-- ===== src/Engine/Published.antt =====
-- What publishing local changes does, and what happens where the transport refuses the file.
use qsqlite_sync_engine.Prelude.{ℕ, ◌≡◌, ◌≢◌, refl, true, false, [], ◌∷◌, ◌++◌, arith}
use qsqlite_sync_engine.Text.{QString, codes}
use qsqlite_sync_engine.Qt.{Qt}
use qsqlite_sync_engine.Sqlite.{Bytes, Sqlite}
use qsqlite_sync_engine.Database.{is_empty, end_session}
use qsqlite_sync_engine.Transport.{Transport}
use qsqlite_sync_engine.Manager.{ChangesetManager, write_changeset}
use qsqlite_sync_engine.Engine.{
  SyncEngine, sync_error_occurred, transport_error, with_db, clock_now,
}
use qsqlite_sync_engine.Engine.Push.{publish, end_write, on_transaction_committed}

is_empty-ne_nil : (b : Bytes) → b ≢ [] → is_empty b ≡ false
is_empty-ne_nil [] h = absurd (h refl)
is_empty-ne_nil (c ∷ b) h = refl

module _ {U S T : Type 0} (qt : Qt) (sqlite : Sqlite U S) (transport : Transport T) (wall : ℕ → ℕ)
    (refuses : (name : QString) (b : Bytes) (files : T)
      → (transport.write_changeset name b files).0 ≡ false) where
  write_refused :
      (changeset : Bytes) (hlc : ℕ) (m : ChangesetManager U S T)
      → (write_changeset qt sqlite transport changeset hlc m).0 ≡ []
  unfolding write_changeset
  write_refused [] hlc m = refl
  write_refused (c ∷ cs) hlc m = rw refuses

  publish_refused :
      (changeset : Bytes) (e : SyncEngine U S T)
      → ((publish qt sqlite transport wall changeset e).0 ≡ [])
        × ((publish qt sqlite transport wall changeset e).1.signals ≡ e.signals)
  unfolding publish clock_now
  publish_refused changeset e = (write_refused changeset _ _, refl)

  -- Where the session has captured changes and the transport refuses the file, `endWrite` returns an
  -- empty name and reports a transport error, and the slot that publishes the transactions of a
  -- running engine emits no signal at all.
  pub refused_changes :
      (e : SyncEngine U S T)
      → (end_session sqlite e.db).0 ≢ []
      → e.running ≡ true
      → e.in_manual_write ≡ false
      → ((end_write qt sqlite transport wall e).0 ≡ [])
        × ((end_write qt sqlite transport wall e).1.signals
            ≡ e.signals
              ++ sync_error_occurred transport_error (codes "Failed to write changeset") ∷ [])
        × ((on_transaction_committed qt sqlite transport wall e).signals ≡ e.signals)
  unfolding end_write on_transaction_committed
  refused_changes e ne running manual =
      let (changeset, db) = end_session sqlite e.db in
      ground (
        arith,
        is_empty-ne_nil changeset ne,
        publish_refused changeset (record (with_db db e) { in_manual_write = false }),
        publish_refused changeset (with_db db e),
      )
