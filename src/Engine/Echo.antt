-- ===== src/Engine/Echo.antt =====
-- What the session of the automatic capture has recorded when a call of `sync` is over.
use qsqlite_sync_engine.Prelude.{ℕ, ◌≡◌, ◌∙◌, ap, true, false, some, arith}
use qsqlite_sync_engine.Qt.{Qt}
use qsqlite_sync_engine.Sqlite.{Bytes, Sqlite}
use qsqlite_sync_engine.Database.{is_empty, begin_session, end_session}
use qsqlite_sync_engine.Transport.{Transport}
use qsqlite_sync_engine.Manager.{write_changeset}
use qsqlite_sync_engine.Manager.Writing.{next_filename}
use qsqlite_sync_engine.Engine.{SyncEngine, clock_now}
use qsqlite_sync_engine.Engine.Sync.{sync}
use qsqlite_sync_engine.Engine.Push.{publish, on_transaction_committed}
use qsqlite_sync_engine.Engine.Delivered.{stamp}
use qsqlite_sync_engine.Engine.Frame.{Frame, frame-sync}

module _ {U S T : Type 0} (qt : Qt) (sqlite : Sqlite U S) (transport : Transport T)
    (wall : ℕ → ℕ) where
  -- the commit slot of an engine that runs, outside a manual write
  slot_writes :
      (e : SyncEngine U S T) (s : S) (b : Bytes)
      → e.running ≡ true
      → e.in_manual_write ≡ false
      → e.db.session ≡ some s
      → sqlite.session_changeset s e.db.tables ≡ some b
      → is_empty b ≡ false
      → (on_transaction_committed qt sqlite transport wall e).transport
        ≡ (transport.write_changeset (next_filename qt (stamp wall e) e.manager) b e.transport).1
  unfolding on_transaction_committed end_session begin_session publish clock_now write_changeset
  slot_writes e s b running manual session captured full =
      ground (arith, running, manual, session, captured, full)

  -- A call of `sync` leaves the session of the automatic capture running: what the session has
  -- recorded when the call is over, and with it what `sync` itself has written, is handed to the
  -- transport as a file of this client by the commit slot that follows. (The engine runs, and no manual
  -- write is going on.)
  pub sync_echoes :
      (e : SyncEngine U S T) (s : S) (b : Bytes)
      → e.running ≡ true
      → e.in_manual_write ≡ false
      → e.db.session ≡ some s
      → sqlite.session_changeset s (sync qt sqlite transport wall e).1.db.tables ≡ some b
      → is_empty b ≡ false
      → let after = (sync qt sqlite transport wall e).1 in
        (on_transaction_committed qt sqlite transport wall after).transport
        ≡ (transport.write_changeset
            (next_filename qt (stamp wall after) after.manager)
            b
            after.transport).1
  sync_echoes e s b running manual session captured full =
      let same = frame-sync qt sqlite transport wall e in
      slot_writes (sync qt sqlite transport wall e).1 s b
        (ap (λ (f : Frame S). f.life.running) same ∙ running)
        (ap (λ (f : Frame S). f.in_manual_write) same ∙ manual)
        (ap (λ (f : Frame S). f.session) same ∙ session) captured full
