-- ===== src/Demo/Alive.antt =====
-- The event loop of the demo never loses the engine's capture of writes.
use qsqlite_sync_engine.Prelude.{
  ℕ, zero, suc, pos, ◌≡◌, refl, ap, ◌∙◌, true, false, some, List, [], ◌∷◌, arith, Bool-cases, inl,
  inr,
}
use qsqlite_sync_engine.Text.{QString}
use qsqlite_sync_engine.Qt.{Qt}
use qsqlite_sync_engine.Sqlite.{Tables, Sqlite}
use qsqlite_sync_engine.Database.{is_empty, end_session, begin_session, open_database}
use qsqlite_sync_engine.Transport.{Transport}
use qsqlite_sync_engine.Engine.{SyncEngine, with_db}
use qsqlite_sync_engine.Engine.Sync.{sync}
use qsqlite_sync_engine.Engine.Push.{on_transaction_committed, snapshot_if_needed}
use qsqlite_sync_engine.Engine.Lifecycle.{engine_of_connection, install_commit_hook, start}
use qsqlite_sync_engine.Engine.Frame.{
  Life, Frame, life, life-sync, life-on_transaction_committed, frame-sync, frame-publish,
  frame-snapshot_if_needed,
}
use qsqlite_sync_engine.Demo.Options.{Options, default_options, parse_options, local_path}
use qsqlite_sync_engine.Demo.Commands.{
  Command, quit, help, select_rows, sync_now, status, unknown, insert_row, update_row, delete_row,
  read_command,
}
use qsqlite_sync_engine.Demo.Console.{
  Console, QtSql, run_command, read_line, read_input, take_call, take_queued, sync_timeout,
}
use qsqlite_sync_engine.Demo.Startup.{
  Machine, Started, exited, prompting, create_items, start_engine, main,
}
use qsqlite_sync_engine.Demo.Loop.{
  LoopEvent, typed, called, timed_out, folder_changed, Reached, entered, after, folder_of,
}

-- The engine runs with its timer, its connection is open and borrowed, its writes are captured, the commit hook is installed, and the slot
-- for committed transactions is not held off by a write of the application's.
pub record IsAlive {U S T : Type 0} (e : SyncEngine U S T) : Type 0 where
  pub running : e.running ≡ true
  pub timed : e.sync_timer ≡ some (pos 2000)
  pub hooked : e.commit_hook ≡ true
  pub opened : e.db.handle ≡ true
  pub automatic : e.in_manual_write ≡ false
  pub captures : e.auto_capture ≡ true
  pub borrowed : e.db.owns_handle ≡ false

module _ {U S T : Type 0} where
  IsAlive-same :
      {e e' : SyncEngine U S T}
      → life e' ≡ life e
      → e'.in_manual_write ≡ e.in_manual_write
      → IsAlive e
      → IsAlive e'
  IsAlive-same same manual h = record {
    running = ap (λ (l : Life). l.running) same ∙ h.running;
    timed = ap (λ (l : Life). l.sync_timer) same ∙ h.timed;
    hooked = ap (λ (l : Life). l.commit_hook) same ∙ h.hooked;
    opened = ap (λ (l : Life). l.opened) same ∙ h.opened;
    automatic = manual ∙ h.automatic;
    captures = ap (λ (l : Life). l.auto_capture) same ∙ h.captures;
    borrowed = ap (λ (l : Life). l.owned) same ∙ h.borrowed;
  }

module _ {U S T : Type 0} (qt : Qt) (sqlite : Sqlite U S) (transport : Transport T)
    (wall : ℕ → ℕ) where
  IsAlive-sync : (e : SyncEngine U S T) → IsAlive e → IsAlive (sync qt sqlite transport wall e).1
  IsAlive-sync e h =
      IsAlive-same (life-sync qt sqlite transport wall e)
        (ap (λ (f : Frame S). f.in_manual_write) (frame-sync qt sqlite transport wall e)) h

  manual-on_transaction_committed :
      (e : SyncEngine U S T)
      → (on_transaction_committed qt sqlite transport wall e).in_manual_write ≡ e.in_manual_write
  unfolding on_transaction_committed end_session begin_session
  manual-on_transaction_committed e =
      let (changeset, db) = end_session sqlite e.db in
      ground (arith, frame-publish qt sqlite transport wall changeset (with_db db e))

  IsAlive-on_transaction_committed :
      (e : SyncEngine U S T)
      → IsAlive e
      → IsAlive (on_transaction_committed qt sqlite transport wall e)
  IsAlive-on_transaction_committed e h =
      IsAlive-same (life-on_transaction_committed qt sqlite transport wall e)
        (manual-on_transaction_committed e) h

  module _ (sql : QtSql U) where
    IsAlive-run_command :
        (own : ℕ) (command : Command) (c : Console U S T)
        → IsAlive c.engine
        → IsAlive (run_command qt sqlite transport wall sql own command c).engine
    unfolding run_command
    IsAlive-run_command own quit c h = h
    IsAlive-run_command own help c h = h
    IsAlive-run_command own (insert_row name value) c h = IsAlive-same refl refl h
    IsAlive-run_command own (update_row id value) c h = IsAlive-same refl refl h
    IsAlive-run_command own (delete_row id) c h = IsAlive-same refl refl h
    IsAlive-run_command own select_rows c h = IsAlive-same refl refl h
    IsAlive-run_command own sync_now c h = IsAlive-sync c.engine h
    IsAlive-run_command own status c h = IsAlive-same refl refl h
    IsAlive-run_command own unknown c h = h

    IsAlive-read_line :
        (own : ℕ) (lines : List QString) (c : Console U S T)
        → IsAlive c.engine
        → IsAlive (read_line qt sqlite transport wall sql own lines c).engine
    unfolding read_line
    IsAlive-read_line own [] c h = h
    IsAlive-read_line own (line ∷ rest) c h =
        let trimmed = sql.tables.trimmed line in
        let c' : Console U S T = record c { input = rest } in
        elim (Bool-cases (is_empty trimmed)) [
          | inl blank ↦ rw blank h
          | inr words ↦ rw words (IsAlive-run_command own (read_command sql.tables trimmed) c' h)
        ]

    IsAlive-take_call :
        (own n : ℕ) (c : Console U S T)
        → IsAlive c.engine
        → IsAlive (take_call qt sqlite transport wall sql own n c).engine
    unfolding take_call
    IsAlive-take_call own zero c h = h
    IsAlive-take_call own (suc n) c h = IsAlive-on_transaction_committed c.engine h

  -- the frame of an engine over a captured connection, once it is started
  frame-start :
      (path client_id : QString) (now : ℕ) (t : Tables U) (stored : T)
      → let e : SyncEngine U S T = engine_of_connection true true path client_id now t stored in
        let r = start qt sqlite transport wall (pos 2000) e in
        r.0 ≡ true
        → (life r.1
            ≡ record (life e) { running = true; sync_timer = some (pos 2000); commit_hook = true })
          × (r.1.in_manual_write ≡ false)
  unfolding start engine_of_connection open_database install_commit_hook begin_session
  frame-start path client_id now t stored ok =
      let e : SyncEngine U S T = engine_of_connection true true path client_id now t stored in
      let e2 : SyncEngine U S T = record (with_db (open_database sqlite e.db).1 e) {
        running = true;
      } in
      let e3 = install_commit_hook qt sqlite transport wall e2 in
      let kept =
        frame-sync qt sqlite transport wall (snapshot_if_needed qt sqlite transport wall e3)
        ∙ frame-snapshot_if_needed qt sqlite transport wall e3 in
      ground (arith, ok, kept)

  IsAlive-start :
      (path client_id : QString) (now : ℕ) (t : Tables U) (stored : T)
      → let e : SyncEngine U S T = engine_of_connection true true path client_id now t stored in
        (start qt sqlite transport wall (pos 2000) e).0 ≡ true
        → IsAlive (start qt sqlite transport wall (pos 2000) e).1
  IsAlive-start path client_id now t stored ok =
      let (same, manual) = frame-start path client_id now t stored ok in
      record {
        running = ap (λ (l : Life). l.running) same;
        timed = ap (λ (l : Life). l.sync_timer) same;
        hooked = ap (λ (l : Life). l.commit_hook) same;
        opened = ap (λ (l : Life). l.opened) same ∙ unfold engine_of_connection in refl;
        automatic = manual;
        captures = ap (λ (l : Life). l.auto_capture) same ∙ unfold engine_of_connection in refl;
        borrowed = ap (λ (l : Life). l.owned) same ∙ unfold engine_of_connection in refl;
      }

module _ {U S T : Type 0} (qt : Qt) (sqlite : Sqlite U S) (transport : QString → Transport T)
    (wall : ℕ → ℕ) (sql : QtSql U) (machine : Machine U) where
  Live : Started U S T → Type 0
  Live (exited code out err) = Unit
  Live (prompting c) = IsAlive c.engine

  Live-start_engine :
      (own : ℕ) (o : Options) (input : List QString) (stored : T)
      → Live (start_engine qt sqlite transport wall sql machine own o input stored)
  unfolding start_engine Live
  Live-start_engine own o input stored =
      let t = (sql.exec create_items [] (machine.contents o.db_path)).1 in
      let e : SyncEngine U S T =
        engine_of_connection true true o.db_path o.client_id (wall 0) t stored in
      elim (Bool-cases (start qt sqlite (transport o.shared_folder) wall (pos 2000) e).0) [
        | inl ok ↦ rw ok (
            IsAlive-same refl refl (
              IsAlive-start qt sqlite (transport o.shared_folder) wall o.db_path o.client_id
                (wall 0) t stored ok))
        | inr failed ↦ rw failed tt
      ]

  Live-main :
      (own : ℕ) (args input : List QString) (stored : T)
      → Live (main qt sqlite transport wall sql machine own args input stored)
  unfolding main Live
  Live-main own args input stored =
      let o = parse_options args default_options in
      let o' : Options = record o { db_path = local_path qt machine.data_dir o } in
      elim (Bool-cases (is_empty o.shared_folder)) [
        | inl missing ↦ rw missing tt
        | inr given ↦ elim (Bool-cases (machine.opens o'.db_path)) [
          | inl opens ↦ rw (given, opens) (Live-start_engine own o' input stored)
          | inr refused ↦ rw (given, refused) tt
        ]
      ]

  IsAlive-event :
      (args : List QString) {c c' : Console U S T}
      → LoopEvent qt sqlite transport wall sql machine args c c'
      → IsAlive c.engine
      → IsAlive c'.engine
  unfolding read_input take_queued sync_timeout
  IsAlive-event args (typed own c on) h =
      IsAlive-read_line qt sqlite (folder_of transport args) wall sql own c.input c h
  IsAlive-event args (called own c on) h =
      IsAlive-take_call qt sqlite (folder_of transport args) wall sql own c.queued c h
  IsAlive-event args (timed_out own c on) h =
      IsAlive-same refl refl (IsAlive-sync qt sqlite (folder_of transport args) wall c.engine h)
  IsAlive-event args (folder_changed stored c) h = IsAlive-same refl refl h

  -- Once the demo has entered its event loop, its engine runs with its timer and captures writes, the
  -- connection is borrowed and open, the commit hook is installed and the slot for committed
  -- transactions is not held off, whatever is typed, whatever the statements answer, and in whatever
  -- order the events come.
  pub Reached-IsAlive :
      (args : List QString) (c : Console U S T)
      → Reached qt sqlite transport wall sql machine args c
      → IsAlive c.engine
  unfolding Live
  Reached-IsAlive args _ (entered own input stored c e) =
      let live = Live-main own args input stored in rw e at live
  Reached-IsAlive args _ (after c c' before event) =
      IsAlive-event args event (Reached-IsAlive args c before)
