-- ===== src/Engine/Frame.antt =====
-- What `sync`, `snapshotIfNeeded` and the capture of writes leave alone: the state of the engine's life.
use qsqlite_sync_engine.Prelude.{
  ℕ, ℤ, ◌≡◌, refl, ap, ◌∙◌, Bool, false, some, Option, List, [], ◌∷◌, arith, map,
}
use qsqlite_sync_engine.Qt.{Qt}
use qsqlite_sync_engine.Filename.{ChangesetInfo}
use qsqlite_sync_engine.LogCapture.{Warning}
use qsqlite_sync_engine.Sqlite.{Bytes, Sqlite}
use qsqlite_sync_engine.Conflict.{handler}
use qsqlite_sync_engine.Database.{Outcome, apply_changeset, begin_session, end_session}
use qsqlite_sync_engine.Schema.{discover_user_tables, generate_snapshot}
use qsqlite_sync_engine.Transport.{Transport}
use qsqlite_sync_engine.Manager.{pending_changesets, write_changeset}
use qsqlite_sync_engine.Engine.{SyncEngine, with_db, clock_now, clock_receive}
use qsqlite_sync_engine.Engine.Pull.{
  DeferredItem, apply_one_changeset, apply_data, conclude, emit_apply_error, emit_warnings,
}
use qsqlite_sync_engine.Engine.Sync.{
  Pass, defer_step, apply_pass, retry_pass, emit_apply_errors, complete, sync,
}
use qsqlite_sync_engine.Engine.Push.{
  publish, snapshot_if_needed, begin_write, end_write, on_transaction_committed,
}

-- the state of an engine's life; `opened` and `owned` are those of the connection
pub record Life : Type 0 where
  pub running : Bool
  pub sync_timer : Option ℤ
  pub auto_capture : Bool
  pub commit_hook : Bool
  pub opened : Bool
  pub owned : Bool

-- with the session and the state of a manual write
pub record Frame (S : Type 0) : Type 0 where
  pub life : Life
  pub session : Option S
  pub in_manual_write : Bool

module _ {U S T : Type 0} where
  abbrev pub life : SyncEngine U S T → Life
  life e = record {
    running = e.running;
    sync_timer = e.sync_timer;
    auto_capture = e.auto_capture;
    commit_hook = e.commit_hook;
    opened = e.db.handle;
    owned = e.db.owns_handle;
  }

  abbrev pub frame : SyncEngine U S T → Frame S
  frame e = record { life = life e; session = e.db.session; in_manual_write = e.in_manual_write }

module _ {U S T : Type 0} (qt : Qt) (sqlite : Sqlite U S) (transport : Transport T)
    (wall : ℕ → ℕ) where
  frame-conclude :
      (info : ChangesetInfo) (applied : ℕ) (outcome : Outcome) (e : SyncEngine U S T)
      → frame (conclude qt sqlite transport wall info applied outcome e).engine ≡ frame e
  unfolding conclude
  frame-conclude info applied outcome e = ground arith

  frame-apply_data :
      (info : ChangesetInfo) (applied : ℕ) (changeset : Bytes) (e : SyncEngine U S T)
      → frame (apply_data qt sqlite transport wall info applied changeset e).engine ≡ frame e
  unfolding apply_data clock_receive apply_changeset
  frame-apply_data info applied changeset e =
      let e' = clock_receive wall info.hlc e in
      let resolver = handler sqlite e'.db.client_identifier info.hlc info.client_id in
      let (outcome, db) = apply_changeset sqlite changeset (some resolver) e'.db in
      frame-conclude info applied outcome (with_db db e') ∙ ground arith

  frame-apply_one_changeset :
      (info : ChangesetInfo) (applied : ℕ) (e : SyncEngine U S T)
      → frame (apply_one_changeset qt sqlite transport wall info applied e).engine ≡ frame e
  unfolding apply_one_changeset
  frame-apply_one_changeset info applied e = ground (
    arith,
    frame-apply_data info applied (transport.read_changeset info.filename e.transport).0 (record e {
      manager = record e.manager {
        transport = (transport.read_changeset info.filename e.transport).1;
      };
    }),
  )

  frame-apply_pass :
      (infos : List ChangesetInfo) (p : Pass U S T)
      → frame (apply_pass qt sqlite transport wall infos p).engine ≡ frame p.engine
  unfolding apply_pass defer_step
  frame-apply_pass [] p = refl
  frame-apply_pass (info ∷ infos) p =
      frame-apply_pass infos _ ∙ frame-apply_one_changeset info p.applied p.engine

  frame-retry_pass :
      (p : Pass U S T) → frame (retry_pass qt sqlite transport wall p).engine ≡ frame p.engine
  unfolding retry_pass
  frame-retry_pass p = ground (
    arith,
    frame-apply_pass (map (λ (item : DeferredItem). item.info) p.deferred)
        (record p { deferred = [] }),
  )

  frame-emit_warnings :
      (info : ChangesetInfo) (ws : List Warning) (e : SyncEngine U S T)
      → frame (emit_warnings qt sqlite transport wall info ws e) ≡ frame e
  unfolding emit_warnings
  frame-emit_warnings info [] e = refl
  frame-emit_warnings info (w ∷ ws) e = frame-emit_warnings info ws _

  frame-emit_apply_errors :
      (items : List DeferredItem) (e : SyncEngine U S T)
      → frame (emit_apply_errors qt sqlite transport wall items e) ≡ frame e
  unfolding emit_apply_errors emit_apply_error
  frame-emit_apply_errors [] e = refl
  frame-emit_apply_errors (item ∷ items) e = ground (
    arith,
    frame-emit_apply_errors items (emit_apply_error qt sqlite transport wall item e),
    frame-emit_warnings item.info item.warnings e,
  )

  frame-complete :
      (infos : List ChangesetInfo) (p : Pass U S T)
      → frame (complete qt sqlite transport wall infos p).1 ≡ frame p.engine
  unfolding complete
  frame-complete infos p = ground (arith, frame-emit_apply_errors p.deferred p.engine)

  pub frame-sync : (e : SyncEngine U S T) → frame (sync qt sqlite transport wall e).1 ≡ frame e
  unfolding sync pending_changesets
  frame-sync e =
      let (pending, m) = pending_changesets qt sqlite transport e.manager in
      let p0 : Pass U S T = record {
        applied = 0;
        deferred = [];
        engine = record e { manager = m };
      } in
      let p1 = apply_pass qt sqlite transport wall pending p0 in
      let p2 = retry_pass qt sqlite transport wall p1 in
      frame-complete pending p2 ∙ frame-retry_pass p1 ∙ frame-apply_pass pending p0

  pub frame-publish :
      (changeset : Bytes) (e : SyncEngine U S T)
      → frame (publish qt sqlite transport wall changeset e).1 ≡ frame e
  unfolding publish clock_now write_changeset
  frame-publish changeset e = ground arith

  pub frame-snapshot_if_needed :
      (e : SyncEngine U S T) → frame (snapshot_if_needed qt sqlite transport wall e) ≡ frame e
  unfolding snapshot_if_needed
  frame-snapshot_if_needed e =
      let (all_files, stored) = transport.list_changesets e.transport in
      let e1 : SyncEngine U S T = record e { manager = record e.manager { transport = stored } } in
      let changeset = generate_snapshot sqlite (discover_user_tables sqlite e1.db) e1.db in
      ground (arith, frame-publish changeset e1)

  -- `sync` leaves the state of the engine's life as it is.
  pub life-sync : (e : SyncEngine U S T) → life (sync qt sqlite transport wall e).1 ≡ life e
  life-sync e = ap (λ (f : Frame S). f.life) (frame-sync e)

  pub life-apply_pass :
      (infos : List ChangesetInfo) (p : Pass U S T)
      → life (apply_pass qt sqlite transport wall infos p).engine ≡ life p.engine
  life-apply_pass infos p = ap (λ (f : Frame S). f.life) (frame-apply_pass infos p)

  pub life-apply_one_changeset :
      (info : ChangesetInfo) (applied : ℕ) (e : SyncEngine U S T)
      → life (apply_one_changeset qt sqlite transport wall info applied e).engine ≡ life e
  life-apply_one_changeset info applied e =
      ap (λ (f : Frame S). f.life) (frame-apply_one_changeset info applied e)

  pub life-snapshot_if_needed :
      (e : SyncEngine U S T) → life (snapshot_if_needed qt sqlite transport wall e) ≡ life e
  life-snapshot_if_needed e = ap (λ (f : Frame S). f.life) (frame-snapshot_if_needed e)

  life-publish :
      (changeset : Bytes) (e : SyncEngine U S T)
      → life (publish qt sqlite transport wall changeset e).1 ≡ life e
  life-publish changeset e = ap (λ (f : Frame S). f.life) (frame-publish changeset e)

  pub life-begin_write :
      (e : SyncEngine U S T) → life (begin_write qt sqlite transport wall e).1 ≡ life e
  unfolding begin_write begin_session
  life-begin_write e = ground arith

  pub life-end_write :
      (e : SyncEngine U S T) → life (end_write qt sqlite transport wall e).1 ≡ life e
  unfolding end_write end_session begin_session
  life-end_write e =
      let (changeset, db) = end_session sqlite e.db in
      let e1 : SyncEngine U S T = record (with_db db e) { in_manual_write = false } in
      ground (arith, life-publish changeset e1)

  pub life-on_transaction_committed :
      (e : SyncEngine U S T) → life (on_transaction_committed qt sqlite transport wall e) ≡ life e
  unfolding on_transaction_committed end_session begin_session
  life-on_transaction_committed e =
      let (changeset, db) = end_session sqlite e.db in
      ground (arith, life-publish changeset (with_db db e))
