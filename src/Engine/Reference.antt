-- ===== src/Engine/Reference.antt =====
-- `sync` as one plain loop, where nothing goes wrong.
use native.Mathlib.Nat.{add-zero}
use qsqlite_sync_engine.Prelude.{
  ℕ, ◌+◌, ◌≡◌, ltb_ℤ, refl, ap, ◌∙◌, true, false, some, List, [], ◌∷◌, arith, All, length,
  if◌then◌else◌,
}
use qsqlite_sync_engine.Text.{QString}
use qsqlite_sync_engine.Qt.{Qt}
use qsqlite_sync_engine.Filename.{ChangesetInfo}
use qsqlite_sync_engine.Sqlite.{Bytes, Sqlite}
use qsqlite_sync_engine.Metadata.{mark_changeset_applied}
use qsqlite_sync_engine.Conflict.{handler}
use qsqlite_sync_engine.Database.{Outcome, is_empty, apply_changeset}
use qsqlite_sync_engine.Transport.{Transport, StoresFiles}
use qsqlite_sync_engine.Manager.{pending_changesets}
use qsqlite_sync_engine.Engine.{
  SyncEngine, changeset_applied, sync_completed, emit, with_db, with_tables, clock_receive,
}
use qsqlite_sync_engine.Engine.Pull.{DeferredItem, apply_one_changeset, apply_data, conclude}
use qsqlite_sync_engine.Engine.Sync.{
  Pass, defer_step, apply_pass, retry_pass, complete, emit_apply_errors, sync,
}
use qsqlite_sync_engine.Engine.Marking.{Applies}
use qsqlite_sync_engine.Engine.Pulled.{pending}

module _ {U S T : Type 0} (qt : Qt) (sqlite : Sqlite U S) (transport : Transport T)
    (wall : ℕ → ℕ) where
  -- one changeset is read, applied, marked and announced
  abbrev pub take_in : ChangesetInfo → SyncEngine U S T → SyncEngine U S T
  take_in info e =
      let (changeset, stored) = transport.read_changeset info.filename e.transport in
      let e1 : SyncEngine U S T = record e { manager = record e.manager { transport = stored } } in
      let e2 = clock_receive wall info.hlc e1 in
      let resolver = handler sqlite e2.db.client_identifier info.hlc info.client_id in
      let e3 = with_db (apply_changeset sqlite changeset (some resolver) e2.db).1 e2 in
      emit (changeset_applied info.filename) (
        with_tables
          (mark_changeset_applied sqlite e3.db.client_identifier info.filename info.hlc
            e3.db.tables).1
          e3)

  abbrev pub take_all : List ChangesetInfo → SyncEngine U S T → SyncEngine U S T
  take_all [] e = e
  take_all (info ∷ infos) e = take_all infos (take_in info e)

  -- The changeset is allowed, can be read, and is applied without a schema warning.
  pub record IsApplicable (e : SyncEngine U S T) (info : ChangesetInfo) : Type 0 where
    pub allowed : ltb_ℤ e.current_schema_version info.schema_version ≡ false
    pub full : is_empty (transport.read_changeset info.filename e.transport).0 ≡ false
    pub applies : Applies sqlite (transport.read_changeset info.filename e.transport).0

  pub conclude-success :
      (info : ChangesetInfo) (applied : ℕ) (outcome : Outcome) (e : SyncEngine U S T)
      → outcome.success ≡ true
      → conclude qt sqlite transport wall info applied outcome e ≡ record {
        handled = true;
        applied = applied + 1;
        warnings = [];
        engine = emit (changeset_applied info.filename) (
            with_tables
              (mark_changeset_applied sqlite e.db.client_identifier info.filename info.hlc
                e.db.tables).1
              e);
      }
  unfolding conclude
  conclude-success info applied outcome e ok = rw ok refl

  step-take_in :
      (info : ChangesetInfo) (applied : ℕ) (e : SyncEngine U S T)
      → e.db.handle ≡ true
      → IsApplicable e info
      → apply_one_changeset qt sqlite transport wall info applied e
        ≡ record { handled = true; applied = applied + 1; warnings = []; engine = take_in info e }
  unfolding apply_one_changeset apply_data clock_receive
  step-take_in info applied e opened h =
      let (b, stored) = transport.read_changeset info.filename e.transport in
      let e1 : SyncEngine U S T = record e { manager = record e.manager { transport = stored } } in
      let e2 = clock_receive wall info.hlc e1 in
      let resolver = handler sqlite e2.db.client_identifier info.hlc info.client_id in
      let r = apply_changeset sqlite b (some resolver) e2.db in
      rw (h.allowed, h.full)
        (conclude-success info applied r.0 (with_db r.1 e2)
          (h.applies e2.db.client_identifier info.client_id info.hlc e2.db opened))

  take_in-handle :
      (info : ChangesetInfo) (e : SyncEngine U S T) → (take_in info e).db.handle ≡ e.db.handle
  unfolding apply_changeset clock_receive
  take_in-handle info e = ground arith

  module _ (IsName : QString → Type 0) (Fits : QString → Bytes → T → Type 0)
      (stores : StoresFiles transport IsName Fits) where
    IsApplicable-take_in :
        (info other : ChangesetInfo) (e : SyncEngine U S T)
        → IsApplicable e other
        → IsApplicable (take_in info e) other
    unfolding clock_receive
    IsApplicable-take_in info other e h =
        let same = stores.read-read info.filename other.filename e.transport in
        record { allowed = h.allowed; full = rw same h.full; applies = rw same h.applies }

    All-take_in :
        (info : ChangesetInfo) (infos : List ChangesetInfo) (e : SyncEngine U S T)
        → All (IsApplicable e) infos
        → All (IsApplicable (take_in info e)) infos
    All-take_in info [] e h = tt
    All-take_in info (other ∷ infos) e h =
        (IsApplicable-take_in info other e h.0, All-take_in info infos e h.1)

    abbrev counted : List DeferredItem → SyncEngine U S T → ℕ → Pass U S T
    counted items e n = record { applied = n; deferred = items; engine = e }

    pass-take_all :
        (infos : List ChangesetInfo) (p : Pass U S T)
        → p.engine.db.handle ≡ true
        → All (IsApplicable p.engine) infos
        → apply_pass qt sqlite transport wall infos p ≡ record {
          applied = p.applied + length infos;
          deferred = p.deferred;
          engine = take_all infos p.engine;
        }
    unfolding apply_pass defer_step
    pass-take_all [] p opened h = rw add-zero refl
    pass-take_all (info ∷ infos) p opened h = rw (step-take_in info p.applied p.engine opened h.0) (
        pass-take_all infos
          (record {
            applied = p.applied + 1;
            deferred = p.deferred;
            engine = take_in info p.engine;
          })
          (take_in-handle info p.engine ∙ opened) (All-take_in info infos p.engine h.1)
        ∙ ap (counted p.deferred (take_all (info ∷ infos) p.engine)) (omega arith))

    All-listed :
        (infos : List ChangesetInfo) (e : SyncEngine U S T)
        → All (IsApplicable e) infos
        → All
            (IsApplicable (record e {
              manager = record e.manager { transport = (transport.list_changesets e.transport).1 };
            }))
            infos
    All-listed [] e h = tt
    All-listed (info ∷ infos) e h =
        let same = stores.read-list info.filename e.transport in
        (
          record { allowed = h.0.allowed; full = rw same h.0.full; applies = rw same h.0.applies },
          All-listed infos e h.1,
        )

    -- the retry and the end of `sync`, where nothing was deferred
    complete-take_all :
        (infos : List ChangesetInfo) (e : SyncEngine U S T)
        → complete qt sqlite transport wall infos (
            retry_pass qt sqlite transport wall
              (record { applied = 0 + length infos; deferred = []; engine = e }))
          ≡ (length infos, (if is_empty infos then e else emit (sync_completed (length infos)) e))
    unfolding retry_pass complete emit_apply_errors
    complete-take_all [] e = refl
    complete-take_all (info ∷ infos) e = ground arith

    -- `sync` on the model of a plain loop
    abbrev pub plain_sync : SyncEngine U S T → ℕ × SyncEngine U S T
    plain_sync e =
        let (infos, m) = pending_changesets qt sqlite transport e.manager in
        let after = take_all infos (record e { manager = m }) in
        let n = length infos in
        (n, (if is_empty infos then after else emit (sync_completed n) after))

    -- Where the connection is open, and each pending changeset is of an allowed schema version, can
    -- be read, and is applied without a schema warning whatever the database holds, `sync` is the plain
    -- loop: each pending changeset is read, received, applied, marked and announced once, in their
    -- order; none is tried again, no error is signalled, and their number is returned and announced.
    pub sync-plain_sync :
        (e : SyncEngine U S T)
        → e.db.handle ≡ true
        → All (IsApplicable e) (pending qt sqlite transport wall e)
        → sync qt sqlite transport wall e ≡ plain_sync e
    unfolding sync pending_changesets
    sync-plain_sync e opened h =
        let (infos, m) = pending_changesets qt sqlite transport e.manager in
        let e0 : SyncEngine U S T = record e { manager = m } in
        rw
          (pass-take_all infos (record { applied = 0; deferred = []; engine = e0 }) opened
            (All-listed infos e h))
          (complete-take_all infos (take_all infos e0))
