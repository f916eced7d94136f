-- ===== src/Engine/Marking.antt =====
-- A pending changeset that can be applied, over the passes of `sync`.
use mathlib.Core.List.{Mem, not-mem-nil, mem-cons}
use mathlib.Core.Logic.Or
use qsqlite_sync_engine.Prelude.{
  ℕ, ℤ, ◌≡◌, ◌⊎◌, inl, inr, ltb_ℤ, refl, ap, ◌∙◌, Bool, true, false, some, List, [], ◌∷◌, arith,
  All,
}
use qsqlite_sync_engine.Text.{QString, str_eq_refl}
use qsqlite_sync_engine.Qt.{Qt}
use qsqlite_sync_engine.Filename.{ChangesetInfo}
use qsqlite_sync_engine.Sqlite.{Bytes, Tables, Sqlite}
use qsqlite_sync_engine.Metadata.{has_applied, mark_changeset_applied}
use qsqlite_sync_engine.Metadata.Laws.{has_applied-mark}
use qsqlite_sync_engine.Conflict.{handler}
use qsqlite_sync_engine.Database.{SyncableDatabase, Outcome, is_empty, apply_changeset}
use qsqlite_sync_engine.Transport.{Transport, StoresFiles}
use qsqlite_sync_engine.Manager.{pending_changesets}
use qsqlite_sync_engine.Engine.{SyncEngine, with_db, clock_receive}
use qsqlite_sync_engine.Engine.Pull.{DeferredItem, apply_one_changeset, apply_data, conclude}
use qsqlite_sync_engine.Engine.Sync.{Pass, defer_step, apply_pass, retry_pass, sync}
use qsqlite_sync_engine.Engine.Frame.{Life, life-apply_one_changeset}
use qsqlite_sync_engine.Engine.Ordinary.{
  OrdinaryFiles, OrdinaryFiles-list, step-OrdinaryFiles, pass-OrdinaryFiles,
}
use qsqlite_sync_engine.Engine.Progress.{Progress, BooksRun, apply_one_changeset-Stepped}
use qsqlite_sync_engine.Engine.Passes.{Good, GoodItems, apply_pass-Passed, retry_pass-Passed}
use qsqlite_sync_engine.Engine.Pulled.{complete-Progress, pending}

-- The changeset is applied without a schema warning, whatever the database holds and whatever the
-- resolver decides.
abbrev pub Applies : {U S : Type 0} → Sqlite U S → Bytes → Type 0
Applies {U} {S} sqlite changeset =
    (local_client client : QString) (hlc : ℕ) (db : SyncableDatabase U S)
    → db.handle ≡ true
    → (apply_changeset sqlite changeset (some (handler sqlite local_client hlc client))
        db).0.success
      ≡ true

-- A property of the tables that neither a changeset nor a mark takes away, such as that a table exists.
pub record Lasts {U S : Type 0} (sqlite : Sqlite U S) (Ready : Tables U → Type 0) : Type 0 where
  pub over_apply :
      (changeset : Bytes) (local_client client : QString) (hlc : ℕ) (db : SyncableDatabase U S)
      → Ready db.tables
      → Ready
          (apply_changeset sqlite changeset
            (some (handler sqlite local_client hlc client))
            db).1.tables
  pub over_mark :
      (client id : QString) (hlc : ℕ) (t : Tables U)
      → Ready t
      → Ready (mark_changeset_applied sqlite client id hlc t).1

-- The changeset is applied without a schema warning to tables that are ready.
abbrev pub AppliesTo : {U S : Type 0} → Sqlite U S → (Tables U → Type 0) → Bytes → Type 0
AppliesTo {U} {S} sqlite Ready changeset =
    (local_client client : QString) (hlc : ℕ) (db : SyncableDatabase U S)
    → db.handle ≡ true
    → Ready db.tables
    → (apply_changeset sqlite changeset (some (handler sqlite local_client hlc client))
        db).0.success
      ≡ true

abbrev pub Anything : QString → Type 0
Anything name = Unit

pub Good-All : (version : ℤ) (infos : List ChangesetInfo) → All (Good Anything version) infos
Good-All version [] = tt
Good-All version (info ∷ infos) = (λ ok. tt, Good-All version infos)

pub GoodItems-All : (version : ℤ) (items : List DeferredItem) → GoodItems Anything version items
GoodItems-All version [] = tt
GoodItems-All version (item ∷ items) = (λ ok. tt, GoodItems-All version items)

pub kept_mark :
    {U S T : Type 0} {e e' : SyncEngine U S T} {names : List QString} (id : QString)
    → Progress e e' names
    → has_applied id e.db.tables.applied ≡ true
    → has_applied id e'.db.tables.applied ≡ true
kept_mark id p h = ground (arith, p.marked id, h)

module _ {U S T : Type 0} (qt : Qt) (sqlite : Sqlite U S) (transport : Transport T) (wall : ℕ → ℕ)
    (IsName : QString → Type 0) (Fits : QString → Bytes → T → Type 0)
    (stores : StoresFiles transport IsName Fits) where
  -- The engine holds the file with these contents.
  abbrev pub HasFile : QString → Bytes → SyncEngine U S T → Type 0
  HasFile name b e = (transport.read_changeset name e.transport).0 ≡ b

  apply_data-transport :
      (info : ChangesetInfo) (applied : ℕ) (changeset : Bytes) (e : SyncEngine U S T)
      → (apply_data qt sqlite transport wall info applied changeset e).engine.transport
        ≡ e.transport
  unfolding apply_data conclude clock_receive
  apply_data-transport info applied changeset e = ground arith

  pub step-HasFile :
      (name : QString) (b : Bytes) (info : ChangesetInfo) (applied : ℕ) (e : SyncEngine U S T)
      → HasFile name b e
      → HasFile name b (apply_one_changeset qt sqlite transport wall info applied e).engine
  unfolding apply_one_changeset
  step-HasFile name b info applied e h =
      let r = transport.read_changeset info.filename e.transport in
      let e' : SyncEngine U S T = record e { manager = record e.manager { transport = r.1 } } in
      ground (
        arith,
        h,
        stores.read-read info.filename name e.transport,
        apply_data-transport info applied r.0 e',
      )

  module _ (Ready : Tables U → Type 0) (lasts : Lasts sqlite Ready) where
    tables_cases :
        (info : ChangesetInfo) (applied : ℕ) (e : SyncEngine U S T)
        → let e1 = clock_receive wall info.hlc e in
          let resolver = handler sqlite e1.db.client_identifier info.hlc info.client_id in
          let t =
            (apply_changeset sqlite
              (transport.read_changeset info.filename e.transport).0
              (some resolver)
              e1.db).1.tables in
          let after =
            (apply_one_changeset qt sqlite transport wall info applied e).engine.db.tables in
          (after ≡ e.db.tables)
          ⊎ ((after ≡ t)
              ⊎ (after
                  ≡ (mark_changeset_applied sqlite e.db.client_identifier info.filename info.hlc
                      t).1))
    unfolding apply_one_changeset apply_data conclude clock_receive apply_changeset
    tables_cases info applied e = ground arith

    pub step-Ready :
        (info : ChangesetInfo) (applied : ℕ) (e : SyncEngine U S T)
        → Ready e.db.tables
        → Ready (apply_one_changeset qt sqlite transport wall info applied e).engine.db.tables
    unfolding clock_receive
    step-Ready info applied e ready =
        let e1 = clock_receive wall info.hlc e in
        let run =
          lasts.over_apply (transport.read_changeset info.filename e.transport).0
            e1.db.client_identifier info.client_id info.hlc e1.db ready in
        elim (tables_cases info applied e) [
          | inl same ↦ rw same ready
          | inr (inl written) ↦ rw written run
          | inr (inr marked) ↦
              rw marked (lasts.over_mark e.db.client_identifier info.filename info.hlc _ run)
        ]

  module _ (books : BooksRun sqlite) (changeset : Bytes) (full : is_empty changeset ≡ false)
      (Ready : Tables U → Type 0) (lasts : Lasts sqlite Ready)
      (applies : AppliesTo sqlite Ready changeset) where
    conclude_marks :
        (info : ChangesetInfo) (applied : ℕ) (outcome : Outcome) (e : SyncEngine U S T)
        → outcome.success ≡ true
        → has_applied info.filename
            (conclude qt sqlite transport wall info applied outcome e).engine.db.tables.applied
          ≡ true
    unfolding conclude
    conclude_marks info applied outcome e ok = ground (
      arith,
      ok,
      str_eq_refl info.filename,
      has_applied-mark sqlite e.db.client_identifier info.filename info.filename info.hlc
          e.db.tables (books.inserts e.db.tables),
    )

    data_marks :
        (info : ChangesetInfo) (applied : ℕ) (e : SyncEngine U S T)
        → e.db.handle ≡ true
        → Ready e.db.tables
        → has_applied info.filename
            (apply_data qt sqlite transport wall info applied changeset e).engine.db.tables.applied
          ≡ true
    unfolding apply_data clock_receive
    data_marks info applied e opened ready =
        let e' = clock_receive wall info.hlc e in
        let resolver = handler sqlite e'.db.client_identifier info.hlc info.client_id in
        let r = apply_changeset sqlite changeset (some resolver) e'.db in
        conclude_marks info applied r.0 (with_db r.1 e')
          (applies e'.db.client_identifier info.client_id info.hlc e'.db opened ready)

    pub step_marks :
        (info : ChangesetInfo) (applied : ℕ) (e : SyncEngine U S T)
        → HasFile info.filename changeset e
        → ltb_ℤ e.current_schema_version info.schema_version ≡ false
        → e.db.handle ≡ true
        → Ready e.db.tables
        → has_applied info.filename
            (apply_one_changeset qt sqlite transport wall info applied e).engine.db.tables.applied
          ≡ true
    unfolding apply_one_changeset
    step_marks info applied e file allowed opened ready =
        let r = transport.read_changeset info.filename e.transport in
        let e' : SyncEngine U S T = record e { manager = record e.manager { transport = r.1 } } in
        rw (allowed, file, full) (data_marks info applied e' opened ready)

    pub all_keep :
        (id : QString) (infos : List ChangesetInfo) (p : Pass U S T)
        → OrdinaryFiles sqlite transport p.engine.transport
        → has_applied id p.engine.db.tables.applied ≡ true
        → has_applied id (apply_pass qt sqlite transport wall infos p).engine.db.tables.applied
          ≡ true
    all_keep id infos p files h =
        let v = p.engine.current_schema_version in
        kept_mark id
          (apply_pass-Passed qt sqlite transport wall books Anything v infos p files refl
            (Good-All v infos) (GoodItems-All v p.deferred)).progress
          h

    pub pass_marks :
        (info : ChangesetInfo) (infos : List ChangesetInfo) (p : Pass U S T)
        → OrdinaryFiles sqlite transport p.engine.transport
        → HasFile info.filename changeset p.engine
        → ltb_ℤ p.engine.current_schema_version info.schema_version ≡ false
        → p.engine.db.handle ≡ true
        → Ready p.engine.db.tables
        → Mem info infos
        → has_applied info.filename
            (apply_pass qt sqlite transport wall infos p).engine.db.tables.applied
          ≡ true
    unfolding apply_pass defer_step
    pass_marks info [] p files file allowed opened ready m = absurd (not-mem-nil m)
    pass_marks info (first ∷ infos) p files file allowed opened ready m =
        let e = p.engine in
        let stepped =
          apply_one_changeset-Stepped qt sqlite transport wall books first p.applied e files in
        let s = apply_one_changeset qt sqlite transport wall first p.applied e in
        let files' = step-OrdinaryFiles qt sqlite transport wall first p.applied e files in
        let same = life-apply_one_changeset qt sqlite transport wall first p.applied e in
        Or.elim bool_prop (mem-cons.0 m)
          (λ (here : info ≡ first).
            all_keep info.filename infos (defer_step first s p.deferred) files' (
              rw here (
                step_marks first p.applied e (rw (← here) file) (rw (← here) allowed) opened
                  ready)))
          (λ later.
            pass_marks info infos (defer_step first s p.deferred) files'
              (step-HasFile info.filename changeset first p.applied e file)
              (rw stepped.progress.version allowed) (ap (λ (l : Life). l.opened) same ∙ opened)
              (step-Ready Ready lasts first p.applied e ready) later)
      where
        bool_prop : {a : Bool} → IsProp (a ≡ true)
        bool_prop = hlevel

    pub sync_marks_ready :
        (info : ChangesetInfo) (e : SyncEngine U S T)
        → OrdinaryFiles sqlite transport e.transport
        → HasFile info.filename changeset e
        → ltb_ℤ e.current_schema_version info.schema_version ≡ false
        → e.db.handle ≡ true
        → Ready e.db.tables
        → Mem info (pending qt sqlite transport wall e)
        → has_applied info.filename (sync qt sqlite transport wall e).1.db.tables.applied ≡ true
    unfolding sync pending_changesets
    sync_marks_ready info e files file allowed opened ready m =
        let (infos, m0) = pending_changesets qt sqlite transport e.manager in
        let p0 : Pass U S T = record {
          applied = 0;
          deferred = [];
          engine = record e { manager = m0 };
        } in
        let files0 = OrdinaryFiles-list qt sqlite transport wall e.transport files in
        let p1 = apply_pass qt sqlite transport wall infos p0 in
        let v = p1.engine.current_schema_version in
        let p2 = retry_pass qt sqlite transport wall p1 in
        let first =
          pass_marks info infos p0 files0 (stores.read-list info.filename e.transport ∙ file)
            allowed opened ready m in
        let second =
          retry_pass-Passed qt sqlite transport wall books Anything v p1
            (pass-OrdinaryFiles qt sqlite transport wall infos p0 files0) refl
            (GoodItems-All v p1.deferred) in
        kept_mark info.filename (complete-Progress qt sqlite transport wall infos p2)
          (kept_mark info.filename second.progress first)

  module _ (books : BooksRun sqlite) (changeset : Bytes) (full : is_empty changeset ≡ false)
      (applies : Applies sqlite changeset) where
    pub sync_marks :
        (info : ChangesetInfo) (e : SyncEngine U S T)
        → OrdinaryFiles sqlite transport e.transport
        → HasFile info.filename changeset e
        → ltb_ℤ e.current_schema_version info.schema_version ≡ false
        → e.db.handle ≡ true
        → Mem info (pending qt sqlite transport wall e)
        → has_applied info.filename (sync qt sqlite transport wall e).1.db.tables.applied ≡ true
    sync_marks info e files file allowed opened m =
        sync_marks_ready books changeset full (λ t. Unit)
          (record { over_apply = λ c l r h db u. u; over_mark = λ c id h t u. u })
          (λ l r h db o u. applies l r h db o) info e files file allowed opened tt m
