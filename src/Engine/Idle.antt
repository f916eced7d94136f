-- ===== src/Engine/Idle.antt =====
-- A call of `sync` that finds nothing new.
use mathlib.Core.List.{Mem, not-mem-nil, mem-cons, mem-cons_self, mem-cons_of_mem}
use mathlib.Core.Logic.Or
use qsqlite_sync_engine.Prelude.{
  ℕ, ◌≡◌, refl, ◌∙◌, Bool, true, false, List, [], ◌∷◌, arith, All, length, if◌then◌else◌,
  Bool-cases, inl, inr,
}
use qsqlite_sync_engine.Text.{QString}
use qsqlite_sync_engine.Qt.{Qt}
use qsqlite_sync_engine.Filename.{ChangesetInfo, parse_filename}
use qsqlite_sync_engine.Sqlite.{Bytes, Tables, Sqlite, select_applied}
use qsqlite_sync_engine.Metadata.{has_applied, is_changeset_applied}
use qsqlite_sync_engine.Database.{is_empty}
use qsqlite_sync_engine.Transport.{Transport, StoresFiles}
use qsqlite_sync_engine.Manager.{unapplied, pending_changesets}
use qsqlite_sync_engine.Manager.Sort.{sort}
use qsqlite_sync_engine.Manager.Pending.{is_pending, parse_filename-filename, listed_pending}
use qsqlite_sync_engine.Engine.{SyncEngine, clock_receive, emit, sync_completed}
use qsqlite_sync_engine.Engine.Sync.{apply_pass, retry_pass, complete, emit_apply_errors, sync}
use qsqlite_sync_engine.Engine.Progress.{BooksRun}
use qsqlite_sync_engine.Engine.Pulled.{pending, sync-Pulled}
use qsqlite_sync_engine.Engine.Marking.{sync_marks}
use qsqlite_sync_engine.Engine.Reference.{take_in, take_all, IsApplicable, sync-plain_sync}
use qsqlite_sync_engine.Engine.Ordinary.{OrdinaryFiles}

module _ {U S T : Type 0} (qt : Qt) (sqlite : Sqlite U S) (transport : Transport T)
    (wall : ℕ → ℕ) where
  -- Where nothing is pending, `sync` returns 0 and does no more than to list the files.
  sync_idle :
      (e : SyncEngine U S T)
      → pending qt sqlite transport wall e ≡ []
      → sync qt sqlite transport wall e
        ≡ (0, record e { manager = (pending_changesets qt sqlite transport e.manager).1 })
  unfolding sync apply_pass retry_pass complete emit_apply_errors
  sync_idle e h = rw h refl

  none_unapplied :
      (t : Tables U) (files : List QString)
      → ((file : QString) → Mem file files → is_pending qt sqlite t file ≡ false)
      → unapplied qt sqlite t files ≡ []
  unfolding unapplied
  none_unapplied t [] h = refl
  none_unapplied t (file ∷ files) h = ground (
    arith,
    h file mem-cons_self,
    none_unapplied t files (λ other m. h other (mem-cons_of_mem file m)),
  )

  module _ (IsName : QString → Type 0) (Fits : QString → Bytes → T → Type 0)
      (stores : StoresFiles transport IsName Fits) (books : BooksRun sqlite) where
    All-marked :
        (e : SyncEngine U S T) (infos : List ChangesetInfo)
        → OrdinaryFiles sqlite transport e.transport
        → e.db.handle ≡ true
        → ((info : ChangesetInfo) → Mem info infos → Mem info (pending qt sqlite transport wall e))
        → All (IsApplicable qt sqlite transport wall e) infos
        → All
            (λ info.
              has_applied info.filename (sync qt sqlite transport wall e).1.db.tables.applied
              ≡ true)
            infos
    All-marked e [] files opened within h = tt
    All-marked e (info ∷ infos) files opened within h = (
      sync_marks qt sqlite transport wall IsName Fits stores books
          (transport.read_changeset info.filename e.transport).0 h.0.full h.0.applies info e files
          refl h.0.allowed opened (within info mem-cons_self),
      All-marked e infos files opened (λ other m. within other (mem-cons_of_mem info m)) h.1,
    )

    All-Mem :
        (t : Tables U) (infos : List ChangesetInfo) (info : ChangesetInfo)
        → All (λ i. has_applied i.filename t.applied ≡ true) infos
        → Mem info infos
        → has_applied info.filename t.applied ≡ true
    All-Mem t [] info h m = absurd (not-mem-nil m)
    All-Mem t (first ∷ infos) info h m =
        Or.elim bool_prop (mem-cons.0 m) (λ (here : info ≡ first). rw here h.0)
          (λ later. All-Mem t infos info h.1 later)
      where
        bool_prop : {b : Bool} → IsProp (b ≡ true)
        bool_prop = hlevel

    module _ (reads : (t : Tables U) → sqlite.runs select_applied t ≡ true) where
      not_pending :
          (e : SyncEngine U S T) (file : QString)
          → OrdinaryFiles sqlite transport e.transport
          → e.db.handle ≡ true
          → All (IsApplicable qt sqlite transport wall e) (pending qt sqlite transport wall e)
          → Mem file (transport.list_changesets e.transport).0
          → is_pending qt sqlite (sync qt sqlite transport wall e).1.db.tables file ≡ false
      unfolding is_changeset_applied
      not_pending e file files opened h listed =
          let after = (sync qt sqlite transport wall e).1 in
          let kept = (sync-Pulled qt sqlite transport wall books e files).progress.marked file in
          elim (Bool-cases (is_pending qt sqlite e.db.tables file)) [
            | inl waits ↦
                let marked =
                  All-Mem after.db.tables (pending qt sqlite transport wall e)
                    (parse_filename qt file)
                    (All-marked e (pending qt sqlite transport wall e) files opened (λ info m. m) h)
                    (listed_pending qt sqlite transport e.manager file waits listed) in
                ground (
                  arith,
                  waits,
                  marked,
                  reads after.db.tables,
                  parse_filename-filename qt sqlite file,
                )
            | inr old ↦ ground (arith, old, kept, reads e.db.tables, reads after.db.tables)
          ]

      list-take_all :
          (infos : List ChangesetInfo) (e : SyncEngine U S T)
          → (transport.list_changesets (take_all qt sqlite transport wall infos e).transport).0
            ≡ (transport.list_changesets e.transport).0
      unfolding clock_receive
      list-take_all [] e = refl
      list-take_all (info ∷ infos) e =
          list-take_all infos (take_in qt sqlite transport wall info e)
          ∙ stores.list-read info.filename e.transport

      list-plain :
          (infos : List ChangesetInfo) (e : SyncEngine U S T)
          → (if is_empty infos then e else emit (sync_completed (length infos)) e).transport
            ≡ e.transport
      list-plain [] e = refl
      list-plain (info ∷ infos) e = refl

      list-sync :
          (e : SyncEngine U S T)
          → e.db.handle ≡ true
          → All (IsApplicable qt sqlite transport wall e) (pending qt sqlite transport wall e)
          → (transport.list_changesets (sync qt sqlite transport wall e).1.transport).0
            ≡ (transport.list_changesets e.transport).0
      list-sync e opened h =
          let (infos, m) = pending_changesets qt sqlite transport e.manager in
          let e0 : SyncEngine U S T = record e { manager = m } in
          rw
            (
              sync-plain_sync qt sqlite transport wall IsName Fits stores e opened h,
              list-plain infos (take_all qt sqlite transport wall infos e0),
            )
            (list-take_all infos e0 ∙ unfold pending_changesets in stores.list-list e.transport)

      -- Where each pending changeset could be applied, nothing is pending after the call of `sync`, and
      -- a second call returns 0, signals nothing and does no more than to list the files again. (The
      -- connection is open, the transport keeps to its contract and nobody writes a file in between,
      -- no file of the folder names a table of the sync engine, the statements on the bookkeeping tables
      -- run, and SQLite writes no table that a changeset does not name and rolls a run back that fails.)
      pub second_sync_idle :
          (e : SyncEngine U S T)
          → OrdinaryFiles sqlite transport e.transport
          → e.db.handle ≡ true
          → All (IsApplicable qt sqlite transport wall e) (pending qt sqlite transport wall e)
          → let after = (sync qt sqlite transport wall e).1 in
            (pending qt sqlite transport wall after ≡ [])
            × (sync qt sqlite transport wall after ≡ (
              0,
              record after { manager = (pending_changesets qt sqlite transport after.manager).1 },
            ))
      second_sync_idle e files opened h =
          let after = (sync qt sqlite transport wall e).1 in
          let none_left =
            none_unapplied after.db.tables (transport.list_changesets after.transport).0
              (λ file m. not_pending e file files opened h (rw (← list-sync e opened h) m)) in
          let nothing : pending qt sqlite transport wall after ≡ [] =
            unfold pending_changesets sort in rw none_left refl in
          (nothing, sync_idle after nothing)
