-- ===== src/Engine/Pulled.antt =====
-- What a call of `sync` does as a whole.
use mathlib.Core.Path.{subst}
use qsqlite_sync_engine.Prelude.{
  ℕ, ℤ, ltb_ℤ, ◌≡◌, ◌⊎◌, refl, ◌∙◌, Bool, true, false, not, ◌||◌, List, [], ◌∷◌, arith, ltb, All,
  All-append, append-nil, length, Bool-cases, inl, inr,
}
use qsqlite_sync_engine.Text.{QString, str_eq, str_eq_refl}
use qsqlite_sync_engine.Qt.{Qt}
use qsqlite_sync_engine.Filename.{ChangesetInfo}
use qsqlite_sync_engine.Sqlite.{Sqlite}
use qsqlite_sync_engine.Metadata.{has_applied}
use qsqlite_sync_engine.Database.{is_empty}
use qsqlite_sync_engine.Transport.{Transport}
use qsqlite_sync_engine.Manager.{pending_changesets}
use qsqlite_sync_engine.Engine.{SyncEngine, sync_completed, emit}
use qsqlite_sync_engine.Engine.Sync.{Pass, apply_pass, retry_pass, complete, sync}
use qsqlite_sync_engine.Engine.Ordinary.{OrdinaryFiles, OrdinaryFiles-list, pass-OrdinaryFiles}
use qsqlite_sync_engine.Engine.Progress.{
  Progress, Progress-quiet, Progress-trans, BooksRun, applied_names, applied_names-append, contains,
}
use qsqlite_sync_engine.Engine.Passes.{
  Good, Passed-trans, apply_pass-Passed, retry_pass-Passed, emit_apply_errors-Progress,
}

abbrev pub Any : (ChangesetInfo → Type 0) → List ChangesetInfo → Type 0
Any P [] = ⊥
Any P (x ∷ xs) = P x ⊎ Any P xs

-- the name of one of the changesets, whose schema version is not above the client's
abbrev pub IsAllowed : ℤ → List ChangesetInfo → QString → Type 0
IsAllowed version infos name =
    Any (λ info. (name ≡ info.filename) × (ltb_ℤ version info.schema_version ≡ false)) infos

-- The result of `sync`, which was called with `infos` pending: `names` are the changesets that it
-- applied.
pub record Pulled {U S T : Type 0} (infos : List ChangesetInfo) (e : SyncEngine U S T)
    (r : ℕ × SyncEngine U S T) : Type 0 where
  pub names : List QString
  pub progress : Progress e r.1 names
  pub counted : r.0 ≡ length names
  pub allowed : All (IsAllowed e.current_schema_version infos) names

weaken :
    (version : ℤ) (infos : List ChangesetInfo) (P : QString → Type 0)
    → ((name : QString) → IsAllowed version infos name → P name)
    → All (Good P version) infos
weaken version [] P h = tt
weaken version (info ∷ infos) P h =
    (λ ok. h info.filename (inl (refl, ok)), weaken version infos P (λ name a. h name (inr a)))

module _ {U S T : Type 0} where
  -- Each changeset that was announced as applied is marked as applied.
  abbrev pub AnnouncedIsMarked : SyncEngine U S T → Type 0
  AnnouncedIsMarked e =
      All (λ id. has_applied id e.db.tables.applied ≡ true) (applied_names e.signals)

All-implies :
    {P Q : QString → Type 0} (names : List QString)
    → ((id : QString) → P id → Q id)
    → All P names
    → All Q names
All-implies [] f h = tt
All-implies (id ∷ names) f h = (f id h.0, All-implies names f h.1)

or_right : (a : Bool) {b c : Bool} → c ≡ (a || b) → b ≡ true → c ≡ true
or_right a h k = ground arith

contains-All : (names : List QString) → All (λ id. contains id names ≡ true) names
contains-All [] = tt
contains-All (id ∷ names) = (
  rw (str_eq_refl id),
  All-implies names (λ other h. or_right (str_eq id other) refl h) (contains-All names),
)

module _ {U S T : Type 0} (qt : Qt) (sqlite : Sqlite U S) (transport : Transport T)
    (wall : ℕ → ℕ) where
  completed-Progress : (n : ℕ) (e : SyncEngine U S T) → Progress e (emit (sync_completed n) e) []
  completed-Progress n e =
      Progress-quiet e _
        (applied_names-append e.signals (sync_completed n ∷ [])
          ∙ append-nil (applied_names e.signals))
        refl refl

  pub complete-Progress :
      (infos : List ChangesetInfo) (p : Pass U S T)
      → Progress p.engine (complete qt sqlite transport wall infos p).1 []
  unfolding complete
  complete-Progress infos p =
      let e = emit_apply_errors-Progress qt sqlite transport wall p.deferred p.engine in
      elim (Bool-cases (ltb 0 p.applied || not (is_empty infos))) [
        | inl some_work ↦ rw some_work (Progress-trans e (completed-Progress p.applied _))
        | inr no_work ↦ rw no_work e
      ]

  abbrev pub pending : SyncEngine U S T → List ChangesetInfo
  pending e = (pending_changesets qt sqlite transport e.manager).0

  -- If the statements on the bookkeeping tables run, SQLite writes no table that a changeset does not
  -- name and rolls a run back that fails, and no file of the folder names a table of the sync engine,
  -- `sync` returns the number of the changesets that it announces as applied; these are pending ones
  -- whose schema version is not above the client's; exactly they are newly marked as applied; and no
  -- row's recorded timestamp goes back.
  pub sync-Pulled :
      (books : BooksRun sqlite) (e : SyncEngine U S T)
      → OrdinaryFiles sqlite transport e.transport
      → Pulled (pending e) e (sync qt sqlite transport wall e)
  unfolding sync
  sync-Pulled books e files =
      let v = e.current_schema_version in
      let e0 : SyncEngine U S T = record e {
        manager = (pending_changesets qt sqlite transport e.manager).1;
      } in
      let p0 : Pass U S T = record { applied = 0; deferred = []; engine = e0 } in
      let p1 = apply_pass qt sqlite transport wall (pending e) p0 in
      let files0 : OrdinaryFiles sqlite transport e0.transport =
        unfold pending_changesets in
        OrdinaryFiles-list qt sqlite transport wall e.transport files in
      let P = IsAllowed v (pending e) in
      let good = weaken v (pending e) P (λ name a. a) in
      let first =
        apply_pass-Passed qt sqlite transport wall books P v (pending e) p0 files0 refl good tt in
      let second =
        retry_pass-Passed qt sqlite transport wall books P v p1
          (pass-OrdinaryFiles qt sqlite transport wall (pending e) p0 files0) first.progress.version
          first.waiting in
      let run = Passed-trans P v first second in
      let listed : Progress e e0 [] =
        unfold pending_changesets in Progress-quiet e e0 refl refl refl in
      record {
        names = run.names;
        progress =
            subst (λ ns. Progress e (sync qt sqlite transport wall e).1 ns) (append-nil run.names)
              (Progress-trans (Progress-trans listed run.progress)
                (complete-Progress (pending e) (retry_pass qt sqlite transport wall p1)));
        counted = run.counted ∙ (omega arith);
        allowed = run.allowed;
      }

  -- `sync` keeps it so that each changeset that was announced as applied is marked as applied.
  pub sync-AnnouncedIsMarked :
      (books : BooksRun sqlite) (e : SyncEngine U S T)
      → OrdinaryFiles sqlite transport e.transport
      → AnnouncedIsMarked e
      → AnnouncedIsMarked (sync qt sqlite transport wall e).1
  sync-AnnouncedIsMarked books e files h =
      let pulled = sync-Pulled books e files in
      let after = (sync qt sqlite transport wall e).1.db.tables.applied in
      rw pulled.progress.announced (
        All-append (λ id. has_applied id after ≡ true) (applied_names e.signals) pulled.names
          (All-implies (applied_names e.signals)
            (λ id old. ground (arith, pulled.progress.marked id, old)) h)
          (All-implies pulled.names
            (λ id new.
              or_right (has_applied id e.db.tables.applied) (pulled.progress.marked id) new)
            (contains-All pulled.names)))
