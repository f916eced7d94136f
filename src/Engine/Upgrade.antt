-- ===== src/Engine/Upgrade.antt =====
-- `sync` and the changesets of a newer schema version.
use mathlib.Core.List.{Mem}
use qsqlite_sync_engine.Prelude.{
  ℕ, ◌≡◌, refl, ltb_ℤ, inl, inr, true, false, List, [], ◌∷◌, arith, All, Bool-cases,
}
use qsqlite_sync_engine.Text.{QString, str_eq, str_eq_iff}
use qsqlite_sync_engine.Qt.{Qt}
use qsqlite_sync_engine.Filename.{ChangesetInfo, parse_filename}
use qsqlite_sync_engine.Sqlite.{Tables, Sqlite, select_applied}
use qsqlite_sync_engine.Metadata.{is_changeset_applied}
use qsqlite_sync_engine.Transport.{Transport}
use qsqlite_sync_engine.Manager.Pending.{is_pending, listed_pending, pending_changesets-parsed}
use qsqlite_sync_engine.Engine.{SyncEngine}
use qsqlite_sync_engine.Engine.Sync.{sync}
use qsqlite_sync_engine.Engine.Ordinary.{OrdinaryFiles}
use qsqlite_sync_engine.Engine.Progress.{BooksRun, contains}
use qsqlite_sync_engine.Engine.Pulled.{IsAllowed, pending, sync-Pulled}

module _ {U S T : Type 0} (qt : Qt) (sqlite : Sqlite U S) (transport : Transport T)
    (wall : ℕ → ℕ) where
  -- The file is of a schema version above the engine's.
  abbrev pub IsNewer : SyncEngine U S T → QString → Type 0
  IsNewer e name = ltb_ℤ e.current_schema_version (parse_filename qt name).schema_version ≡ true

  newer-not-IsAllowed :
      (e : SyncEngine U S T) (name : QString) (infos : List ChangesetInfo)
      → IsNewer e name
      → All (λ info. parse_filename qt info.filename ≡ info) infos
      → ¬ IsAllowed e.current_schema_version infos name
  newer-not-IsAllowed e name [] newer parsed a = a
  newer-not-IsAllowed e name (info ∷ infos) newer parsed (inl (same, ok)) =
      ground (arith, newer, ok, same, parsed.0)
  newer-not-IsAllowed e name (info ∷ infos) newer parsed (inr a) =
      newer-not-IsAllowed e name infos newer parsed.1 a

  not_contained :
      (e : SyncEngine U S T) (name : QString) (infos : List ChangesetInfo) (names : List QString)
      → ¬ IsAllowed e.current_schema_version infos name
      → All (IsAllowed e.current_schema_version infos) names
      → contains name names ≡ false
  not_contained e name infos [] refuted all = refl
  not_contained e name infos (n ∷ names) refuted all = elim (Bool-cases (str_eq n name)) [
    | inl same ↦ absurd (refuted (rw (← (str_eq_iff n name).0 same) all.0))
    | inr other ↦ rw other (not_contained e name infos names refuted all.1)
  ]

  -- A changeset whose schema version is above the client's stays pending over a call of `sync`, as
  -- long as its file is listed: if it has a valid name, is not marked as applied before the call, no file
  -- of the folder names a table of the sync engine, the statements on the bookkeeping tables run, and
  -- SQLite writes no table that a changeset does not name and rolls a run back that fails.
  pub newer_stays_pending :
      (books : BooksRun sqlite) (e : SyncEngine U S T) (name : QString)
      → OrdinaryFiles sqlite transport e.transport
      → ((t : Tables U) → sqlite.runs select_applied t ≡ true)
      → IsNewer e name
      → is_pending qt sqlite e.db.tables name ≡ true
      → Mem name (transport.list_changesets (sync qt sqlite transport wall e).1.transport).0
      → Mem
          (parse_filename qt name)
          (pending qt sqlite transport wall (sync qt sqlite transport wall e).1)
  unfolding is_changeset_applied
  newer_stays_pending books e name files reads newer waits listed =
      let after = (sync qt sqlite transport wall e).1 in
      let pulled = sync-Pulled qt sqlite transport wall books e files in
      let refuted =
        newer-not-IsAllowed e name (pending qt sqlite transport wall e) newer
          (pending_changesets-parsed qt sqlite transport e.manager) in
      let unmarked = not_contained e name _ pulled.names refuted pulled.allowed in
      listed_pending qt sqlite transport after.manager name
        (ground (
          arith,
          waits,
          unmarked,
          pulled.progress.marked name,
          reads e.db.tables,
          reads after.db.tables,
        ))
        listed
