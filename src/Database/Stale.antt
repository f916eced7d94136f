-- ===== src/Database/Stale.antt =====
-- Rows that were written by a remote changeset without a conflict.
use qsqlite_sync_engine.Prelude.{ℕ, ℤ, ◌<◌, ◌≡◌, ◌⊎◌, false, Option, some, [], inl, inr}
use qsqlite_sync_engine.Text.{QString, starts_with}
use qsqlite_sync_engine.Sqlite.{
  Bytes, Tables, Sqlite, Apply, finish, log, conflict, ConflictType, changed_data, existing_row,
}
use qsqlite_sync_engine.Metadata.{stored_hlc}
use qsqlite_sync_engine.LogCapture.{ActiveGuard, log_callback}
use qsqlite_sync_engine.Conflict.{ConflictHandler, replace, handler, sync_prefix}
use qsqlite_sync_engine.Conflict.LastWriter.{handler_unrecorded}
use qsqlite_sync_engine.Database.{SyncableDatabase, run_apply, apply_changeset}
use qsqlite_sync_engine.Database.Applying.{apply_changeset-tables}

-- SQLite meets no conflict, and writes no bookkeeping table.
abbrev pub IsConflictFree : {U : Type 0} → Apply U → Type 0
IsConflictFree {U} (finish ok write) = (t : Tables U) → (write t).row_hlcs ≡ t.row_hlcs
IsConflictFree (log code message rest) = IsConflictFree rest
IsConflictFree (conflict type table pk rest) = ⊥

run_apply-quiet :
    {U : Type 0} (handler : Option (ConflictHandler U)) (steps : Apply U) (t : Tables U)
    (g : ActiveGuard)
    → IsConflictFree steps
    → (run_apply handler steps t g).tables.row_hlcs ≡ t.row_hlcs
unfolding run_apply
run_apply-quiet handler (finish ok write) t g h = h t
run_apply-quiet handler (log code message rest) t g h =
    run_apply-quiet handler rest t (log_callback code message g) h
run_apply-quiet handler (conflict type table pk rest) t g h = absurd h

module _ {U S : Type 0} (sqlite : Sqlite U S) where
  -- A changeset that meets no conflict leaves no timestamp for the rows that it writes. So after a
  -- newer changeset of a client has been applied without a conflict, an older one that conflicts on a
  -- row without a recorded timestamp still replaces that row.
  pub stale_change_replaces :
      (local_client newer_client older_client table : QString) (newer older : ℕ) (rowid : ℤ)
      (changeset : Bytes) (type : ConflictType) (db : SyncableDatabase U S)
      → older < newer
      → 0 < older
      → IsConflictFree (sqlite.changeset_apply changeset db.tables)
      → stored_hlc table rowid db.tables.row_hlcs ≡ 0
      → (type ≡ changed_data) ⊎ (type ≡ existing_row)
      → starts_with table sync_prefix ≡ false
      → (handler sqlite local_client older older_client type table
          (some rowid)
          (apply_changeset sqlite changeset
            (some (handler sqlite local_client newer newer_client))
            db).1.tables).0
        ≡ replace
  stale_change_replaces local_client newer_client older_client table newer older rowid changeset
        type db lt pos free unrecorded kind foreign =
      let h = some (handler sqlite local_client newer newer_client) in
      let after = (apply_changeset sqlite changeset h db).1.tables in
      let same : after.row_hlcs ≡ db.tables.row_hlcs =
        elim (apply_changeset-tables sqlite changeset h db) [
          | inl kept ↦ rw kept
          | inr ran ↦ rw ran (
              run_apply-quiet h (sqlite.changeset_apply changeset db.tables) db.tables (some [])
                free)
        ] in
      handler_unrecorded sqlite type local_client older_client table older rowid after kind foreign
        (rw same unrecorded) pos
