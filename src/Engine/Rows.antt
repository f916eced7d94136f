-- ===== src/Engine/Rows.antt =====
-- `SyncEngine::recordRowHlcs` of src/syncengine/SyncEngine.cpp.
use qsqlite_sync_engine.Prelude.{ℕ, ℤ, Option, none, some, List, [], ◌∷◌, if◌then◌else◌}
use qsqlite_sync_engine.Text.{QString, starts_with}
use qsqlite_sync_engine.Sqlite.{Bytes, Tables, Sqlite, Op, insert, update, delete, Change}
use qsqlite_sync_engine.Metadata.{update_row_hlc}
use qsqlite_sync_engine.Conflict.{sync_prefix}

-- Column 0 of the new values of an INSERT, and of the old values otherwise.
unfoldable pub recorded_pk : Op → Change → Option ℤ
recorded_pk insert c = c.new_pk
recorded_pk update c = c.old_pk
recorded_pk delete c = c.old_pk

module _ {U S : Type 0} (sqlite : Sqlite U S) (client_id : QString) (hlc : ℕ) where
  record_pk : QString → Option ℤ → Tables U → Tables U
  record_pk table none t = t
  record_pk table (some rowid) t = (update_row_hlc sqlite table rowid hlc client_id t).1

  unfoldable pub record_table : Option QString → Option ℤ → Tables U → Tables U
  unfolding record_pk
  record_table none pk t = t
  record_table (some table) pk t = if starts_with table sync_prefix then t else record_pk table pk t

  unfoldable pub record_changes : List Change → Tables U → Tables U
  unfolding record_table recorded_pk
  record_changes [] t = t
  record_changes (c ∷ cs) t = record_changes cs (record_table c.table (recorded_pk c.op c) t)

  unfoldable pub record_iterated : Option (List Change) → Tables U → Tables U
  record_iterated none t = t
  record_iterated (some changes) t = record_changes changes t

  unfoldable pub record_row_hlcs : Bytes → Tables U → Tables U
  unfolding record_iterated
  record_row_hlcs changeset t = record_iterated (sqlite.changeset_iterate changeset) t
