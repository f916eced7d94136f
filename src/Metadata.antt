-- ===== src/Metadata.antt =====
-- The bookkeeping tables: `initSyncMetadata`, `markChangesetApplied`, `isChangesetApplied`,
-- `updateRowHlc` and `getRowHlc` of src/syncengine/SyncableDatabase.cpp.
pub mod Laws
use qsqlite_sync_engine.Prelude.{
  ℕ, ℤ, eq_ℤ, Bool, true, false, ◌&&◌, ◌||◌, Option, none, some, List, [], ◌∷◌, ◌++◌, if◌then◌else◌,
}
use qsqlite_sync_engine.Text.{QString, str_eq}
use qsqlite_sync_engine.Sqlite.{
  Applied, RowHlc, Tables, Sqlite, insert_client, insert_applied, select_applied, replace_row_hlc,
  select_row_hlc, create_applied, create_row_hlc, create_client,
}

-- WHERE changeset_id = ?
unfoldable pub has_applied : QString → List Applied → Bool
has_applied id [] = false
has_applied id (a ∷ rows) = str_eq a.changeset_id id || has_applied id rows

has_client : QString → List QString → Bool
has_client id [] = false
has_client id (c ∷ rows) = str_eq c id || has_client id rows

-- the primary key of `_sync_row_hlc`
abbrev pub is_row : QString → ℤ → RowHlc → Bool
is_row table rowid r = str_eq r.table_name table && eq_ℤ r.rowid rowid

-- WHERE table_name = ? AND rowid = ?
unfoldable pub find_row : QString → ℤ → List RowHlc → Option RowHlc
find_row table rowid [] = none
find_row table rowid (r ∷ rows) = if is_row table rowid r then some r else find_row table rowid rows

remove_row : QString → ℤ → List RowHlc → List RowHlc
remove_row table rowid [] = []
remove_row table rowid (r ∷ rows) =
    let rest = remove_row table rowid rows in if is_row table rowid r then rest else r ∷ rest

-- the timestamp that the table holds for a row; 0 where it holds none
unfoldable pub stored_hlc : QString → ℤ → List RowHlc → ℕ
unfolding find_row
stored_hlc table rowid rows = elim (find_row table rowid rows) [ none ↦ 0 | some r ↦ r.hlc ]

module _ {U S : Type 0} (sqlite : Sqlite U S) where
  -- INSERT OR IGNORE
  unfoldable pub mark_changeset_applied : QString → QString → ℕ → Tables U → Bool × Tables U
  unfolding has_applied
  mark_changeset_applied client_identifier changeset_id hlc t =
      if sqlite.runs insert_applied t
      then (
        true,
        (if has_applied changeset_id t.applied then t else record t {
          applied =
              t.applied
              ++ (record { changeset_id = changeset_id; client_id = client_identifier; hlc = hlc })
                ∷ [];
        }),
      )
      else (false, t)

  unfoldable pub is_changeset_applied : QString → Tables U → Bool
  unfolding has_applied
  is_changeset_applied changeset_id t =
      sqlite.runs select_applied t && has_applied changeset_id t.applied

  -- INSERT OR REPLACE
  unfoldable pub update_row_hlc : QString → ℤ → ℕ → QString → Tables U → Bool × Tables U
  unfolding remove_row
  update_row_hlc table rowid hlc client t =
      if sqlite.runs replace_row_hlc t
      then (
        true,
        record t {
          row_hlcs =
              (record { table_name = table; rowid = rowid; hlc = hlc; client_id = client })
              ∷ remove_row table rowid t.row_hlcs;
        },
      )
      else (false, t)

  unfoldable pub get_row_hlc : QString → ℤ → Tables U → ℕ
  unfolding stored_hlc
  get_row_hlc table rowid t =
      if sqlite.runs select_row_hlc t then stored_hlc table rowid t.row_hlcs else 0

  -- The tables are created if they do not exist; a table that does not exist is an empty list here.
  unfoldable pub init_sync_metadata : QString → Tables U → Bool × Tables U
  unfolding has_client
  init_sync_metadata client_identifier t =
      if sqlite.runs create_applied t
        && (sqlite.runs create_row_hlc t
            && (sqlite.runs create_client t && sqlite.runs insert_client t))
      then (
        true,
        (if has_client client_identifier t.clients
            then t
            else record t { clients = t.clients ++ client_identifier ∷ [] }),
      )
      else (false, t)
