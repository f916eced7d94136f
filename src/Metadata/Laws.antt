-- ===== src/Metadata/Laws.antt =====
-- What a write to a bookkeeping table changes for a later read.
use qsqlite_sync_engine.Prelude.{
  ℕ, ℤ, eq_ℤ, eq_ℤ_iff, true, ◌&&◌, ◌||◌, none, List, [], ◌∷◌, ◌++◌, if◌then◌else◌, ◌≡◌, arith,
}
use qsqlite_sync_engine.Text.{QString, str_eq, str_eq_iff}
use qsqlite_sync_engine.Sqlite.{Applied, RowHlc, Tables, Sqlite, insert_applied, replace_row_hlc}
use qsqlite_sync_engine.Metadata.{
  has_applied, find_row, remove_row, stored_hlc, mark_changeset_applied, update_row_hlc,
}

has_applied-append :
    (id : QString) (rows : List Applied) (a : Applied)
    → has_applied id (rows ++ a ∷ []) ≡ (has_applied id rows || str_eq a.changeset_id id)
unfolding has_applied
has_applied-append id [] a = ground arith
has_applied-append id (b ∷ rows) a = ground (arith, has_applied-append id rows a)

find_row-remove_row :
    (table table' : QString) (rowid rowid' : ℤ) (rows : List RowHlc)
    → find_row table' rowid' (remove_row table rowid rows)
      ≡ (if str_eq table table' && eq_ℤ rowid rowid' then none else find_row table' rowid' rows)
unfolding find_row remove_row
find_row-remove_row table table' rowid rowid' [] = ground arith
find_row-remove_row table table' rowid rowid' (r ∷ rows) = ground (
  arith,
  find_row-remove_row table table' rowid rowid' rows,
  str_eq_iff r.table_name table,
  str_eq_iff r.table_name table',
  str_eq_iff table table',
  eq_ℤ_iff r.rowid rowid,
  eq_ℤ_iff r.rowid rowid',
  eq_ℤ_iff rowid rowid',
)

module _ {U S : Type 0} (sqlite : Sqlite U S) where
  -- The entry that is marked is found, and any other is found as before.
  pub has_applied-mark :
      (client id id' : QString) (hlc : ℕ) (t : Tables U)
      → sqlite.runs insert_applied t ≡ true
      → has_applied id' (mark_changeset_applied sqlite client id hlc t).1.applied
        ≡ (str_eq id id' || has_applied id' t.applied)
  unfolding mark_changeset_applied
  has_applied-mark client id id' hlc t h = ground (
    arith,
    has_applied-append id' t.applied (record { changeset_id = id; client_id = client; hlc = hlc }),
    str_eq_iff id id',
  )

  pub stored_hlc-update :
      (table table' : QString) (rowid rowid' : ℤ) (hlc : ℕ) (client : QString) (t : Tables U)
      → sqlite.runs replace_row_hlc t ≡ true
      → stored_hlc table' rowid' (update_row_hlc sqlite table rowid hlc client t).1.row_hlcs ≡ (
          if str_eq table table' && eq_ℤ rowid rowid'
          then hlc
          else stored_hlc table' rowid' t.row_hlcs)
  unfolding update_row_hlc stored_hlc
  stored_hlc-update table table' rowid rowid' hlc client t h =
      ground (arith, find_row-remove_row table table' rowid rowid' t.row_hlcs)
