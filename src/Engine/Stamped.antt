-- ===== src/Engine/Stamped.antt =====
-- Which rows `recordRowHlcs` stamps.
use qsqlite_sync_engine.Prelude.{
  ℕ, ℤ, eq_ℤ, ◌≡◌, refl, Bool, true, false, not, ◌&&◌, ◌||◌, Option, none, some, List, [], ◌∷◌,
  arith, if◌then◌else◌,
}
use qsqlite_sync_engine.Text.{QString, codes, str_eq, str_eq_iff, starts_with}
use qsqlite_sync_engine.Sqlite.{
  Bytes, Tables, Sqlite, Op, insert, update, delete, Change, replace_row_hlc,
}
use qsqlite_sync_engine.Metadata.{stored_hlc}
use qsqlite_sync_engine.Metadata.Laws.{stored_hlc-update}
use qsqlite_sync_engine.Engine.Rows.{
  recorded_pk, record_table, record_changes, record_iterated, record_row_hlcs,
}

abbrev is_pk : ℤ → Option ℤ → Bool
is_pk rowid none = false
is_pk rowid (some pk) = eq_ℤ pk rowid

abbrev is_of : QString → Option QString → Bool
is_of table none = false
is_of table (some t) = str_eq t table

-- The row that a change is of: the one that an INSERT makes, and the one that was there before an
-- UPDATE or a DELETE.
abbrev pub key_of : Op → Option ℤ → Option ℤ → Option ℤ
key_of insert new old = new
key_of update new old = old
key_of delete new old = old

-- One of the changes is of this row.
abbrev pub touches : QString → ℤ → List Change → Bool
touches table rowid [] = false
touches table rowid (c ∷ cs) =
    (is_of table c.table && is_pk rowid (key_of c.op c.new_pk c.old_pk)) || touches table rowid cs

abbrev pub touched_rows : QString → ℤ → Option (List Change) → Bool
touched_rows table rowid none = false
touched_rows table rowid (some cs) = touches table rowid cs

module _ {U S : Type 0} (sqlite : Sqlite U S)
    (runs : (t : Tables U) → sqlite.runs replace_row_hlc t ≡ true) (client_id : QString)
    (hlc : ℕ) where
  -- an application's table
  abbrev is_own : QString → Bool
  is_own table = not (starts_with table (codes "_sync_"))

  record_table_lem :
      (table : QString) (rowid : ℤ) (name : Option QString) (pk : Option ℤ) (t : Tables U)
      → stored_hlc table rowid (record_table sqlite client_id hlc name pk t).row_hlcs ≡ (
          if is_own table && (is_of table name && is_pk rowid pk)
          then hlc
          else stored_hlc table rowid t.row_hlcs)
  unfolding record_table
  record_table_lem table rowid none pk t = ground arith
  record_table_lem table rowid (some name) none t = ground arith
  record_table_lem table rowid (some name) (some pk) t = ground (
    arith,
    stored_hlc-update sqlite name table pk rowid hlc client_id t (runs t),
    str_eq_iff name table,
  )

  recorded_pk_lem : (op : Op) (c : Change) → recorded_pk op c ≡ key_of op c.new_pk c.old_pk
  unfolding recorded_pk
  recorded_pk_lem insert c = refl
  recorded_pk_lem update c = refl
  recorded_pk_lem delete c = refl

  record_changes_lem :
      (table : QString) (rowid : ℤ) (cs : List Change) (t : Tables U)
      → stored_hlc table rowid (record_changes sqlite client_id hlc cs t).row_hlcs ≡ (
          if is_own table && touches table rowid cs then hlc else stored_hlc table rowid t.row_hlcs)
  unfolding record_changes
  record_changes_lem table rowid [] t = ground arith
  record_changes_lem table rowid (c ∷ cs) t = ground (
    arith,
    record_changes_lem table rowid cs
        (record_table sqlite client_id hlc c.table (recorded_pk c.op c) t),
    record_table_lem table rowid c.table (recorded_pk c.op c) t,
    recorded_pk_lem c.op c,
  )

  record_iterated_lem :
      (table : QString) (rowid : ℤ) (changes : Option (List Change)) (t : Tables U)
      → stored_hlc table rowid (record_iterated sqlite client_id hlc changes t).row_hlcs ≡ (
          if is_own table && touched_rows table rowid changes
          then hlc
          else stored_hlc table rowid t.row_hlcs)
  unfolding record_iterated
  record_iterated_lem table rowid none t = ground arith
  record_iterated_lem table rowid (some cs) t = record_changes_lem table rowid cs t

  -- After `recordRowHlcs` the timestamp of the changeset is recorded for each row that the changeset
  -- changes (by column 0 of the new values of an INSERT and of the old values otherwise) of a table
  -- whose name does not begin with "_sync_", and the timestamp of every other row, of those tables and
  -- of the others, is as before. (The statement that records a timestamp runs.)
  pub record_row_hlcs_lem :
      (table : QString) (rowid : ℤ) (changeset : Bytes) (t : Tables U)
      → stored_hlc table rowid (record_row_hlcs sqlite client_id hlc changeset t).row_hlcs ≡ (
          if not (starts_with table (codes "_sync_"))
            && touched_rows table rowid (sqlite.changeset_iterate changeset)
          then hlc
          else stored_hlc table rowid t.row_hlcs)
  unfolding record_row_hlcs
  record_row_hlcs_lem table rowid changeset t =
      record_iterated_lem table rowid (sqlite.changeset_iterate changeset) t
