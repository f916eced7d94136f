-- ===== src/Database/Monotone.antt =====
-- The timestamps that are recorded for rows never go back.
use native.Mathlib.Nat.{le_trans, le_refl}
use qsqlite_sync_engine.Prelude.{
  ℕ, ℤ, ◌≤◌, ◌≡◌, inl, inr, refl, ◌∙◌, true, false, All, Option, none, some, List, [], arith,
  eq_ℤ_iff, Bool-cases, map,
}
use qsqlite_sync_engine.Text.{QString, str_eq_iff, starts_with}
use qsqlite_sync_engine.Sqlite.{
  Bytes, Tables, Sqlite, Apply, Change, finish, log, conflict, Reply, ConflictType, select_row_hlc,
  replace_row_hlc, changed_data, existing_row, constraint, foreign_key,
}
use qsqlite_sync_engine.Schema.Like.{fold_case}
use qsqlite_sync_engine.Metadata.{stored_hlc, update_row_hlc, get_row_hlc}
use qsqlite_sync_engine.Metadata.Laws.{stored_hlc-update}
use qsqlite_sync_engine.LogCapture.{ActiveGuard, log_callback}
use qsqlite_sync_engine.Conflict.{
  resolve, handler, conflict_callback, by_type, sync_prefix, rowid_of, table_or_empty,
}
use qsqlite_sync_engine.Conflict.LastWriter.{resolve_decides}
use qsqlite_sync_engine.Database.Applying.{apply_changeset-tables}
use qsqlite_sync_engine.Database.{SyncableDatabase, run_apply, apply_changeset}

-- A run that began with the tables `before`: what SQLite writes itself leaves the bookkeeping tables
-- alone where the run succeeds, and a run that fails is rolled back.
abbrev pub KeepsBooks : {U : Type 0} → Tables U → Apply U → Type 0
KeepsBooks {U} before (finish true write) =
    (t : Tables U) → ((write t).row_hlcs ≡ t.row_hlcs) × ((write t).applied ≡ t.applied)
KeepsBooks {U} before (finish false write) = (t : Tables U) → write t ≡ before
KeepsBooks before (log code message rest) = KeepsBooks before rest
KeepsBooks before (conflict type table pk rest) = (r : Reply) → KeepsBooks before (rest r)

abbrev iterated : Option (List Change) → List Change
iterated none = []
iterated (some changes) = changes

-- The changeset names no table of the sync engine, in whatever case of the letters. (One that a client
-- publishes of what `sync` itself wrote does.)
abbrev pub IsOrdinary : {U S : Type 0} → Sqlite U S → Bytes → Type 0
IsOrdinary sqlite changeset =
    All (λ (c : Change). starts_with (map fold_case (table_or_empty c.table)) sync_prefix ≡ false)
      (iterated (sqlite.changeset_iterate changeset))

-- SQLite writes no table that a changeset does not name, where the application has no trigger on
-- its tables that writes those of the sync engine, and rolls a run back that fails.
abbrev pub KeepsBookkeeping : {U S : Type 0} → Sqlite U S → Type 0
KeepsBookkeeping {U} sqlite =
    (changeset : Bytes) (t : Tables U)
    → IsOrdinary sqlite changeset
    → KeepsBooks t (sqlite.changeset_apply changeset t)

-- every row's timestamp is at least what it was, and the same changesets are marked
pub record Grows {U : Type 0} (before after : Tables U) : Type 0 where
  pub rows :
      (table : QString) (rowid : ℤ)
      → stored_hlc table rowid before.row_hlcs ≤ stored_hlc table rowid after.row_hlcs
  pub marks : after.applied ≡ before.applied

Grows-refl : {U : Type 0} (t : Tables U) → Grows t t
Grows-refl t = record { rows = λ table rowid. le_refl _; marks = refl }

Grows-trans : {U : Type 0} {a b c : Tables U} → Grows a b → Grows b c → Grows a c
Grows-trans g h = record {
  rows = λ table rowid. le_trans (g.rows table rowid) (h.rows table rowid);
  marks = h.marks ∙ g.marks;
}

module _ {U S : Type 0} (sqlite : Sqlite U S)
    (selects : (t : Tables U) → sqlite.runs select_row_hlc t ≡ true) where
  update-Grows :
      (table : QString) (rowid : ℤ) (hlc : ℕ) (client : QString) (t : Tables U)
      → stored_hlc table rowid t.row_hlcs ≤ hlc
      → Grows t (update_row_hlc sqlite table rowid hlc client t).1
  update-Grows table rowid hlc client t h = elim (Bool-cases (sqlite.runs replace_row_hlc t)) [
    | inl runs ↦ record {
      rows = λ table' rowid'.
          rw (stored_hlc-update sqlite table table' rowid rowid' hlc client t runs)
            (ground (arith, str_eq_iff table table', eq_ℤ_iff rowid rowid'));
      marks = unfold update_row_hlc in rw runs;
    }
    | inr fails ↦ unfold update_row_hlc in rw fails (Grows-refl t)
  ]

  resolve-Grows :
      (local_client : QString) (hlc : ℕ) (client table : QString) (rowid : ℤ) (t : Tables U)
      → Grows t (resolve sqlite local_client hlc client table rowid t).1
  resolve-Grows local_client hlc client table rowid t =
      elim (resolve_decides sqlite local_client client table hlc rowid t) [
        | inl won ↦ rw won.1 (
            update-Grows table rowid hlc client t (unfold get_row_hlc in ground (arith, selects t)))
        | inr lost ↦ rw lost.1 (Grows-refl t)
      ]

  handler-Grows :
      (local_client : QString) (hlc : ℕ) (client : QString) (type : ConflictType) (table : QString)
      (pk : Option ℤ) (t : Tables U)
      → Grows t (handler sqlite local_client hlc client type table pk t).1
  unfolding handler
  handler-Grows local_client hlc client type table pk t =
      elim (Bool-cases (starts_with table sync_prefix)) [
        | inl own ↦ rw own (Grows-refl t)
        | inr foreign ↦ rw foreign (by_kind type)
      ]
    where
      by_kind :
          (k : ConflictType)
          → Grows t (by_type sqlite k local_client hlc client table (rowid_of pk) t).1
      by_kind changed_data = resolve-Grows local_client hlc client table (rowid_of pk) t
      by_kind existing_row = resolve-Grows local_client hlc client table (rowid_of pk) t
      by_kind _ = Grows-refl t

  callback-Grows :
      (local_client : QString) (hlc : ℕ) (client : QString) (type : ConflictType)
      (table : Option QString) (pk : Option ℤ) (t : Tables U)
      → Grows t
          (conflict_callback (some (handler sqlite local_client hlc client)) type table pk t).1
  unfolding conflict_callback
  callback-Grows local_client hlc client constraint table pk t = Grows-refl t
  callback-Grows local_client hlc client foreign_key table pk t = Grows-refl t
  callback-Grows local_client hlc client type table pk t =
      handler-Grows local_client hlc client type (table_or_empty table) pk t

  run_apply-Grows :
      (local_client : QString) (hlc : ℕ) (client : QString) (before : Tables U) (steps : Apply U)
      (t : Tables U) (g : ActiveGuard)
      → KeepsBooks before steps
      → Grows before t
      → Grows before (run_apply (some (handler sqlite local_client hlc client)) steps t g).tables
  unfolding run_apply
  run_apply-Grows local_client hlc client before (finish false write) t g h so_far =
      rw (h t) (Grows-refl before)
  run_apply-Grows local_client hlc client before (finish true write) t g h so_far =
      Grows-trans so_far
        (record { rows = λ table rowid. rw ((h t).0) (le_refl _); marks = (h t).1 })
  run_apply-Grows local_client hlc client before (log code message rest) t g h so_far =
      run_apply-Grows local_client hlc client before rest t (log_callback code message g) h so_far
  run_apply-Grows local_client hlc client before (conflict type table pk rest) t g h so_far =
      let answer =
        conflict_callback (some (handler sqlite local_client hlc client)) type table pk t in
      run_apply-Grows local_client hlc client before (rest answer.0) answer.1 g (h answer.0)
        (Grows-trans so_far (callback-Grows local_client hlc client type table pk t))

  -- Applying a changeset with the conflict resolver, whether it succeeds or fails, never lowers the
  -- timestamp recorded for any row, and marks no changeset as applied, if the changeset names no table
  -- of the sync engine, the timestamps can be read, and SQLite writes no table that a changeset does
  -- not name and rolls a run back that fails.
  pub apply_changeset-Grows :
      (local_client : QString) (hlc : ℕ) (client : QString) (changeset : Bytes)
      (db : SyncableDatabase U S)
      → KeepsBookkeeping sqlite
      → IsOrdinary sqlite changeset
      → Grows db.tables
          (apply_changeset sqlite changeset
            (some (handler sqlite local_client hlc client))
            db).1.tables
  apply_changeset-Grows local_client hlc client changeset db keeps ordinary =
      let h' = some (handler sqlite local_client hlc client) in
      elim (apply_changeset-tables sqlite changeset h' db) [
        | inl same ↦ rw same (Grows-refl db.tables)
        | inr ran ↦ rw ran (
            run_apply-Grows local_client hlc client db.tables
              (sqlite.changeset_apply changeset db.tables) db.tables (some [])
              (keeps changeset db.tables ordinary) (Grows-refl db.tables))
      ]
