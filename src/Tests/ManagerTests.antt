-- ===== src/Tests/ManagerTests.antt =====
-- A manager over the toy database and a folder.
use mathlib.Core.List.{Perm}
use qsqlite_sync_engine.Prelude.{
  ℕ, pos, ◌≡◌, ◌≢◌, ◌⊎◌, refl, some, true, false, ◌||◌, List, [], ◌∷◌, map, arith, select,
}
use qsqlite_sync_engine.Text.{codes, str_eq}
use qsqlite_sync_engine.Clock.{u64}
use qsqlite_sync_engine.Filename.{parse_filename, build_filename}
use qsqlite_sync_engine.Metadata.{has_applied}
use qsqlite_sync_engine.Manager.{ChangesetManager, write_changeset, pending_changesets}
use qsqlite_sync_engine.Manager.Pending.{is_pending, pending_changesets_lem}
use qsqlite_sync_engine.Manager.Sort.{IsSorted}
use qsqlite_sync_engine.Manager.Writing.{next_filename, write_changeset_cases}
use qsqlite_sync_engine.Tests.Decimal.{decimal_qt}
use qsqlite_sync_engine.Tests.Toy.{toy, Files, folder, empty_tables}

abbrev manager : ChangesetManager ℕ ℕ Files
manager = record {
  db = record {
    db_path = [];
    client_identifier = codes "a";
    handle = true;
    owns_handle = false;
    session = some 0;
    hlc_clock = 0;
    tables = empty_tables;
  };
  transport = (codes "b_20_1_v0.changeset", 8 ∷ []) ∷ (codes "c_10_1_v0.changeset", 7 ∷ []) ∷ [];
  sequence = 4;
  schema_ver = pos 0;
}

abbrev after_write : ChangesetManager ℕ ℕ Files
after_write = (write_changeset decimal_qt toy folder (5 ∷ []) 65536 manager).1

pending_changesets_lem_example :
    IsSorted (pending_changesets decimal_qt toy folder manager).0
    × Perm (pending_changesets decimal_qt toy folder manager).0 (
        map (parse_filename decimal_qt) (
          select
            (is_pending decimal_qt toy manager.db.tables)
            (folder.list_changesets manager.transport).0))
pending_changesets_lem_example = pending_changesets_lem decimal_qt toy folder manager

not_empty : ◌≢◌ {A = List ℕ} (5 ∷ []) []
not_empty e = ground arith

write_changeset_cases_example :
    (after_write.sequence ≡ u64 5)
    × (((true ≡ false)
          × ((write_changeset decimal_qt toy folder (5 ∷ []) 65536 manager).0 ≡ [])
          × (after_write.db ≡ manager.db))
        ⊎ ((true ≡ true)
            × ((write_changeset decimal_qt toy folder (5 ∷ []) 65536 manager).0
                ≡ next_filename decimal_qt 65536 manager)
            × (has_applied (codes "x") after_write.db.tables.applied ≡ (
                str_eq (next_filename decimal_qt 65536 manager) (codes "x")
                || has_applied (codes "x") []))))
write_changeset_cases_example =
    write_changeset_cases decimal_qt toy folder (5 ∷ []) 65536 manager (codes "x") not_empty refl

written : (write_changeset decimal_qt toy folder (5 ∷ []) 65536 manager).0 ≢ []
unfolding write_changeset build_filename decimal_qt
written e = ground arith

written_again : (write_changeset decimal_qt toy folder (6 ∷ []) 65536 after_write).0 ≢ []
unfolding write_changeset build_filename decimal_qt
written_again e = ground arith
