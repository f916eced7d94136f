-- ===== src/Tests/DatabaseTests.antt =====
-- Changesets applied to the toy database.
use qsqlite_sync_engine.Prelude.{
  ℕ, pos, ◌≡◌, ◌≢◌, ◌⊎◌, inl, refl, true, false, Option, some, none, List, [], ◌∷◌, arith,
}
use qsqlite_sync_engine.Text.{QString, codes, str_eq, starts_with}
use qsqlite_sync_engine.Sqlite.{Bytes, Sqlite, conflict, changed_data}
use qsqlite_sync_engine.Metadata.{stored_hlc}
use qsqlite_sync_engine.Conflict.{ConflictHandler, replace, handler, sync_prefix}
use qsqlite_sync_engine.Database.{SyncableDatabase, is_empty, apply_changeset}
use qsqlite_sync_engine.Database.Applying.{
  steps_of, returns_ok, schema_messages, left_by, schema_warnings, apply_changeset_reports,
}
use qsqlite_sync_engine.Database.Monotone.{Grows, apply_changeset-Grows}
use qsqlite_sync_engine.Database.Stale.{stale_change_replaces}
use qsqlite_sync_engine.Database.Versions.{Version, Agree, IsWithin}
use qsqlite_sync_engine.Database.Convergence.{
  answers, MeetsRow, receive_all, Holds, clients_converge,
}
use qsqlite_sync_engine.Tests.Toy.{toy, put, empty_tables, toy-KeepsBookkeeping, toy-IsOrdinary}

abbrev open_db : SyncableDatabase ℕ ℕ
open_db = record {
  db_path = [];
  client_identifier = codes "a";
  handle = true;
  owns_handle = false;
  session = none;
  hlc_clock = 0;
  tables = empty_tables;
}

abbrev resolver : Option (ConflictHandler ℕ)
resolver = some (handler toy (codes "a") 30 (codes "b"))

abbrev missing_table : Bytes
missing_table = 99 ∷ []

not_empty : missing_table ≢ []
not_empty e = ground arith

apply_changeset_reports_example :
    ((returns_ok resolver (steps_of toy missing_table open_db) open_db.tables ≡ false)
      × (apply_changeset toy missing_table resolver open_db ≡ (
        record { success = false; warnings = [] },
        record open_db {
          tables = left_by resolver (steps_of toy missing_table open_db) open_db.tables;
        },
      )))
    ⊎ ((returns_ok resolver (steps_of toy missing_table open_db) open_db.tables ≡ true)
        × (apply_changeset toy missing_table resolver open_db ≡ (
            let messages =
              schema_messages resolver (steps_of toy missing_table open_db) open_db.tables in
            (
              record { success = is_empty messages; warnings = schema_warnings messages },
              record open_db {
                tables = left_by resolver (steps_of toy missing_table open_db) open_db.tables;
              },
            ))))
apply_changeset_reports_example =
    apply_changeset_reports toy missing_table resolver open_db refl not_empty

apply_changeset-Grows_example :
    Grows open_db.tables (apply_changeset toy (7 ∷ []) resolver open_db).1.tables
apply_changeset-Grows_example =
    apply_changeset-Grows toy (λ t. refl) (codes "a") 30 (codes "b") (7 ∷ []) open_db
      toy-KeepsBookkeeping (toy-IsOrdinary (7 ∷ []))

pub is_foreign : starts_with (codes "items") sync_prefix ≡ false
unfolding starts_with
is_foreign = refl

stale_change_replaces_example :
    (handler toy
      (codes "a")
      10
      (codes "c")
      changed_data
      (codes "items")
      (some (pos 1))
      (apply_changeset toy (7 ∷ []) resolver open_db).1.tables).0
    ≡ replace
stale_change_replaces_example =
    stale_change_replaces toy (codes "a") (codes "b") (codes "c") (codes "items") 30 10 (pos 1)
      (7 ∷ []) changed_data open_db (omega arith) (omega arith) (λ t. refl)
      (unfold stored_hlc in refl) (inl refl) is_foreign

abbrev first : Bytes → ℕ
first [] = 0
first (v ∷ rest) = v

-- a database that reports every change as a conflict on the row
abbrev pub busy_row : Sqlite ℕ ℕ
busy_row = record toy {
  changeset_apply = λ changeset t.
      conflict changed_data (some (codes "items")) (some (pos 1))
        (answers t (put (first changeset)) (λ t'. t'));
}

abbrev pub version : ℕ → QString → ℕ → Version ℕ
version hlc client v = record { hlc = hlc; client = client; row = v; changeset = v ∷ [] }

pub version-MeetsRow :
    (hlc : ℕ) (client : QString) (v : ℕ)
    → MeetsRow busy_row (codes "items") (pos 1) (λ u. u) (version hlc client v)
version-MeetsRow hlc client v = record {
  written = put v;
  kept = λ t. t;
  nonempty = refl;
  steps = λ t. refl;
  written_row = λ t. refl;
  written_hlcs = λ t. refl;
  kept_row = λ t. refl;
  kept_hlcs = λ t. refl;
}

abbrev holding : QString → ℕ → ℕ → SyncableDatabase ℕ ℕ
holding client hlc v = record open_db {
  client_identifier = client;
  tables = record empty_tables {
    user = v;
    row_hlcs =
        (record { table_name = codes "items"; rowid = pos 1; hlc = hlc; client_id = client }) ∷ [];
  };
}

holding-Holds :
    (client : QString) (hlc v : ℕ)
    → Holds busy_row (codes "items") (pos 1) (λ u. u) (holding client hlc v) (version hlc client v)
unfolding stored_hlc str_eq
holding-Holds client hlc v = record { opened = refl; stamped = refl; held = refl }

abbrev pub from_a : Version ℕ
from_a = version 20 (codes "a") 5

abbrev pub from_b : Version ℕ
from_b = version 30 (codes "b") 6

abbrev pub from_c : Version ℕ
from_c = version 10 (codes "c") 7

-- the client "a" gets the changes in one order, "b" in another one, and the first of them twice
abbrev to_a : List (Version ℕ)
to_a = from_c ∷ from_b ∷ []

abbrev to_b : List (Version ℕ)
to_b = from_a ∷ from_c ∷ from_a ∷ []

agree : Agree (from_a ∷ to_a)
agree c d mc md e = ground arith

left : IsWithin (from_a ∷ to_a) (from_b ∷ to_b)
left c m = ground arith

right : IsWithin (from_b ∷ to_b) (from_a ∷ to_a)
right c m = ground arith

abbrev at_a : SyncableDatabase ℕ ℕ
at_a = receive_all busy_row (codes "items") (pos 1) (λ u. u) to_a (holding (codes "a") 20 5)

abbrev at_b : SyncableDatabase ℕ ℕ
at_b = receive_all busy_row (codes "items") (pos 1) (λ u. u) to_b (holding (codes "b") 30 6)

clients_converge_example :
    (at_a.tables.user ≡ at_b.tables.user)
    × (stored_hlc (codes "items") (pos 1) at_a.tables.row_hlcs
        ≡ stored_hlc (codes "items") (pos 1) at_b.tables.row_hlcs)
clients_converge_example =
    let v10 = version-MeetsRow 10 (codes "c") 7 in
    let v20 = version-MeetsRow 20 (codes "a") 5 in
    clients_converge busy_row (codes "items") (pos 1) (λ u. u) (λ t. refl) (λ t. refl) is_foreign
      from_a from_b to_a to_b (holding (codes "a") 20 5) (holding (codes "b") 30 6)
      (holding-Holds (codes "a") 20 5) (holding-Holds (codes "b") 30 6)
      (v10, (version-MeetsRow 30 (codes "b") 6, tt)) (v20, (v10, (v20, tt))) agree left right
