-- ===== src/Tests/ConvergingTests.antt =====
-- Two clients that call `sync` over one folder.
use qsqlite_sync_engine.Prelude.{ℕ, pos, ◌≡◌, refl, select, false, List, [], ◌∷◌, arith, ltb_ℤ}
use qsqlite_sync_engine.Text.{
  QString, codes, str_eq, str_lt, split, join, ends_with, chop, last, remove_last,
}
use qsqlite_sync_engine.Filename.{ChangesetInfo, parse_filename, base_name, parse_parts}
use qsqlite_sync_engine.Metadata.{has_applied, is_changeset_applied, stored_hlc}
use qsqlite_sync_engine.SharedFolder.{read_file, list_files}
use qsqlite_sync_engine.SharedFolder.Laws.{IsName, Fits}
use qsqlite_sync_engine.Manager.{unapplied, pending_changesets}
use qsqlite_sync_engine.Manager.Sort.{sort}
use qsqlite_sync_engine.Database.Versions.{Version, Agree, IsWithin}
use qsqlite_sync_engine.Database.Convergence.{Holds}
use qsqlite_sync_engine.Engine.{SyncEngine}
use qsqlite_sync_engine.Engine.Sync.{sync}
use qsqlite_sync_engine.Engine.Pulled.{pending}
use qsqlite_sync_engine.Engine.Converging.{Carries, Brings, syncs_converge}
use qsqlite_sync_engine.Tests.DatabaseTests.{
  busy_row, version, version-MeetsRow, from_a, from_b, from_c, is_foreign,
}
use qsqlite_sync_engine.Tests.Decimal.{decimal_qt}
use qsqlite_sync_engine.Tests.Disk.{Disk, disk}
use qsqlite_sync_engine.Tests.SyncTests.{fs, folder, stores, wall, client, entry}

-- one folder with a file of each of three clients, and two clients that know their own file
abbrev shared : Disk
shared =
    (record { name = codes "a_20_1_v0.changeset"; bytes = 5 ∷ [] })
    ∷ (record { name = codes "b_30_1_v0.changeset"; bytes = 6 ∷ [] })
    ∷ (record { name = codes "c_10_1_v0.changeset"; bytes = 7 ∷ [] })
    ∷ []

abbrev knowing : QString → QString → ℕ → ℕ → SyncEngine ℕ ℕ Disk
knowing id own hlc v =
    client id hlc
      (record {
        user = v;
        applied = (record { changeset_id = own; client_id = id; hlc = hlc }) ∷ [];
        row_hlcs =
            (record { table_name = codes "items"; rowid = pos 1; hlc = hlc; client_id = id }) ∷ [];
        clients = [];
      })
      shared

abbrev client_a : SyncEngine ℕ ℕ Disk
client_a = knowing (codes "a") (codes "a_20_1_v0.changeset") 20 5

abbrev client_b : SyncEngine ℕ ℕ Disk
client_b = knowing (codes "b") (codes "b_30_1_v0.changeset") 30 6

abbrev file_a : ChangesetInfo
file_a = entry (codes "a_20_1_v0.changeset") (codes "a") 20

abbrev file_b : ChangesetInfo
file_b = entry (codes "b_30_1_v0.changeset") (codes "b") 30

abbrev file_c : ChangesetInfo
file_c = entry (codes "c_10_1_v0.changeset") (codes "c") 10

pending_a : pending decimal_qt busy_row folder wall client_a ≡ file_c ∷ file_b ∷ []
unfolding pending_changesets unapplied is_changeset_applied has_applied parse_filename split
    base_name ends_with chop last parse_parts remove_last decimal_qt list_files disk select join
    sort str_eq str_lt
pending_a = refl

pending_b : pending decimal_qt busy_row folder wall client_b ≡ file_c ∷ file_a ∷ []
unfolding pending_changesets unapplied is_changeset_applied has_applied parse_filename split
    base_name ends_with chop last parse_parts remove_last decimal_qt list_files disk select join
    sort str_eq str_lt
pending_b = refl

client_a-Holds : Holds busy_row (codes "items") (pos 1) (λ u. u) client_a.db from_a
unfolding stored_hlc str_eq
client_a-Holds = record { opened = refl; stamped = refl; held = refl }

client_b-Holds : Holds busy_row (codes "items") (pos 1) (λ u. u) client_b.db from_b
unfolding stored_hlc str_eq
client_b-Holds = record { opened = refl; stamped = refl; held = refl }

abbrev BringsTo : SyncEngine ℕ ℕ Disk → List ChangesetInfo → List (Version ℕ) → Type 0
BringsTo e infos cs =
    Brings decimal_qt busy_row folder wall (codes "items") (pos 1) (λ u. u) e infos cs

carried :
    (e : SyncEngine ℕ ℕ Disk) (filename : QString) (client_id : QString) (hlc v : ℕ)
    → ltb_ℤ e.current_schema_version (pos 0) ≡ false
    → (folder.read_changeset filename e.transport).0 ≡ v ∷ []
    → Carries decimal_qt busy_row folder wall
        (codes "items")
        (pos 1)
        (λ u. u)
        e
        (entry filename client_id hlc)
        (version hlc client_id v)
carried e filename client_id hlc v allowed contents = record {
  allowed = allowed;
  timestamp = refl;
  writer = refl;
  contents = contents;
  meets = version-MeetsRow hlc client_id v;
}

brings_a : BringsTo client_a (file_c ∷ file_b ∷ []) (from_c ∷ from_b ∷ [])
unfolding read_file disk str_eq
brings_a = (
  carried client_a file_c.filename file_c.client_id 10 7 refl refl,
  (carried client_a file_b.filename file_b.client_id 30 6 refl refl, tt),
)

brings_b : BringsTo client_b (file_c ∷ file_a ∷ []) (from_c ∷ from_a ∷ [])
unfolding read_file disk str_eq
brings_b = (
  carried client_b file_c.filename file_c.client_id 10 7 refl refl,
  (carried client_b file_a.filename file_a.client_id 20 5 refl refl, tt),
)

agree : Agree (from_a ∷ from_c ∷ from_b ∷ [])
agree c d mc md e = ground arith

left : IsWithin (from_a ∷ from_c ∷ from_b ∷ []) (from_b ∷ from_c ∷ from_a ∷ [])
left c m = ground arith

right : IsWithin (from_b ∷ from_c ∷ from_a ∷ []) (from_a ∷ from_c ∷ from_b ∷ [])
right c m = ground arith

abbrev synced_a : SyncEngine ℕ ℕ Disk
synced_a = (sync decimal_qt busy_row folder wall client_a).1

abbrev synced_b : SyncEngine ℕ ℕ Disk
synced_b = (sync decimal_qt busy_row folder wall client_b).1

syncs_converge_example :
    (synced_a.db.tables.user ≡ synced_b.db.tables.user)
    × (stored_hlc (codes "items") (pos 1) synced_a.db.tables.row_hlcs
        ≡ stored_hlc (codes "items") (pos 1) synced_b.db.tables.row_hlcs)
syncs_converge_example =
    syncs_converge decimal_qt busy_row folder wall (codes "items") (pos 1) (λ u. u) IsName
      (Fits fs (codes "d")) stores (λ t. refl) (λ t. refl) is_foreign from_a from_b
      (from_c ∷ from_b ∷ []) (from_c ∷ from_a ∷ []) client_a client_b client_a-Holds client_b-Holds
      (rw pending_a brings_a) (rw pending_b brings_b) agree left right
