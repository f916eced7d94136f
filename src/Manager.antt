-- ===== src/Manager.antt =====
-- `ChangesetManager` of src/syncengine/ChangesetManager.{h,cpp}: writing changeset files and finding
-- those that are still to be applied. (Their names are in Filename.)
pub mod Sort
pub mod Pending
pub mod Writing
use Sort.{sort}
use qsqlite_sync_engine.Prelude.{ℕ, ◌+◌, ℤ, Bool, true, false, List, [], ◌∷◌, if◌then◌else◌}
use qsqlite_sync_engine.Text.{QString}
use qsqlite_sync_engine.Qt.{Qt}
use qsqlite_sync_engine.Clock.{u64}
use qsqlite_sync_engine.Filename.{ChangesetInfo, build_filename, parse_filename}
use qsqlite_sync_engine.Sqlite.{Bytes, Tables, Sqlite}
use qsqlite_sync_engine.Metadata.{mark_changeset_applied, is_changeset_applied}
use qsqlite_sync_engine.Database.{SyncableDatabase, is_empty}
use qsqlite_sync_engine.Transport.{Transport}

-- The manager, with the database and the transport that it has pointers to.
pub record ChangesetManager (U S T : Type 0) : Type 0 where
  pub db : SyncableDatabase U S
  pub transport : T
  pub sequence : ℕ
  pub schema_ver : ℤ

module _ {U S : Type 0} (qt : Qt) (sqlite : Sqlite U S) where
  -- the loop over the files, before the sort
  unfoldable pub unapplied : Tables U → List QString → List ChangesetInfo
  unapplied t [] = []
  unapplied t (file ∷ files) =
      let rest = unapplied t files in
      let info = parse_filename qt file in
      if is_changeset_applied sqlite file t
      then rest
      else if is_empty info.filename
      then rest
      else info ∷ rest

module _ {U S T : Type 0} (qt : Qt) (sqlite : Sqlite U S) (transport : Transport T) where
  mark_written : QString → ℕ → ChangesetManager U S T → QString × ChangesetManager U S T
  mark_written filename hlc m =
      let t = (mark_changeset_applied sqlite m.db.client_identifier filename hlc m.db.tables).1 in
      (filename, record m { db = record m.db { tables = t } })

  -- The file name that is used, or an empty text on failure.
  unfoldable pub write_changeset :
      Bytes → ℕ → ChangesetManager U S T → QString × ChangesetManager U S T
  unfolding mark_written
  write_changeset changeset hlc m =
      if is_empty changeset
      then ([], m)
      else let filename = build_filename qt m.db.client_identifier hlc m.sequence m.schema_ver in
        let (ok, stored) = transport.write_changeset filename changeset m.transport in
        let m' = record m { transport = stored; sequence = u64 (m.sequence + 1) } in
        if ok then mark_written filename hlc m' else ([], m')

  unfoldable pub pending_changesets :
      ChangesetManager U S T → List ChangesetInfo × ChangesetManager U S T
  unfolding sort
  pending_changesets m =
      let (files, stored) = transport.list_changesets m.transport in
      (sort (unapplied qt sqlite m.db.tables files), record m { transport = stored })
