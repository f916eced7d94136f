-- ===== src/Engine/Arrival.antt =====
-- A changeset on its way from `endWrite` of one client to `sync` of another one.
use qsqlite_sync_engine.Prelude.{ℕ, ◌^◌, ◌<◌, ◌≡◌, ◌≢◌, ltb_ℤ, ◌∙◌, true, false, [], arith, IsInt32}
use qsqlite_sync_engine.Text.{QString, Lacks}
use qsqlite_sync_engine.Qt.{Qt, QtLaws}
use qsqlite_sync_engine.Sqlite.{Bytes, Sqlite, Tables}
use qsqlite_sync_engine.Metadata.{has_applied, is_changeset_applied}
use qsqlite_sync_engine.Database.{is_empty, end_session, begin_session}
use qsqlite_sync_engine.Transport.{Transport, StoresFiles}
use qsqlite_sync_engine.Manager.{write_changeset}
use qsqlite_sync_engine.Manager.Writing.{next_filename}
use qsqlite_sync_engine.Engine.{SyncEngine, with_db, clock_now}
use qsqlite_sync_engine.Engine.Sync.{sync}
use qsqlite_sync_engine.Engine.Push.{publish, end_write}
use qsqlite_sync_engine.Engine.Delivered.{next_info, stamp, published_pending}
use qsqlite_sync_engine.Engine.Progress.{BooksRun, applied_names, contains, contains-append}
use qsqlite_sync_engine.Engine.Pulled.{sync-Pulled}
use qsqlite_sync_engine.Engine.Marking.{Lasts, AppliesTo, sync_marks_ready}
use qsqlite_sync_engine.Engine.Ordinary.{OrdinaryFiles}

module _ {U S T : Type 0} (qt : Qt) (laws : QtLaws qt) (sqlite : Sqlite U S)
    (transport : Transport T) (wall wall' : ℕ → ℕ) where
  publish_name :
      (changeset : Bytes) (e : SyncEngine U S T)
      → (publish qt sqlite transport wall changeset e).0 ≢ []
      → (publish qt sqlite transport wall changeset e).0 ≡ next_filename qt (stamp wall e) e.manager
  unfolding publish clock_now write_changeset
  publish_name changeset e h = ground (arith, h)

  -- the changeset that `endWrite` takes from the session, and the engine that publishes it
  abbrev pub taken : SyncEngine U S T → Bytes
  taken a = (end_session sqlite a.db).0

  abbrev ended : SyncEngine U S T → SyncEngine U S T
  ended a = record (with_db (end_session sqlite a.db).1 a) { in_manual_write = false }

  -- what `endWrite` does where it returns a name
  end_write-publish :
      (a : SyncEngine U S T)
      → (end_write qt sqlite transport wall a).0 ≢ []
      → (is_empty (taken a) ≡ false)
        × ((end_write qt sqlite transport wall a).0
            ≡ (publish qt sqlite transport wall (taken a) (ended a)).0)
        × ((end_write qt sqlite transport wall a).1.transport
            ≡ (publish qt sqlite transport wall (taken a) (ended a)).1.transport)
  unfolding end_write begin_session
  end_write-publish a h = ground (arith, h)

  not_marked :
      (id : QString) (t : Tables U)
      → has_applied id t.applied ≡ false
      → is_changeset_applied sqlite id t ≡ false
  unfolding is_changeset_applied
  not_marked id t h = ground (arith, h)

  module _ (IsName : QString → Type 0) (Fits : QString → Bytes → T → Type 0)
      (stores : StoresFiles transport IsName Fits) (books : BooksRun sqlite) where
    -- A changeset that `endWrite` of one client returns a name for gets to another client with its next
    -- `sync`, which marks it as applied and announces it: if the transport keeps to its contract and
    -- had room for the file, the other client looks at the same files, has its connection open, has
    -- not marked that name, and has no lower schema version, and SQLite applies the changeset without
    -- a schema warning to tables that are `Ready`: that other client's are, and neither a changeset nor a
    -- mark takes that away. (The client identifier has no `%`, the name is one that the transport is meant
    -- for, no file of the folder names a table of the sync engine, the statements on the bookkeeping
    -- tables run, and SQLite writes no table that a changeset does not name and rolls a run back that
    -- fails.)
    pub written_arrives :
        (a b : SyncEngine U S T)
        → Lacks b'%' a.db.client_identifier
        → IsInt32 a.manager.schema_ver
        → a.manager.sequence < 2 ^ 64
        → IsName (next_filename qt (stamp wall a) a.manager)
        → Fits (next_filename qt (stamp wall a) a.manager) (taken a) a.transport
        → (end_write qt sqlite transport wall a).0 ≢ []
        → b.transport ≡ (end_write qt sqlite transport wall a).1.transport
        → has_applied (end_write qt sqlite transport wall a).0 b.db.tables.applied ≡ false
        → OrdinaryFiles sqlite transport b.transport
        → b.db.handle ≡ true
        → ltb_ℤ b.current_schema_version a.manager.schema_ver ≡ false
        → (Ready : Tables U → Type 0) → Lasts sqlite Ready
        → AppliesTo sqlite Ready (taken a)
        → Ready b.db.tables
        → let name = (end_write qt sqlite transport wall a).0 in
          let after = (sync qt sqlite transport wall' b).1 in
          (has_applied name after.db.tables.applied ≡ true)
          × (contains name (applied_names after.signals) ≡ true)
    unfolding end_session clock_now
    written_arrives a b hc hv hs named fits published same new files opened allowed Ready lasts
          applies ready =
        let (full, name_is, moved) = end_write-publish a published in
        let name = next_filename qt (stamp wall a) a.manager in
        let published' : (publish qt sqlite transport wall (taken a) (ended a)).0 ≢ [] =
          λ e. published (name_is ∙ e) in
        let e : (end_write qt sqlite transport wall a).0 ≡ name =
          name_is ∙ publish_name (taken a) (ended a) published' in
        let new' : has_applied name b.db.tables.applied ≡ false = rw e at new in
        let found =
          published_pending qt laws sqlite transport IsName Fits stores wall (taken a) (ended a)
            b.manager hc hv hs named fits published' (same ∙ moved)
            (not_marked name b.db.tables new') in
        let marked =
          sync_marks_ready qt sqlite transport wall' IsName Fits stores books (taken a) full Ready
            lasts applies (next_info qt (stamp wall a) a.manager) b files found.1 allowed opened
            ready found.0 in
        let progress = (sync-Pulled qt sqlite transport wall' books b files).progress in
        rw e (
          marked,
          ground (
            arith,
            marked,
            new',
            progress.marked name,
            progress.announced,
            contains-append name (applied_names b.signals)
                (sync-Pulled qt sqlite transport wall' books b files).names,
          ),
        )
