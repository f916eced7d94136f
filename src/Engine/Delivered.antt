-- ===== src/Engine/Delivered.antt =====
-- What one client writes, as the others find it: a changeset that went through the transport.
use mathlib.Core.List.{Mem}
use qsqlite_sync_engine.Prelude.{ℕ, ◌^◌, ◌<◌, ◌≡◌, ◌≢◌, refl, true, false, [], ◌∷◌, arith, IsInt32}
use qsqlite_sync_engine.Text.{QString, Lacks}
use qsqlite_sync_engine.Qt.{Qt, QtLaws}
use qsqlite_sync_engine.Filename.{ChangesetInfo, parse_filename}
use qsqlite_sync_engine.Filename.RoundTrip.{parse-build}
use qsqlite_sync_engine.Sqlite.{Bytes, Sqlite}
use qsqlite_sync_engine.Metadata.{is_changeset_applied}
use qsqlite_sync_engine.Database.{is_empty}
use qsqlite_sync_engine.Transport.{Transport, StoresFiles}
use qsqlite_sync_engine.Manager.{ChangesetManager, write_changeset, pending_changesets}
use qsqlite_sync_engine.Manager.Pending.{is_pending, listed_pending}
use qsqlite_sync_engine.Manager.Writing.{next_filename}
use qsqlite_sync_engine.Clock.Order.{now-lt}
use qsqlite_sync_engine.Engine.{SyncEngine, clock_now, with_tables}
use qsqlite_sync_engine.Engine.Rows.{record_row_hlcs}
use qsqlite_sync_engine.Engine.Push.{publish}

is_empty-ne : (s : QString) → s ≢ [] → is_empty s ≡ false
is_empty-ne [] h = absurd (h refl)
is_empty-ne (c ∷ s) h = refl

-- the entry of a file that `m` writes
abbrev pub next_info : {U S T : Type 0} → Qt → ℕ → ChangesetManager U S T → ChangesetInfo
next_info qt hlc m = record {
  filename = next_filename qt hlc m;
  client_id = m.db.client_identifier;
  hlc = hlc;
  sequence = m.sequence;
  schema_version = m.schema_ver;
}

-- the timestamp that `publish` gives
abbrev pub stamp : {U S T : Type 0} → (ℕ → ℕ) → SyncEngine U S T → ℕ
stamp wall e = (clock_now wall e).0

module _ {U S T : Type 0} (qt : Qt) (laws : QtLaws qt) (sqlite : Sqlite U S)
    (transport : Transport T) (IsName : QString → Type 0) (Fits : QString → Bytes → T → Type 0)
    (stores : StoresFiles transport IsName Fits) where
  pub stored :
      (changeset : Bytes) (hlc : ℕ) (m : ChangesetManager U S T)
      → (write_changeset qt sqlite transport changeset hlc m).0 ≢ []
      → let name = next_filename qt hlc m in
        (next_filename qt hlc m ≢ [])
        × ((transport.write_changeset name changeset m.transport).0 ≡ true)
        × ((write_changeset qt sqlite transport changeset hlc m).1.transport
            ≡ (transport.write_changeset name changeset m.transport).1)
  unfolding write_changeset
  stored [] hlc m h = absurd (h refl)
  stored (c ∷ cs) hlc m h = ground arith

  pub written_pending :
      (changeset : Bytes) (hlc : ℕ) (m m' : ChangesetManager U S T)
      → Lacks b'%' m.db.client_identifier
      → IsInt32 m.schema_ver
      → m.sequence < 2 ^ 64
      → hlc < 2 ^ 64
      → IsName (next_filename qt hlc m)
      → Fits (next_filename qt hlc m) changeset m.transport
      → (write_changeset qt sqlite transport changeset hlc m).0 ≢ []
      → m'.transport ≡ (write_changeset qt sqlite transport changeset hlc m).1.transport
      → is_changeset_applied sqlite (next_filename qt hlc m) m'.db.tables ≡ false
      → Mem (next_info qt hlc m) (pending_changesets qt sqlite transport m').0
        × ((transport.read_changeset (next_filename qt hlc m) m'.transport).0 ≡ changeset)
  written_pending changeset hlc m m' hc hv hs hh named fits written same new =
      let name = next_filename qt hlc m in
      let (ne, ok, moved) = stored changeset hlc m written in
      let parsed : parse_filename qt name ≡ next_info qt hlc m =
        parse-build qt laws m.db.client_identifier hlc m.sequence m.schema_ver hc hh hs hv in
      let waits : is_pending qt sqlite m'.db.tables name ≡ true =
        rw (new, parsed, is_empty-ne name ne) in
      let listed : Mem name (transport.list_changesets m'.transport).0 =
        rw (same, moved) (stores.list-write name changeset m.transport named ok) in
      (
        rw (← parsed) (listed_pending qt sqlite transport m' name waits listed),
        rw (same, moved) (stores.read-write name changeset m.transport named fits ok),
      )

  module _ (wall : ℕ → ℕ) where
    pub stamp-lt : (e : SyncEngine U S T) → stamp wall e < 2 ^ 64
    unfolding clock_now
    stamp-lt e = now-lt (wall e.wall_reads) e.db.hlc_clock

    -- the manager when `publish` writes the file
    abbrev pub stamped : Bytes → SyncEngine U S T → ChangesetManager U S T
    stamped changeset e =
        let (hlc, e1) = clock_now wall e in
        (with_tables (record_row_hlcs sqlite e1.db.client_identifier hlc changeset e1.db.tables)
          e1).manager

    -- A changeset that a client published, and for which the transport had room, is among the pending
    -- changesets of every other manager that looks at the same files and has no file of that name
    -- marked as applied, with the client, the timestamp, the sequence number and the schema version
    -- that it was published with; and what is read for it is what was published. (The client
    -- identifier has no `%`, and the name is one that the transport is meant for.)
    pub published_pending :
        (changeset : Bytes) (e : SyncEngine U S T) (m' : ChangesetManager U S T)
        → Lacks b'%' e.db.client_identifier
        → IsInt32 e.manager.schema_ver
        → e.manager.sequence < 2 ^ 64
        → IsName (next_filename qt (stamp wall e) e.manager)
        → Fits (next_filename qt (stamp wall e) e.manager) changeset e.transport
        → (publish qt sqlite transport wall changeset e).0 ≢ []
        → m'.transport ≡ (publish qt sqlite transport wall changeset e).1.transport
        → is_changeset_applied sqlite (next_filename qt (stamp wall e) e.manager) m'.db.tables
          ≡ false
        → Mem (next_info qt (stamp wall e) e.manager) (pending_changesets qt sqlite transport m').0
          × ((transport.read_changeset (next_filename qt (stamp wall e) e.manager) m'.transport).0
              ≡ changeset)
    unfolding publish clock_now
    published_pending changeset e m' hc hv hs named fits published same new =
        written_pending changeset (stamp wall e) (stamped changeset e) m' hc hv hs (stamp-lt e)
          named fits published same new
