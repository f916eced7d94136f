-- ===== src/Engine/Snapshot.antt =====
-- The first snapshot of a client, once the folder holds a file of it.
use mathlib.Core.List.{Mem, not-mem-nil, mem-cons}
use mathlib.Core.Logic.Or
use qsqlite_sync_engine.Prelude.{
  ℕ, ◌^◌, ◌<◌, ◌≡◌, ◌≢◌, refl, ap, sym, ◌∙◌, Bool, true, List, [], ◌∷◌, arith, IsInt32,
}
use qsqlite_sync_engine.Text.{QString, Lacks, str_eq_refl}
use qsqlite_sync_engine.Qt.{Qt, QtLaws}
use qsqlite_sync_engine.Filename.{ChangesetInfo, parse_filename}
use qsqlite_sync_engine.Filename.RoundTrip.{parse-build}
use qsqlite_sync_engine.Sqlite.{Bytes, Sqlite}
use qsqlite_sync_engine.Transport.{Transport, StoresFiles}
use qsqlite_sync_engine.Manager.Writing.{next_filename}
use qsqlite_sync_engine.Engine.{SyncEngine, clock_now}
use qsqlite_sync_engine.Engine.Push.{publish, has_own_file, snapshot_if_needed}
use qsqlite_sync_engine.Engine.Delivered.{stamp, stored, stamp-lt, stamped, next_info}

module _ {U S T : Type 0} (qt : Qt) (sqlite : Sqlite U S) (transport : Transport T)
    (wall : ℕ → ℕ) where
  has_own_file-Mem :
      (my_id file : QString) (files : List QString)
      → (parse_filename qt file).client_id ≡ my_id
      → Mem file files
      → has_own_file qt sqlite transport wall my_id files ≡ true
  unfolding has_own_file
  has_own_file-Mem my_id file [] own m = absurd (not-mem-nil m)
  has_own_file-Mem my_id file (first ∷ files) own m =
      Or.elim bool_prop (mem-cons.0 m)
        (λ (here : file ≡ first). rw (← here, own, str_eq_refl my_id) refl)
        (λ later. ground (arith, has_own_file-Mem my_id file files own later))
    where
      bool_prop : {b : Bool} → IsProp (b ≡ true)
      bool_prop = hlevel

module _ {U S T : Type 0} (qt : Qt) (laws : QtLaws qt) (sqlite : Sqlite U S)
    (transport : Transport T) (IsName : QString → Type 0) (Fits : QString → Bytes → T → Type 0)
    (stores : StoresFiles transport IsName Fits) (wall : ℕ → ℕ) where
  -- A client that has published a changeset takes no snapshot as long as the folder is as it was then:
  -- `snapshotIfNeeded` only lists the files. (The client identifier has no `%`, the sequence
  -- number and the version are in their ranges, the name is one that the transport is meant for, and
  -- the transport keeps to its contract.)
  pub published_keeps :
      (changeset : Bytes) (e e' : SyncEngine U S T)
      → Lacks b'%' e.db.client_identifier
      → IsInt32 e.manager.schema_ver
      → e.manager.sequence < 2 ^ 64
      → IsName (next_filename qt (stamp wall e) e.manager)
      → (publish qt sqlite transport wall changeset e).0 ≢ []
      → e'.db.client_identifier ≡ e.db.client_identifier
      → e'.transport ≡ (publish qt sqlite transport wall changeset e).1.transport
      → snapshot_if_needed qt sqlite transport wall e' ≡ record e' {
        manager = record e'.manager { transport = (transport.list_changesets e'.transport).1 };
      }
  unfolding publish clock_now snapshot_if_needed
  published_keeps changeset e e' hc hv hs named published same_id same =
      let m = stamped qt laws sqlite transport IsName Fits stores wall changeset e in
      let name = next_filename qt (stamp wall e) e.manager in
      let (ne, ok, moved) =
        stored qt laws sqlite transport IsName Fits stores changeset (stamp wall e) m published in
      let parsed : parse_filename qt name ≡ next_info qt (stamp wall e) e.manager =
        parse-build qt laws e.db.client_identifier (stamp wall e) e.manager.sequence
          e.manager.schema_ver hc (stamp-lt qt laws sqlite transport IsName Fits stores wall e) hs
          hv in
      let listed : Mem name (transport.list_changesets e'.transport).0 =
        rw (same, moved) (stores.list-write name changeset m.transport named ok) in
      let own =
        has_own_file-Mem qt sqlite transport wall e'.db.client_identifier name
          (transport.list_changesets e'.transport).0
          (ap (λ (i : ChangesetInfo). i.client_id) parsed ∙ sym same_id) listed in
      ground (arith, own)
