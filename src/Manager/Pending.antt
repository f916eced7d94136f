-- ===== src/Manager/Pending.antt =====
-- What `pendingChangesets` returns.
use mathlib.Core.List.{Mem, Perm, mem-map_of_mem}
use mathlib.Core.List.Perm
use qsqlite_sync_engine.Prelude.{
  ◌≡◌, ◌⊎◌, refl, Bool, true, false, Mem-select, not, ◌&&◌, List, [], ◌∷◌, map, arith, All, select,
}
use qsqlite_sync_engine.Text.{QString}
use qsqlite_sync_engine.Qt.{Qt}
use qsqlite_sync_engine.Filename.{parse_parts, parse_filename}
use qsqlite_sync_engine.Sqlite.{Tables, Sqlite}
use qsqlite_sync_engine.Metadata.{is_changeset_applied}
use qsqlite_sync_engine.Database.{is_empty}
use qsqlite_sync_engine.Transport.{Transport}
use qsqlite_sync_engine.Manager.{ChangesetManager, unapplied, pending_changesets}
use qsqlite_sync_engine.Manager.Sort.{sort-perm, IsSorted, sort-IsSorted, All-sort}

module _ {U S : Type 0} (qt : Qt) (sqlite : Sqlite U S) where
  -- The file has a valid name and is not marked as applied.
  abbrev pub is_pending : Tables U → QString → Bool
  is_pending t file =
      not (is_changeset_applied sqlite file t) && not (is_empty (parse_filename qt file).filename)

  unapplied-select :
      (t : Tables U) (files : List QString)
      → unapplied qt sqlite t files ≡ map (parse_filename qt) (select (is_pending t) files)
  unfolding unapplied select
  unapplied-select t [] = refl
  unapplied-select t (file ∷ files) = ground (arith, unapplied-select t files)

  pub parse_filename-filename :
      (file : QString)
      → ((parse_filename qt file).filename ≡ file) ⊎ ((parse_filename qt file).filename ≡ [])
  unfolding parse_filename parse_parts
  parse_filename-filename file = ground arith

  unapplied-All :
      (t : Tables U) (files : List QString)
      → All
          (λ info. is_changeset_applied sqlite info.filename t ≡ false)
          (unapplied qt sqlite t files)
  unfolding unapplied
  unapplied-All t [] = tt
  unapplied-All t (file ∷ files) =
      ground (arith, unapplied-All t files, parse_filename-filename file)

  unapplied-parsed :
      (t : Tables U) (files : List QString)
      → All (λ info. parse_filename qt info.filename ≡ info) (unapplied qt sqlite t files)
  unfolding unapplied
  unapplied-parsed t [] = tt
  unapplied-parsed t (file ∷ files) =
      ground (arith, unapplied-parsed t files, parse_filename-filename file)

module _ {U S T : Type 0} (qt : Qt) (sqlite : Sqlite U S) (transport : Transport T) where
  -- The pending changesets are the listed files that have a valid name and are not marked as applied,
  -- each as often as it is listed, parsed, and in order: by the earlier timestamp, then by the client
  -- that comes first, then by the lower sequence number.
  pub pending_changesets_lem :
      (m : ChangesetManager U S T)
      → IsSorted (pending_changesets qt sqlite transport m).0
        × Perm (pending_changesets qt sqlite transport m).0 (
            map
              (parse_filename qt)
              (select (is_pending qt sqlite m.db.tables) (transport.list_changesets m.transport).0))
  unfolding pending_changesets
  pending_changesets_lem m =
      let files = (transport.list_changesets m.transport).0 in
      rw (← unapplied-select qt sqlite m.db.tables files) (
        sort-IsSorted (unapplied qt sqlite m.db.tables files),
        sort-perm (unapplied qt sqlite m.db.tables files),
      )

  -- No pending changeset is marked as applied under the name that it will be marked by.
  pub pending_changesets-unapplied :
      (m : ChangesetManager U S T)
      → All
          (λ info. is_changeset_applied sqlite info.filename m.db.tables ≡ false)
          (pending_changesets qt sqlite transport m).0
  unfolding pending_changesets
  pending_changesets-unapplied m =
      All-sort _ (unapplied qt sqlite m.db.tables (transport.list_changesets m.transport).0)
        (unapplied-All qt sqlite m.db.tables (transport.list_changesets m.transport).0)

  -- Each pending changeset is what is read from its file name.
  pub pending_changesets-parsed :
      (m : ChangesetManager U S T)
      → All
          (λ info. parse_filename qt info.filename ≡ info)
          (pending_changesets qt sqlite transport m).0
  unfolding pending_changesets
  pending_changesets-parsed m =
      All-sort _ (unapplied qt sqlite m.db.tables (transport.list_changesets m.transport).0)
        (unapplied-parsed qt sqlite m.db.tables (transport.list_changesets m.transport).0)

  -- A listed file that has a valid name and is not marked is among the pending changesets.
  pub listed_pending :
      (m : ChangesetManager U S T) (name : QString)
      → is_pending qt sqlite m.db.tables name ≡ true
      → Mem name (transport.list_changesets m.transport).0
      → Mem (parse_filename qt name) (pending_changesets qt sqlite transport m).0
  listed_pending m name waits listed = (Perm.mem_iff (pending_changesets_lem m).1).1 (
      mem-map_of_mem (parse_filename qt)
        (Mem-select (is_pending qt sqlite m.db.tables) _ waits listed))
