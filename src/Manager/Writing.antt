-- ===== src/Manager/Writing.antt =====
-- What `writeChangeset` leaves behind.
use qsqlite_sync_engine.Prelude.{
  ℕ, ◌+◌, ◌^◌, ◌<◌, ◌≡◌, ◌≢◌, ◌⊎◌, refl, ap, sym, ◌∙◌, true, false, ◌||◌, [], ◌∷◌, arith, IsInt32,
}
use qsqlite_sync_engine.Text.{QString, Lacks, str_eq}
use qsqlite_sync_engine.Qt.{Qt, QtLaws}
use qsqlite_sync_engine.Clock.{u64}
use qsqlite_sync_engine.Filename.{parse_filename, build_filename}
use qsqlite_sync_engine.Filename.RoundTrip.{parse-build}
use qsqlite_sync_engine.Sqlite.{Bytes, Sqlite, insert_applied}
use qsqlite_sync_engine.Metadata.{has_applied}
use qsqlite_sync_engine.Metadata.Laws.{has_applied-mark}
use qsqlite_sync_engine.Transport.{Transport}
use qsqlite_sync_engine.Manager.{ChangesetManager, write_changeset}

-- the name that the next file gets
abbrev pub next_filename : {U S T : Type 0} → Qt → ℕ → ChangesetManager U S T → QString
next_filename qt hlc m = build_filename qt m.db.client_identifier hlc m.sequence m.schema_ver

module _ {U S T : Type 0} (qt : Qt) (sqlite : Sqlite U S) (transport : Transport T) where
  abbrev write : Bytes → ℕ → ChangesetManager U S T → QString × ChangesetManager U S T
  write = write_changeset qt sqlite transport

  -- A changeset that is not empty uses up a sequence number whether or not it is stored. If the
  -- transport refuses it, the result is empty and the database is as before; if the transport takes
  -- it, the result is the file's name, and a name is marked as applied afterwards exactly if it is
  -- this one or was marked before.
  pub write_changeset_cases :
      (changeset : Bytes) (hlc : ℕ) (m : ChangesetManager U S T) (id : QString)
      → changeset ≢ []
      → sqlite.runs insert_applied m.db.tables ≡ true
      → ((write changeset hlc m).1.sequence ≡ u64 (m.sequence + 1))
        × ((((transport.write_changeset (next_filename qt hlc m) changeset m.transport).0 ≡ false)
              × ((write changeset hlc m).0 ≡ [])
              × ((write changeset hlc m).1.db ≡ m.db))
            ⊎ (((transport.write_changeset (next_filename qt hlc m) changeset m.transport).0 ≡ true)
                × ((write changeset hlc m).0 ≡ next_filename qt hlc m)
                × (has_applied id (write changeset hlc m).1.db.tables.applied
                    ≡ (str_eq (next_filename qt hlc m) id || has_applied id m.db.tables.applied))))
  unfolding write_changeset
  write_changeset_cases [] hlc m id ne runs = absurd (ne refl)
  write_changeset_cases (c ∷ cs) hlc m id ne runs = ground (
    arith,
    has_applied-mark sqlite m.db.client_identifier (next_filename qt hlc m) id hlc m.db.tables runs,
  )

  written :
      (changeset : Bytes) (hlc : ℕ) (m : ChangesetManager U S T)
      → (write changeset hlc m).0 ≢ []
      → ((write changeset hlc m).0 ≡ next_filename qt hlc m)
        × ((write changeset hlc m).1.sequence ≡ u64 (m.sequence + 1))
        × ((write changeset hlc m).1.db.client_identifier ≡ m.db.client_identifier)
        × ((write changeset hlc m).1.schema_ver ≡ m.schema_ver)
  unfolding write_changeset
  written [] hlc m h = absurd (h refl)
  written (c ∷ cs) hlc m h = ground arith

  -- Two changesets of one manager, written one after the other and both stored, have different
  -- names, even with equal timestamps: no changeset file is overwritten.
  pub write_changeset-ne :
      (laws : QtLaws qt) (a b : Bytes) (hlc hlc' : ℕ) (m : ChangesetManager U S T)
      → Lacks b'%' m.db.client_identifier
      → IsInt32 m.schema_ver
      → m.sequence < 2 ^ 64
      → hlc < 2 ^ 64
      → hlc' < 2 ^ 64
      → (write a hlc m).0 ≢ []
      → (write b hlc' (write a hlc m).1).0 ≢ []
      → (write a hlc m).0 ≢ (write b hlc' (write a hlc m).1).0
  write_changeset-ne laws a b hlc hlc' m hp hv hs hh hh' na nb same =
      let m' = (write a hlc m).1 in
      let kept = written a hlc m na in
      let names : next_filename qt hlc m ≡ next_filename qt hlc' m' =
        sym kept.0 ∙ same ∙ (written b hlc' m' nb).0 in
      let s : (parse_filename qt (next_filename qt hlc m)).sequence ≡ m.sequence =
        ap (λ i. i.sequence)
          (parse-build qt laws m.db.client_identifier hlc m.sequence m.schema_ver hp hh hs hv) in
      let s' : (parse_filename qt (next_filename qt hlc' m')).sequence ≡ m'.sequence =
        ap (λ i. i.sequence)
          (parse-build qt laws m'.db.client_identifier hlc' m'.sequence m'.schema_ver (rw kept.2 hp)
            hh' (rw kept.1 (omega arith)) (rw kept.3 hv)) in
      absurd (omega (arith, s, s', kept.1, ap (λ f. (parse_filename qt f).sequence) names))
