-- ===== src/Transport.antt =====
-- `ITransport` of src/syncengine/ITransport.h: the interface between the changeset manager and the
-- place where changeset files are kept, whose state is `T`; and what a place keeps to that stores files.
use mathlib.Core.List.{Mem}
use qsqlite_sync_engine.Prelude.{◌≡◌, ◌≢◌, Bool, true, List}
use qsqlite_sync_engine.Text.{QString}
use qsqlite_sync_engine.Sqlite.{Bytes}

pub record Transport (T : Type 0) : Type 0 where
  pub write_changeset : QString → Bytes → T → Bool × T
  pub read_changeset : QString → T → Bytes × T
  pub list_changesets : T → List QString × T

-- The contract of the interface: `IsName` are the file names that it is meant for, and `Fits` says
-- that there is room for a file.
pub record StoresFiles {T : Type 0} (transport : Transport T) (IsName : QString → Type 0)
    (Fits : QString → Bytes → T → Type 0) : Type 0 where
  pub read-write :
      (name : QString) (b : Bytes) (t : T)
      → IsName name
      → Fits name b t
      → (transport.write_changeset name b t).0 ≡ true
      → (transport.read_changeset name (transport.write_changeset name b t).1).0 ≡ b
  pub list-write :
      (name : QString) (b : Bytes) (t : T)
      → IsName name
      → (transport.write_changeset name b t).0 ≡ true
      → Mem name (transport.list_changesets (transport.write_changeset name b t).1).0
  pub read-write_ne :
      (name other : QString) (b : Bytes) (t : T)
      → IsName name
      → IsName other
      → name ≢ other
      → (transport.read_changeset other (transport.write_changeset name b t).1).0
        ≡ (transport.read_changeset other t).0
  pub list-write_keeps :
      (name other : QString) (b : Bytes) (t : T)
      → IsName name
      → IsName other
      → Mem other (transport.list_changesets t).0
      → Mem other (transport.list_changesets (transport.write_changeset name b t).1).0
  -- Reading and listing change neither what is read nor what is listed.
  pub read-read :
      (name other : QString) (t : T)
      → (transport.read_changeset other (transport.read_changeset name t).1).0
        ≡ (transport.read_changeset other t).0
  pub read-list :
      (name : QString) (t : T)
      → (transport.read_changeset name (transport.list_changesets t).1).0
        ≡ (transport.read_changeset name t).0
  pub list-read :
      (name : QString) (t : T)
      → (transport.list_changesets (transport.read_changeset name t).1).0
        ≡ (transport.list_changesets t).0
  pub list-list :
      (t : T)
      → (transport.list_changesets (transport.list_changesets t).1).0
        ≡ (transport.list_changesets t).0
