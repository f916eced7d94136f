-- ===== src/Engine/Ordinary.antt =====
-- A folder whose files name no table of the sync engine, while a client reads and lists it.
use qsqlite_sync_engine.Prelude.{ℕ, ◌≡◌, ◌⊎◌, inl, inr, List, [], ◌∷◌, arith}
use qsqlite_sync_engine.Text.{QString}
use qsqlite_sync_engine.Qt.{Qt}
use qsqlite_sync_engine.Filename.{ChangesetInfo}
use qsqlite_sync_engine.Sqlite.{Sqlite}
use qsqlite_sync_engine.Database.Monotone.{IsOrdinary}
use qsqlite_sync_engine.Transport.{Transport}
use qsqlite_sync_engine.Engine.{SyncEngine, clock_receive}
use qsqlite_sync_engine.Engine.Pull.{apply_one_changeset, apply_data, conclude}
use qsqlite_sync_engine.Engine.Sync.{Pass, defer_step, apply_pass}

-- what becomes of a place of files by reading and listing
pub data Later {T : Type 0} (transport : Transport T) (t : T) : T → Type 0 where
  now : Later transport t t
  read :
      (name : QString) (t' : T)
      → Later transport t t'
      → Later transport t (transport.read_changeset name t').1
  listed : (t' : T) → Later transport t t' → Later transport t (transport.list_changesets t').1

-- No file that is read from there, now or after some reading and listing, names such a table.
abbrev pub OrdinaryFiles : {U S T : Type 0} → Sqlite U S → Transport T → T → Type 0
OrdinaryFiles {T = T} sqlite transport t =
    (t' : T)
    → Later transport t t'
    → (name : QString) → IsOrdinary sqlite (transport.read_changeset name t').0

module _ {T : Type 0} (transport : Transport T) where
  Later-trans : {a b c : T} → Later transport a b → Later transport b c → Later transport a c
  Later-trans h now = h
  Later-trans h (read name t' k) = read name t' (Later-trans h k)
  Later-trans h (listed t' k) = listed t' (Later-trans h k)

module _ {U S T : Type 0} (qt : Qt) (sqlite : Sqlite U S) (transport : Transport T)
    (wall : ℕ → ℕ) where
  OrdinaryFiles-later :
      {t t' : T}
      → Later transport t t'
      → OrdinaryFiles sqlite transport t
      → OrdinaryFiles sqlite transport t'
  OrdinaryFiles-later later h t'' after name = h t'' (Later-trans transport later after) name

  pub OrdinaryFiles-list :
      (t : T)
      → OrdinaryFiles sqlite transport t
      → OrdinaryFiles sqlite transport (transport.list_changesets t).1
  OrdinaryFiles-list t h = OrdinaryFiles-later (listed t now) h

  step_transport :
      (info : ChangesetInfo) (applied : ℕ) (e : SyncEngine U S T)
      → let after =
          (apply_one_changeset qt sqlite transport wall info applied e).engine.transport in
        (after ≡ e.transport) ⊎ (after ≡ (transport.read_changeset info.filename e.transport).1)
  unfolding apply_one_changeset apply_data conclude clock_receive
  step_transport info applied e = ground arith

  pub step-OrdinaryFiles :
      (info : ChangesetInfo) (applied : ℕ) (e : SyncEngine U S T)
      → OrdinaryFiles sqlite transport e.transport
      → OrdinaryFiles sqlite transport
          (apply_one_changeset qt sqlite transport wall info applied e).engine.transport
  step-OrdinaryFiles info applied e h = elim (step_transport info applied e) [
    | inl same ↦ rw same h
    | inr moved ↦ rw moved (OrdinaryFiles-later (read info.filename e.transport now) h)
  ]

  pub pass-OrdinaryFiles :
      (infos : List ChangesetInfo) (p : Pass U S T)
      → OrdinaryFiles sqlite transport p.engine.transport
      → OrdinaryFiles sqlite transport
          (apply_pass qt sqlite transport wall infos p).engine.transport
  unfolding apply_pass defer_step
  pass-OrdinaryFiles [] p h = h
  pass-OrdinaryFiles (info ∷ infos) p h =
      let s = apply_one_changeset qt sqlite transport wall info p.applied p.engine in
      pass-OrdinaryFiles infos (defer_step info s p.deferred)
        (step-OrdinaryFiles info p.applied p.engine h)
