-- ===== src/Engine/Converging.antt =====
-- Two clients that bring a row up to date by `sync`.
use qsqlite_sync_engine.Prelude.{
  ℕ, ℤ, ◌≡◌, ltb_ℤ, inl, inr, refl, sym, ◌∙◌, true, false, some, List, [], ◌∷◌, arith, All, length,
  if◌then◌else◌,
}
use qsqlite_sync_engine.Text.{QString, starts_with}
use qsqlite_sync_engine.Qt.{Qt}
use qsqlite_sync_engine.Filename.{ChangesetInfo}
use qsqlite_sync_engine.Sqlite.{Bytes, Tables, Sqlite, replace_row_hlc, select_row_hlc}
use qsqlite_sync_engine.Metadata.{stored_hlc, mark_changeset_applied}
use qsqlite_sync_engine.Conflict.{handler, resolve, conflict_callback, sync_prefix}
use qsqlite_sync_engine.Database.{SyncableDatabase, is_empty, apply_changeset, run_apply}
use qsqlite_sync_engine.Database.Versions.{Version, Agree, IsWithin, later, latest, Agree-later}
use qsqlite_sync_engine.Database.Convergence.{
  MeetsRow, Holds, received, received-Holds, same_latest,
}
use qsqlite_sync_engine.Transport.{Transport, StoresFiles}
use qsqlite_sync_engine.Manager.{pending_changesets}
use qsqlite_sync_engine.Engine.{SyncEngine, clock_receive, emit, sync_completed}
use qsqlite_sync_engine.Engine.Sync.{sync}
use qsqlite_sync_engine.Engine.Marking.{Applies}
use qsqlite_sync_engine.Engine.Reference.{take_in, take_all, IsApplicable, sync-plain_sync}
use qsqlite_sync_engine.Engine.Pulled.{pending}

module _ {U S T V : Type 0} (qt : Qt) (sqlite : Sqlite U S) (transport : Transport T) (wall : ℕ → ℕ)
    (table : QString) (rowid : ℤ) (row : U → V) where
  -- The file of the changeset is an allowed one and holds this change of the row.
  pub record Carries (e : SyncEngine U S T) (info : ChangesetInfo) (c : Version V) : Type 0 where
    pub allowed : ltb_ℤ e.current_schema_version info.schema_version ≡ false
    pub timestamp : info.hlc ≡ c.hlc
    pub writer : info.client_id ≡ c.client
    pub contents : (transport.read_changeset info.filename e.transport).0 ≡ c.changeset
    pub meets : MeetsRow sqlite table rowid row c

  -- the same of a list of them, in their order
  abbrev pub Brings : SyncEngine U S T → List ChangesetInfo → List (Version V) → Type 0
  Brings e [] [] = Unit
  Brings e (info ∷ infos) (c ∷ cs) = Carries e info c × Brings e infos cs
  Brings e _ _ = ⊥

  MeetsRow-Applies :
      (c : Version V) → MeetsRow sqlite table rowid row c → Applies sqlite c.changeset
  unfolding apply_changeset run_apply conflict_callback handler resolve
  MeetsRow-Applies c meets local_client client hlc db opened =
      ground (arith, opened, meets.nonempty, meets.steps db.tables)

  Carries-IsApplicable :
      (e : SyncEngine U S T) (info : ChangesetInfo) (c : Version V)
      → Carries e info c
      → IsApplicable qt sqlite transport wall e info
  Carries-IsApplicable e info c h = record {
    allowed = h.allowed;
    full = rw h.contents h.meets.nonempty;
    applies = rw h.contents (MeetsRow-Applies c h.meets);
  }

  Brings-IsApplicable :
      (e : SyncEngine U S T) (infos : List ChangesetInfo) (cs : List (Version V))
      → Brings e infos cs
      → All (IsApplicable qt sqlite transport wall e) infos
  Brings-IsApplicable e [] [] h = tt
  Brings-IsApplicable e (info ∷ infos) (c ∷ cs) h =
      (Carries-IsApplicable e info c h.0, Brings-IsApplicable e infos cs h.1)
  Brings-IsApplicable e [] (c ∷ cs) h = absurd h
  Brings-IsApplicable e (info ∷ infos) [] h = absurd h

  module _ (IsName : QString → Type 0) (Fits : QString → Bytes → T → Type 0)
      (stores : StoresFiles transport IsName Fits) where
    Brings-take_in :
        (first : ChangesetInfo) (e : SyncEngine U S T) (infos : List ChangesetInfo)
        (cs : List (Version V))
        → Brings e infos cs
        → Brings (take_in qt sqlite transport wall first e) infos cs
    unfolding clock_receive
    Brings-take_in first e [] [] h = tt
    Brings-take_in first e (info ∷ infos) (c ∷ cs) h = (
      record {
        allowed = h.0.allowed;
        timestamp = h.0.timestamp;
        writer = h.0.writer;
        contents = stores.read-read first.filename info.filename e.transport ∙ h.0.contents;
        meets = h.0.meets;
      },
      Brings-take_in first e infos cs h.1,
    )
    Brings-take_in first e [] (c ∷ cs) h = absurd h
    Brings-take_in first e (info ∷ infos) [] h = absurd h

    Brings-listed :
        (e : SyncEngine U S T) (infos : List ChangesetInfo) (cs : List (Version V))
        → Brings e infos cs
        → Brings
            (record e {
              manager = record e.manager { transport = (transport.list_changesets e.transport).1 };
            })
            infos
            cs
    Brings-listed e [] [] h = tt
    Brings-listed e (info ∷ infos) (c ∷ cs) h = (
      record {
        allowed = h.0.allowed;
        timestamp = h.0.timestamp;
        writer = h.0.writer;
        contents = stores.read-list info.filename e.transport ∙ h.0.contents;
        meets = h.0.meets;
      },
      Brings-listed e infos cs h.1,
    )
    Brings-listed e [] (c ∷ cs) h = absurd h
    Brings-listed e (info ∷ infos) [] h = absurd h

    module _ (selects : (t : Tables U) → sqlite.runs select_row_hlc t ≡ true)
        (replaces : (t : Tables U) → sqlite.runs replace_row_hlc t ≡ true)
        (foreign : starts_with table sync_prefix ≡ false) where
      after_mark :
          (db : SyncableDatabase U S) (id : QString) (hlc : ℕ) (z : Version V)
          → Holds sqlite table rowid row db z
          → Holds sqlite table rowid row
              (record db {
                tables = (mark_changeset_applied sqlite db.client_identifier id hlc db.tables).1;
              })
              z
      unfolding mark_changeset_applied
      after_mark db id hlc z h = record {
        opened = h.opened;
        stamped = ground (arith, h.stamped);
        held = ground (arith, h.held);
      }

      received-by :
          (db : SyncableDatabase U S) (b : Bytes) (hlc : ℕ) (client : QString) (c : Version V)
          → b ≡ c.changeset
          → hlc ≡ c.hlc
          → client ≡ c.client
          → (apply_changeset sqlite b (some (handler sqlite db.client_identifier hlc client)) db).1
            ≡ received sqlite table rowid row selects replaces foreign c db
      received-by db b hlc client c eb eh ec = rw (eb, eh, ec) refl

      take_in-Holds :
          (info : ChangesetInfo) (c x : Version V) (e : SyncEngine U S T)
          → Carries e info c
          → (x.hlc ≡ c.hlc → c.row ≡ x.row)
          → Holds sqlite table rowid row e.db x
          → Holds sqlite table rowid row (take_in qt sqlite transport wall info e).db (later x c)
      unfolding clock_receive
      take_in-Holds info c x e h tie holds =
          let (b, stored) = transport.read_changeset info.filename e.transport in
          let e1 : SyncEngine U S T = record e {
            manager = record e.manager { transport = stored };
          } in
          let e2 = clock_receive wall info.hlc e1 in
          let got =
            received-Holds sqlite table rowid row selects replaces foreign c x e2.db h.meets tie
              (record { opened = holds.opened; stamped = holds.stamped; held = holds.held }) in
          let r =
            apply_changeset sqlite b
              (some (handler sqlite e2.db.client_identifier info.hlc info.client_id)) e2.db in
          after_mark r.1 info.filename info.hlc (later x c)
            (rw (received-by e2.db b info.hlc info.client_id c h.contents h.timestamp h.writer) got)

      take_all-Holds :
          (infos : List ChangesetInfo) (cs : List (Version V)) (x : Version V)
          (e : SyncEngine U S T)
          → Brings e infos cs
          → Agree (x ∷ cs)
          → Holds sqlite table rowid row e.db x
          → Holds sqlite table rowid row
              (take_all qt sqlite transport wall infos e).db
              (latest x cs)
      unfolding latest
      take_all-Holds [] [] x e h agree holds = holds
      take_all-Holds (info ∷ infos) (c ∷ cs) x e h agree holds =
          take_all-Holds infos cs (later x c) (take_in qt sqlite transport wall info e)
            (Brings-take_in info e infos cs h.1) (Agree-later x c cs agree)
            (take_in-Holds info c x e h.0 (λ tie. agree c x (inr (inl refl)) (inl refl) (sym tie))
              holds)
      take_all-Holds [] (c ∷ cs) x e h agree holds = absurd h
      take_all-Holds (info ∷ infos) [] x e h agree holds = absurd h

      -- the signal at the end leaves the database alone
      announced :
          (infos : List ChangesetInfo) (e : SyncEngine U S T) {z : Version V}
          → let after = take_all qt sqlite transport wall infos e in
            Holds sqlite table rowid row after.db z
            → Holds sqlite table rowid row
                (if is_empty infos then after else emit (sync_completed (length infos)) after).db
                z
      announced [] e h = h
      announced (info ∷ infos) e h = h

      -- After `sync` the database holds the latest change of the row.
      sync-Holds :
          (cs : List (Version V)) (x : Version V) (e : SyncEngine U S T)
          → Brings e (pending qt sqlite transport wall e) cs
          → Agree (x ∷ cs)
          → Holds sqlite table rowid row e.db x
          → Holds sqlite table rowid row (sync qt sqlite transport wall e).1.db (latest x cs)
      sync-Holds cs x e h agree holds =
          let infos = pending qt sqlite transport wall e in
          let plain =
            sync-plain_sync qt sqlite transport wall IsName Fits stores e holds.opened
              (Brings-IsApplicable e infos cs h) in
          let e0 : SyncEngine U S T = record e {
            manager = (pending_changesets qt sqlite transport e.manager).1;
          } in
          let end =
            take_all-Holds infos cs x e0 (unfold pending_changesets in Brings-listed e infos cs h)
              agree
              (unfold pending_changesets in
                record { opened = holds.opened; stamped = holds.stamped; held = holds.held }) in
          rw plain (announced infos e0 end)

      -- Two clients that hold a change of a row each, with its timestamp, and whose pending changesets
      -- are changes of that row that come as DATA conflicts, hold the same row with the same timestamp
      -- after each has called `sync`: if the changes that the one has seen are those that the other has
      -- seen, and changes with one timestamp write the same row. (The pending changesets are of allowed
      -- schema versions, the connections are open, the transport keeps to its contract, and the
      -- statements on the timestamps run.)
      pub syncs_converge :
          (x y : Version V) (xs ys : List (Version V)) (a b : SyncEngine U S T)
          → Holds sqlite table rowid row a.db x
          → Holds sqlite table rowid row b.db y
          → Brings a (pending qt sqlite transport wall a) xs
          → Brings b (pending qt sqlite transport wall b) ys
          → Agree (x ∷ xs)
          → IsWithin (x ∷ xs) (y ∷ ys)
          → IsWithin (y ∷ ys) (x ∷ xs)
          → let a' = (sync qt sqlite transport wall a).1 in
            let b' = (sync qt sqlite transport wall b).1 in
            (row a'.db.tables.user ≡ row b'.db.tables.user)
            × (stored_hlc table rowid a'.db.tables.row_hlcs
                ≡ stored_hlc table rowid b'.db.tables.row_hlcs)
      syncs_converge x y xs ys a b ha hb ma mb agree left right =
          let agree' : Agree (y ∷ ys) = λ c d mc md. agree c d (right c mc) (right d md) in
          same_latest sqlite table rowid row selects replaces foreign x y xs ys
            (sync qt sqlite transport wall a).1.db (sync qt sqlite transport wall b).1.db
            (sync-Holds xs x a ma agree ha) (sync-Holds ys y b mb agree' hb) agree left right
