-- ===== src/Engine/Causal.antt =====
-- The clock of an engine over a call of `sync`.
use mathlib.Core.List.{Mem, not-mem-nil, mem-cons}
use mathlib.Core.Logic.Or
use native.Mathlib.Bridge.{le_prop}
use qsqlite_sync_engine.Prelude.{
  ℕ, suc, ◌+◌, ◌*◌, ◌^◌, ◌<◌, ◌≤◌, ◌≡◌, ltb_ℤ, refl, ap, not, ◌&&◌, ltb, false, List, [], ◌∷◌,
  arith, All, All-append, map, length, length-append, Bool-cases, inl, inr,
}
use qsqlite_sync_engine.Text.{QString}
use qsqlite_sync_engine.Qt.{Qt}
use qsqlite_sync_engine.Filename.{ChangesetInfo}
use qsqlite_sync_engine.Sqlite.{Bytes, Sqlite}
use qsqlite_sync_engine.Clock.{logical_component}
use qsqlite_sync_engine.Clock.Order.{lt-receive, logical-receive, lt-now}
use qsqlite_sync_engine.Clock.Chain.{HasRoom}
use qsqlite_sync_engine.Database.{SyncableDatabase, is_empty}
use qsqlite_sync_engine.Transport.{Transport, StoresFiles}
use qsqlite_sync_engine.Manager.{pending_changesets}
use qsqlite_sync_engine.Engine.{SyncEngine, clock_now}
use qsqlite_sync_engine.Engine.Pull.{Step, DeferredItem, apply_one_changeset}
use qsqlite_sync_engine.Engine.Sync.{Pass, defer_step, apply_pass, retry_pass, complete, sync}
use qsqlite_sync_engine.Engine.Delivered.{stamp}
use qsqlite_sync_engine.Engine.Marking.{HasFile, step-HasFile}
use qsqlite_sync_engine.Engine.Pulled.{pending}
use qsqlite_sync_engine.Engine.Clocks.{clock_cases, clock_received, version_kept, db-complete}

-- The timestamp of the changeset is in range, and its counter leaves room for `n` more.
abbrev pub RoomFor : ℕ → ChangesetInfo → Type 0
RoomFor n info = (info.hlc < 2 ^ 64) × (logical_component info.hlc + n < 2 ^ 16)

abbrev RoomItems : ℕ → List DeferredItem → Type 0
RoomItems n = All (λ item. RoomFor n item.info)

-- A pass over `m` changesets: the clock does not go back, and has room for `k` more steps.
record PassRoom {U S T : Type 0} (n k m : ℕ) (p q : Pass U S T) : Type 0 where
  grows : p.engine.db.hlc_clock ≤ q.engine.db.hlc_clock
  room : HasRoom k q.engine.db.hlc_clock
  items : RoomItems n q.deferred
  fewer : length q.deferred ≤ length p.deferred + m

module _ {U S T : Type 0} (qt : Qt) (sqlite : Sqlite U S) (transport : Transport T)
    (wall : ℕ → ℕ) where
  module _ (n : ℕ) (walls : (k : ℕ) → wall k < 2 ^ 48) where
    step_room :
        (k : ℕ) (info : ChangesetInfo) (applied : ℕ) (e : SyncEngine U S T)
        → k < n
        → RoomFor n info
        → HasRoom (suc k) e.db.hlc_clock
        → let after =
            (apply_one_changeset qt sqlite transport wall info applied e).engine.db.hlc_clock in
          (e.db.hlc_clock ≤ after) × HasRoom k after
    step_room k info applied e hk hi hc =
        let up =
          lt-receive (wall e.wall_reads) e.db.hlc_clock info.hlc (walls e.wall_reads) hc.0 hi.0
            (omega arith) (omega arith) in
        let room =
          logical-receive (wall e.wall_reads) e.db.hlc_clock info.hlc (walls e.wall_reads) hc.0
            hi.0 in
        elim (clock_cases qt sqlite transport wall info applied e) [
          | inl same ↦ rw same (omega arith)
          | inr received ↦ rw received (omega (arith, up, room))
        ]

    items_room :
        (info : ChangesetInfo) (s : Step U S T) (items : List DeferredItem)
        → RoomFor n info
        → RoomItems n items
        → RoomItems n (defer_step info s items).deferred
          × (length (defer_step info s items).deferred ≤ suc (length items))
    unfolding defer_step
    items_room info s items hi hd = elim (Bool-cases s.handled) [
      | inl handled ↦ rw handled (hd, omega arith)
      | inr retry ↦ rw retry (All-append _ items _ hd (hi, tt), rw length-append (omega arith))
    ]

    pass_room :
        (k : ℕ) (infos : List ChangesetInfo) (p : Pass U S T)
        → length infos + k ≤ n
        → All (RoomFor n) infos
        → HasRoom (length infos + k) p.engine.db.hlc_clock
        → RoomItems n p.deferred
        → PassRoom n k (length infos) p (apply_pass qt sqlite transport wall infos p)
    unfolding apply_pass
    pass_room k [] p hk hi hc hd = record {
      grows = omega arith;
      room = omega arith;
      items = hd;
      fewer = omega arith;
    }
    pass_room k (info ∷ infos) p hk hi hc hd =
        let s = apply_one_changeset qt sqlite transport wall info p.applied p.engine in
        let (up, room) =
          step_room (length infos + k) info p.applied p.engine (omega arith) hi.0 (omega arith) in
        let (items, fewer) = items_room info s p.deferred hi.0 hd in
        let rest =
          pass_room k infos (defer_step info s p.deferred) (omega arith) hi.1
            (unfold defer_step in room) items in
        record {
          grows = unfold defer_step in omega (arith, up, rest.grows);
          room = rest.room;
          items = rest.items;
          fewer = omega (arith, fewer, rest.fewer);
        }

    items_infos :
        (items : List DeferredItem)
        → RoomItems n items
        → All (RoomFor n) (map (λ (item : DeferredItem). item.info) items)
    items_infos [] h = tt
    items_infos (item ∷ items) h = (h.0, items_infos items h.1)

    infos_length :
        (items : List DeferredItem)
        → length (map (λ (item : DeferredItem). item.info) items) ≡ length items
    infos_length [] = refl
    infos_length (item ∷ items) = ap suc (infos_length items)

    retry_room :
        (k : ℕ) (p : Pass U S T)
        → length p.deferred + k ≤ n
        → HasRoom (length p.deferred + k) p.engine.db.hlc_clock
        → RoomItems n p.deferred
        → (p.engine.db.hlc_clock ≤ (retry_pass qt sqlite transport wall p).engine.db.hlc_clock)
          × HasRoom k (retry_pass qt sqlite transport wall p).engine.db.hlc_clock
    unfolding retry_pass
    retry_room k p hk hc hd =
        let infos = map (λ (item : DeferredItem). item.info) p.deferred in
        elim (Bool-cases (not (is_empty p.deferred) && ltb 0 p.applied)) [
          | inl again ↦
              let r =
                pass_room k infos (record p { deferred = [] }) (rw infos_length hk)
                  (items_infos p.deferred hd) (rw infos_length hc) tt in
              rw again (r.grows, r.room)
          | inr over ↦ rw over (omega arith)
        ]

    module _ (IsName : QString → Type 0) (Fits : QString → Bytes → T → Type 0)
        (stores : StoresFiles transport IsName Fits) where
      pass_above :
          (k : ℕ) (info : ChangesetInfo) (b : Bytes) (infos : List ChangesetInfo) (p : Pass U S T)
          → length infos + k ≤ n
          → All (RoomFor n) infos
          → HasRoom (length infos + k) p.engine.db.hlc_clock
          → RoomItems n p.deferred
          → HasFile qt sqlite transport wall IsName Fits stores info.filename b p.engine
          → is_empty b ≡ false
          → ltb_ℤ p.engine.current_schema_version info.schema_version ≡ false
          → Mem info infos
          → info.hlc < (apply_pass qt sqlite transport wall infos p).engine.db.hlc_clock
      unfolding apply_pass
      pass_above k info b [] p hk hi hc hd file full allowed m = absurd (not-mem-nil m)
      pass_above k info b (first ∷ infos) p hk hi hc hd file full allowed m =
          let e = p.engine in
          let s = apply_one_changeset qt sqlite transport wall first p.applied e in
          let (up, room) =
            step_room (length infos + k) first p.applied e (omega arith) hi.0 (omega arith) in
          let (items, fewer) = items_room first s p.deferred hi.0 hd in
          let rest =
            pass_room k infos (defer_step first s p.deferred) (omega arith) hi.1
              (unfold defer_step in room) items in
          let received =
            lt-receive (wall e.wall_reads) e.db.hlc_clock first.hlc (walls e.wall_reads) hc.0 hi.0.0
              (omega arith) (omega arith) in
          Or.elim le_prop (mem-cons.0 m)
            (λ (here : info ≡ first).
              let now =
                clock_received qt sqlite transport wall first p.applied e (rw (← here) allowed)
                  (rw (← here, file) full) in
              unfold defer_step in
              omega (arith, rest.grows, now, received, ap (λ (c : ChangesetInfo). c.hlc) here))
            (λ later.
              pass_above k info b infos (defer_step first s p.deferred) (omega arith) hi.1
                (unfold defer_step in room) items
                (unfold defer_step in
                  step-HasFile qt sqlite transport wall IsName Fits stores info.filename b first
                    p.applied e file)
                full
                (unfold defer_step in
                  rw (version_kept qt sqlite transport wall first p.applied e) allowed)
                later)

      -- After a call of `sync` the next local timestamp is above that of every pending changeset whose
      -- schema version is allowed and whose file could be read, if the counters have room: those of the
      -- clock and of the pending changesets for two steps per pending changeset, and one more. (The
      -- system clock and the timestamps are in range, and reading and listing files changes neither.)
      pub sync_advances :
          (e : SyncEngine U S T) (info : ChangesetInfo)
          → All (RoomFor n) (pending qt sqlite transport wall e)
          → HasRoom n e.db.hlc_clock
          → 2 * length (pending qt sqlite transport wall e) + 1 ≤ n
          → Mem info (pending qt sqlite transport wall e)
          → ltb_ℤ e.current_schema_version info.schema_version ≡ false
          → is_empty (transport.read_changeset info.filename e.transport).0 ≡ false
          → info.hlc < stamp wall (sync qt sqlite transport wall e).1
      unfolding sync pending_changesets clock_now
      sync_advances e info hi hc hn m allowed full =
          let (infos, m0) = pending_changesets qt sqlite transport e.manager in
          let p0 : Pass U S T = record {
            applied = 0;
            deferred = [];
            engine = record e { manager = m0 };
          } in
          let p1 = apply_pass qt sqlite transport wall infos p0 in
          let p2 = retry_pass qt sqlite transport wall p1 in
          let after = (complete qt sqlite transport wall infos p2).1 in
          let k = length infos + 1 in
          let first = pass_room k infos p0 (omega arith) hi (omega arith) tt in
          let above =
            pass_above k info (transport.read_changeset info.filename e.transport).0 infos p0
              (omega arith) hi (omega arith) tt (stores.read-list info.filename e.transport) full
              allowed m in
          let fewer = first.fewer in
          let second =
            retry_room 1 p1 (omega (arith, fewer)) (omega (arith, fewer, first.room)) first.items in
          let same : after.db.hlc_clock ≡ p2.engine.db.hlc_clock =
            ap (λ (db : SyncableDatabase U S). db.hlc_clock)
              (db-complete qt sqlite transport wall infos p2) in
          let next =
            lt-now (wall after.wall_reads) after.db.hlc_clock (walls after.wall_reads)
              (omega (arith, same, second)) (inr (rw same (omega (arith, second)))) in
          omega (arith, above, second, same, next)
