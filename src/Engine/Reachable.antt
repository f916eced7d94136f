-- ===== src/Engine/Reachable.antt =====
-- The life of an engine: the states that it can get into by calls of its methods and by the writes of
-- the application.
use qsqlite_sync_engine.Prelude.{
  ℕ, ℤ, pos, ltb_ℤ, ◌≡◌, inl, inr, refl, ◌∙◌, sym, Bool, true, false, ◌&&◌, none, some, arith,
  Bool-cases, if◌then◌else◌,
}
use qsqlite_sync_engine.Text.{QString}
use qsqlite_sync_engine.Qt.{Qt}
use qsqlite_sync_engine.Sqlite.{Tables, Sqlite}
use qsqlite_sync_engine.Database.{SyncableDatabase, open_database, close_database, begin_session}
use qsqlite_sync_engine.Transport.{Transport}
use qsqlite_sync_engine.Engine.{SyncEngine, with_db}
use qsqlite_sync_engine.Engine.Sync.{sync}
use qsqlite_sync_engine.Engine.Push.{
  begin_write, end_write, on_transaction_committed, snapshot_if_needed,
}
use qsqlite_sync_engine.Engine.Lifecycle.{
  engine_of_connection, engine_of_path, set_schema_version, install_commit_hook, start, stop,
}
use qsqlite_sync_engine.Engine.Frame.{
  Life, life, life-sync, life-snapshot_if_needed, life-begin_write, life-end_write,
  life-on_transaction_committed,
}

-- The parts of an engine's life fit together.
pub record IsCoherent (l : Life) : Type 0 where
  pub running_opened : l.running ≡ true → l.opened ≡ true
  pub running_hooked : l.running ≡ true → l.commit_hook ≡ l.auto_capture
  pub idle_unhooked : l.running ≡ false → l.commit_hook ≡ false
  pub idle_untimed : l.running ≡ false → l.sync_timer ≡ none
  pub captured_borrowed : l.auto_capture ≡ true → l.owned ≡ false
  pub borrowed_opened : l.owned ≡ false → l.opened ≡ true

module _ {U S T : Type 0} (qt : Qt) (sqlite : Sqlite U S) (transport : Transport T)
    (wall : ℕ → ℕ) where
  -- One event: a call of a method, the timeout of the timer, the queued slot of a commit, or a write of
  -- the application or of another client, which changes the database file or the folder.
  pub data Event : SyncEngine U S T → SyncEngine U S T → Type 0 where
    started :
        (interval : ℤ) (e : SyncEngine U S T)
        → Event e (start qt sqlite transport wall interval e).1
    stopped : (e : SyncEngine U S T) → Event e (stop qt sqlite transport wall e)
    synced : (e : SyncEngine U S T) → Event e (sync qt sqlite transport wall e).1
    timed_out :
        (interval : ℤ) (e : SyncEngine U S T)
        → e.sync_timer ≡ some interval
        → Event e (sync qt sqlite transport wall e).1
    write_begun : (e : SyncEngine U S T) → Event e (begin_write qt sqlite transport wall e).1
    write_ended : (e : SyncEngine U S T) → Event e (end_write qt sqlite transport wall e).1
    committed :
        (e : SyncEngine U S T) → Event e (on_transaction_committed qt sqlite transport wall e)
    schema_set : (version : ℤ) (e : SyncEngine U S T) → Event e (set_schema_version version e)
    file_written :
        (t : Tables U) (e : SyncEngine U S T) → Event e (with_db (record e.db { tables = t }) e)
    folder_changed :
        (stored : T) (e : SyncEngine U S T)
        → Event e (record e { manager = record e.manager { transport = stored } })

  -- the states that an engine can get into from its construction on, over a path or over a
  -- `QSqlDatabase` that is open
  pub data Reachable : SyncEngine U S T → Type 0 where
    from_path :
        (path client_id : QString) (now : ℕ) (t : Tables U) (stored : T)
        → Reachable (engine_of_path path client_id now t stored)
    from_connection :
        (is_sync_driver : Bool) (path client_id : QString) (now : ℕ) (t : Tables U) (stored : T)
        → Reachable (engine_of_connection is_sync_driver true path client_id now t stored)
    after : (e e' : SyncEngine U S T) → Reachable e → Event e e' → Reachable e'

  -- SQLite leaves a handle where it opens a file.
  abbrev pub OpensSet : Type 0
  OpensSet = (path : QString) → (sqlite.opens path).0 ≡ true → (sqlite.opens path).1 ≡ true

  IsCoherent-built :
      (is_sync_driver : Bool) (path client_id : QString) (now : ℕ) (t : Tables U) (stored : T)
      → IsCoherent (
          life {U = U} {S = S} {T = T}
            (engine_of_connection is_sync_driver true path client_id now t stored))
  unfolding engine_of_connection
  IsCoherent-built true path client_id now t stored = record {
    running_opened = λ r. refl;
    running_hooked = λ r. ground arith;
    idle_unhooked = λ r. refl;
    idle_untimed = λ r. refl;
    captured_borrowed = λ c. refl;
    borrowed_opened = λ o. refl;
  }
  IsCoherent-built false path client_id now t stored = record {
    running_opened = λ r. ground arith;
    running_hooked = λ r. ground arith;
    idle_unhooked = λ r. refl;
    idle_untimed = λ r. refl;
    captured_borrowed = λ c. ground arith;
    borrowed_opened = λ o. ground arith;
  }

  IsCoherent-stop :
      (e : SyncEngine U S T)
      → IsCoherent (life e)
      → IsCoherent (life (stop qt sqlite transport wall e))
  unfolding stop close_database
  IsCoherent-stop e f = record {
    running_opened = λ r. ground arith;
    running_hooked = λ r. ground arith;
    idle_unhooked = λ r.
        ground (arith, f.captured_borrowed, f.borrowed_opened, f.running_hooked, f.idle_unhooked);
    idle_untimed = λ r. refl;
    captured_borrowed = f.captured_borrowed;
    borrowed_opened = λ o. ground (arith, o, f.borrowed_opened o);
  }

  -- the life of an engine that was opened: `l` is it before, `handle` is the connection's
  abbrev begun : ℤ → Bool → Life → Life
  begun interval handle l = record l {
    running = true;
    sync_timer = (if ltb_ℤ (pos 0) interval then some interval else l.sync_timer);
    commit_hook = (if l.auto_capture && handle then true else l.commit_hook);
    opened = handle;
  }

  life-install_commit_hook :
      (e : SyncEngine U S T)
      → life (install_commit_hook qt sqlite transport wall e)
        ≡ record (life e) { commit_hook = (if e.db.handle then true else e.commit_hook) }
  unfolding install_commit_hook begin_session
  life-install_commit_hook e = ground arith

  owned_kept :
      (db : SyncableDatabase U S) → (open_database sqlite db).1.owns_handle ≡ db.owns_handle
  unfolding open_database
  owned_kept db = ground arith

  borrowed_kept :
      (db : SyncableDatabase U S)
      → (db.owns_handle ≡ false → db.handle ≡ true)
      → db.owns_handle ≡ false
      → (open_database sqlite db).1.handle ≡ true
  unfolding open_database
  borrowed_kept db h o = ground (arith, h o)

  opened_now :
      (sets : OpensSet) (db : SyncableDatabase U S)
      → (open_database sqlite db).0 ≡ true
      → (open_database sqlite db).1.handle ≡ true
  unfolding open_database
  opened_now sets db ok = ground (arith, ok, sets db.db_path)

  -- a call of `start` on an engine that is not running
  life-start :
      (interval : ℤ) (e : SyncEngine U S T)
      → e.running ≡ false
      → life (start qt sqlite transport wall interval e).1 ≡ (
          let (ok, db) = open_database sqlite e.db in
          if ok then begun interval db.handle (life (with_db db e)) else life (with_db db e))
  unfolding start
  life-start interval e idle =
      let (ok, db) = open_database sqlite e.db in
      let e2 : SyncEngine U S T = record (with_db db e) { running = true } in
      let e3 = if e2.auto_capture then install_commit_hook qt sqlite transport wall e2 else e2 in
      ground (
        arith,
        idle,
        life-install_commit_hook e2,
        life-snapshot_if_needed qt sqlite transport wall e3,
        life-sync qt sqlite transport wall (snapshot_if_needed qt sqlite transport wall e3),
      )

  IsCoherent-opened :
      (sets : OpensSet) (interval : ℤ) (e : SyncEngine U S T)
      → IsCoherent (life e)
      → e.running ≡ false
      → let (ok, db) = open_database sqlite e.db in
        IsCoherent
          (if ok then begun interval db.handle (life (with_db db e)) else life (with_db db e))
  IsCoherent-opened sets interval e f idle = elim (Bool-cases (open_database sqlite e.db).0) [
    | inl ok ↦ rw ok (record {
      running_opened = λ r. opened_now sets e.db ok;
      running_hooked = λ r. ground (arith, opened_now sets e.db ok, f.idle_unhooked idle);
      idle_unhooked = λ r. ground arith;
      idle_untimed = λ r. ground arith;
      captured_borrowed = λ c. owned_kept e.db ∙ f.captured_borrowed c;
      borrowed_opened = λ o. opened_now sets e.db ok;
    })
    | inr refused ↦ rw refused (record {
      running_opened = λ r. ground arith;
      running_hooked = λ r. ground arith;
      idle_unhooked = f.idle_unhooked;
      idle_untimed = f.idle_untimed;
      captured_borrowed = λ c. owned_kept e.db ∙ f.captured_borrowed c;
      borrowed_opened = λ o. borrowed_kept e.db f.borrowed_opened (sym (owned_kept e.db) ∙ o);
    })
  ]

  start_running :
      (interval : ℤ) (e : SyncEngine U S T)
      → e.running ≡ true
      → (start qt sqlite transport wall interval e).1 ≡ e
  unfolding start
  start_running interval e running = ground (arith, running)

  IsCoherent-start :
      (sets : OpensSet) (interval : ℤ) (e : SyncEngine U S T)
      → IsCoherent (life e)
      → IsCoherent (life (start qt sqlite transport wall interval e).1)
  IsCoherent-start sets interval e f = elim (Bool-cases e.running) [
    | inl running ↦ rw (start_running interval e running) f
    | inr idle ↦ rw (life-start interval e idle) (IsCoherent-opened sets interval e f idle)
  ]

  IsCoherent-step :
      (sets : OpensSet) {e e' : SyncEngine U S T}
      → Event e e'
      → IsCoherent (life e)
      → IsCoherent (life e')
  unfolding set_schema_version
  IsCoherent-step sets (started interval e) f = IsCoherent-start sets interval e f
  IsCoherent-step sets (stopped e) f = IsCoherent-stop e f
  IsCoherent-step sets (synced e) f = rw (life-sync qt sqlite transport wall e) f
  IsCoherent-step sets (timed_out interval e timer) f = rw (life-sync qt sqlite transport wall e) f
  IsCoherent-step sets (write_begun e) f = rw (life-begin_write qt sqlite transport wall e) f
  IsCoherent-step sets (write_ended e) f = rw (life-end_write qt sqlite transport wall e) f
  IsCoherent-step sets (committed e) f =
      rw (life-on_transaction_committed qt sqlite transport wall e) f
  IsCoherent-step sets (schema_set version e) f = f
  IsCoherent-step sets (file_written t e) f = f
  IsCoherent-step sets (folder_changed stored e) f = f

  -- In every state that an engine can get into from its construction over a path or an open
  -- connection: while it runs, its connection is open, and the commit
  -- hook is installed exactly if it captures writes; while it does not run, no hook is installed and
  -- no timer is active; it captures writes only on a borrowed connection; and a borrowed connection
  -- stays open. (SQLite sets the handle where it reports that it opened a file.)
  pub Reachable-IsCoherent :
      (sets : OpensSet) (e : SyncEngine U S T) → Reachable e → IsCoherent (life e)
  Reachable-IsCoherent sets _ (from_path path client_id now t stored) =
      unfold engine_of_path engine_of_connection in
      IsCoherent-built false path client_id now t stored
  Reachable-IsCoherent sets _ (from_connection is_sync_driver path client_id now t stored) =
      IsCoherent-built is_sync_driver path client_id now t stored
  Reachable-IsCoherent sets _ (after e e' before step) =
      IsCoherent-step sets step (Reachable-IsCoherent sets e before)
