-- ===== src/Demo/Leaving.antt =====
-- The end of the demo.
use qsqlite_sync_engine.Prelude.{ℕ, ◌≡◌, refl, true, false, none, List, arith}
use qsqlite_sync_engine.Text.{QString}
use qsqlite_sync_engine.Qt.{Qt}
use qsqlite_sync_engine.Sqlite.{Sqlite}
use qsqlite_sync_engine.Database.{close_database}
use qsqlite_sync_engine.Transport.{Transport}
use qsqlite_sync_engine.Demo.Console.{Console, QtSql}
use qsqlite_sync_engine.Demo.Startup.{Machine}
use qsqlite_sync_engine.Demo.Loop.{Reached, folder_of, leave}
use qsqlite_sync_engine.Demo.Alive.{Reached-IsAlive}

module _ {U S T : Type 0} (qt : Qt) (sqlite : Sqlite U S) (transport : QString → Transport T)
    (wall : ℕ → ℕ) (sql : QtSql U) (machine : Machine U) where
  -- From whatever state the demo is left, its engine does not run any more, no timer and no hook is
  -- left behind, its session is dropped, and the connection, which is the demo's own, stays open.
  pub leave-Reached :
      (args : List QString) (c : Console U S T)
      → Reached qt sqlite transport wall sql machine args c
      → let e = (leave qt sqlite (folder_of transport args) wall c).1 in
        (e.running ≡ false)
        × (e.sync_timer ≡ none)
        × (e.commit_hook ≡ false)
        × (e.db.session ≡ none)
        × (e.db.handle ≡ true)
  unfolding leave close_database
  leave-Reached args c reached =
      let h = Reached-IsAlive qt sqlite transport wall sql machine args c reached in
      (refl, refl, ground (arith, h.captures, h.opened), refl, ground (arith, h.borrowed, h.opened))
