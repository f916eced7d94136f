-- ===== src/Demo/Loop.antt =====
-- The event loop of demo/main.cpp, `app.exec()`.
use qsqlite_sync_engine.Prelude.{ℕ, ◌≡◌, false, List}
use qsqlite_sync_engine.Text.{QString}
use qsqlite_sync_engine.Qt.{Qt}
use qsqlite_sync_engine.Sqlite.{Sqlite}
use qsqlite_sync_engine.Transport.{Transport}
use qsqlite_sync_engine.Engine.{SyncEngine}
use qsqlite_sync_engine.Engine.Lifecycle.{stop}
use qsqlite_sync_engine.Demo.Options.{default_options, parse_options}
use qsqlite_sync_engine.Demo.Console.{Console, QtSql, read_input, take_queued, sync_timeout}
use qsqlite_sync_engine.Demo.Startup.{Machine, prompting, main}

-- the folder that the program was started with
abbrev pub folder_of : {T : Type 0} → (QString → Transport T) → List QString → Transport T
folder_of transport args = transport (parse_options args default_options).shared_folder

module _ {U S T : Type 0} (qt : Qt) (sqlite : Sqlite U S) (transport : QString → Transport T)
    (wall : ℕ → ℕ) (sql : QtSql U) (machine : Machine U) where
  -- One event of the loop, while the program has not been told to quit, or a change of the shared
  -- folder by another client.
  pub data LoopEvent (args : List QString) : Console U S T → Console U S T → Type 0 where
    typed :
        (own : ℕ) (c : Console U S T)
        → c.quits ≡ false
        → LoopEvent args c (read_input qt sqlite (folder_of transport args) wall sql own c)
    called :
        (own : ℕ) (c : Console U S T)
        → c.quits ≡ false
        → LoopEvent args c (take_queued qt sqlite (folder_of transport args) wall sql own c)
    timed_out :
        (own : ℕ) (c : Console U S T)
        → c.quits ≡ false
        → LoopEvent args c (sync_timeout qt sqlite (folder_of transport args) wall sql own c)
    folder_changed :
        (stored : T) (c : Console U S T)
        → LoopEvent args c (record c {
          engine = record c.engine { manager = record c.engine.manager { transport = stored } };
        })

  -- the states that a run of the program with these arguments can get into
  pub data Reached (args : List QString) : Console U S T → Type 0 where
    entered :
        (own : ℕ) (input : List QString) (stored : T) (c : Console U S T)
        → main qt sqlite transport wall sql machine own args input stored ≡ prompting c
        → Reached args c
    after : (c c' : Console U S T) → Reached args c → LoopEvent args c c' → Reached args c'

module _ {U S T : Type 0} (qt : Qt) (sqlite : Sqlite U S) (transport : Transport T)
    (wall : ℕ → ℕ) where
  -- The loop is over: `exec` returns 0, and the destructor of the engine stops it.
  unfoldable pub leave : Console U S T → ℕ × SyncEngine U S T
  unfolding stop
  leave c = (0, stop qt sqlite transport wall c.engine)
