-- ===== src/Demo/Startup.antt =====
-- `main` of demo/main.cpp, up to the event loop.
use qsqlite_sync_engine.Prelude.{ℕ, pos, Bool, true, false, not, List, [], ◌++◌, if◌then◌else◌}
use qsqlite_sync_engine.Text.{QString, codes}
use qsqlite_sync_engine.Qt.{Qt}
use qsqlite_sync_engine.Sqlite.{Tables, Sqlite}
use qsqlite_sync_engine.Database.{is_empty}
use qsqlite_sync_engine.Transport.{Transport}
use qsqlite_sync_engine.Engine.{SyncEngine}
use qsqlite_sync_engine.Engine.Lifecycle.{engine_of_connection, start}
use qsqlite_sync_engine.Demo.Options.{Options, default_options, parse_options, local_path}
use qsqlite_sync_engine.Demo.Console.{Console, QtSql, help_text, print_all, print_prompt, queue_own}

-- The computer that the demo runs on: the application's data folder, and what opening a database file
-- with the driver QSQLITE_SYNC gives.
pub record Machine (U : Type 0) : Type 0 where
  pub data_dir : QString
  pub opens : QString → Bool
  pub open_error : QString → QString
  pub contents : QString → Tables U

-- The program has ended, with its exit code and what it wrote to the standard output and to the
-- standard error, or it has entered the event loop.
pub data Started (U S T : Type 0) : Type 0 where
  exited : ℕ → QString → QString → Started U S T
  prompting : Console U S T → Started U S T

-- `printUsage`
abbrev pub usage_text : QString
usage_text =
    codes "Usage: syncdemo <shared-folder> [--client <id>] [--db <path>]\n"
    ++ codes "\n"
    ++ codes "  shared-folder   Path to the shared sync folder (required)\n"
    ++ codes "  --client <id>   Client identifier (default: client1)\n"
    ++ codes "  --db <path>     Local database file path (default: app data dir)\n"
    ++ codes "\n"
    ++ codes "The shared folder can be on Google Drive, Dropbox, or a network drive.\n"
    ++ codes "The database file is always stored locally (never on the shared drive).\n"

abbrev pub create_items : QString
create_items =
    codes "CREATE TABLE IF NOT EXISTS items ("
    ++ codes "  id INTEGER PRIMARY KEY AUTOINCREMENT,"
    ++ codes "  name TEXT NOT NULL,"
    ++ codes "  value TEXT,"
    ++ codes "  modified_by TEXT"
    ++ codes ")"

-- what is printed before the database is opened
unfoldable pub banner : Options → QString
banner o =
    codes "Starting SyncEngine as client: "
    ++ (o.client_id
        ++ (codes "\nDatabase: "
            ++ (o.db_path ++ (codes "\nShared folder: " ++ (o.shared_folder ++ codes "\n")))))

module _ {U S T : Type 0} (qt : Qt) (sqlite : Sqlite U S) (transport : QString → Transport T)
    (wall : ℕ → ℕ) (sql : QtSql U) (machine : Machine U) where
  -- From the open database on: the table, the engine over the connection, and its start. The slots
  -- flush the stream; where none of them printed, what stands in its buffer comes out after the help,
  -- which has a stream of its own.
  unfoldable pub start_engine : ℕ → Options → List QString → T → Started U S T
  unfolding print_all queue_own
  start_engine own o input stored =
      let (answer, t) = sql.exec create_items [] (machine.contents o.db_path) in
      let engine : SyncEngine U S T =
        engine_of_connection true true o.db_path o.client_id (wall 0) t stored in
      let (ok, e) = start qt sqlite (transport o.shared_folder) wall (pos 2000) engine in
      let told = print_all sql e.signals in
      if not ok
      then exited 1 (banner o ++ (told ++ codes "Failed to start sync engine\n")) []
      else let shown =
          if is_empty told then help_text ++ banner o else banner o ++ (told ++ help_text) in
        let c : Console U S T = record {
          engine = e;
          client_id = o.client_id;
          input = input;
          output = shown;
          queued = 0;
          quits = false;
        } in
        prompting (print_prompt (queue_own own c))

  -- The arguments are those behind the program's name. `own` counts the transactions that the engine
  -- commits in `start`, once its hook is installed.
  unfoldable pub main : ℕ → List QString → List QString → T → Started U S T
  unfolding start_engine banner
  main own args input stored =
      let o = parse_options args default_options in
      if is_empty o.shared_folder
      then exited 1 [] usage_text
      else let o' : Options = record o { db_path = local_path qt machine.data_dir o } in
        if not (machine.opens o'.db_path)
        then exited 1
            (banner o'
              ++ (codes "Failed to open database: "
                  ++ (machine.open_error o'.db_path ++ codes "\n")))
            []
        else start_engine own o' input stored
