-- ===== src/Tests/DemoRuns.antt =====
-- Runs of the demo over the toy database and a disk.
use qsqlite_sync_engine.Prelude.{
  ℕ, ◌+◌, pos, ◌≡◌, refl, true, false, List, [], ◌∷◌, ◌++◌, if◌then◌else◌,
}
use qsqlite_sync_engine.Text.{QString, codes, str_eq, starts_with}
use qsqlite_sync_engine.Sqlite.{Bytes, Tables}
use qsqlite_sync_engine.Metadata.{init_sync_metadata}
use qsqlite_sync_engine.Transport.{Transport, StoresFiles}
use qsqlite_sync_engine.SharedFolder.{FileSystem, shared_folder}
use qsqlite_sync_engine.SharedFolder.Laws.{IsName, Fits, shared_folder-StoresFiles}
use qsqlite_sync_engine.Database.{is_empty, open_database}
use qsqlite_sync_engine.Engine.{SyncEngine}
use qsqlite_sync_engine.Engine.Lifecycle.{engine_of_connection, start}
use qsqlite_sync_engine.Demo.Options.{Options, positional, parse_options, local_path}
use qsqlite_sync_engine.Demo.Console.{
  Console, QtSql, Answer, BoundValue, text_value, read_input, queue_own, print_prompt, help_text,
  print_all,
}
use qsqlite_sync_engine.Demo.Startup.{Machine, prompting, banner, main}
use qsqlite_sync_engine.Demo.Loop.{Reached, entered, after, typed, folder_of}
use qsqlite_sync_engine.Demo.Alive.{IsAlive, Reached-IsAlive}
use qsqlite_sync_engine.Demo.Published.{changed, recorded, next_name, ended}
use qsqlite_sync_engine.Tests.Decimal.{decimal_qt, decimal_laws}
use qsqlite_sync_engine.Tests.Toy.{toy, empty_tables, put}
use qsqlite_sync_engine.Tests.Disk.{Disk, disk, disk_laws, object}
use qsqlite_sync_engine.Tests.DemoTests.{tables}

-- A statement that begins with "I" writes 5 and commits.
abbrev toy_exec : QString → List BoundValue → Tables ℕ → Answer × Tables ℕ
toy_exec statement values t =
    let answer : Answer = record {
      ok = true;
      error = [];
      last_insert_id = codes "1";
      rows_affected = pos 1;
      rows = [];
      committed = starts_with statement (codes "I");
    } in
    (answer, (if starts_with statement (codes "I") then put 5 t else t))

abbrev toy_sql : QtSql ℕ
toy_sql = record {
  tables = tables;
  exec = toy_exec;
  stream_int = decimal_qt.int_text;
  row_text = λ a b c d. [];
}

abbrev machine : Machine ℕ
machine = record {
  data_dir = codes "data";
  opens = λ path. true;
  open_error = λ path. [];
  contents = λ path. empty_tables;
}

abbrev fs : FileSystem Disk
fs = disk 4

abbrev the_folder : QString → Transport Disk
the_folder path = shared_folder fs object

abbrev wall : ℕ → ℕ
wall n = 100 + n

abbrev args : List QString
args = codes "d" ∷ codes "--client" ∷ codes "a" ∷ codes "--db" ∷ codes "p" ∷ []

abbrev started_engine : SyncEngine ℕ ℕ Disk
started_engine =
    (start decimal_qt toy (shared_folder fs object) wall (pos 2000)
      (engine_of_connection true true (codes "p") (codes "a") 100 empty_tables [])).1

abbrev options : Options
options = record { client_id = codes "a"; shared_folder = codes "d"; db_path = codes "p" }

abbrev first : Console ℕ ℕ Disk
first =
    let told = print_all toy_sql started_engine.signals in
    let c : Console ℕ ℕ Disk = record {
      engine = started_engine;
      client_id = codes "a";
      input = codes "INSERT a a" ∷ [];
      output =
          (if is_empty told
            then help_text ++ banner options
            else banner options ++ (told ++ help_text));
      queued = 0;
      quits = false;
    } in
    print_prompt (queue_own 2 c)

first_entered :
    main decimal_qt toy the_folder wall toy_sql machine 2 args (codes "INSERT a a" ∷ []) []
    ≡ prompting first
unfolding main parse_options positional str_eq starts_with local_path engine_of_connection start
    open_database init_sync_metadata queue_own
first_entered = refl

first_reached : Reached decimal_qt toy the_folder wall toy_sql machine args first
first_reached = entered 2 (codes "INSERT a a" ∷ []) [] first first_entered

abbrev second : Console ℕ ℕ Disk
second = read_input decimal_qt toy (folder_of the_folder args) wall toy_sql 0 first

Reached-IsAlive_example : IsAlive second.engine
unfolding queue_own
Reached-IsAlive_example =
    Reached-IsAlive decimal_qt toy the_folder wall toy_sql machine args second
      (after first second first_reached (typed 0 first refl))

stores : StoresFiles (folder_of the_folder args) IsName (Fits fs (codes "d"))
stores = shared_folder-StoresFiles fs object (disk_laws 4)

abbrev insert_statement : QString
insert_statement = codes "INSERT INTO items (name, value, modified_by) VALUES (?, ?, ?)"

abbrev inserted_values : List BoundValue
inserted_values = text_value (codes "a") ∷ text_value (codes "a") ∷ text_value (codes "a") ∷ []

abbrev demo_folder : Transport Disk
demo_folder = folder_of the_folder args

abbrev inserted : SyncEngine ℕ ℕ Disk
inserted = changed decimal_qt toy demo_folder wall toy_sql insert_statement inserted_values first

abbrev bytes_of : SyncEngine ℕ ℕ Disk → Bytes
bytes_of e = recorded decimal_qt toy demo_folder wall toy_sql e

abbrev end_of : SyncEngine ℕ ℕ Disk → SyncEngine ℕ ℕ Disk
end_of e = ended decimal_qt toy demo_folder wall toy_sql e

abbrev name_of : SyncEngine ℕ ℕ Disk → QString
name_of e =
    next_name decimal_qt toy demo_folder wall toy_sql decimal_laws IsName (Fits fs (codes "d"))
      stores e

-- an engine that has published nothing
abbrev IsNew : SyncEngine ℕ ℕ Disk → Type 0
IsNew e =
    (e.manager.sequence ≡ 0) × (e.manager.schema_ver ≡ pos 0) × (e.db.client_identifier ≡ codes "a")
