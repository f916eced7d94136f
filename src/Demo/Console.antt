-- ===== src/Demo/Console.antt =====
-- The state of demo/main.cpp while it runs, and the events that it handles.
use qsqlite_sync_engine.Prelude.{
  ℕ, zero, suc, ◌+◌, ℤ, pos, Bool, true, ◌&&◌, ltb, List, [], ◌∷◌, ◌++◌, if◌then◌else◌,
}
use qsqlite_sync_engine.Text.{QString, codes}
use qsqlite_sync_engine.Qt.{Qt}
use qsqlite_sync_engine.Sqlite.{Tables, Sqlite}
use qsqlite_sync_engine.Database.{is_empty}
use qsqlite_sync_engine.Transport.{Transport}
use qsqlite_sync_engine.Engine.{
  SyncEngine, Signal, changeset_applied, sync_error_occurred, sync_completed, with_tables,
}
use qsqlite_sync_engine.Engine.Sync.{sync}
use qsqlite_sync_engine.Engine.Push.{on_transaction_committed}
use qsqlite_sync_engine.Demo.Commands.{
  Command, quit, help, select_rows, sync_now, status, unknown, insert_row, update_row, delete_row,
  TextTables, read_command,
}

-- a bound value
pub data BoundValue : Type 0 where
  text_value : QString → BoundValue
  int_value : ℤ → BoundValue

-- What a `QSqlQuery` says after `exec`; `rows` are those that `next` goes through, with the texts of
-- their values; `committed` says whether SQLite committed a transaction that wrote.
pub record Answer : Type 0 where
  pub ok : Bool
  pub error : QString
  pub last_insert_id : QString
  pub rows_affected : ℤ
  pub rows : List (List QString)
  pub committed : Bool

-- Qt's SQL module, its text streams, and the tables of Unicode
pub record QtSql (U : Type 0) : Type 0 where
  pub tables : TextTables
  -- `prepare`, `bindValue` and `exec` on the demo's connection
  pub exec : QString → List BoundValue → Tables U → Answer × Tables U
  -- `out << n` for an `int`
  pub stream_int : ℤ → QString
  -- `QString::asprintf("%-5s %-20s %-20s %-15s\n", …)`
  pub row_text : QString → QString → QString → QString → QString

-- `input` are the lines that are not yet read, `output` is what stands on the standard output;
-- `queued` counts the calls of `onTransactionCommitted` that the commit hook has queued.
pub record Console (U S T : Type 0) : Type 0 where
  pub engine : SyncEngine U S T
  pub client_id : QString
  pub input : List QString
  pub output : QString
  pub queued : ℕ
  pub quits : Bool

-- `printHelp`
abbrev pub help_text : QString
help_text =
    codes "\nQSQLiteSyncEngine Demo\n"
    ++ codes "======================\n"
    ++ codes "Commands:\n"
    ++ codes "  insert <name> <value>  - Insert a row into the test table\n"
    ++ codes "  update <id> <value>    - Update a row's value\n"
    ++ codes "  delete <id>            - Delete a row\n"
    ++ codes "  select                 - Show all rows\n"
    ++ codes "  sync                   - Manually trigger sync\n"
    ++ codes "  status                 - Show sync status\n"
    ++ codes "  help                   - Show this help\n"
    ++ codes "  quit                   - Exit\n\n"

-- the signals behind the first ones, which are those of an operation on an engine
unfoldable pub since : List Signal → List Signal → List Signal
since [] signals = signals
since (s ∷ before) [] = []
since (s ∷ before) (t ∷ signals) = since before signals

-- the text of a column that may be missing
unfoldable pub cell : ℕ → List QString → QString
cell n [] = []
cell zero (text ∷ row) = text
cell (suc n) (text ∷ row) = cell n row

first_row : List (List QString) → List QString
first_row [] = []
first_row (row ∷ rows) = row

dashes : ℕ → QString
dashes zero = []
dashes (suc n) = b'-' ∷ dashes n

module _ {U S T : Type 0} where
  abbrev pub print : QString → Console U S T → Console U S T
  print text c = record c { output = c.output ++ text }

  -- The hook queues a call for each of the transactions that the engine itself commits.
  unfoldable pub queue_own : ℕ → Console U S T → Console U S T
  queue_own own c = record c {
    queued = (if c.engine.commit_hook then c.queued + own else c.queued);
  }

  abbrev pub print_prompt : Console U S T → Console U S T
  print_prompt c = print (codes "> ") c

module _ {U : Type 0} (sql : QtSql U) where
  -- what the three slots of `main` print of a signal
  unfoldable pub printed : Signal → QString
  printed (changeset_applied filename) = codes "[sync] Applied: " ++ (filename ++ codes "\n")
  printed (sync_error_occurred error message) = codes "[sync] Error: " ++ (message ++ codes "\n")
  printed (sync_completed count) =
      if ltb 0 count
      then codes "[sync] Completed, applied "
        ++ (sql.stream_int (pos count) ++ codes " changesets\n")
      else []

  unfoldable pub print_all : List Signal → QString
  unfolding printed
  print_all [] = []
  print_all (s ∷ signals) = printed s ++ print_all signals

  -- the loop over the rows of a `select`
  unfoldable pub print_rows : List (List QString) → QString
  unfolding cell
  print_rows [] = []
  print_rows (row ∷ rows) =
      sql.row_text (cell 0 row) (cell 1 row) (cell 2 row) (cell 3 row) ++ print_rows rows

module _ {U S T : Type 0} (qt : Qt) (sqlite : Sqlite U S) (transport : Transport T) (wall : ℕ → ℕ)
    (sql : QtSql U) where
  -- An engine that did something, and the slots of `main` that printed its new signals.
  unfoldable pub heard : SyncEngine U S T → Console U S T → Console U S T
  unfolding since print_all
  heard e c = print (print_all sql (since c.engine.signals e.signals)) (record c { engine = e })

  -- A statement of the demo's own. The commit hook of the engine is on the same connection.
  unfoldable pub execute : QString → List BoundValue → Console U S T → Answer × Console U S T
  execute statement values c =
      let (answer, t) = sql.exec statement values c.engine.db.tables in
      (
        answer,
        record c {
          engine = with_tables t c.engine;
          queued = (if answer.committed && c.engine.commit_hook then c.queued + 1 else c.queued);
        },
      )

  -- `insert`, `update` and `delete`: what is printed depends on the result.
  unfoldable pub change :
      QString → List BoundValue → (Answer → QString) → QString → Console U S T → Console U S T
  unfolding execute
  change statement values done failed c =
      let (answer, c') = execute statement values c in
      print (if answer.ok then done answer else failed ++ (answer.error ++ codes "\n")) c'

  -- `own` counts the transactions that the engine commits itself in a call of `sync`.
  unfoldable pub run_command : ℕ → Command → Console U S T → Console U S T
  unfolding change execute heard queue_own print_rows cell first_row dashes
  run_command own quit c = record c { quits = true }
  run_command own help c = print_prompt (print help_text c)
  run_command own (insert_row name value) c = print_prompt (
      change (codes "INSERT INTO items (name, value, modified_by) VALUES (?, ?, ?)")
        (text_value name ∷ text_value value ∷ text_value c.client_id ∷ [])
        (λ answer. codes "Inserted (id " ++ (answer.last_insert_id ++ codes ")\n"))
        (codes "Insert failed: ") c)
  run_command own (update_row id value) c = print_prompt (
      change (codes "UPDATE items SET value = ?, modified_by = ? WHERE id = ?")
        (text_value value ∷ text_value c.client_id ∷ int_value (qt.to_int id) ∷ [])
        (λ answer. codes "Updated " ++ (sql.stream_int answer.rows_affected ++ codes " row(s)\n"))
        (codes "Update failed: ") c)
  run_command own (delete_row id) c = print_prompt (
      change (codes "DELETE FROM items WHERE id = ?") (int_value (qt.to_int id) ∷ [])
        (λ answer. codes "Deleted " ++ (sql.stream_int answer.rows_affected ++ codes " row(s)\n"))
        (codes "Delete failed: ") c)
  run_command own select_rows c =
      let (answer, c') =
        execute (codes "SELECT id, name, value, modified_by FROM items ORDER BY id") [] c in
      let header = sql.row_text (codes "ID") (codes "Name") (codes "Value") (codes "Modified By") in
      print_prompt (print (header ++ (dashes 60 ++ (codes "\n" ++ print_rows sql answer.rows))) c')
  run_command own sync_now c =
      let (n, e) = sync qt sqlite transport wall c.engine in
      let told = codes "Synced " ++ (sql.stream_int (pos n) ++ codes " changesets\n") in
      print_prompt (print told (queue_own own (heard e c)))
  run_command own status c =
      let (answer, c') = execute (codes "SELECT COUNT(*) FROM _sync_applied") [] c in
      let client = codes "Client: " ++ (c'.client_id ++ codes "\n") in
      let count = cell 0 (first_row answer.rows) in
      print_prompt (print (client ++ (codes "Applied changesets: " ++ (count ++ codes "\n"))) c')
  run_command own unknown c =
      print_prompt (print (codes "Unknown command. Type 'help' for usage.\n") c)

  -- The lines that are not yet read are an argument of their own.
  unfoldable pub read_line : ℕ → List QString → Console U S T → Console U S T
  unfolding run_command
  read_line own [] c = c
  read_line own (line ∷ rest) c =
      let trimmed = sql.tables.trimmed line in
      let c' : Console U S T = record c { input = rest } in
      if is_empty trimmed
      then print_prompt c'
      else run_command own (read_command sql.tables trimmed) c'

  -- the timeout of the input timer
  unfoldable pub read_input : ℕ → Console U S T → Console U S T
  unfolding read_line
  read_input own c = read_line own c.input c

  -- The event loop takes one of the queued calls.
  unfoldable pub take_call : ℕ → ℕ → Console U S T → Console U S T
  unfolding heard queue_own
  take_call own zero c = c
  take_call own (suc n) c =
      let e = on_transaction_committed qt sqlite transport wall c.engine in
      queue_own own (heard e (record c { queued = n }))

  unfoldable pub take_queued : ℕ → Console U S T → Console U S T
  unfolding take_call
  take_queued own c = take_call own c.queued c

  -- the timeout of the engine's timer
  unfoldable pub sync_timeout : ℕ → Console U S T → Console U S T
  unfolding heard queue_own
  sync_timeout own c = queue_own own (heard (sync qt sqlite transport wall c.engine).1 c)
