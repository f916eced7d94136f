-- ===== src/Demo/Commands.antt =====
-- The lines that demo/main.cpp reads from its standard input.
use qsqlite_sync_engine.Prelude.{not, ◌||◌, List, [], ◌∷◌, select, if◌then◌else◌}
use qsqlite_sync_engine.Text.{QString, codes, str_eq, split}
use qsqlite_sync_engine.Database.{is_empty}

pub data Command : Type 0 where
  quit help select_rows sync_now status unknown : Command
  insert_row update_row : QString → QString → Command
  delete_row : QString → Command

-- `QString::trimmed` and `QString::toLower`, which go by the tables of Unicode
pub record TextTables : Type 0 where
  pub trimmed : QString → QString
  pub to_lower : QString → QString

-- `line.split(QChar(' '), Qt::SkipEmptyParts)`
unfoldable pub parts_of : QString → List QString
parts_of line = select (λ (part : QString). not (is_empty part)) (split line b' ')

-- the commands without a word behind them
unfoldable pub plain_command : QString → Command
plain_command cmd =
    if str_eq cmd (codes "quit") || str_eq cmd (codes "exit")
    then quit
    else if str_eq cmd (codes "help")
    then help
    else if str_eq cmd (codes "select")
    then select_rows
    else if str_eq cmd (codes "sync")
    then sync_now
    else if str_eq cmd (codes "status")
    then status
    else unknown

-- The chain of tests. A command with too few words falls through to the tests behind it, and words
-- behind those that a command takes are not looked at.
unfoldable pub command_of : QString → List QString → Command
unfolding plain_command
command_of cmd [] = plain_command cmd
command_of cmd (first ∷ []) =
    if str_eq cmd (codes "delete") then delete_row first else plain_command cmd
command_of cmd (first ∷ second ∷ more) =
    if str_eq cmd (codes "insert")
    then insert_row first second
    else if str_eq cmd (codes "update")
    then update_row first second
    else if str_eq cmd (codes "delete")
    then delete_row first
    else plain_command cmd

-- A line that is trimmed and not empty has a first part; Qt stops the program where it asks for the
-- first part of none.
unfoldable pub read_parts : TextTables → List QString → Command
unfolding command_of
read_parts tables [] = unknown
read_parts tables (cmd ∷ rest) = command_of (tables.to_lower cmd) rest

unfoldable pub read_command : TextTables → QString → Command
unfolding read_parts parts_of
read_command tables line = read_parts tables (parts_of line)
