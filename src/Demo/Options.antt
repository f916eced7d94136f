-- ===== src/Demo/Options.antt =====
-- The arguments of demo/main.cpp, and the path of its database.
pub mod Arguments
use qsqlite_sync_engine.Prelude.{Bool, true, false, not, ◌&&◌, List, [], ◌∷◌, ◌++◌, if◌then◌else◌}
use qsqlite_sync_engine.Text.{QString, codes, str_eq, starts_with}
use qsqlite_sync_engine.Qt.{Qt}
use qsqlite_sync_engine.Database.{is_empty}

pub record Options : Type 0 where
  pub client_id : QString
  pub shared_folder : QString
  pub db_path : QString

abbrev pub default_options : Options
default_options = record { client_id = codes "client1"; shared_folder = []; db_path = [] }

-- the last `else if`
unfoldable pub positional : QString → Options → Options
positional arg o =
    if not (starts_with arg (codes "-")) && is_empty o.shared_folder
    then record o { shared_folder = arg }
    else o

-- The loop over `args`, from the first argument behind the program's name on: an option takes the
-- argument behind it, if there is one.
unfoldable pub parse_options : List QString → Options → Options
unfolding positional
parse_options [] o = o
parse_options (arg ∷ []) o = positional arg o
parse_options (arg ∷ value ∷ rest) o =
    let behind = parse_options rest in
    let next = parse_options (value ∷ rest) in
    if str_eq arg (codes "--client")
    then behind (record o { client_id = value })
    else if str_eq arg (codes "--db")
    then behind (record o { db_path = value })
    else next (positional arg o)

-- Without the option, the database is a file of the application's data folder. (`data_dir` is
-- `QStandardPaths::writableLocation`, which the code makes with `mkpath` where it is missing.)
unfoldable pub local_path : Qt → QString → Options → QString
local_path qt data_dir o =
    if is_empty o.db_path then data_dir ++ qt.arg (codes "/sync_%1.db") o.client_id else o.db_path
