-- ===== src/Tests/DemoTests.antt =====
-- Arguments and lines that are read by the demo.
use qsqlite_sync_engine.Prelude.{◌≡◌, refl, List, [], ◌∷◌, arith, All, if◌then◌else◌}
use qsqlite_sync_engine.Text.{codes, str_eq, starts_with}
use qsqlite_sync_engine.Demo.Options.{default_options, parse_options}
use qsqlite_sync_engine.Demo.Options.Arguments.{
  Setting, client, db, folder, unknown, IsWritable, arguments, meant, parse_options-arguments,
}
use qsqlite_sync_engine.Demo.Commands.{TextTables, insert_row, read_command}
use qsqlite_sync_engine.Demo.Reading.{IsWord, line_of, read_command-line_of}

-- The client is given twice, and a database that looks like an option.
abbrev settings : List Setting
settings =
    client (codes "a")
    ∷ unknown (codes "-v")
    ∷ folder (codes "d")
    ∷ db (codes "--p")
    ∷ client (codes "b")
    ∷ folder (codes "e")
    ∷ []

writable : All IsWritable settings
unfolding starts_with str_eq
writable = (tt, ((refl, refl, refl), (refl, (tt, (tt, (refl, tt))))))

parse_options-arguments_example :
    parse_options (arguments settings) default_options ≡ meant settings default_options
parse_options-arguments_example = parse_options-arguments settings default_options writable

abbrev pub tables : TextTables
tables = record {
  trimmed = λ s. s;
  to_lower = λ s. if str_eq s (codes "INSERT") then codes "insert" else s;
}

insert-IsWord : IsWord (codes "INSERT")
insert-IsWord = record { full = refl; unspaced = omega arith }

a-IsWord : IsWord (codes "a")
a-IsWord = record { full = refl; unspaced = omega arith }

lowered : tables.to_lower (codes "INSERT") ≡ codes "insert"
unfolding str_eq
lowered = refl

read_command-line_of_example :
    read_command tables
      (line_of (codes "INSERT") (insert_row (codes "a") (codes "a")) (codes "a" ∷ []))
    ≡ insert_row (codes "a") (codes "a")
read_command-line_of_example =
    read_command-line_of tables (codes "INSERT") (insert_row (codes "a") (codes "a"))
      (codes "a" ∷ []) (insert-IsWord, (a-IsWord, (a-IsWord, (a-IsWord, tt)))) lowered
