-- ===== src/Demo/Options/Arguments.antt =====
-- Written arguments are read back.
use qsqlite_sync_engine.Prelude.{
  ◌≡◌, refl, ap, ◌∙◌, true, false, List, [], ◌∷◌, ◌++◌, All, arith, if◌then◌else◌,
}
use qsqlite_sync_engine.Text.{QString, codes, str_eq, starts_with, str_eq_refl}
use qsqlite_sync_engine.Database.{is_empty}
use qsqlite_sync_engine.Demo.Options.{Options, positional, parse_options}

-- One thing that a user writes on the command line: a client, a database, a shared folder, or an
-- option that the program does not know.
pub data Setting : Type 0 where
  client db folder unknown : QString → Setting

pub written : Setting → List QString
written (client id) = codes "--client" ∷ id ∷ []
written (db path) = codes "--db" ∷ path ∷ []
written (folder path) = path ∷ []
written (unknown option) = option ∷ []

pub arguments : List Setting → List QString
unfolding written
arguments [] = []
arguments (s ∷ ss) = written s ++ arguments ss

-- A folder's path does not look like an option, an unknown option does.
abbrev pub IsWritable : Setting → Type 0
IsWritable (client id) = Unit
IsWritable (db path) = Unit
IsWritable (folder path) = starts_with path (codes "-") ≡ false
IsWritable (unknown option) =
    (starts_with option (codes "-") ≡ true)
    × (str_eq option (codes "--client") ≡ false)
    × (str_eq option (codes "--db") ≡ false)

-- the last client and the last database, and the first folder that is not empty
pub last_client : List Setting → QString → QString
last_client [] id = id
last_client (client id ∷ ss) _ = last_client ss id
last_client (_ ∷ ss) id = last_client ss id

pub last_db : List Setting → QString → QString
last_db [] path = path
last_db (db path ∷ ss) _ = last_db ss path
last_db (_ ∷ ss) path = last_db ss path

pub first_folder : List Setting → QString → QString
first_folder [] path = path
first_folder (folder path ∷ ss) before = first_folder ss (if is_empty before then path else before)
first_folder (_ ∷ ss) before = first_folder ss before

pub meant : List Setting → Options → Options
unfolding last_client last_db first_folder
meant ss o = record {
  client_id = last_client ss o.client_id;
  shared_folder = first_folder ss o.shared_folder;
  db_path = last_db ss o.db_path;
}

-- a path that does not look like an option is none of the two
plain_folder :
    (path : QString)
    → starts_with path (codes "-") ≡ false
    → (str_eq path (codes "--client") ≡ false) × (str_eq path (codes "--db") ≡ false)
unfolding starts_with str_eq
plain_folder [] h = (refl, refl)
plain_folder (c ∷ s) h = ground (arith, h)

-- an argument that is not one of the two options
parse-positional :
    (arg : QString) (rest : List QString) (o : Options)
    → str_eq arg (codes "--client") ≡ false
    → str_eq arg (codes "--db") ≡ false
    → parse_options (arg ∷ rest) o ≡ parse_options rest (positional arg o)
unfolding parse_options
parse-positional arg [] o hc hd = refl
parse-positional arg (value ∷ rest) o hc hd = rw (hc, hd) refl

parse-client :
    (id : QString) (rest : List QString) (o : Options)
    → parse_options (codes "--client" ∷ id ∷ rest) o
      ≡ parse_options rest (record o { client_id = id })
unfolding parse_options
parse-client id rest o = rw (str_eq_refl (codes "--client")) refl

parse-db :
    (path : QString) (rest : List QString) (o : Options)
    → parse_options (codes "--db" ∷ path ∷ rest) o
      ≡ parse_options rest (record o { db_path = path })
unfolding parse_options str_eq
parse-db path rest o = refl

parse-nil : (o : Options) → parse_options [] o ≡ o
unfolding parse_options
parse-nil o = refl

meant-folder :
    (path : QString) (ss : List Setting) (o : Options)
    → starts_with path (codes "-") ≡ false
    → meant ss (positional path o) ≡ meant (folder path ∷ ss) o
unfolding meant positional
meant-folder path ss o h = ground (arith, h)

positional-option :
    (option : QString) (o : Options)
    → starts_with option (codes "-") ≡ true
    → positional option o ≡ o
unfolding positional
positional-option option o h = rw h refl

-- Arguments that are written for settings are read as what the settings mean: the client and the
-- database that are given last, even where they look like options, and the folder that is given
-- first, whatever stands between them and in whatever order. (The path of a folder does not begin
-- with a dash, and unknown options do.)
pub parse_options-arguments :
    (ss : List Setting) (o : Options)
    → All IsWritable ss
    → parse_options (arguments ss) o ≡ meant ss o
unfolding meant arguments written
parse_options-arguments [] o h = parse-nil o
parse_options-arguments (client id ∷ ss) o h =
    parse-client id (arguments ss) o ∙ parse_options-arguments ss (record o { client_id = id }) h.1
parse_options-arguments (db path ∷ ss) o h =
    parse-db path (arguments ss) o ∙ parse_options-arguments ss (record o { db_path = path }) h.1
parse_options-arguments (folder path ∷ ss) o h =
    let plain = plain_folder path h.0 in
    parse-positional path (arguments ss) o plain.0 plain.1
    ∙ parse_options-arguments ss (positional path o) h.1
    ∙ meant-folder path ss o h.0
parse_options-arguments (unknown option ∷ ss) o h =
    parse-positional option (arguments ss) o h.0.1 h.0.2
    ∙ parse_options-arguments ss (positional option o) h.1
    ∙ ap (meant ss) (positional-option option o h.0.0)
