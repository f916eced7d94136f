-- ===== src/Tests/Toy.antt =====
-- A database with one row, and a transport that keeps its files in a list.
use qsqlite_sync_engine.Prelude.{
  ℕ, pos, refl, true, false, none, some, List, [], ◌∷◌, map, ◌==◌, if◌then◌else◌, Bool-cases, inl,
  inr,
}
use qsqlite_sync_engine.Text.{QString, codes, str_eq, starts_with}
use qsqlite_sync_engine.Sqlite.{
  Bytes, Tables, Apply, finish, log, conflict, changed_data, Reply, Op, Change, Sqlite,
}
use qsqlite_sync_engine.Schema.Like.{fold_case}
use qsqlite_sync_engine.Database.Monotone.{KeepsBooks, KeepsBookkeeping, IsOrdinary}
use qsqlite_sync_engine.Engine.Ordinary.{OrdinaryFiles}
use qsqlite_sync_engine.Engine.Progress.{BooksRun}
use qsqlite_sync_engine.Transport.{Transport}

abbrev pub put : ℕ → Tables ℕ → Tables ℕ
put v t = record t { user = v }

-- A changeset is the row's new value. A row that is there (not 0) is a conflict; the value 99 is a
-- change of a table that does not exist.
abbrev answer : ℕ → Tables ℕ → Reply → Apply ℕ
answer v before Reply.omit = finish true (λ t. t)
answer v before Reply.replace = finish true (put v)
answer v before Reply.abort = finish false (λ t. before)

abbrev pub toy_apply : Bytes → Tables ℕ → Apply ℕ
toy_apply [] t = finish true (λ t'. t')
toy_apply (v ∷ rest) t =
    if v == 99
    then log 17 (codes "no such table") (finish true (λ t'. t'))
    else if t.user == 0
    then finish true (put v)
    else conflict changed_data (some (codes "items")) (some (pos 1)) (answer v t)

abbrev pub insert_item : Change
insert_item = record {
  op = Op.insert;
  table = some (codes "items");
  new_pk = some (pos 1);
  old_pk = none;
}

abbrev pub toy : Sqlite ℕ ℕ
toy = record {
  runs = λ s t. true;
  opens = λ path. (true, true);
  session_create = λ t. some t.user;
  session_attach = λ s. (true, s);
  session_changeset = λ s t. some (if s == t.user then [] else t.user ∷ []);
  session_diff = λ executed table t s. 0;
  attaches = λ t. true;
  changeset_apply = toy_apply;
  changeset_iterate = λ changeset. some (insert_item ∷ []);
  master = λ t.
      (record { is_table = true; name = codes "items"; sql = codes "CREATE TABLE items (id)" })
      ∷ [];
}

abbrev pub Files : Type 0
Files = List (QString × Bytes)

abbrev find : QString → Files → Bytes
find name [] = []
find name ((n, b) ∷ files) = if str_eq n name then b else find name files

abbrev pub folder : Transport Files
folder = record {
  write_changeset = λ name b files. (true, (name, b) ∷ files);
  read_changeset = λ name files. (find name files, files);
  list_changesets = λ files. (map (λ (f : QString × Bytes). f.0) files, files);
}

-- a folder that cannot be written
abbrev pub read_only : Transport Files
read_only = record {
  write_changeset = λ name b files. (false, files);
  read_changeset = λ name files. (find name files, files);
  list_changesets = λ files. (map (λ (f : QString × Bytes). f.0) files, files);
}

abbrev pub empty_tables : Tables ℕ
empty_tables = record { user = 0; applied = []; row_hlcs = []; clients = [] }

pub toy-KeepsBooks : (changeset : Bytes) (t : Tables ℕ) → KeepsBooks t (toy_apply changeset t)
toy-KeepsBooks [] t = λ t'. (refl, refl)
toy-KeepsBooks (v ∷ rest) t = elim (Bool-cases (v == 99)) [
  | inl missing ↦ rw missing (λ t'. (refl, refl))
  | inr value ↦ rw value (elim (Bool-cases (t.user == 0)) [
    | inl new ↦ rw new (λ t'. (refl, refl))
    | inr row ↦ rw row answer-KeepsBooks
  ])
]
  where
    answer-KeepsBooks : (r : Reply) → KeepsBooks t (answer v t r)
    answer-KeepsBooks Reply.omit = λ t'. (refl, refl)
    answer-KeepsBooks Reply.replace = λ t'. (refl, refl)
    answer-KeepsBooks Reply.abort = λ t'. refl

pub toy-IsOrdinary : (changeset : Bytes) → IsOrdinary toy changeset
unfolding starts_with fold_case
toy-IsOrdinary changeset = (refl, tt)

pub toy-KeepsBookkeeping : KeepsBookkeeping toy
toy-KeepsBookkeeping changeset t ordinary = toy-KeepsBooks changeset t

-- every file, of any transport
pub toy-OrdinaryFiles :
    {T : Type 0} (transport : Transport T) (t : T) → OrdinaryFiles toy transport t
toy-OrdinaryFiles transport t t' later name = toy-IsOrdinary (transport.read_changeset name t').0

pub toy_books : BooksRun toy
toy_books = record { selects = λ t. refl; inserts = λ t. refl; keeps = toy-KeepsBookkeeping }
