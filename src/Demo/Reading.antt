-- ===== src/Demo/Reading.antt =====
-- Commands that are written as lines are read back.
use qsqlite_sync_engine.Prelude.{
  ◌≡◌, refl, ◌∙◌, Bool, false, not, List, [], ◌∷◌, ◌++◌, select, All, arith,
}
use qsqlite_sync_engine.Text.{QString, codes, Lacks, split, join, str_eq, split-append, split-Lacks}
use qsqlite_sync_engine.Database.{is_empty}
use qsqlite_sync_engine.Demo.Commands.{
  Command, quit, help, select_rows, sync_now, status, unknown, insert_row, update_row, delete_row,
  TextTables, parts_of, plain_command, command_of, read_parts, read_command,
}

-- a word: not empty, and without a space
pub record IsWord (w : QString) : Type 0 where
  pub full : is_empty w ≡ false
  pub unspaced : Lacks b' ' w

-- the words of a command, the first of them in lower case
abbrev pub keyword : Command → QString
keyword quit = codes "quit"
keyword help = codes "help"
keyword (insert_row name value) = codes "insert"
keyword (update_row id value) = codes "update"
keyword (delete_row id) = codes "delete"
keyword select_rows = codes "select"
keyword sync_now = codes "sync"
keyword status = codes "status"
keyword unknown = codes "?"

abbrev pub operands : Command → List QString
operands (insert_row name value) = name ∷ value ∷ []
operands (update_row id value) = id ∷ value ∷ []
operands (delete_row id) = id ∷ []
operands _ = []

-- what a user types for a command, with some more words behind it
abbrev pub line_of : QString → Command → List QString → QString
line_of typed command more = join (typed ∷ (operands command ++ more)) b' '

select-append :
    (p : QString → Bool) (xs ys : List QString) → select p (xs ++ ys) ≡ select p xs ++ select p ys
unfolding select
select-append p [] ys = refl
select-append p (x ∷ xs) ys = ground (arith, select-append p xs ys)

parts_of-append : (s t : QString) → parts_of (s ++ b' ' ∷ t) ≡ parts_of s ++ parts_of t
unfolding parts_of
parts_of-append s t =
    rw (split-append b' ' s t)
      (select-append (λ (part : QString). not (is_empty part)) (split s b' ') (split t b' '))

parts_of-IsWord : (w : QString) → IsWord w → parts_of w ≡ w ∷ []
unfolding parts_of select
parts_of-IsWord w h = rw (split-Lacks b' ' w h.unspaced, h.full) refl

-- The parts of a line that is joined from words are these words.
pub parts_of-join :
    (w : QString) (ws : List QString) → All IsWord (w ∷ ws) → parts_of (join (w ∷ ws) b' ') ≡ w ∷ ws
unfolding join
parts_of-join w [] h = parts_of-IsWord w h.0
parts_of-join w (v ∷ ws) h =
    parts_of-append w (join (v ∷ ws) b' ') ∙ rw (parts_of-IsWord w h.0, parts_of-join v ws h.1) refl

-- a keyword behind which no words are looked at
plain_keyword :
    (cmd : QString)
    → (str_eq cmd (codes "insert") ≡ false)
    → (str_eq cmd (codes "update") ≡ false)
    → (str_eq cmd (codes "delete") ≡ false)
    → (words : List QString) → command_of cmd words ≡ plain_command cmd
unfolding command_of
plain_keyword cmd i u d [] = refl
plain_keyword cmd i u d (w ∷ []) = rw d refl
plain_keyword cmd i u d (w ∷ v ∷ words) = rw (i, u, d) refl

command_of-keyword :
    (command : Command) (more : List QString)
    → command_of (keyword command) (operands command ++ more) ≡ command
unfolding command_of plain_command str_eq
command_of-keyword (insert_row name value) more = refl
command_of-keyword (update_row id value) more = refl
command_of-keyword (delete_row id) [] = refl
command_of-keyword (delete_row id) (w ∷ more) = refl
command_of-keyword quit more = plain_keyword (keyword quit) refl refl refl more
command_of-keyword help more = plain_keyword (keyword help) refl refl refl more
command_of-keyword select_rows more = plain_keyword (keyword select_rows) refl refl refl more
command_of-keyword sync_now more = plain_keyword (keyword sync_now) refl refl refl more
command_of-keyword status more = plain_keyword (keyword status) refl refl refl more
command_of-keyword unknown more = plain_keyword (keyword unknown) refl refl refl more

-- A command whose operands are words is read back from its line, in whatever case its first word is
-- typed and whatever words stand behind it. (`toLower` makes the keyword of what is typed.)
pub read_command-line_of :
    (tables : TextTables) (typed : QString) (command : Command) (more : List QString)
    → All IsWord (typed ∷ (operands command ++ more))
    → tables.to_lower typed ≡ keyword command
    → read_command tables (line_of typed command more) ≡ command
unfolding read_command read_parts
read_command-line_of tables typed command more h lower =
    rw (parts_of-join typed (operands command ++ more) h, lower) (command_of-keyword command more)
