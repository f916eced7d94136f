-- ===== src/Tests/Disk.antt =====
-- A disk with the one folder `d`, which takes `limit` bytes of each file.
use mathlib.Core.Logic.Or
use mathlib.Core.List.{Mem, Mem-prop, not-mem-nil, mem-cons, mem-cons_self, mem-cons_of_mem}
use qsqlite_sync_engine.Prelude.{
  ℕ, zero, suc, ◌≡◌, ◌≢◌, refl, ap, Bool, true, false, not, ◌&&◌, List, [], ◌∷◌, map, arith, length,
  ◌==◌, if◌then◌else◌, select, Mem-select, select-Mem_mono, Bool-cases, inl, inr,
}
use qsqlite_sync_engine.Text.{
  QString, codes, str_eq, str_eq_refl, str_eq_iff, take, starts_with, ends_with,
}
use qsqlite_sync_engine.Sqlite.{Bytes}
use qsqlite_sync_engine.Filename.{extension}
use qsqlite_sync_engine.SharedFolder.{FileSystem, SharedFolderTransport}
use qsqlite_sync_engine.SharedFolder.Laws.{FileLaws, IsName}

pub record StoredFile : Type 0 where
  pub name : QString
  pub bytes : Bytes

abbrev pub Disk : Type 0
Disk = List StoredFile

-- the name of a file of the folder, and an empty text for any other path
abbrev name_in : QString → QString
name_in (c ∷ e ∷ name) = if c == b'd' && e == b'/' then name else []
name_in _ = []

-- A name with the extension that is not hidden.
is_shown : QString → Bool
is_shown name = ends_with name extension && not (starts_with name (codes "."))

put : QString → Bytes → Disk → Disk
put name b [] = (record { name = name; bytes = b }) ∷ []
put name b (f ∷ d) = if str_eq f.name name then (record f { bytes = b }) ∷ d else f ∷ put name b d

get : QString → Disk → Bytes
get name [] = []
get name (f ∷ d) = if str_eq f.name name then f.bytes else get name d

has : QString → Disk → Bool
has name [] = false
has name (f ∷ d) = if str_eq f.name name then true else has name d

names : Disk → List QString
names d = map (λ (f : StoredFile). f.name) d

unfoldable pub disk : ℕ → FileSystem Disk
unfolding put get has names take select ends_with starts_with is_shown
disk limit = record {
  dir_exists = λ path d. true;
  mkpath = λ path d. d;
  watches = λ path d. true;
  open_write = λ path d. (true, put (name_in path) [] d);
  taken = λ path b d. length (take limit b);
  write = λ path b d. put (name_in path) (take limit b) d;
  open_read = λ path d. has (name_in path) d;
  read_all = λ path d. get (name_in path) d;
  entry_list = λ path filters d. select is_shown (names d);
}

get-put :
    (name other : QString) (b : Bytes) (d : Disk)
    → get other (put name b d) ≡ (if str_eq name other then b else get other d)
unfolding get put
get-put name other b [] = ground arith
get-put name other b (f ∷ d) = ground (
  arith,
  get-put name other b d,
  str_eq_iff f.name name,
  str_eq_iff f.name other,
  str_eq_iff name other,
)

has-put :
    (name other : QString) (b : Bytes) (d : Disk)
    → has other (put name b d) ≡ (if str_eq name other then true else has other d)
unfolding has put
has-put name other b [] = ground arith
has-put name other b (f ∷ d) = ground (
  arith,
  has-put name other b d,
  str_eq_iff f.name name,
  str_eq_iff f.name other,
  str_eq_iff name other,
)

take-length-take : (n : ℕ) (b : Bytes) → take n b ≡ take (length (take n b)) b
unfolding take
take-length-take zero b = refl
take-length-take (suc n) [] = refl
take-length-take (suc n) (c ∷ b) = ap (λ r. c ∷ r) (take-length-take n b)

names-put : (name : QString) (b : Bytes) (d : Disk) → Mem name (names (put name b d))
unfolding names put
names-put name b [] = mem-cons_self
names-put name b (f ∷ d) = elim (Bool-cases (str_eq f.name name)) [
  | inl same ↦ rw (same, (str_eq_iff f.name name).0 same) mem-cons_self
  | inr other ↦ rw other (mem-cons_of_mem f.name (names-put name b d))
]

names-put_keeps :
    (name other : QString) (b : Bytes) (d : Disk)
    → Mem other (names d)
    → Mem other (names (put name b d))
unfolding names put
names-put_keeps name other b [] m = absurd (not-mem-nil m)
names-put_keeps name other b (f ∷ d) m = elim (Bool-cases (str_eq f.name name)) [
  | inl same ↦ rw same m
  | inr ne ↦ rw ne (
      Or.elim Mem-prop (mem-cons.0 m) (λ e. rw e mem-cons_self)
        (λ r. mem-cons_of_mem f.name (names-put_keeps name other b d r)))
]

abbrev pub object : SharedFolderTransport
object = record { folder_path_string = codes "d"; watched = true }

str_eq-ne : (s t : QString) → s ≢ t → str_eq s t ≡ false
str_eq-ne s t h = elim (Bool-cases (str_eq s t)) [
  | inl same ↦ absurd (h ((str_eq_iff s t).0 same))
  | inr other ↦ other
]

IsName-is_shown : (name : QString) → IsName name → is_shown name ≡ true
unfolding is_shown
IsName-is_shown name hn = rw (hn.1, hn.2) refl

pub disk_laws : (limit : ℕ) → FileLaws (disk limit) (codes "d")
unfolding disk
disk_laws limit = record {
  read_all-write = λ name b d hn opened. rw (get-put, str_eq_refl name) (take-length-take limit b);
  open_read-write = λ name b d hn opened. rw (has-put, str_eq_refl name);
  entry_list-write = λ name b d hn opened.
      Mem-select is_shown _ (IsName-is_shown name hn)
        (names-put name (take limit b) (put name [] d));
  read_all-open_ne = λ name other d hn ho ne. rw (get-put, str_eq-ne name other ne);
  open_read-open_ne = λ name other d hn ho ne. rw (has-put, str_eq-ne name other ne);
  read_all-write_ne = λ name other b d hn ho ne. rw (get-put, str_eq-ne name other ne);
  open_read-write_ne = λ name other b d hn ho ne. rw (has-put, str_eq-ne name other ne);
  entry_list-open_keeps =
      λ name other d hn ho m. select-Mem_mono _ (names d) _ (names-put_keeps name other [] d) m;
  entry_list-write_keeps = λ name other b d hn ho m.
      select-Mem_mono _ (names d) _ (names-put_keeps name other (take limit b) d) m;
}
