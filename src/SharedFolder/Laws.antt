-- ===== src/SharedFolder/Laws.antt =====
-- What the shared folder keeps to, given what Qt documents of files and directories.
use mathlib.Core.List.{Mem}
use qsqlite_sync_engine.Prelude.{
  ℕ, ◌≡◌, ◌≢◌, refl, ap, ◌∙◌, true, false, arith, length, Bool-cases, inl, inr,
}
use qsqlite_sync_engine.Text.{QString, codes, Lacks, take, take-length, starts_with, ends_with}
use qsqlite_sync_engine.Sqlite.{Bytes}
use qsqlite_sync_engine.Filename.{extension}
use qsqlite_sync_engine.Transport.{StoresFiles}
use qsqlite_sync_engine.SharedFolder.{
  FileSystem, SharedFolderTransport, filters, file_path, write_file, read_file, list_files,
  shared_folder,
}

-- a file name in the folder, and not a path below it or `..`, that has the extension of the filter and
-- is not hidden: `QDir::Files` lists no name that begins with a dot
abbrev pub IsName : QString → Type 0
IsName name =
    Lacks b'/' name × (ends_with name extension ≡ true) × (starts_with name (codes ".") ≡ false)

-- Files of one folder whose file system tells names apart by case, as far as they are such names: what
-- is written and closed is there to be read and listed, as far as `write` took it, and other names are
-- left alone.
pub record FileLaws {F : Type 0} (fs : FileSystem F) (folder : QString) : Type 0 where
  pub read_all-write :
      (name : QString) (b : Bytes) (f : F)
      → IsName name
      → let path = file_path folder name in
        let f' = (fs.open_write path f).1 in
        (fs.open_write path f).0 ≡ true
        → fs.read_all path (fs.write path b f') ≡ take (fs.taken path b f') b
  pub open_read-write :
      (name : QString) (b : Bytes) (f : F)
      → IsName name
      → let path = file_path folder name in
        (fs.open_write path f).0 ≡ true
        → fs.open_read path (fs.write path b (fs.open_write path f).1) ≡ true
  pub entry_list-write :
      (name : QString) (b : Bytes) (f : F)
      → IsName name
      → let path = file_path folder name in
        (fs.open_write path f).0 ≡ true
        → Mem name (fs.entry_list folder filters (fs.write path b (fs.open_write path f).1))
  pub read_all-open_ne :
      (name other : QString) (f : F)
      → IsName name
      → IsName other
      → name ≢ other
      → fs.read_all (file_path folder other) (fs.open_write (file_path folder name) f).1
        ≡ fs.read_all (file_path folder other) f
  pub open_read-open_ne :
      (name other : QString) (f : F)
      → IsName name
      → IsName other
      → name ≢ other
      → fs.open_read (file_path folder other) (fs.open_write (file_path folder name) f).1
        ≡ fs.open_read (file_path folder other) f
  pub read_all-write_ne :
      (name other : QString) (b : Bytes) (f : F)
      → IsName name
      → IsName other
      → name ≢ other
      → fs.read_all (file_path folder other) (fs.write (file_path folder name) b f)
        ≡ fs.read_all (file_path folder other) f
  pub open_read-write_ne :
      (name other : QString) (b : Bytes) (f : F)
      → IsName name
      → IsName other
      → name ≢ other
      → fs.open_read (file_path folder other) (fs.write (file_path folder name) b f)
        ≡ fs.open_read (file_path folder other) f
  pub entry_list-open_keeps :
      (name other : QString) (f : F)
      → IsName name
      → IsName other
      → Mem other (fs.entry_list folder filters f)
      → Mem other (fs.entry_list folder filters (fs.open_write (file_path folder name) f).1)
  pub entry_list-write_keeps :
      (name other : QString) (b : Bytes) (f : F)
      → IsName name
      → IsName other
      → Mem other (fs.entry_list folder filters f)
      → Mem other (fs.entry_list folder filters (fs.write (file_path folder name) b f))

module _ {F : Type 0} (fs : FileSystem F) (folder : QString) where
  -- how many bytes of a file the disk takes
  abbrev pub taken : QString → Bytes → F → ℕ
  taken name b f = let path = file_path folder name in fs.taken path b (fs.open_write path f).1

  -- The disk takes the whole file.
  abbrev pub Fits : QString → Bytes → F → Type 0
  Fits name b f = taken name b f ≡ length b

module _ {F : Type 0} (fs : FileSystem F) (object : SharedFolderTransport)
    (laws : FileLaws fs object.folder_path_string) where
  abbrev folder : QString
  folder = object.folder_path_string

  write_file-opened :
      (name : QString) (b : Bytes) (f : F)
      → (write_file fs folder name b f).0 ≡ true
      → (fs.open_write (file_path folder name) f).0 ≡ true
  unfolding write_file
  write_file-opened name b f h = ground arith

  read_file-write_file :
      (name : QString) (b : Bytes) (f : F)
      → IsName name
      → (write_file fs folder name b f).0 ≡ true
      → read_file fs folder name (write_file fs folder name b f).1
        ≡ take (taken fs folder name b f) b
  read_file-write_file name b f hn h =
      let opened = write_file-opened name b f h in
      unfold write_file read_file in
      rw (opened, laws.open_read-write name b f hn opened) (laws.read_all-write name b f hn opened)

  read_file-write_file_ne :
      (name other : QString) (b : Bytes) (f : F)
      → IsName name
      → IsName other
      → name ≢ other
      → read_file fs folder other (write_file fs folder name b f).1 ≡ read_file fs folder other f
  unfolding write_file read_file
  read_file-write_file_ne name other b f hn ho ne =
      let opened = (fs.open_write (file_path folder name) f).1 in
      ground (
        arith,
        laws.read_all-open_ne name other f hn ho ne,
        laws.open_read-open_ne name other f hn ho ne,
        laws.read_all-write_ne name other b opened hn ho ne,
        laws.open_read-write_ne name other b opened hn ho ne,
      )

  list_files-write_file :
      (name other : QString) (b : Bytes) (f : F)
      → IsName name
      → IsName other
      → Mem other (list_files fs folder f)
      → Mem other (list_files fs folder (write_file fs folder name b f).1)
  unfolding write_file list_files
  list_files-write_file name other b f hn ho m =
      let path = file_path folder name in
      let kept = laws.entry_list-open_keeps name other f hn ho m in
      elim (Bool-cases (fs.open_write path f).0) [
        | inl ok ↦ rw ok (laws.entry_list-write_keeps name other b _ hn ho kept)
        | inr failed ↦ rw failed kept
      ]

  -- On a file system that tells names apart by case, for names that hold no slash, do not begin with a
  -- dot and have the extension .changeset: if the disk takes the whole of it, a file that was written is
  -- read back as it was and is listed; files of other such names are read as before and stay listed; and
  -- reading and listing change neither.
  pub shared_folder-StoresFiles : StoresFiles (shared_folder fs object) IsName (Fits fs folder)
  shared_folder-StoresFiles = record {
    read-write = λ name b f hn fits ok.
        read_file-write_file name b f hn ok ∙ ap (λ n. take n b) fits ∙ take-length b;
    list-write = λ name b f hn ok.
        let opened = write_file-opened name b f ok in
        unfold write_file list_files in rw opened (laws.entry_list-write name b f hn opened);
    read-write_ne = λ name other b f hn ho ne. read_file-write_file_ne name other b f hn ho ne;
    list-write_keeps = λ name other b f hn ho m. list_files-write_file name other b f hn ho m;
    read-read = λ name other f. refl;
    read-list = λ name f. refl;
    list-read = λ name f. refl;
    list-list = λ f. refl;
  }
