-- ===== src/SharedFolder.antt =====
-- `SharedFolderTransport` of src/syncengine/SharedFolderTransport.{h,cpp}, over the operations of Qt
-- on a file system, which are a parameter.
pub mod Laws
use qsqlite_sync_engine.Prelude.{ℕ, Bool, true, false, not, List, [], ◌∷◌, ◌++◌, if◌then◌else◌}
use qsqlite_sync_engine.Text.{QString, codes}
use qsqlite_sync_engine.Sqlite.{Bytes}
use qsqlite_sync_engine.Transport.{Transport}

-- what the transport sees of QDir, QFile and QFileSystemWatcher, over the contents `F` of the disk
pub record FileSystem (F : Type 0) : Type 0 where
  pub dir_exists : QString → F → Bool
  -- `QDir(path).mkpath(".")`
  pub mkpath : QString → F → F
  -- `QFileSystemWatcher::addPath`: whether the path is watched from then on
  pub watches : QString → F → Bool
  -- `open(WriteOnly)`, which leaves an empty file where it succeeds
  pub open_write : QString → F → Bool × F
  -- how many bytes `write` takes, and the disk after `write` and `close`
  pub taken : QString → Bytes → F → ℕ
  pub write : QString → Bytes → F → F
  -- `open(ReadOnly)`, and `readAll` of a file that was opened
  pub open_read : QString → F → Bool
  pub read_all : QString → F → Bytes
  -- `QDir(path).entryList(filters, QDir::Files, QDir::Name)`
  pub entry_list : QString → List QString → F → List QString

-- `watched` says whether `changesetsAvailable` follows a change of the folder
pub record SharedFolderTransport : Type 0 where
  pub folder_path_string : QString
  pub watched : Bool

abbrev pub filters : List QString
filters = codes "*.changeset" ∷ []

-- `folderPathString + "/" + filename`
abbrev pub file_path : QString → QString → QString
file_path folder filename = folder ++ b'/' ∷ filename

module _ {F : Type 0} (fs : FileSystem F) where
  -- the constructor
  unfoldable pub make_transport : QString → F → SharedFolderTransport × F
  make_transport folder_path f =
      let f' = if not (fs.dir_exists folder_path f) then fs.mkpath folder_path f else f in
      (record { folder_path_string = folder_path; watched = fs.watches folder_path f' }, f')

  -- What `write` returns is not looked at.
  unfoldable pub write_file : QString → QString → Bytes → F → Bool × F
  write_file folder filename changeset f =
      let path = file_path folder filename in
      let (opened, f') = fs.open_write path f in
      if not opened then (false, f') else (true, fs.write path changeset f')

  unfoldable pub read_file : QString → QString → F → Bytes
  read_file folder filename f =
      let path = file_path folder filename in
      if not (fs.open_read path f) then [] else fs.read_all path f

  unfoldable pub list_files : QString → F → List QString
  list_files folder f = fs.entry_list folder filters f

  -- the transport that an object is
  abbrev pub shared_folder : SharedFolderTransport → Transport F
  shared_folder object = record {
    write_changeset = λ name b f. write_file object.folder_path_string name b f;
    read_changeset = λ name f. (read_file object.folder_path_string name f, f);
    list_changesets = λ f. (list_files object.folder_path_string f, f);
  }
