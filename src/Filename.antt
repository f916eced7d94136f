-- ===== src/Filename.antt =====
-- `ChangesetInfo`, `ChangesetManager::parseFilename` and `ChangesetManager::buildFilename` of
-- src/syncengine/ChangesetManager.{h,cpp}. Qt's conversions between numbers and text and its
-- place markers are parameters.
pub mod RoundTrip
use qsqlite_sync_engine.Prelude.{
  ℕ, zero, suc, ◌+◌, ℤ, pos, Bool, true, false, List, [], ◌∷◌, ltb, length, if◌then◌else◌,
}
use qsqlite_sync_engine.Text.{
  QString, codes, split, join, starts_with, ends_with, chop, last, remove_last,
}
use qsqlite_sync_engine.Qt.{Qt}

pub record ChangesetInfo : Type 0 where
  pub filename : QString
  pub client_id : QString
  pub hlc : ℕ
  pub sequence : ℕ
  pub schema_version : ℤ

-- `return {};`
abbrev pub no_info : ChangesetInfo
no_info = record { filename = []; client_id = []; hlc = 0; sequence = 0; schema_version = pos 0 }

abbrev pub extension : QString
extension = codes ".changeset"

abbrev pub underscore : ℕ
underscore = b'_'

abbrev pub version_letter : ℕ
version_letter = b'v'

abbrev pub template : QString
template = codes "%1_%2_%3_v%4.changeset"

-- `mid(1)`
abbrev pub mid_one : QString → QString
mid_one [] = []
mid_one (c ∷ s) = s

-- Removes the extension, if it is there.
unfoldable pub base_name : QString → QString
base_name filename = if ends_with filename extension then chop 10 filename else filename

module _ (qt : Qt) where
  -- The parts without the version tag: the last two are the timestamp and the sequence number.
  unfoldable pub parse_parts : QString → List QString → ℤ → ChangesetInfo
  parse_parts filename parts version = if ltb (length parts) 3 then no_info else record {
    filename = filename;
    client_id = join (remove_last (remove_last parts)) underscore;
    hlc = qt.to_ulonglong (last (remove_last parts));
    sequence = qt.to_ulonglong (last parts);
    schema_version = version;
  }

  unfoldable pub parse_filename : QString → ChangesetInfo
  parse_filename filename =
      let parts = split (base_name filename) underscore in
      let last_part = last parts in
      if ltb (length parts) 3
      then no_info
      else if starts_with last_part (version_letter ∷ [])
      then parse_parts filename (remove_last parts) (qt.to_int (mid_one last_part))
      else parse_parts filename parts (pos 0)

  -- Each `arg` replaces the marker of the lowest number.
  unfoldable pub build_filename : QString → ℕ → ℕ → ℤ → QString
  build_filename client_id hlc sequence schema_version =
      let with_client = qt.arg template client_id in
      let with_hlc = qt.arg with_client (qt.number 20 hlc) in
      let with_sequence = qt.arg with_hlc (qt.number 10 sequence) in
      qt.arg with_sequence (qt.int_text schema_version)
