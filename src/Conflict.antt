-- ===== src/Conflict.antt =====
-- `ConflictResolver` of src/syncengine/ConflictResolver.cpp, and `conflictCallback` of
-- src/syncengine/SyncableDatabase.cpp, which calls it.
pub mod LastWriter
pub mod Contract
use qsqlite_sync_engine.Prelude.{
  ℕ, ℤ, pos, Bool, true, false, Option, none, some, [], ltb, ◌==◌, if◌then◌else◌,
}
use qsqlite_sync_engine.Text.{QString, codes, str_lt, starts_with}
use qsqlite_sync_engine.Sqlite
use qsqlite_sync_engine.Sqlite.{
  Tables, Sqlite, ConflictType, changed_data, not_found, existing_row, constraint, foreign_key,
  other, Reply,
}
use qsqlite_sync_engine.Metadata.{update_row_hlc, get_row_hlc}

pub data ConflictAction : Type 0 where
  replace skip abort : ConflictAction

-- `ConflictHandler`: it gets column 0 of the conflicting row in place of the iterator.
abbrev pub ConflictHandler : Type 0 → Type 0
ConflictHandler U = ConflictType → QString → Option ℤ → Tables U → ConflictAction × Tables U

abbrev pub sync_prefix : QString
sync_prefix = codes "_sync_"

-- `rowid` is 0 where the value cannot be read
abbrev pub rowid_of : Option ℤ → ℤ
rowid_of none = pos 0
rowid_of (some n) = n

module _ {U S : Type 0} (sqlite : Sqlite U S) where
  -- the cases DATA and CONFLICT
  unfoldable pub resolve :
      QString → ℕ → QString → QString → ℤ → Tables U → ConflictAction × Tables U
  resolve local_client incoming_hlc incoming_client table rowid t =
      let local_hlc = get_row_hlc sqlite table rowid t in
      let updated = (update_row_hlc sqlite table rowid incoming_hlc incoming_client t).1 in
      if ltb local_hlc incoming_hlc
      then (replace, updated)
      else if incoming_hlc == local_hlc
      then (if str_lt local_client incoming_client then (replace, updated) else (skip, t))
      else (skip, t)

  unfoldable pub by_type :
      ConflictType → QString → ℕ → QString → QString → ℤ → Tables U → ConflictAction × Tables U
  by_type changed_data = resolve
  by_type existing_row = resolve
  by_type not_found = λ _ _ _ _ _ t. (skip, t)
  by_type constraint = λ _ _ _ _ _ t. (skip, t)
  by_type foreign_key = λ _ _ _ _ _ t. (skip, t)
  by_type (other code) = λ _ _ _ _ _ t. (skip, t)

  -- `local_client` is `db->clientId()`.
  unfoldable pub handler : QString → ℕ → QString → ConflictHandler U
  unfolding by_type
  handler local_client incoming_hlc incoming_client type table pk t =
      if starts_with table sync_prefix
      then (skip, t)
      else by_type type local_client incoming_hlc incoming_client table (rowid_of pk) t

-- REPLACE is valid only for DATA and CONFLICT.
replace_if_valid : ConflictType → Reply
replace_if_valid changed_data = Reply.replace
replace_if_valid existing_row = Reply.replace
replace_if_valid _ = Reply.omit

reply_of : ConflictType → ConflictAction → Reply
reply_of type replace = replace_if_valid type
reply_of type skip = Reply.omit
reply_of type abort = Reply.abort

abbrev pub table_or_empty : Option QString → QString
table_or_empty none = []
table_or_empty (some table) = table

ask :
    {U : Type 0}
    → Option (ConflictHandler U)
    → ConflictType
    → Option QString
    → Option ℤ
    → Tables U
    → Reply × Tables U
ask none type table pk t = (replace_if_valid type, t)
ask (some handler) type table pk t =
    let (action, t') = handler type (table_or_empty table) pk t in (reply_of type action, t')

unfoldable pub conflict_callback :
    {U : Type 0}
    → Option (ConflictHandler U)
    → ConflictType
    → Option QString
    → Option ℤ
    → Tables U
    → Reply × Tables U
unfolding ask replace_if_valid reply_of
conflict_callback handler constraint table pk t = (Reply.omit, t)
conflict_callback handler foreign_key table pk t = (Reply.omit, t)
conflict_callback handler changed_data table pk t = ask handler changed_data table pk t
conflict_callback handler existing_row table pk t = ask handler existing_row table pk t
conflict_callback handler not_found table pk t = ask handler not_found table pk t
conflict_callback handler (other code) table pk t = ask handler (other code) table pk t
