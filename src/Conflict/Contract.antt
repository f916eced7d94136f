-- ===== src/Conflict/Contract.antt =====
-- What `conflictCallback` may answer to SQLite.
use qsqlite_sync_engine.Prelude.{ℤ, ◌≡◌, ◌≢◌, ◌⊎◌, Option, arith}
use qsqlite_sync_engine.Text.{QString}
use qsqlite_sync_engine.Sqlite.{
  Tables, ConflictType, changed_data, existing_row, constraint, foreign_key, Reply,
}
use qsqlite_sync_engine.Conflict.{ConflictHandler, conflict_callback}

-- Whatever the handler answers, REPLACE is returned only for DATA and CONFLICT, where SQLite allows
-- it; a CONSTRAINT or FOREIGN_KEY conflict is omitted without asking the handler.
pub conflict_callback_valid :
    {U : Type 0} (handler : Option (ConflictHandler U)) (type : ConflictType)
    (table : Option QString) (pk : Option ℤ) (t : Tables U)
    → (((conflict_callback handler type table pk t).0 ≢ Reply.replace)
        ⊎ (type ≡ changed_data)
        ⊎ (type ≡ existing_row))
      × ((conflict_callback handler type table pk t ≡ (Reply.omit, t))
          ⊎ ((type ≢ constraint) × (type ≢ foreign_key)))
unfolding conflict_callback
conflict_callback_valid handler type table pk t = ground arith
