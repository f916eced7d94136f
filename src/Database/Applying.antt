-- ===== src/Database/Applying.antt =====
-- What `applyChangeset` reports and what it leaves behind.
use qsqlite_sync_engine.Prelude.{
  ◌≡◌, ◌≢◌, ◌⊎◌, refl, Bool, true, false, Option, some, List, [], ◌∷◌, ◌++◌, append_assoc,
  append-nil, arith, ◌==◌, if◌then◌else◌,
}
use qsqlite_sync_engine.Text.{QString}
use qsqlite_sync_engine.Sqlite.{Bytes, Tables, Sqlite, Apply, finish, log, conflict}
use qsqlite_sync_engine.LogCapture.{Warning, ActiveGuard, sqlite_schema, log_callback}
use qsqlite_sync_engine.Conflict.{ConflictHandler, conflict_callback}
use qsqlite_sync_engine.Database.{SyncableDatabase, is_empty, run_apply, apply_changeset}

module _ {U : Type 0} (handler : Option (ConflictHandler U)) where
  -- The messages that SQLite logs with the code SQLITE_SCHEMA in a run, in their order.
  pub schema_messages : Apply U → Tables U → List QString
  schema_messages (finish ok write) t = []
  schema_messages (log code message rest) t =
      let others = schema_messages rest t in
      if code == sqlite_schema then message ∷ others else others
  schema_messages (conflict type table pk rest) t =
      let (reply, t') = conflict_callback handler type table pk t in schema_messages (rest reply) t'

  -- whether SQLite ends the run with SQLITE_OK
  pub returns_ok : Apply U → Tables U → Bool
  returns_ok (finish ok write) t = ok
  returns_ok (log code message rest) t = returns_ok rest t
  returns_ok (conflict type table pk rest) t =
      let (reply, t') = conflict_callback handler type table pk t in returns_ok (rest reply) t'

  -- the database at the end of a run, with what the conflict handler and SQLite have written
  pub left_by : Apply U → Tables U → Tables U
  left_by (finish ok write) t = write t
  left_by (log code message rest) t = left_by rest t
  left_by (conflict type table pk rest) t =
      let (reply, t') = conflict_callback handler type table pk t in left_by (rest reply) t'

abbrev pub schema_warnings : List QString → List Warning
schema_warnings [] = []
schema_warnings (m ∷ ms) = (record { error_code = sqlite_schema; message = m }) ∷ schema_warnings ms

is_empty-schema_warnings : (ms : List QString) → is_empty (schema_warnings ms) ≡ is_empty ms
is_empty-schema_warnings [] = refl
is_empty-schema_warnings (m ∷ ms) = refl

module _ {U : Type 0} (handler : Option (ConflictHandler U)) where
  run_apply-guard :
      (steps : Apply U) (t : Tables U) (ws : List Warning)
      → (run_apply handler steps t (some ws)).guard
        ≡ some (ws ++ schema_warnings (schema_messages handler steps t))
  unfolding run_apply schema_messages
  run_apply-guard (finish ok write) t ws = rw append-nil
  run_apply-guard (log code message rest) t ws = ground (
    arith,
    run_apply-guard rest t ws,
    run_apply-guard rest t (ws ++ (record { error_code = code; message = message }) ∷ []),
    append_assoc ws ((record { error_code = code; message = message }) ∷ [])
        (schema_warnings (schema_messages handler rest t)),
  )
  run_apply-guard (conflict type table pk rest) t ws =
      let (reply, t') = conflict_callback handler type table pk t in
      run_apply-guard (rest reply) t' ws

  run_apply-ok :
      (steps : Apply U) (t : Tables U) (g : ActiveGuard)
      → (run_apply handler steps t g).ok ≡ returns_ok handler steps t
  unfolding run_apply returns_ok
  run_apply-ok (finish ok write) t g = refl
  run_apply-ok (log code message rest) t g = run_apply-ok rest t (log_callback code message g)
  run_apply-ok (conflict type table pk rest) t g =
      let (reply, t') = conflict_callback handler type table pk t in run_apply-ok (rest reply) t' g

  run_apply-tables :
      (steps : Apply U) (t : Tables U) (g : ActiveGuard)
      → (run_apply handler steps t g).tables ≡ left_by handler steps t
  unfolding run_apply left_by
  run_apply-tables (finish ok write) t g = refl
  run_apply-tables (log code message rest) t g =
      run_apply-tables rest t (log_callback code message g)
  run_apply-tables (conflict type table pk rest) t g =
      let (reply, t') = conflict_callback handler type table pk t in
      run_apply-tables (rest reply) t' g

module _ {U S : Type 0} (sqlite : Sqlite U S) where
  abbrev pub steps_of : Bytes → SyncableDatabase U S → Apply U
  steps_of changeset db = sqlite.changeset_apply changeset db.tables

  -- Applying a changeset that is not empty, on an open connection: if SQLite fails, the call fails and
  -- no warning is reported; if SQLite succeeds, the warnings are exactly the SQLITE_SCHEMA messages of
  -- the run, in order, and the call is a success exactly if there are none. In each case, also where
  -- the call fails for its warnings, the database is left as the run left it.
  pub apply_changeset_reports :
      (changeset : Bytes) (handler : Option (ConflictHandler U)) (db : SyncableDatabase U S)
      → db.handle ≡ true
      → changeset ≢ []
      → ((returns_ok handler (steps_of changeset db) db.tables ≡ false)
          × (apply_changeset sqlite changeset handler db ≡ (
            record { success = false; warnings = [] },
            record db { tables = left_by handler (steps_of changeset db) db.tables },
          )))
        ⊎ ((returns_ok handler (steps_of changeset db) db.tables ≡ true)
            × (apply_changeset sqlite changeset handler db ≡ (
                let messages = schema_messages handler (steps_of changeset db) db.tables in
                (
                  record { success = is_empty messages; warnings = schema_warnings messages },
                  record db { tables = left_by handler (steps_of changeset db) db.tables },
                ))))
  unfolding apply_changeset
  apply_changeset_reports [] handler db h ne = absurd (ne refl)
  apply_changeset_reports (c ∷ cs) handler db h ne =
      let steps = steps_of (c ∷ cs) db in
      ground (
        arith,
        run_apply-ok handler steps db.tables (some []),
        run_apply-guard handler steps db.tables [],
        run_apply-tables handler steps db.tables (some []),
        is_empty-schema_warnings (schema_messages handler steps db.tables),
      )

  -- The tables are as before, or as the run left them; the rest of the connection stays.
  pub apply_changeset-tables :
      (changeset : Bytes) (handler : Option (ConflictHandler U)) (db : SyncableDatabase U S)
      → ((apply_changeset sqlite changeset handler db).1 ≡ db)
        ⊎ ((apply_changeset sqlite changeset handler db).1 ≡ record db {
          tables = (run_apply handler (steps_of changeset db) db.tables (some [])).tables;
        })
  unfolding apply_changeset
  apply_changeset-tables [] handler db = ground arith
  apply_changeset-tables (c ∷ cs) handler db = ground arith
