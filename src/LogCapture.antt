-- ===== src/LogCapture.antt =====
-- src/syncengine/SchemaLogCapture.{h,cpp}: the active guard of a thread, or none, with the warnings
-- that it has captured.
use qsqlite_sync_engine.Prelude.{
  ℕ, not, Option, none, some, List, [], ◌∷◌, ◌++◌, ◌==◌, if◌then◌else◌,
}
use qsqlite_sync_engine.Text.{QString}

pub record Warning : Type 0 where
  pub error_code : ℕ
  pub message : QString

-- SQLITE_SCHEMA
abbrev pub sqlite_schema : ℕ
sqlite_schema = 17

abbrev pub ActiveGuard : Type 0
ActiveGuard = Option (List Warning)

-- the constructor and the destructor of `Guard`
unfoldable pub enter_guard : ActiveGuard → ActiveGuard
enter_guard g = some []

unfoldable pub leave_guard : ActiveGuard → ActiveGuard
leave_guard g = none

unfoldable pub log_callback : ℕ → QString → ActiveGuard → ActiveGuard
log_callback error_code message none = none
log_callback error_code message (some warnings) =
    if not (error_code == sqlite_schema)
    then some warnings
    else some (warnings ++ (record { error_code = error_code; message = message }) ∷ [])

-- `guard.warnings()`
unfoldable pub guard_warnings : ActiveGuard → List Warning
guard_warnings none = []
guard_warnings (some warnings) = warnings
