-- ===== src/Engine/LocalWrites.antt =====
-- What the conflict handler does with the rows that a client has written itself.
use qsqlite_sync_engine.Qt.{Qt}
use qsqlite_sync_engine.Sqlite.{Bytes, Sqlite}
use qsqlite_sync_engine.Database.{end_session}
use qsqlite_sync_engine.Transport.{Transport}
use qsqlite_sync_engine.Engine.{SyncEngine}

-- the changeset that `endWrite` takes from the session
abbrev pub captured : {U S T : Type 0} → Sqlite U S → SyncEngine U S T → Bytes
captured sqlite a = (end_session sqlite a.db).0
