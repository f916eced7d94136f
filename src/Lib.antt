-- ===== src/Lib.antt =====
-- A model of QSQLiteSyncEngine, the library that keeps copies of an SQLite database on several machines
-- in step: each client writes its changes as changeset files into a shared folder, and applies the files
-- of the others.
--
-- The parts, in the order in which they use each other, each with the module that models it (paths are
-- those of the repository, under src/syncengine/):
--
--   Clock       HybridLogicalClock.cpp: `now`, `receive`, `pack` and the two components. A timestamp is
--               a ℕ of 64 bits with the counter in its lowest 16; the wrap-around of the counter and
--               the shift are written out. The reading of the system clock is an argument.
--   Filename    ChangesetManager.cpp: `buildFilename` and `parseFilename`. Text has what they use of
--               QString, as a list of code points; Qt has its conversions of numbers and its place
--               markers, which are a parameter with the laws `QtLaws`.
--   Metadata    SyncableDatabase.cpp: the tables _sync_applied, _sync_row_hlc and _sync_client and the
--               operations on them.
--   LogCapture  SchemaLogCapture.cpp: the warnings that SQLite logs while a changeset is applied.
--   Conflict    ConflictResolver.cpp and `conflictCallback` of SyncableDatabase.cpp.
--   Database    SyncableDatabase.cpp: the connection, its session and `applyChangeset`; Convergence has
--               clients that get the same changes of a row.
--   Query       `query` and `exec` of SyncableDatabase.cpp, and SyncQuery.cpp: the life of a prepared
--               statement.
--   Transport   ITransport.h; SharedFolder is its implementation, SharedFolderTransport.cpp, over a
--               file system.
--   Manager     ChangesetManager.cpp: `writeChangeset` and `pendingChangesets`.
--   Schema      `discoverUserTables` of SyncEngine.cpp, `generateSnapshot` of SyncableDatabase.cpp.
--   Engine      SyncEngine.cpp: Rows (`recordRowHlcs`), Pull (`applyOneChangeset`), Sync (`sync`), Push
--               (`beginWrite`, `endWrite`, `onTransactionCommitted`, `snapshotIfNeeded`) and Lifecycle
--               (the constructors, `start`, `stop`, `setSchemaVersion`). The other modules below it are
--               proofs: Arrival follows a changeset from `endWrite` of one client to `sync` of another
--               one, Causal the clock over a call of `sync`, Reachable has the states that an engine can
--               get into, Echo what the automatic capture makes of a `sync`, and Snapshot when the first
--               snapshot is left out; Reference has a plain loop for `sync`, Converging two clients over
--               whole calls of it, Idle a second call, and Ordinary a folder whose files name no table
--               of the sync engine.
--   Demo        demo/main.cpp, the command line program over an engine: Options (the arguments), Commands
--               (the typed lines), Startup (`main` up to the event loop), Console (its events) and Loop. The
--               engine's own transactions, for which its commit hook queues calls, are counted by an
--               argument of each event. Alive, Leaving, Published, Reading and Options.Arguments are proofs.
--   Prelude     shared names and lemmas. Tests: concrete stand-ins for Qt, SQLite and a transport, and
--               runs of the definitions.
--
-- The state of an engine (`SyncEngine`) holds that of the manager, which holds the database and the
-- transport, as the objects share them. An operation takes the state and returns its result with the
-- new state; the signals that an engine emits are a list in its state. SQLite is the parameter
-- `Sqlite`: it answers for sessions, iterators and the schema table, and a run of
-- sqlite3changeset_apply is a tree of the calls that it makes (log messages and conflicts), which
-- continues with the answer of the conflict callback. The rows of the user's tables are in the type
-- `U`, the tables of bookkeeping are part of the model. A theorem names what it assumes of SQLite:
-- that the statements on the bookkeeping tables run, that a handle is set where a file was opened, and
-- `KeepsBookkeeping`, that it writes no table that a changeset does not name (the application has no
-- trigger that writes the bookkeeping) and rolls a run back that fails. The code passes SQLite no filter
-- of tables, so a changeset may name the bookkeeping tables; the theorems that follow the marks through
-- a call of `sync` take a folder without such files, `OrdinaryFiles`. SQLite's prepared statements are
-- the parameter `Statements`, Qt's files and directories the parameter `FileSystem`, and the conversions
-- of Qt the parameter `Qt`, each with its laws where a theorem needs them; the demo has `QtSql` and
-- `Machine`.
--
-- Every loop is structural recursion on the list that the code goes through, except the one over the
-- rows of a statement in Query, which runs on fuel: as much as the statement has rows, and one more, is
-- enough. The retry of `sync` is one pass, as in the code.
--
-- Not modelled: the QSQLITE_SYNC driver in src/driver (Qt's own SQLite driver under another name), the
-- tests; the texts for logging; threads (an operation of the clock is one step, as its mutex makes it);
-- the slots that other applications than the demo connect to the signals. In Engine the queued call of
-- `onTransactionCommitted` is a step of its own; Demo has the queue. That reading a line of the demo
-- waits for one is left out.
pub mod Demo
pub mod Prelude
pub mod Clock
pub mod Text
pub mod Qt
pub mod Filename
pub mod Sqlite
pub mod Metadata
pub mod LogCapture
pub mod Conflict
pub mod Database
pub mod Statements
pub mod Query
pub mod Transport
pub mod SharedFolder
pub mod Manager
pub mod Schema
pub mod Engine
pub mod Tests
