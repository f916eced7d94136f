-- ===== src/Demo/Published.antt =====
-- A statement that is typed into the demo and commits is published by the next queued call.
use qsqlite_sync_engine.Prelude.{ℕ, List, [], ◌∷◌}
use qsqlite_sync_engine.Text.{QString, codes}
use qsqlite_sync_engine.Qt.{Qt, QtLaws}
use qsqlite_sync_engine.Sqlite.{Bytes, Sqlite}
use qsqlite_sync_engine.Database.{end_session}
use qsqlite_sync_engine.Transport.{Transport, StoresFiles}
use qsqlite_sync_engine.Manager.Writing.{next_filename}
use qsqlite_sync_engine.Engine.{SyncEngine, with_db, with_tables}
use qsqlite_sync_engine.Engine.Delivered.{stamp}
use qsqlite_sync_engine.Demo.Commands.{Command, insert_row, update_row, delete_row}
use qsqlite_sync_engine.Demo.Console.{Console, QtSql, BoundValue, text_value, int_value}

-- the statement that a command of a client runs on the rows, with its values
pub data Changes (qt : Qt) (client : QString) : Command → QString → List BoundValue → Type 0 where
  inserts :
      (name value : QString)
      → Changes qt client
          (insert_row name value)
          (codes "INSERT INTO items (name, value, modified_by) VALUES (?, ?, ?)")
          (text_value name ∷ text_value value ∷ text_value client ∷ [])
  updates :
      (id value : QString)
      → Changes qt client
          (update_row id value)
          (codes "UPDATE items SET value = ?, modified_by = ? WHERE id = ?")
          (text_value value ∷ text_value client ∷ int_value (qt.to_int id) ∷ [])
  deletes :
      (id : QString)
      → Changes qt client
          (delete_row id)
          (codes "DELETE FROM items WHERE id = ?")
          (int_value (qt.to_int id) ∷ [])

module _ {U S T : Type 0} (qt : Qt) (sqlite : Sqlite U S) (transport : Transport T) (wall : ℕ → ℕ)
    (sql : QtSql U) where
  -- the engine behind a statement of the demo
  abbrev pub changed : QString → List BoundValue → Console U S T → SyncEngine U S T
  changed statement values c = with_tables (sql.exec statement values c.engine.db.tables).1 c.engine

  -- what the session of an engine has recorded, and the engine whose session is ended
  abbrev pub recorded : SyncEngine U S T → Bytes
  recorded e = (end_session sqlite e.db).0

  abbrev pub ended : SyncEngine U S T → SyncEngine U S T
  ended e = with_db (end_session sqlite e.db).1 e

  module _ (laws : QtLaws qt) (IsName : QString → Type 0) (Fits : QString → Bytes → T → Type 0)
      (stores : StoresFiles transport IsName Fits) where
    -- the name of the file that an engine writes next
    abbrev pub next_name : SyncEngine U S T → QString
    next_name e = next_filename qt (stamp wall (ended e)) (ended e).manager
