-- ===== src/Tests/LifecycleTests.antt =====
-- An engine over the toy database that is started and stopped.
use qsqlite_sync_engine.Prelude.{ℕ, pos, refl, true, ◌+◌, []}
use qsqlite_sync_engine.Text.{codes}
use qsqlite_sync_engine.Engine.{SyncEngine}
use qsqlite_sync_engine.Engine.Lifecycle.{engine_of_connection, start, stop}
use qsqlite_sync_engine.Engine.Push.{begin_write}
use qsqlite_sync_engine.Engine.Frame.{life}
use qsqlite_sync_engine.Engine.Reachable.{
  Reachable, from_connection, after, started, write_begun, stopped, IsCoherent,
  Reachable-IsCoherent,
}
use qsqlite_sync_engine.Tests.Decimal.{decimal_qt}
use qsqlite_sync_engine.Tests.Toy.{toy, Files, folder, empty_tables}

abbrev wall : ℕ → ℕ
wall n = 100 + n

abbrev new_engine : SyncEngine ℕ ℕ Files
new_engine = engine_of_connection true true [] (codes "a") 100 (record empty_tables { user = 3 }) []

abbrev running_engine : SyncEngine ℕ ℕ Files
running_engine = (start decimal_qt toy folder wall (pos 500) new_engine).1

abbrev writing_engine : SyncEngine ℕ ℕ Files
writing_engine = (begin_write decimal_qt toy folder wall running_engine).1

abbrev stopped_engine : SyncEngine ℕ ℕ Files
stopped_engine = stop decimal_qt toy folder wall writing_engine

is_reachable : Reachable decimal_qt toy folder wall stopped_engine
is_reachable =
    after writing_engine _
      (after running_engine _
        (after new_engine _ (from_connection true [] (codes "a") 100 _ [])
          (started (pos 500) new_engine))
        (write_begun running_engine))
      (stopped writing_engine)

Reachable-IsCoherent_example : IsCoherent (life stopped_engine)
Reachable-IsCoherent_example =
    Reachable-IsCoherent decimal_qt toy folder wall (λ path opened. refl) stopped_engine
      is_reachable
