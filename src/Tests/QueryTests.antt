-- ===== src/Tests/QueryTests.antt =====
-- Query objects over the connection of the tests.
use qsqlite_sync_engine.Prelude.{ℕ, pos, ◌≡◌, refl, true, false, none, some, List, [], ◌∷◌, arith}
use qsqlite_sync_engine.Text.{QString, codes}
use qsqlite_sync_engine.Statements.{sqlite_done}
use qsqlite_sync_engine.Query.{
  SyncQuery, Variant, int, prepare, next, move_assign, bind_value, exec, row_texts,
}
use qsqlite_sync_engine.Query.Ownership.{
  World, Call, construct, call_prepare, call_exec, call_next, move_to, runs,
}
use qsqlite_sync_engine.Query.Ownership.Worlds.{IsOwned, runs-IsOwned}
use qsqlite_sync_engine.Query.Rows.{fetch, exec-fetch}
use qsqlite_sync_engine.Query.Rebinding.{argument, rebinding_ignored}
use qsqlite_sync_engine.Tests.Connection.{
  Connection, has, toy_sql, toy_statement_laws, as_rows, toy_cursor, toy_parameters,
}

abbrev connection : List QString → Connection
connection rows = record {
  live = [];
  rows = rows;
  remaining = [];
  current = [];
  busy = false;
  bound = λ i. none;
}

abbrev two_rows : Connection
two_rows = connection (codes "one" ∷ codes "two" ∷ [])

abbrev start : World Connection
start = record { queries = []; connection = two_rows }

-- two objects, the second assigned to the first, whose statement ends there
abbrev program : List (Call ℕ)
program =
    construct true
    ∷ construct true
    ∷ call_prepare 0 (codes "SELECT 1")
    ∷ call_prepare 1 (codes "SELECT 2")
    ∷ call_exec 1
    ∷ move_to 0 1 []
    ∷ call_next 0
    ∷ []

one_left : (runs toy_sql program start).connection.live ≡ 2 ∷ []
unfolding runs toy_sql prepare exec next move_assign
one_left = refl

start-IsOwned : IsOwned toy_sql toy_statement_laws start
unfolding toy_statement_laws has
start-IsOwned h = refl

runs-IsOwned_example : IsOwned toy_sql toy_statement_laws (runs toy_sql program start)
runs-IsOwned_example = runs-IsOwned toy_sql toy_statement_laws program start start-IsOwned

abbrev select : SyncQuery
select = record { db = true; stmt = some 1; last_db_error = [] }

abbrev just_prepared : Connection
just_prepared = record two_rows { live = 1 ∷ []; remaining = two_rows.rows }

exec-fetch_example :
    ((exec toy_sql select just_prepared).0 ≡ true)
    × ((c' : Connection) × (fetch toy_sql
            (λ c. row_texts toy_sql 1 c)
            3
            []
            (exec toy_sql select just_prepared).1
            (exec toy_sql select just_prepared).2
          ≡ some (as_rows two_rows.rows, select, c')))
unfolding toy_cursor
exec-fetch_example =
    exec-fetch toy_sql 1 (λ c. row_texts toy_sql 1 c) (toy_cursor 1) 3 select just_prepared refl
      refl (omega arith)

-- an INSERT, which returns no rows
abbrev insert : Connection
insert = record (connection []) { live = 1 ∷ [] }

abbrev number : ℕ → Variant ℕ
number n = record {
  is_null = false;
  type_id = int;
  to_int = pos n;
  to_long_long = pos n;
  to_double = n;
  to_byte_array = [];
  to_text = [];
}

abbrev first_bound : Connection
first_bound = bind_value toy_sql 0 (number 7) select insert

ends : (toy_sql.step 1 first_bound).0 ≡ sqlite_done
unfolding toy_sql bind_value
ends = refl

rebinding_ignored_example :
    let (ok, q', c2) = exec toy_sql select first_bound in
    (ok ≡ true)
    × (q'.last_db_error ≡ [])
    × (first_bound.bound 1 ≡ some (argument (number 7)))
    × ((bind_value toy_sql 0 (number 8) q' c2).bound 1 ≡ some (argument (number 7)))
unfolding toy_parameters
rebinding_ignored_example =
    rebinding_ignored toy_sql 1 (toy_parameters 1) 0 (number 7) (number 8) select insert refl refl
      ends
