-- ===== src/Query/Rows.antt =====
-- The rows that a program gets from a statement: by `exec` and a loop over `next`, and by `query`.
use qsqlite_sync_engine.Prelude.{
  ℕ, zero, suc, ◌<◌, ◌≡◌, ◌⊎◌, refl, ◌∙◌, true, false, Option, none, some, List, [], ◌∷◌, ◌++◌,
  append_assoc, append-nil, if◌then◌else◌, arith, length, inl, inr,
}
use qsqlite_sync_engine.Statements.{Statements, sqlite_row, sqlite_done}
use qsqlite_sync_engine.Query.{SyncQuery, exec, next}

-- What SQLite documents of a statement that returns rows, where nothing else uses the statement or
-- changes its tables: a step gives the next row, and behind the last row the statement is at its end
-- and the step after that starts anew, as a reset does. `view` is what the program reads of a row.
pub record Cursor {C D R : Type 0} (sql : Statements C D) (s : ℕ) (view : C → R) : Type 0 where
  -- the rows of the result, and those that are still to come
  pub all : C → List R
  pub remaining : C → List R
  pub step_row :
      (c : C) (r : R) (rs : List R)
      → remaining c ≡ r ∷ rs
      → ((sql.step s c).0 ≡ sqlite_row)
        × (view (sql.step s c).1 ≡ r)
        × (remaining (sql.step s c).1 ≡ rs)
        × (all (sql.step s c).1 ≡ all c)
  pub step_done :
      (c : C)
      → remaining c ≡ []
      → ((sql.step s c).0 ≡ sqlite_done) × (remaining (sql.step s c).1 ≡ all c)
  pub reset_all : (c : C) → remaining (sql.reset s c) ≡ all c

-- `while (q.next()) rows.append(…)`, on fuel
unfoldable pub fetch :
    {C D R : Type 0}
    → Statements C D
    → (C → R)
    → ℕ
    → List R
    → SyncQuery
    → C
    → Option (List R × SyncQuery × C)
fetch sql view zero rows q c = none
fetch sql view (suc fuel) rows q c =
    let (more, q', c') = next sql q c in
    let rest = fetch sql view fuel (rows ++ view c' ∷ []) q' c' in
    if more then rest else some (rows, q', c')

list_cases : {A : Type 0} (xs : List A) → (xs ≡ []) ⊎ ((y : A) × (ys : List A) × (xs ≡ y ∷ ys))
list_cases [] = inl refl
list_cases (y ∷ ys) = inr (y, ys, refl)

module _ {C D R : Type 0} (sql : Statements C D) (s : ℕ) (view : C → R)
    (cursor : Cursor sql s view) where
  open cursor use {all, remaining, step_row, step_done, reset_all}

  next_row :
      (q : SyncQuery) (c : C) (r : R) (rs : List R)
      → q.stmt ≡ some s
      → remaining c ≡ r ∷ rs
      → next sql q c ≡ (true, q, (sql.step s c).1)
  unfolding next
  next_row q c r rs held more = ground (arith, step_row c r rs more)

  next_done :
      (q : SyncQuery) (c : C)
      → q.stmt ≡ some s
      → remaining c ≡ []
      → next sql q c ≡ (false, q, (sql.step s c).1)
  unfolding next
  next_done q c held end = ground (arith, step_done c end)

  fetch_lem :
      (fuel : ℕ) (rows rs : List R) (q : SyncQuery) (c : C)
      → q.stmt ≡ some s
      → remaining c ≡ rs
      → length rs < fuel
      → (c' : C) × (fetch sql view fuel rows q c ≡ some (rows ++ rs, q, c'))
  unfolding fetch
  fetch_lem zero rows rs q c held e h = absurd (omega arith)
  fetch_lem (suc fuel) rows [] q c held e h =
      ((sql.step s c).1, rw (next_done q c held e, append-nil rows))
  fetch_lem (suc fuel) rows (r ∷ rs) q c held e h =
      let c1 = (sql.step s c).1 in
      let row = step_row c r rs e in
      let (c', rest) = fetch_lem fuel (rows ++ r ∷ []) rs q c1 held row.2 (omega arith) in
      (c', rw (next_row q c r rs held e, row.1) (rest ∙ (rw (append_assoc rows (r ∷ []) rs))))

  exec_lem :
      (q : SyncQuery) (c : C)
      → q.stmt ≡ some s
      → remaining c ≡ all c
      → ((exec sql q c).0 ≡ true)
        × ((exec sql q c).1 ≡ record q { last_db_error = [] })
        × (remaining (exec sql q c).2 ≡ all c)
  unfolding exec
  exec_lem q c held start = elim (list_cases (all c)) [
    | inl none_at_all ↦
        let (end, again) = step_done c (start ∙ none_at_all) in ground (arith, held, end, again)
    | inr (r, rs, e) ↦
        let row = step_row c r rs (start ∙ e) in
        ground (arith, held, row, reset_all (sql.step s c).1)
  ]

  -- Where nothing interferes with a statement that was prepared, `exec` returns true and a loop over
  -- `next` then gives exactly the rows of the result in their order, and ends without an error.
  pub exec-fetch :
      (fuel : ℕ) (q : SyncQuery) (c : C)
      → q.stmt ≡ some s
      → remaining c ≡ all c
      → length (all c) < fuel
      → ((exec sql q c).0 ≡ true)
        × ((c' : C) × (fetch sql view fuel [] (exec sql q c).1 (exec sql q c).2
              ≡ some (all c, record q { last_db_error = [] }, c')))
  exec-fetch fuel q c held start h =
      let (ok, same, again) = exec_lem q c held start in
      let q' : SyncQuery = record q { last_db_error = [] } in
      (ok, rw same (fetch_lem fuel [] (all c) q' (exec sql q c).2 held again h))
