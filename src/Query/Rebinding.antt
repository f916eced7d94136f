-- ===== src/Query/Rebinding.antt =====
-- What becomes of a value that is bound after `exec`.
use qsqlite_sync_engine.Prelude.{
  ℕ, ◌+◌, ◌≡◌, Bool, true, false, Option, some, [], ◌==◌, if◌then◌else◌, arith,
}
use qsqlite_sync_engine.Statements.{Statements, Bound, null_value, sqlite_done}
use qsqlite_sync_engine.Query.{SyncQuery, Variant, bound_of, bind_value, exec}

-- What SQLite documents of the parameters of a statement: `sqlite3_bind` is refused between a step
-- and the next reset, and neither changes what is bound.
pub record Parameters {C D : Type 0} (sql : Statements C D) (s : ℕ) : Type 0 where
  pub bound : C → ℕ → Option (Bound D)
  -- stepped, and not reset since
  pub busy : C → Bool
  pub step_busy : (c : C) → (sql.step s c).0 ≡ sqlite_done → busy (sql.step s c).1 ≡ true
  pub step_bound : (c : C) (i : ℕ) → bound (sql.step s c).1 i ≡ bound c i
  pub bind_idle :
      (i : ℕ) (v : Bound D) (c : C) (j : ℕ)
      → busy c ≡ false
      → bound (sql.bind s i v c) j ≡ (if i == j then some v else bound c j)
  pub bind_busy :
      (i : ℕ) (v : Bound D) (c : C) (j : ℕ) → busy c ≡ true → bound (sql.bind s i v c) j ≡ bound c j

-- what `bindValue` hands to SQLite for a value
abbrev pub argument : {D : Type 0} → Variant D → Bound D
argument v = if v.is_null then null_value else bound_of v.type_id v

module _ {C D : Type 0} (sql : Statements C D) (s : ℕ) (parameters : Parameters sql s) where
  open parameters use {bound, busy, step_busy, step_bound, bind_idle, bind_busy}

  -- If a statement that was not stepped yet runs to its end in `exec`, as one that returns no rows
  -- does, then the value that was bound before it was in place, and a value that is bound to the same
  -- parameter after it is dropped without an error: the next `exec` runs with the first value again.
  pub rebinding_ignored :
      (i : ℕ) (v w : Variant D) (q : SyncQuery) (c : C)
      → q.stmt ≡ some s
      → busy c ≡ false
      → (sql.step s (bind_value sql i v q c)).0 ≡ sqlite_done
      → let c1 = bind_value sql i v q c in
        let (ok, q', c2) = exec sql q c1 in
        (ok ≡ true)
        × (q'.last_db_error ≡ [])
        × (bound c1 (i + 1) ≡ some (argument v))
        × (bound (bind_value sql i w q' c2) (i + 1) ≡ some (argument v))
  unfolding bind_value exec
  rebinding_ignored i v w q c held idle end =
      let c1 = sql.bind s (i + 1) (argument v) c in
      ground (
        arith,
        bind_idle (i + 1) (argument v) c (i + 1) idle,
        step_busy c1,
        step_bound c1 (i + 1),
        bind_busy (i + 1) (argument w) (sql.step s c1).1 (i + 1),
      )
