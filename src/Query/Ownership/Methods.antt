-- ===== src/Query/Ownership/Methods.antt =====
-- Each method hands over exactly the statements that it makes and ends.
use qsqlite_sync_engine.Prelude.{
  ℕ, ◌+◌, ◌≡◌, refl, true, none, some, arith, Option-cases, Bool-cases, inl, inr,
}
use qsqlite_sync_engine.Text.{QString}
use qsqlite_sync_engine.Statements.{Statements}
use qsqlite_sync_engine.Query.{
  SyncQuery, Variant, finalize, prepare, bind_value, exec, exec_text, next,
}
use qsqlite_sync_engine.Query.Ownership.{StatementLaws, is_stmt, number, held}

module _ {C D : Type 0} (sql : Statements C D) (laws : StatementLaws sql) where
  open laws use {live}

  -- The statement that a query object holds exists.
  abbrev pub Owns : SyncQuery → C → Type 0
  Owns q c = (h : ℕ) → is_stmt h q.stmt ≡ true → live h c ≡ true

  -- The statements that exist change just as those that the object holds.
  abbrev pub Balanced : SyncQuery → C → SyncQuery × C → Type 0
  Balanced q c r =
      (h : ℕ) → number (live h r.1) + held h (some q) ≡ number (live h c) + held h (some r.0)

  pub finalize-Balanced : (q : SyncQuery) (c : C) → Owns q c → Balanced q c (finalize sql q c)
  unfolding finalize
  finalize-Balanced q c owns h = elim (Option-cases q.stmt) [
    | inl e ↦ ground arith
    | inr (s, e) ↦ ground (arith, owns s, laws.finalize_live s c h)
  ]

  pub finalized : (q : SyncQuery) (c : C) → (finalize sql q c).0.stmt ≡ none
  unfolding finalize
  finalized q c = ground arith

  pub prepare-Balanced :
      (text : QString) (q : SyncQuery) (c : C)
      → Owns q c
      → let r = prepare sql text q c in Balanced q c (r.1, r.2)
  unfolding prepare
  prepare-Balanced text q c owns h =
      let c1 = (finalize sql q c).1 in
      ground (
        arith,
        finalize-Balanced q c owns h,
        laws.prepare_live text c1 h,
        laws.prepare_new text c1 h,
        laws.prepare_failed text c1,
      )

  pub bind-Balanced :
      (i : ℕ) (v : Variant D) (q : SyncQuery) (c : C) → Balanced q c (q, bind_value sql i v q c)
  unfolding bind_value
  bind-Balanced i v q c h = elim (Option-cases q.stmt) [
    | inl e ↦ rw e refl
    | inr (s, e) ↦ rw e (rw laws.bind_live refl)
  ]

  pub exec-Balanced : (q : SyncQuery) (c : C) → let r = exec sql q c in Balanced q c (r.1, r.2)
  unfolding exec
  exec-Balanced q c h = elim (Option-cases q.stmt) [
    | inl e ↦ ground arith
    | inr (s, e) ↦ ground (arith, laws.step_live s c h, laws.reset_live s (sql.step s c).1 h)
  ]

  pub next-Balanced : (q : SyncQuery) (c : C) → let r = next sql q c in Balanced q c (r.1, r.2)
  unfolding next
  next-Balanced q c h = elim (Option-cases q.stmt) [
    | inl e ↦ ground arith
    | inr (s, e) ↦ ground (arith, laws.step_live s c h)
  ]

  pub exec_text-Balanced :
      (text : QString) (q : SyncQuery) (c : C)
      → Owns q c
      → let r = exec_text sql text q c in Balanced q c (r.1, r.2)
  unfolding exec_text
  exec_text-Balanced text q c owns h =
      let p = prepare sql text q c in
      let made = prepare-Balanced text q c owns h in
      elim (Bool-cases p.0) [
        | inl ok ↦ rw ok (omega (arith, made, exec-Balanced p.1 p.2 h))
        | inr failed ↦ rw failed made
      ]
