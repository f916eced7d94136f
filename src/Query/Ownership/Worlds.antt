-- ===== src/Query/Ownership/Worlds.antt =====
-- Every statement has one owner, in every state that a program reaches.
use qsqlite_sync_engine.Prelude.{
  ℕ, zero, suc, ◌≤◌, ◌∙◌, ◌≡◌, refl, false, Option, none, some, List, [], ◌∷◌, ◌==◌, arith,
  get_elem?, set, Option-cases, Bool-cases, inl, inr,
}
use qsqlite_sync_engine.Text.{QString}
use qsqlite_sync_engine.Statements.{Statements}
use qsqlite_sync_engine.Query.{
  SyncQuery, make_query, exec, exec_text, next, prepare, bind_value, move_construct, move_assign,
}
use qsqlite_sync_engine.Query.Ownership.{
  StatementLaws, World, Call, construct, destroy, call_prepare, call_bind, call_exec,
  call_exec_text, call_next, move_new, move_to, slot, on, after, destroyed, moved_new,
  moved_between, moved_to, run, runs, number, held, holders, holders-append, holders-set,
}
use qsqlite_sync_engine.Query.Ownership.Methods.{
  Owns, Balanced, finalize-Balanced, finalized, prepare-Balanced, bind-Balanced, exec-Balanced,
  next-Balanced, exec_text-Balanced,
}

module _ {C D : Type 0} (sql : Statements C D) (laws : StatementLaws sql) where
  open laws use {live}

  -- A statement that exists is held by one query object, and no other address is held.
  abbrev pub IsOwned : World C → Type 0
  IsOwned w = (h : ℕ) → holders h w.queries ≡ number (live h w.connection)

  get_elem?-set_ne :
      (qs : List (Option SyncQuery)) (i j : ℕ) (o : Option SyncQuery)
      → (i == j) ≡ false
      → get_elem? (set qs i o) j ≡ get_elem? qs j
  get_elem?-set_ne [] i j o ne = refl
  get_elem?-set_ne (p ∷ qs) zero zero o ne = cc
  get_elem?-set_ne (p ∷ qs) zero (suc j) o ne = refl
  get_elem?-set_ne (p ∷ qs) (suc i) zero o ne = refl
  get_elem?-set_ne (p ∷ qs) (suc i) (suc j) o ne = get_elem?-set_ne qs i j o (ground arith)

  slot-get :
      (w : World C) (i : ℕ) (q : SyncQuery)
      → slot w i ≡ some q
      → get_elem? w.queries i ≡ some (some q)
  slot-get w i q e = ground arith

  held-le-holders :
      (h : ℕ) (qs : List (Option SyncQuery)) (i : ℕ) (o : Option SyncQuery)
      → get_elem? qs i ≡ some o
      → held h o ≤ holders h qs
  held-le-holders h qs i o e = omega (arith, holders-set h qs i o none e)

  slot-Owns :
      (w : World C) (i : ℕ) (q : SyncQuery)
      → IsOwned w
      → slot w i ≡ some q
      → Owns sql laws q w.connection
  slot-Owns w i q owned e h same =
      ground (arith, owned h, held-le-holders h w.queries i (some q) (slot-get w i q e))

  on-IsOwned :
      (i : ℕ) (method : SyncQuery → C → SyncQuery × C) (w : World C)
      → ((q : SyncQuery) (c : C) → Owns sql laws q c → Balanced sql laws q c (method q c))
      → IsOwned w
      → IsOwned (on i method w)
  unfolding on
  on-IsOwned i method w balanced owned h = elim (Option-cases (slot w i)) [
    | inl e ↦ rw (e, on) (owned h)
    | inr (q, e) ↦
        let r = method q w.connection in
        rw (e, on)
          (omega (
            arith,
            owned h,
            balanced q w.connection (slot-Owns w i q owned e) h,
            holders-set h w.queries i (some q) (some r.0) (slot-get w i q e),
          ))
  ]

  destroyed-IsOwned : (i : ℕ) (w : World C) → IsOwned w → IsOwned (destroyed sql i w)
  unfolding destroyed
  destroyed-IsOwned i w owned h = elim (Option-cases (slot w i)) [
    | inl e ↦ rw (e, destroyed) (owned h)
    | inr (q, e) ↦
        rw (e, destroyed)
          (ground (
            arith,
            owned h,
            finalized sql laws q w.connection,
            finalize-Balanced sql laws q w.connection (slot-Owns w i q owned e) h,
            holders-set h w.queries i (some q) none (slot-get w i q e),
          ))
  ]

  moved_new-IsOwned :
      (i : ℕ) (left : QString) (w : World C) → IsOwned w → IsOwned (moved_new sql i left w)
  unfolding moved_new move_construct
  moved_new-IsOwned i left w owned h = elim (Option-cases (slot w i)) [
    | inl e ↦ rw (e, moved_new) (owned h)
    | inr (q, e) ↦
        let source : SyncQuery = record q { stmt = none; last_db_error = left } in
        rw (e, moved_new)
          (omega (
            arith,
            owned h,
            holders-append h (set w.queries i (some source)) (some q),
            holders-set h w.queries i (some q) (some source) (slot-get w i q e),
          ))
  ]

  moved_between-IsOwned :
      (i j : ℕ) (left : QString) (q source : SyncQuery) (w : World C)
      → slot w i ≡ some q
      → slot w j ≡ some source
      → IsOwned w
      → IsOwned (moved_between sql i j left q source w)
  unfolding moved_between
  moved_between-IsOwned i j left q source w e e' owned h = elim (Bool-cases (i == j)) [
    | inl same ↦ rw same (owned h)
    | inr ne ↦
        let emptied : SyncQuery = record source { stmt = none; last_db_error = left } in
        let at_j : get_elem? (set w.queries i (some source)) j ≡ some (some source) =
          get_elem?-set_ne w.queries i j (some source) ne ∙ slot-get w j source e' in
        unfold move_assign in
        rw ne (
          ground (
            arith,
            owned h,
            finalized sql laws q w.connection,
            finalize-Balanced sql laws q w.connection (slot-Owns w i q owned e) h,
            holders-set h w.queries i (some q) (some source) (slot-get w i q e),
            holders-set h (set w.queries i (some source)) j (some source) (some emptied) at_j,
          ))
  ]

  moved_to-IsOwned :
      (i j : ℕ) (left : QString) (w : World C) → IsOwned w → IsOwned (moved_to sql i j left w)
  unfolding moved_to
  moved_to-IsOwned i j left w owned = elim (Option-cases (slot w i)) [
    | inl e ↦ λ h. rw (e, moved_to) (owned h)
    | inr (q, e) ↦ elim (Option-cases (slot w j)) [
      | inl e' ↦ λ h. rw (e, e', moved_to) (owned h)
      | inr (source, e') ↦
          λ h. rw (e, e', moved_to) (moved_between-IsOwned i j left q source w e e' owned h)
    ]
  ]

  run-IsOwned : (call : Call D) (w : World C) → IsOwned w → IsOwned (run sql call w)
  unfolding run
  run-IsOwned (construct db) w owned =
      λ h. omega (arith, owned h, holders-append h w.queries (some (make_query db)))
  run-IsOwned (destroy i) w owned = destroyed-IsOwned i w owned
  run-IsOwned (call_prepare i text) w owned =
      on-IsOwned i (λ q c. after (prepare sql text q c)) w (prepare-Balanced sql laws text) owned
  run-IsOwned (call_bind i index v) w owned =
      on-IsOwned i (λ q c. (q, bind_value sql index v q c)) w
        (λ q c o. bind-Balanced sql laws index v q c) owned
  run-IsOwned (call_exec i) w owned =
      on-IsOwned i (λ q c. after (exec sql q c)) w (λ q c o. exec-Balanced sql laws q c) owned
  run-IsOwned (call_exec_text i text) w owned =
      on-IsOwned i (λ q c. after (exec_text sql text q c)) w (exec_text-Balanced sql laws text)
        owned
  run-IsOwned (call_next i) w owned =
      on-IsOwned i (λ q c. after (next sql q c)) w (λ q c o. next-Balanced sql laws q c) owned
  run-IsOwned (move_new i left) w owned = moved_new-IsOwned i left w owned
  run-IsOwned (move_to i j left) w owned = moved_to-IsOwned i j left w owned

  -- Whatever calls a program makes on its query objects, moves and destructions included, the number
  -- of objects that hold the statement at an address is 1 if there is a statement at the address and 0
  -- if there is none, if that is so at the start: none is leaked, shared, or held after it was
  -- finalized.
  pub runs-IsOwned : (calls : List (Call D)) (w : World C) → IsOwned w → IsOwned (runs sql calls w)
  unfolding runs
  runs-IsOwned [] w owned = owned
  runs-IsOwned (call ∷ calls) w owned =
      runs-IsOwned calls (run sql call w) (run-IsOwned call w owned)
