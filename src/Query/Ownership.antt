-- ===== src/Query/Ownership.antt =====
-- Who owns the statement objects, over any sequence of calls on any number of query objects.
pub mod Methods
pub mod Worlds
use qsqlite_sync_engine.Prelude.{
  ℕ, zero, suc, ◌+◌, ◌≡◌, ◌≢◌, refl, Bool, true, false, not, ◌&&◌, ◌||◌, Option, none, some, List,
  [], ◌∷◌, ◌++◌, ◌==◌, if◌then◌else◌, arith, get_elem?, set,
}
use qsqlite_sync_engine.Text.{QString}
use qsqlite_sync_engine.Statements.{Statements, Bound, sqlite_ok}
use qsqlite_sync_engine.Query.{
  SyncQuery, Variant, make_query, move_construct, finalize, move_assign, prepare, bind_value, exec,
  exec_text, next,
}

abbrev pub is_stmt : ℕ → Option ℕ → Bool
is_stmt h none = false
is_stmt h (some s) = s == h

-- What SQLite documents of its statement objects: `live` says whether there is one at an address.
-- Those made by the program are made by `prepare` and end by `finalize`.
pub record StatementLaws {C D : Type 0} (sql : Statements C D) : Type 0 where
  pub live : ℕ → C → Bool
  pub prepare_live :
      (text : QString) (c : C) (h : ℕ)
      → live h (sql.prepare text c).connection ≡ (is_stmt h (sql.prepare text c).stmt || live h c)
  pub prepare_new :
      (text : QString) (c : C) (h : ℕ) → (sql.prepare text c).stmt ≡ some h → live h c ≡ false
  pub prepare_failed :
      (text : QString) (c : C)
      → ((sql.prepare text c).code == sqlite_ok) ≡ false
      → (sql.prepare text c).stmt ≡ none
  pub finalize_live :
      (s : ℕ) (c : C) (h : ℕ)
      → live s c ≡ true
      → live h (sql.finalize s c) ≡ (live h c && not (s == h))
  pub step_live : (s : ℕ) (c : C) (h : ℕ) → live h (sql.step s c).1 ≡ live h c
  pub reset_live : (s : ℕ) (c : C) (h : ℕ) → live h (sql.reset s c) ≡ live h c
  pub bind_live : (s i : ℕ) (v : Bound D) (c : C) (h : ℕ) → live h (sql.bind s i v c) ≡ live h c

-- the query objects of a program, by their number; none is one that was destroyed
pub record World (C : Type 0) : Type 0 where
  pub queries : List (Option SyncQuery)
  pub connection : C

-- one call on the query object of some number
pub data Call (D : Type 0) : Type 0 where
  construct : Bool → Call D
  destroy : ℕ → Call D
  call_prepare : ℕ → QString → Call D
  call_bind : ℕ → ℕ → Variant D → Call D
  call_exec : ℕ → Call D
  call_exec_text : ℕ → QString → Call D
  call_next : ℕ → Call D
  -- the other one, and what Qt leaves in a text that was moved from
  move_new : ℕ → QString → Call D
  move_to : ℕ → ℕ → QString → Call D

abbrev slot : {C : Type 0} → World C → ℕ → Option SyncQuery
slot w i = elim (get_elem? w.queries i) [ none ↦ none | some o ↦ o ]

module _ {C : Type 0} where
  abbrev put : ℕ → Option SyncQuery → C → World C → World C
  put i o c w = record { queries = set w.queries i o; connection = c }

  -- A call on an object that is not there is no call of the program.
  on : ℕ → (SyncQuery → C → SyncQuery × C) → World C → World C
  on i method w = elim (slot w i) [
    | none ↦ w
    | some q ↦ let (q', c) = method q w.connection in put i (some q') c w
  ]

-- without what the method returns
abbrev after : {C : Type 0} → Bool × SyncQuery × C → SyncQuery × C
after r = (r.1, r.2)

module _ {C D : Type 0} (sql : Statements C D) where
  destroyed : ℕ → World C → World C
  destroyed i w = elim (slot w i) [
    | none ↦ w
    | some q ↦ put i none (finalize sql q w.connection).1 w
  ]

  moved_new : ℕ → QString → World C → World C
  moved_new i left w = elim (slot w i) [
    | none ↦ w
    | some q ↦
        let (new, source) = move_construct left q in
        record {
          queries = set w.queries i (some source) ++ some new ∷ [];
          connection = w.connection;
        }
  ]

  -- An assignment to the object itself does nothing.
  moved_between : ℕ → ℕ → QString → SyncQuery → SyncQuery → World C → World C
  moved_between i j left q source w =
      let (q', source', c) = move_assign sql left q source w.connection in
      if i == j then w else put j (some source') c (put i (some q') c w)

  moved_to : ℕ → ℕ → QString → World C → World C
  moved_to i j left w = elim (slot w i) [
    | none ↦ w
    | some q ↦ elim (slot w j) [ none ↦ w | some source ↦ moved_between i j left q source w ]
  ]

  run : Call D → World C → World C
  unfolding on destroyed moved_new moved_to moved_between
  run (construct db) w = record w { queries = w.queries ++ some (make_query db) ∷ [] }
  run (destroy i) w = destroyed i w
  run (call_prepare i text) w = on i (λ q c. after (prepare sql text q c)) w
  run (call_bind i index v) w = on i (λ q c. (q, bind_value sql index v q c)) w
  run (call_exec i) w = on i (λ q c. after (exec sql q c)) w
  run (call_exec_text i text) w = on i (λ q c. after (exec_text sql text q c)) w
  run (call_next i) w = on i (λ q c. after (next sql q c)) w
  run (move_new i left) w = moved_new i left w
  run (move_to i j left) w = moved_to i j left w

  unfoldable pub runs : List (Call D) → World C → World C
  unfolding run
  runs [] w = w
  runs (call ∷ calls) w = runs calls (run call w)

abbrev number : Bool → ℕ
number b = if b then 1 else 0

abbrev held : ℕ → Option SyncQuery → ℕ
held h none = 0
held h (some q) = number (is_stmt h q.stmt)

-- how many query objects hold the statement at an address
abbrev pub holders : ℕ → List (Option SyncQuery) → ℕ
holders h [] = 0
holders h (o ∷ qs) = held h o + holders h qs

holders-append :
    (h : ℕ) (qs : List (Option SyncQuery)) (o : Option SyncQuery)
    → holders h (qs ++ o ∷ []) ≡ holders h qs + held h o
holders-append h [] o = omega arith
holders-append h (p ∷ qs) o = omega (arith, holders-append h qs o)

holders-set :
    (h : ℕ) (qs : List (Option SyncQuery)) (i : ℕ) (o o' : Option SyncQuery)
    → get_elem? qs i ≡ some o
    → holders h (set qs i o') + held h o ≡ holders h qs + held h o'
holders-set h [] i o o' e = cc
holders-set h (p ∷ qs) zero o o' e = ground arith
holders-set h (p ∷ qs) (suc i) o o' e = omega (arith, holders-set h qs i o o' e)
