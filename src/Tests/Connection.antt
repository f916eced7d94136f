-- ===== src/Tests/Connection.antt =====
-- A connection whose statements all return the same texts, one to a row.
use qsqlite_sync_engine.Prelude.{
  ℕ, suc, ◌+◌, pos, ◌<◌, ◌≡◌, refl, ap, Bool, true, false, not, ◌&&◌, ◌||◌, Option, none, some,
  List, [], ◌∷◌, map, ◌==◌, if◌then◌else◌, arith,
}
use qsqlite_sync_engine.Text.{QString}
use qsqlite_sync_engine.Statements.{
  Statements, Prepared, Bound, sqlite_ok, sqlite_row, sqlite_done, text_type,
}
use qsqlite_sync_engine.Query.{row_texts}
use qsqlite_sync_engine.Query.Ownership.{StatementLaws, is_stmt}
use qsqlite_sync_engine.Query.Rows.{Cursor}
use qsqlite_sync_engine.Query.Rebinding.{Parameters}

pub record Connection : Type 0 where
  pub live : List ℕ
  pub rows : List QString
  pub remaining : List QString
  pub current : QString
  pub busy : Bool
  pub bound : ℕ → Option (Bound ℕ)

sum : List ℕ → ℕ
sum [] = 0
sum (n ∷ ns) = n + sum ns

unfoldable pub has : ℕ → List ℕ → Bool
has h [] = false
has h (n ∷ ns) = n == h || has h ns

unfoldable pub remove : ℕ → List ℕ → List ℕ
remove s [] = []
remove s (n ∷ ns) = let rest = remove s ns in if n == s then rest else n ∷ rest

-- the address of the next statement
fresh : List ℕ → ℕ
fresh live = suc (sum live)

prepared : QString → Connection → Prepared Connection
prepared [] c = record { code = sqlite_ok; stmt = none; connection = c }
prepared (t ∷ text) c = record {
  code = sqlite_ok;
  stmt = some (fresh c.live);
  connection = record c { live = fresh c.live ∷ c.live; remaining = c.rows; busy = false };
}

unfoldable pub stepped : List QString → Connection → ℕ × Connection
stepped [] c = (sqlite_done, record c { remaining = c.rows; current = []; busy = true })
stepped (r ∷ rs) c = (sqlite_row, record c { remaining = rs; current = r; busy = true })

unfoldable pub toy_sql : Statements Connection ℕ
unfolding prepared stepped remove fresh sum
toy_sql = record {
  is_open = λ c. true;
  prepare = prepared;
  finalize = λ s c. record c { live = remove s c.live };
  step = λ s c. stepped c.remaining c;
  reset = λ s c. record c { remaining = c.rows; busy = false };
  bind = λ s i v c.
      if c.busy then c else record c { bound = λ j. if i == j then some v else c.bound j };
  column_count = λ s c. 1;
  column_name = λ s i c. none;
  column_type = λ s i c. text_type;
  column_int64 = λ s i c. pos 0;
  column_double = λ s i c. 0;
  column_blob = λ s i c. [];
  column_text = λ s i c. some c.current;
  errmsg = λ c. [];
  changes = λ c. 0;
  last_insert_rowid = λ c. pos 0;
  exec = λ text c. (sqlite_ok, c);
}

has-fresh : (k : ℕ) (ns : List ℕ) → sum ns < k → has k ns ≡ false
unfolding has sum
has-fresh k [] h = refl
has-fresh k (n ∷ ns) h = ground (arith, has-fresh k ns)

pub has-remove : (s h : ℕ) (ns : List ℕ) → has h (remove s ns) ≡ (has h ns && not (s == h))
unfolding has remove
has-remove s h [] = refl
has-remove s h (n ∷ ns) = ground (arith, has-remove s h ns)

pub prepare_live :
    (text : QString) (c : Connection) (h : ℕ)
    → has h (toy_sql.prepare text c).connection.live
      ≡ (is_stmt h (toy_sql.prepare text c).stmt || has h c.live)
unfolding toy_sql has
prepare_live [] c h = refl
prepare_live (t ∷ text) c h = refl

pub prepare_new :
    (text : QString) (c : Connection) (h : ℕ)
    → (toy_sql.prepare text c).stmt ≡ some h
    → has h c.live ≡ false
unfolding toy_sql
prepare_new [] c h e = cc
prepare_new (t ∷ text) c h e = has-fresh h c.live (ground arith)

pub prepare_failed :
    (text : QString) (c : Connection)
    → ((toy_sql.prepare text c).code == sqlite_ok) ≡ false
    → (toy_sql.prepare text c).stmt ≡ none
unfolding toy_sql
prepare_failed [] c e = refl
prepare_failed (t ∷ text) c e = cc

pub step_live : (rs : List QString) (c : Connection) → (stepped rs c).1.live ≡ c.live
unfolding stepped
step_live [] c = refl
step_live (r ∷ rs) c = refl

pub bind_live : (s i : ℕ) (v : Bound ℕ) (c : Connection) → (toy_sql.bind s i v c).live ≡ c.live
unfolding toy_sql
bind_live s i v c = ground arith

unfoldable pub toy_statement_laws : StatementLaws toy_sql
unfolding toy_sql
toy_statement_laws = record {
  live = λ h c. has h c.live;
  prepare_live = prepare_live;
  prepare_new = prepare_new;
  prepare_failed = prepare_failed;
  finalize_live = λ s c h e. has-remove s h c.live;
  step_live = λ s c h. ap (has h) (step_live c.remaining c);
  reset_live = λ s c h. refl;
  bind_live = λ s i v c h. ap (has h) (bind_live s i v c);
}

-- a row is a list of one text
abbrev pub as_rows : List QString → List (List QString)
as_rows texts = map (λ t. t ∷ []) texts

pub step_row :
    (s : ℕ) (c : Connection) (left : List QString) (r : List QString) (rs : List (List QString))
    → as_rows left ≡ r ∷ rs
    → ((stepped left c).0 ≡ sqlite_row)
      × (row_texts toy_sql s (stepped left c).1 ≡ r)
      × (as_rows (stepped left c).1.remaining ≡ rs)
      × (as_rows (stepped left c).1.rows ≡ as_rows c.rows)
unfolding stepped row_texts toy_sql
step_row s c [] r rs e = cc
step_row s c (t ∷ left) r rs e = ground arith

pub step_done :
    (c : Connection) (left : List QString)
    → as_rows left ≡ []
    → ((stepped left c).0 ≡ sqlite_done) × (as_rows (stepped left c).1.remaining ≡ as_rows c.rows)
unfolding stepped
step_done c [] e = (refl, refl)
step_done c (t ∷ left) e = cc

unfoldable pub toy_cursor : (s : ℕ) → Cursor toy_sql s (λ c. row_texts toy_sql s c)
unfolding toy_sql
toy_cursor s = record {
  all = λ c. as_rows c.rows;
  remaining = λ c. as_rows c.remaining;
  step_row = λ c r rs e. step_row s c c.remaining r rs e;
  step_done = λ c e. step_done c c.remaining e;
  reset_all = λ c. refl;
}

pub step_busy : (c : Connection) (left : List QString) → (stepped left c).1.busy ≡ true
unfolding stepped
step_busy c [] = refl
step_busy c (t ∷ left) = refl

pub step_bound :
    (c : Connection) (left : List QString) (i : ℕ) → (stepped left c).1.bound i ≡ c.bound i
unfolding stepped
step_bound c [] i = refl
step_bound c (t ∷ left) i = refl

pub bind_idle :
    (s i : ℕ) (v : Bound ℕ) (c : Connection) (j : ℕ)
    → c.busy ≡ false
    → (toy_sql.bind s i v c).bound j ≡ (if i == j then some v else c.bound j)
unfolding toy_sql
bind_idle s i v c j e = ground arith

pub bind_busy :
    (s i : ℕ) (v : Bound ℕ) (c : Connection) (j : ℕ)
    → c.busy ≡ true
    → (toy_sql.bind s i v c).bound j ≡ c.bound j
unfolding toy_sql
bind_busy s i v c j e = ground arith

unfoldable pub toy_parameters : (s : ℕ) → Parameters toy_sql s
unfolding toy_sql
toy_parameters s = record {
  bound = λ c i. c.bound i;
  busy = λ c. c.busy;
  step_busy = λ c e. step_busy c c.remaining;
  step_bound = λ c i. step_bound c c.remaining i;
  bind_idle = bind_idle s;
  bind_busy = bind_busy s;
}
