-- ===== src/Schema/Hidden.antt =====
-- The tables that `discoverUserTables` finds, and those that its patterns hide.
use mathlib.Core.List.{Mem, not-mem-nil, mem-cons}
use mathlib.Core.Logic.Or
use qsqlite_sync_engine.Prelude.{
  ℕ, ◌≡◌, ◌≢◌, refl, true, not, List, [], ◌∷◌, ◌++◌, arith, map, select, select-Mem, Bool-cases,
  inl, inr,
}
use qsqlite_sync_engine.Text.{QString, codes}
use qsqlite_sync_engine.Sqlite.{MasterRow, Sqlite}
use qsqlite_sync_engine.Database.{SyncableDatabase}
use qsqlite_sync_engine.Schema.{is_user_row, is_shadow, virtual_table_names, discover_user_tables}
use qsqlite_sync_engine.Schema.Like.{like}

any_end_all : (s : QString) → like (b'%' ∷ []) s ≡ true
unfolding like
any_end_all [] = refl
any_end_all (c ∷ s) = ground (arith, any_end_all s)

-- The pattern for the bookkeeping tables takes any character for each of its underscores.
like_sync :
    (c d : ℕ) (rest : QString) → like (codes "_sync_%") (c ∷ codes "sync" ++ d ∷ rest) ≡ true
unfolding like
like_sync c d rest = any_end_all rest

module _ (c d : ℕ) (rest : QString) where
  abbrev name : QString
  name = c ∷ codes "sync" ++ d ∷ rest

  hidden_row : (r : MasterRow) → is_user_row r ≡ true → name ≢ r.name
  unfolding is_user_row
  hidden_row r user same = ground (arith, user, same, like_sync c d rest)

  hidden_rows :
      (rows : List MasterRow)
      → ¬ Mem name (map (λ (r : MasterRow). r.name) (select is_user_row rows))
  unfolding select
  hidden_rows [] m = not-mem-nil m
  hidden_rows (r ∷ rows) m = elim (Bool-cases (is_user_row r)) [
    | inl user ↦
        Or.elim (λ x y. absurd x) (mem-cons.0 (rw user at m)) (hidden_row r user) (hidden_rows rows)
    | inr other ↦ hidden_rows rows (rw other at m)
  ]

  module _ {U S : Type 0} (sqlite : Sqlite U S) where
    -- No table whose name is any one character, the word `sync`, any further character and any text is
    -- among the user tables, whatever the schema is.
    pub hidden_table : (db : SyncableDatabase U S) → ¬ Mem name (discover_user_tables sqlite db)
    unfolding discover_user_tables
    hidden_table db m = elim (Bool-cases db.handle) [
      | inl opened ↦
          hidden_rows (sqlite.master db.tables)
            (select-Mem (λ n. not (is_shadow n (virtual_table_names (sqlite.master db.tables)))) _
              (rw opened at m)).1
      | inr closed ↦ not-mem-nil (rw closed at m)
    ]
