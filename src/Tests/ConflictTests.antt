-- ===== src/Tests/ConflictTests.antt =====
-- Conflicts on the one row of the toy database.
use qsqlite_sync_engine.Prelude.{ℕ, pos, ◌≡◌, ◌≢◌, ◌↔◌, inl, inr, refl, false, some, [], ◌∷◌, arith}
use qsqlite_sync_engine.Text.{QString, codes, str_eq, str_lt, starts_with}
use qsqlite_sync_engine.Sqlite.{Tables, changed_data, existing_row}
use qsqlite_sync_engine.Metadata.{get_row_hlc}
use qsqlite_sync_engine.Conflict.{replace, skip, handler, sync_prefix}
use qsqlite_sync_engine.Conflict.LastWriter.{
  Decided, handler_decides, handler_symmetric, handler_tie_differs,
}
use qsqlite_sync_engine.Tests.Toy.{toy, empty_tables}

abbrev items : QString
items = codes "items"

-- the row was last written at 20, and at 30
abbrev at_20 : Tables ℕ
at_20 = record empty_tables {
  user = 5;
  row_hlcs = (record { table_name = items; rowid = pos 1; hlc = 20; client_id = codes "a" }) ∷ [];
}

abbrev at_30 : Tables ℕ
at_30 = record empty_tables {
  user = 6;
  row_hlcs = (record { table_name = items; rowid = pos 1; hlc = 30; client_id = codes "b" }) ∷ [];
}

is_foreign : starts_with items sync_prefix ≡ false
unfolding starts_with
is_foreign = refl

recorded_20 : get_row_hlc toy items (pos 1) at_20 ≡ 20
unfolding get_row_hlc str_eq
recorded_20 = refl

recorded_30 : get_row_hlc toy items (pos 1) at_30 ≡ 30
unfolding get_row_hlc str_eq
recorded_30 = refl

handler_decides_example :
    Decided toy
      (codes "a")
      (codes "b")
      items
      30
      (pos 1)
      at_20
      (handler toy (codes "a") 30 (codes "b") changed_data items (some (pos 1)) at_20)
handler_decides_example =
    handler_decides toy changed_data (codes "a") (codes "b") items 30 (pos 1) at_20 (inl refl)
      is_foreign

a-ne-b : codes "a" ≢ codes "b"
a-ne-b e = ground arith

handler_symmetric_example :
    ((handler toy (codes "a") 30 (codes "b") changed_data items (some (pos 1)) at_20).0 ≡ replace)
    ↔ ((handler toy (codes "b") 20 (codes "a") existing_row items (some (pos 1)) at_30).0 ≡ skip)
handler_symmetric_example =
    handler_symmetric toy changed_data existing_row (codes "a") (codes "b") items 20 30 (pos 1)
      at_20 at_30 (inl refl) (inr refl) is_foreign a-ne-b recorded_20 recorded_30

handler_tie_differs_example :
    ((handler toy (codes "a") 20 (codes "b") changed_data items (some (pos 1)) at_20).0 ≡ replace)
    × (handler toy (codes "c") 20 (codes "b") changed_data items (some (pos 1)) at_20
        ≡ (skip, at_20))
unfolding str_lt
handler_tie_differs_example =
    handler_tie_differs toy changed_data (codes "a") (codes "b") (codes "c") items 20 (pos 1) at_20
      (inl refl) is_foreign recorded_20 refl refl
