-- ===== src/Tests/FilenameTests.antt =====
-- File names, with the stand-in for Qt.
use qsqlite_sync_engine.Prelude.{◌≡◌, refl, pos, negsuc, ◌∷◌, ◌++◌, arith}
use qsqlite_sync_engine.Text.{
  QString, codes, ends_with, chop, split, last, remove_last, starts_with,
}
use qsqlite_sync_engine.Filename.{
  no_info, extension, underscore, base_name, parse_parts, parse_filename, build_filename,
}
use qsqlite_sync_engine.Filename.RoundTrip.{parse-build, parse_legacy}
use qsqlite_sync_engine.Tests.Decimal.{decimal_qt, decimal_laws}

built :
    build_filename decimal_qt (codes "my_mac") 6553603 7 (pos 2)
    ≡ codes "my_mac_00000000000006553603_00000000000000000007_v00000000000000000002.changeset"
unfolding build_filename decimal_qt
built = refl

too_few_parts : parse_filename decimal_qt (codes "a_b.changeset") ≡ no_info
unfolding parse_filename parse_parts base_name ends_with chop split last starts_with decimal_qt
too_few_parts = refl

version_in_place_of_sequence : parse_filename decimal_qt (codes "a_12_v3.changeset") ≡ no_info
unfolding parse_filename parse_parts base_name ends_with chop split last remove_last starts_with
    decimal_qt
version_in_place_of_sequence = refl

parse-build_example :
    parse_filename decimal_qt (build_filename decimal_qt (codes "my_mac") 6553603 7 (negsuc 1))
    ≡ record {
      filename = build_filename decimal_qt (codes "my_mac") 6553603 7 (negsuc 1);
      client_id = codes "my_mac";
      hlc = 6553603;
      sequence = 7;
      schema_version = negsuc 1;
    }
parse-build_example =
    parse-build decimal_qt decimal_laws (codes "my_mac") 6553603 7 (negsuc 1) (omega arith)
      (omega arith) (omega arith) (omega arith)

abbrev old_name : QString
old_name =
    (codes "my_mac"
      ++ underscore ∷ (decimal_qt.number 20 6553603 ++ underscore ∷ decimal_qt.number 10 7))
    ++ extension

parse_legacy_example : parse_filename decimal_qt old_name ≡ record {
  filename = old_name;
  client_id = codes "my_mac";
  hlc = 6553603;
  sequence = 7;
  schema_version = pos 0;
}
parse_legacy_example =
    parse_legacy decimal_qt decimal_laws (codes "my_mac") 6553603 7 20 10 (omega arith)
      (omega arith)
