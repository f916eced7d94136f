-- ===== src/Text.antt =====
-- The `QString` and `QStringList` operations that the sync engine calls, on lists of code units.
mod Split
mod Order
mod Ends
pub use Split.{join-split, split-append, split-Lacks, length-split}
pub use Order.{str_eq_iff, str_eq_refl, str_lt_irrefl, str_le_trans, str_lt-asymm, str_lt-connex}
pub use Ends.{
  take-length, length-take, ends_with-append, chop-append, last-append, remove_last-append,
}
unfoldable pub use Split.{split, join}
unfoldable pub use Order.{str_eq, str_lt}
unfoldable pub use Ends.{take, starts_with, ends_with, chop, last, remove_last}
pub use Ends.{QString, codes, Lacks}
