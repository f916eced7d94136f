-- ===== src/Schema/Like.antt =====
-- The operator LIKE of SQL: `%` stands for any text, `_` for any one character, and letters of ASCII
-- are compared without their case.
use qsqlite_sync_engine.Prelude.{
  ℕ, ◌+◌, Bool, true, false, ◌&&◌, ◌||◌, [], ◌∷◌, leb, ◌==◌, if◌then◌else◌,
}
use qsqlite_sync_engine.Text.{QString}

unfoldable pub fold_case : ℕ → ℕ
fold_case c = if leb b'A' c && leb c b'Z' then c + 32 else c

-- whether `rest` accepts some end of the text
any_end : (QString → Bool) → QString → Bool
any_end rest [] = rest []
any_end rest (c ∷ s) = rest (c ∷ s) || any_end rest s

one_character : ℕ → (QString → Bool) → QString → Bool
one_character p rest [] = false
one_character p rest (c ∷ s) = (p == b'_' || fold_case p == fold_case c) && rest s

unfoldable pub like : QString → QString → Bool
unfolding any_end one_character fold_case
like [] [] = true
like [] (c ∷ s) = false
like (p ∷ template) s =
    if p == b'%' then any_end (like template) s else one_character p (like template) s
