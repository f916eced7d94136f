-- ===== src/Qt.antt =====
-- Qt's number conversions and place markers, and what the Qt documentation says of them.
use qsqlite_sync_engine.Prelude.{ℕ, ◌+◌, ◌^◌, ◌≤◌, ◌<◌, ◌≡◌, ◌≢◌, ◌⊎◌, ℤ, IsInt32, [], ◌∷◌, ◌++◌}
use qsqlite_sync_engine.Text.{QString, Lacks}

pub record Qt : Type 0 where
  -- `text.arg(a)`
  pub arg : QString → QString → QString
  -- `text.arg(a, b)`, which replaces two markers at once
  pub arg2 : QString → QString → QString → QString
  -- the text that `arg(n, width, 10, '0')` puts in, for a `uint64_t`
  pub number : ℕ → ℕ → QString
  -- the text that `arg(n)` puts in, for an `int`
  pub int_text : ℤ → QString
  -- `toULongLong()`: 0 where the conversion fails
  pub to_ulonglong : QString → ℕ
  -- `toInt()`: 0 where the conversion fails
  pub to_int : QString → ℤ

-- `%` and a digit
abbrev pub marker : ℕ → QString
marker k = b'%' ∷ (b'0' + k) ∷ []

-- The text begins with an ASCII character that is no digit, so that a marker in front of it ends there.
abbrev pub EndsMarker : QString → Type 0
EndsMarker [] = Unit
EndsMarker (c ∷ s) = (c < b'0') ⊎ ((b'9' < c) × (c < 128))

-- Each `%` of the text begins a marker with a higher number than `k`: its first digit is above it.
abbrev pub Above : ℕ → QString → Type 0
Above k [] = Unit
Above k (c ∷ []) = c ≢ b'%'
Above k (c ∷ d ∷ s) = (c ≡ b'%' → (b'0' + k < d) × (d ≤ b'9')) × Above k (d ∷ s)

pub record QtLaws (qt : Qt) : Type 0 where
  -- The marker of the lowest number, %1 to %9 here, is replaced. Qt reads a second digit as part of a
  -- marker (%1 to %99), and `%L` as one that goes by the locale.
  pub arg_lowest :
      (pre post a : QString) (k : ℕ)
      → 1 ≤ k
      → k ≤ 9
      → Lacks b'%' pre
      → EndsMarker post
      → Above k post
      → qt.arg (pre ++ (marker k ++ post)) a ≡ pre ++ (a ++ post)
  -- A number is written in digits, and is read back from them.
  pub number_digits : (width n c : ℕ) → c < b'0' ⊎ b'9' < c → Lacks c (qt.number width n)
  pub int_chars :
      (v : ℤ) (c : ℕ) → IsInt32 v → c ≢ b'-' → c < b'0' ⊎ b'9' < c → Lacks c (qt.int_text v)
  pub to_ulonglong-number : (width n : ℕ) → n < 2 ^ 64 → qt.to_ulonglong (qt.number width n) ≡ n
  pub to_int-int_text : (v : ℤ) → IsInt32 v → qt.to_int (qt.int_text v) ≡ v
