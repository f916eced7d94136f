-- ===== src/Tests/Decimal.antt =====
-- Qt's number conversions and place markers as functions. A number is written in twenty digits.
use qsqlite_sync_engine.Prelude.{
  ℕ, zero, suc, ◌+◌, ◌-◌, ◌*◌, ◌/◌, ◌%◌, ◌^◌, ◌<◌, ◌≡◌, ◌≢◌, ◌⊎◌, inl, refl, ap, ◌∙◌, ℤ, pos,
  negsuc, IsInt32, [], ◌∷◌, ◌++◌, arith, ◌==◌, if◌then◌else◌,
}
use native.Mathlib.Nat.{pow-suc}
use qsqlite_sync_engine.Text.{QString, Lacks}
use qsqlite_sync_engine.Qt.{Qt, QtLaws, marker}

-- the last `f` digits of `n`, in front of `out`
digits : ℕ → ℕ → QString → QString
digits zero n out = out
digits (suc f) n out = digits f (n / 10) ((b'0' + n % 10) ∷ out)

value : ℕ → QString → ℕ
value n [] = n
value n (c ∷ s) = value (n * 10 + (c - b'0')) s

abbrev number : ℕ → ℕ → QString
number width n = digits 20 n []

abbrev int_text : ℤ → QString
int_text (pos n) = digits 20 n []
int_text (negsuc n) = b'-' ∷ digits 20 n []

to_int : QString → ℤ
to_int [] = pos 0
to_int (c ∷ s) = if c == b'-' then negsuc (value 0 s) else pos (value 0 (c ∷ s))

-- replaces the first marker
fill : QString → QString → QString
fill [] a = []
fill (c ∷ []) a = c ∷ []
fill (c ∷ d ∷ s) a = let rest = fill (d ∷ s) a in if c == b'%' then a ++ s else c ∷ rest

value-digits : (f n : ℕ) (out : QString) → n < 10 ^ f → value 0 (digits f n out) ≡ value n out
unfolding digits
value-digits zero n out h = let e : n ≡ 0 = omega arith in rw e
value-digits (suc f) n out h =
    let d : n / 10 * 10 + (b'0' + n % 10 - b'0') ≡ n = omega arith in
    value-digits f (n / 10) _ (omega (arith, pow-suc 10 f))
    ∙ (unfold value in ap (λ m. value m out) d)

digits-Lacks :
    (f n c : ℕ) (out : QString) → (c < b'0') ⊎ (b'9' < c) → Lacks c out → Lacks c (digits f n out)
unfolding digits
digits-Lacks zero n c out h k = k
digits-Lacks (suc f) n c out h k = digits-Lacks f (n / 10) c _ h (ground arith, k)

fill-marker :
    (pre post a : QString) (k : ℕ)
    → Lacks b'%' pre
    → fill (pre ++ (marker k ++ post)) a ≡ pre ++ (a ++ post)
unfolding fill
fill-marker [] post a k h = refl
fill-marker (c ∷ []) post a k h = ground arith
fill-marker (c ∷ d ∷ pre) post a k h = ground (arith, fill-marker (d ∷ pre) post a k h.1)

to_int-digits : (s : QString) → Lacks b'-' s → to_int s ≡ pos (value 0 s)
unfolding to_int
to_int-digits [] h = unfold value in refl
to_int-digits (c ∷ s) h = ground arith

unfoldable pub decimal_qt : Qt
unfolding fill digits value to_int
decimal_qt = record {
  arg = fill;
  arg2 = λ t a b. fill (fill t a) b;
  number = number;
  int_text = int_text;
  to_ulonglong = value 0;
  to_int = to_int;
}

int_chars : (v : ℤ) (c : ℕ) → IsInt32 v → c ≢ b'-' → (c < b'0') ⊎ (b'9' < c) → Lacks c (int_text v)
int_chars (pos n) c h ne range = digits-Lacks 20 n c [] range tt
int_chars (negsuc n) c h ne range = (omega arith, digits-Lacks 20 n c [] range tt)

to_int-int_text : (v : ℤ) → IsInt32 v → to_int (int_text v) ≡ v
unfolding to_int value
to_int-int_text (pos n) h =
    to_int-digits (digits 20 n []) (digits-Lacks 20 n b'-' [] (inl (omega arith)) tt)
    ∙ ap pos (value-digits 20 n [] (omega arith))
to_int-int_text (negsuc n) h = ap negsuc (value-digits 20 n [] (omega arith))

pub decimal_laws : QtLaws decimal_qt
unfolding decimal_qt
decimal_laws = record {
  arg_lowest = λ pre post a k h1 hk h ends above. fill-marker pre post a k h;
  number_digits = λ width n c h. digits-Lacks 20 n c [] h tt;
  int_chars = int_chars;
  to_ulonglong-number = λ width n h. value-digits 20 n [] (omega arith);
  to_int-int_text = to_int-int_text;
}
