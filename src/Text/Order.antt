-- ===== src/Text/Order.antt =====
-- `==` and `<` on `QString`: code unit by code unit.
use qsqlite_sync_engine.Prelude.{
  Bool, true, false, ◌&&◌, [], ◌∷◌, ◌≡◌, ◌↔◌, refl, arith, ltb, ◌==◌, if◌then◌else◌,
}
use qsqlite_sync_engine.Text.Ends.{QString}

unfoldable pub str_eq : QString → QString → Bool
str_eq [] [] = true
str_eq [] (d ∷ t) = false
str_eq (c ∷ s) [] = false
str_eq (c ∷ s) (d ∷ t) = c == d && str_eq s t

unfoldable pub str_lt : QString → QString → Bool
str_lt [] [] = false
str_lt [] (d ∷ t) = true
str_lt (c ∷ s) [] = false
str_lt (c ∷ s) (d ∷ t) = if c == d then str_lt s t else ltb c d

pub str_eq_refl : (s : QString) → str_eq s s ≡ true
unfolding str_eq
str_eq_refl [] = refl
str_eq_refl (c ∷ s) = ground (arith, str_eq_refl s)

eq-of-str_eq : (s t : QString) → str_eq s t ≡ true → s ≡ t
unfolding str_eq
eq-of-str_eq [] [] h = refl
eq-of-str_eq [] (d ∷ t) h = cc
eq-of-str_eq (c ∷ s) [] h = cc
eq-of-str_eq (c ∷ s) (d ∷ t) h = ground (arith, eq-of-str_eq s t)

pub str_eq_iff : (s t : QString) → (str_eq s t ≡ true) ↔ (s ≡ t)
str_eq_iff s t = (eq-of-str_eq s t, λ e. rw e (str_eq_refl t))

pub str_lt_irrefl : (s : QString) → str_lt s s ≡ false
unfolding str_lt
str_lt_irrefl [] = refl
str_lt_irrefl (c ∷ s) = ground (arith, str_lt_irrefl s)

pub str_lt-asymm : (s t : QString) → str_lt s t ≡ true → str_lt t s ≡ false
unfolding str_lt
str_lt-asymm [] [] h = refl
str_lt-asymm [] (d ∷ t) h = refl
str_lt-asymm (c ∷ s) [] h = cc
str_lt-asymm (c ∷ s) (d ∷ t) h = ground (arith, str_lt-asymm s t)

-- `s ≤ t` read as "not `t < s`"
pub str_le_trans : (s t u : QString) → str_lt t s ≡ false → str_lt u t ≡ false → str_lt u s ≡ false
unfolding str_lt
str_le_trans [] [] [] h k = refl
str_le_trans [] [] (e ∷ u) h k = refl
str_le_trans [] (d ∷ t) [] h k = refl
str_le_trans [] (d ∷ t) (e ∷ u) h k = refl
str_le_trans (c ∷ s) [] [] h k = cc
str_le_trans (c ∷ s) [] (e ∷ u) h k = cc
str_le_trans (c ∷ s) (d ∷ t) [] h k = cc
str_le_trans (c ∷ s) (d ∷ t) (e ∷ u) h k = ground (arith, str_le_trans s t u)

-- two texts of which neither is below the other are equal
pub str_lt-connex : (s t : QString) → str_lt s t ≡ false → str_lt t s ≡ false → s ≡ t
unfolding str_lt
str_lt-connex [] [] h k = refl
str_lt-connex [] (d ∷ t) h k = cc
str_lt-connex (c ∷ s) [] h k = cc
str_lt-connex (c ∷ s) (d ∷ t) h k = ground (arith, str_lt-connex s t)
