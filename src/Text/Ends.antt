-- ===== src/Text/Ends.antt =====
-- The two ends of a text and of a list.
use Prim.Native.Char.{code}
use Prim.Native.String.{String}
use qsqlite_sync_engine.Prelude.{
  ℕ, zero, suc, ◌-◌, ◌<◌, Bool, true, false, ◌&&◌, List, [], ◌∷◌, ◌++◌, ◌≡◌, ◌≢◌, refl, ap, arith,
  ◌==◌, leb, length, length-append, All,
}

abbrev pub QString : Type 0
QString = List ℕ

-- the code units of a literal
abbrev pub codes : String → QString
codes String.[] = []
codes (String.◌∷◌ c s) = code c ∷ codes s

abbrev pub Lacks : ℕ → QString → Type 0
Lacks b = All (λ c. c ≢ b)

unfoldable pub starts_with : QString → QString → Bool
starts_with s [] = true
starts_with [] (c ∷ p) = false
starts_with (d ∷ s) (c ∷ p) = d == c && starts_with s p

unfoldable pub take : ℕ → QString → QString
take zero s = []
take (suc n) [] = []
take (suc n) (c ∷ s) = c ∷ take n s

drop : ℕ → QString → QString
drop zero s = s
drop (suc n) [] = []
drop (suc n) (c ∷ s) = drop n s

unfoldable pub ends_with : QString → QString → Bool
unfolding drop starts_with
ends_with s suffix =
    leb (length suffix) (length s) && starts_with (drop (length s - length suffix) s) suffix

-- `s.chop(n)`
unfoldable pub chop : ℕ → QString → QString
unfolding take
chop n s = take (length s - n) s

starts_with_refl : (s : QString) → starts_with s s ≡ true
unfolding starts_with
starts_with_refl [] = refl
starts_with_refl (c ∷ s) = ground (arith, starts_with_refl s)

take-append : (s t : QString) → take (length s) (s ++ t) ≡ s
unfolding take
take-append [] t = refl
take-append (c ∷ s) t = ap (λ r. c ∷ r) (take-append s t)

pub take-length : (s : QString) → take (length s) s ≡ s
unfolding take
take-length [] = refl
take-length (c ∷ s) = ap (λ r. c ∷ r) (take-length s)

pub length-take : (n : ℕ) (s : QString) → n < length s → length (take n s) ≡ n
unfolding take
length-take zero s h = refl
length-take (suc n) [] h = absurd (omega arith)
length-take (suc n) (c ∷ s) h = omega (arith, length-take n s)

drop-append : (s t : QString) → drop (length s) (s ++ t) ≡ t
unfolding drop
drop-append [] t = refl
drop-append (c ∷ s) t = drop-append s t

module _ (s t : QString) where
  without_end : length (s ++ t) - length t ≡ length s
  without_end = omega (arith, length-append s t)

  pub ends_with-append : ends_with (s ++ t) t ≡ true
  unfolding ends_with
  ends_with-append =
      rw (without_end, drop-append s t, starts_with_refl t) (ground (arith, length-append s t))

  pub chop-append : chop (length t) (s ++ t) ≡ s
  unfolding chop
  chop-append = rw without_end (take-append s t)

-- `parts.last()`; the program asks for it only of a list that is not empty
unfoldable pub last : List QString → QString
last [] = []
last (p ∷ []) = p
last (p ∷ q ∷ ps) = last (q ∷ ps)

unfoldable pub remove_last : List QString → List QString
remove_last [] = []
remove_last (p ∷ []) = []
remove_last (p ∷ q ∷ ps) = p ∷ remove_last (q ∷ ps)

pub last-append : (ps : List QString) (p : QString) → last (ps ++ p ∷ []) ≡ p
unfolding last
last-append [] p = refl
last-append (q ∷ []) p = refl
last-append (q ∷ r ∷ ps) p = last-append (r ∷ ps) p

pub remove_last-append : (ps : List QString) (p : QString) → remove_last (ps ++ p ∷ []) ≡ ps
unfolding remove_last
remove_last-append [] p = refl
remove_last-append (q ∷ []) p = refl
remove_last-append (q ∷ r ∷ ps) p = ap (λ t. q ∷ t) (remove_last-append (r ∷ ps) p)
