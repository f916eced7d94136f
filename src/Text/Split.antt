-- ===== src/Text/Split.antt =====
-- `QString::split` and `QStringList::join` at one character.
use qsqlite_sync_engine.Prelude.{
  ℕ, List, [], ◌∷◌, ◌++◌, ◌≡◌, ◌≢◌, refl, arith, ◌==◌, ◌≤◌, length, if◌then◌else◌,
}
use qsqlite_sync_engine.Text.Ends.{QString, Lacks}

extend : ℕ → List QString → List QString
extend c [] = (c ∷ []) ∷ []
extend c (p ∷ ps) = (c ∷ p) ∷ ps

unfoldable pub split : QString → ℕ → List QString
unfolding extend
split [] sep = [] ∷ []
split (c ∷ s) sep = let rest = split s sep in if c == sep then [] ∷ rest else extend c rest

unfoldable pub join : List QString → ℕ → QString
join [] sep = []
join (p ∷ []) sep = p
join (p ∷ q ∷ ps) sep = p ++ sep ∷ join (q ∷ ps) sep

extend-append : (c : ℕ) (ps qs : List QString) → ps ≢ [] → extend c (ps ++ qs) ≡ extend c ps ++ qs
unfolding extend
extend-append c [] qs h = absurd (h refl)
extend-append c (p ∷ ps) qs h = refl

extend-ne-nil : (c : ℕ) (ps : List QString) → extend c ps ≢ []
unfolding extend
extend-ne-nil c [] h = cc
extend-ne-nil c (p ∷ ps) h = cc

module _ (sep : ℕ) where
  split-ne-nil : (s : QString) → split s sep ≢ []
  unfolding split
  split-ne-nil [] = cc
  split-ne-nil (c ∷ s) = ground (arith, extend-ne-nil c (split s sep))

  pub length-split : (s : QString) → 1 ≤ length (split s sep)
  length-split s = grind (arith, split-ne-nil s)

  -- A separator cuts a text in two parts that are split by themselves.
  pub split-append : (s t : QString) → split (s ++ sep ∷ t) sep ≡ split s sep ++ split t sep
  unfolding split
  split-append [] t = ground arith
  split-append (c ∷ s) t =
      ground (arith, split-append s t, extend-append c (split s sep) (split t sep) (split-ne-nil s))

  pub split-Lacks : (s : QString) → Lacks sep s → split s sep ≡ s ∷ []
  unfolding split extend
  split-Lacks [] h = refl
  split-Lacks (c ∷ s) h = ground (arith, split-Lacks s h.1)

  join-extend : (c : ℕ) (ps : List QString) → ps ≢ [] → join (extend c ps) sep ≡ c ∷ join ps sep
  unfolding join extend
  join-extend c [] h = absurd (h refl)
  join-extend c (p ∷ []) h = refl
  join-extend c (p ∷ q ∷ ps) h = refl

  join-nil-cons : (ps : List QString) → ps ≢ [] → join ([] ∷ ps) sep ≡ sep ∷ join ps sep
  unfolding join
  join-nil-cons [] h = absurd (h refl)
  join-nil-cons (p ∷ ps) h = refl

  -- Joining the parts gives the text back.
  pub join-split : (s : QString) → join (split s sep) sep ≡ s
  unfolding split
  join-split [] = unfold join in refl
  join-split (c ∷ s) = ground (
    arith,
    join-split s,
    join-extend c (split s sep) (split-ne-nil s),
    join-nil-cons (split s sep) (split-ne-nil s),
  )
