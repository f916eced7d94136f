-- ===== src/Database/Versions.antt =====
-- The changes that several clients make of one row, and the latest of them.
use qsqlite_sync_engine.Prelude.{
  ℕ, ◌≤◌, ◌≡◌, ◌⊎◌, inl, inr, refl, ◌∙◌, List, [], ◌∷◌, arith, ltb, Bool-cases, if◌then◌else◌,
}
use qsqlite_sync_engine.Text.{QString}
use qsqlite_sync_engine.Sqlite.{Bytes}

-- one client's change of the row, as a changeset of its own
pub record Version (V : Type 0) : Type 0 where
  pub hlc : ℕ
  pub client : QString
  pub row : V
  pub changeset : Bytes

module _ {V : Type 0} where
  abbrev pub In : Version V → List (Version V) → Type 0
  In c [] = ⊥
  In c (d ∷ ds) = (c ≡ d) ⊎ In c ds

  -- Changes with one timestamp are one change: they write the same row.
  abbrev pub Agree : List (Version V) → Type 0
  Agree cs = (c d : Version V) → In c cs → In d cs → c.hlc ≡ d.hlc → c.row ≡ d.row

  abbrev pub IsWithin : List (Version V) → List (Version V) → Type 0
  IsWithin cs ds = (c : Version V) → In c cs → In c ds

  unfoldable pub later : Version V → Version V → Version V
  later x c = if ltb x.hlc c.hlc then c else x

  unfoldable pub latest : Version V → List (Version V) → Version V
  latest x [] = x
  latest x (c ∷ cs) = latest (later x c) cs

  later-cases : (x c : Version V) → (later x c ≡ x) ⊎ (later x c ≡ c)
  unfolding later
  later-cases x c = elim (Bool-cases (ltb x.hlc c.hlc)) [
    | inl newer ↦ inr (rw newer)
    | inr older ↦ inl (rw older)
  ]

  later-max : (x c : Version V) → (x.hlc ≤ (later x c).hlc) × (c.hlc ≤ (later x c).hlc)
  unfolding later
  later-max x c = ground arith

  pub latest-In : (x : Version V) (cs : List (Version V)) → In (latest x cs) (x ∷ cs)
  unfolding latest
  latest-In x [] = inl refl
  latest-In x (c ∷ cs) = elim (latest-In (later x c) cs) [
    | inl e ↦ elim (later-cases x c) [ inl old ↦ inl (e ∙ old) | inr new ↦ inr (inl (e ∙ new)) ]
    | inr m ↦ inr (inr m)
  ]

  latest-ge : (x : Version V) (cs : List (Version V)) → x.hlc ≤ (latest x cs).hlc
  unfolding latest
  latest-ge x [] = omega arith
  latest-ge x (c ∷ cs) = omega (arith, later-max x c, latest-ge (later x c) cs)

  pub latest-max :
      (x : Version V) (cs : List (Version V)) (c : Version V)
      → In c (x ∷ cs)
      → c.hlc ≤ (latest x cs).hlc
  unfolding latest
  latest-max x cs c (inl e) = rw e (latest-ge x cs)
  latest-max x [] c (inr m) = absurd m
  latest-max x (d ∷ cs) c (inr (inl e)) =
      rw e (omega (arith, later-max x d, latest-ge (later x d) cs))
  latest-max x (d ∷ cs) c (inr (inr m)) = latest-max (later x d) cs c (inr m)

  later-In : (x c : Version V) (cs : List (Version V)) → IsWithin (later x c ∷ cs) (x ∷ c ∷ cs)
  later-In x c cs d (inl e) = elim (later-cases x c) [
    | inl old ↦ inl (e ∙ old)
    | inr new ↦ inr (inl (e ∙ new))
  ]
  later-In x c cs d (inr m) = inr (inr m)

  pub Agree-later :
      (x c : Version V) (cs : List (Version V)) → Agree (x ∷ c ∷ cs) → Agree (later x c ∷ cs)
  Agree-later x c cs agree d e md me = agree d e (later-In x c cs d md) (later-In x c cs e me)
