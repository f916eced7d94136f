-- ===== src/Manager/Sort.antt =====
-- `std::sort` with the comparison of `pendingChangesets`. Where two names agree in timestamp, client
-- and sequence number, `std::sort` leaves their order open; here it is the order of the listing.
use mathlib.Core.List.{Perm}
use mathlib.Core.List.Perm
use qsqlite_sync_engine.Prelude.{
  ◌≡◌, ◌<◌, ◌≤◌, ◌⊎◌, Bool, true, false, not, List, [], ◌∷◌, arith, ltb, ◌==◌, if◌then◌else◌, All,
  Bool-cases, inl, inr,
}
use qsqlite_sync_engine.Text.{str_eq, str_eq_iff, str_lt, str_le_trans, str_lt-asymm, str_lt-connex}
use qsqlite_sync_engine.Filename.{ChangesetInfo}

unfoldable pub before : ChangesetInfo → ChangesetInfo → Bool
before a b =
    if not (a.hlc == b.hlc)
    then ltb a.hlc b.hlc
    else if not (str_eq a.client_id b.client_id)
    then str_lt a.client_id b.client_id
    else ltb a.sequence b.sequence

insert_ordered : ChangesetInfo → List ChangesetInfo → List ChangesetInfo
insert_ordered a [] = a ∷ []
insert_ordered a (b ∷ bs) =
    let rest = insert_ordered a bs in if before b a then b ∷ rest else a ∷ b ∷ bs

unfoldable pub sort : List ChangesetInfo → List ChangesetInfo
unfolding insert_ordered before
sort [] = []
sort (a ∷ xs) = insert_ordered a (sort xs)

insert_ordered-perm :
    (a : ChangesetInfo) (bs : List ChangesetInfo) → Perm (insert_ordered a bs) (a ∷ bs)
unfolding insert_ordered
insert_ordered-perm a [] = Perm.refl (a ∷ [])
insert_ordered-perm a (b ∷ bs) = elim (Bool-cases (before b a)) [
  | inl after ↦ rw after (Perm.trans (Perm.cons b (insert_ordered-perm a bs)) (Perm.swap a b bs))
  | inr first ↦ rw first (Perm.refl (a ∷ b ∷ bs))
]

pub sort-perm : (xs : List ChangesetInfo) → Perm (sort xs) xs
unfolding sort
sort-perm [] = Perm.refl []
sort-perm (a ∷ xs) = Perm.trans (insert_ordered-perm a (sort xs)) (Perm.cons a (sort-perm xs))

-- Nothing that follows an entry comes before it in the comparison of the code.
abbrev IsSortedBefore : List ChangesetInfo → Type 0
IsSortedBefore [] = Unit
IsSortedBefore (a ∷ xs) = All (λ b. before b a ≡ false) xs × IsSortedBefore xs

-- `a` has the earlier timestamp; or the same one, and the client that comes first in the order of
-- texts; or the same client too, and a sequence number that is not higher.
abbrev pub IsInOrder : ChangesetInfo → ChangesetInfo → Type 0
IsInOrder a b =
    (a.hlc < b.hlc)
    ⊎ ((a.hlc ≡ b.hlc)
        × ((str_lt a.client_id b.client_id ≡ true)
            ⊎ ((a.client_id ≡ b.client_id) × (a.sequence ≤ b.sequence))))

-- Each entry is in order with all that follow it.
abbrev pub IsSorted : List ChangesetInfo → Type 0
IsSorted [] = Unit
IsSorted (a ∷ xs) = All (IsInOrder a) xs × IsSorted xs

before-IsInOrder : (a b : ChangesetInfo) → before b a ≡ false → IsInOrder a b
unfolding before
before-IsInOrder a b h =
    ground (arith, h, str_eq_iff b.client_id a.client_id, str_lt-connex a.client_id b.client_id)

All-IsInOrder :
    (a : ChangesetInfo) (xs : List ChangesetInfo)
    → All (λ b. before b a ≡ false) xs
    → All (IsInOrder a) xs
All-IsInOrder a [] h = tt
All-IsInOrder a (b ∷ xs) h = (before-IsInOrder a b h.0, All-IsInOrder a xs h.1)

IsSortedBefore-IsSorted : (xs : List ChangesetInfo) → IsSortedBefore xs → IsSorted xs
IsSortedBefore-IsSorted [] h = tt
IsSortedBefore-IsSorted (a ∷ xs) h = (All-IsInOrder a xs h.0, IsSortedBefore-IsSorted xs h.1)

le_trans : (a b c : ChangesetInfo) → before b a ≡ false → before c b ≡ false → before c a ≡ false
unfolding before
le_trans a b c h k = ground (
  arith,
  str_eq_iff b.client_id a.client_id,
  str_eq_iff c.client_id b.client_id,
  str_eq_iff c.client_id a.client_id,
  str_le_trans a.client_id b.client_id c.client_id,
  str_lt-connex a.client_id b.client_id,
  str_lt-connex b.client_id c.client_id,
)

before-asymm : (a b : ChangesetInfo) → before a b ≡ true → before b a ≡ false
unfolding before
before-asymm a b h = ground (
  arith,
  str_eq_iff a.client_id b.client_id,
  str_eq_iff b.client_id a.client_id,
  str_lt-asymm a.client_id b.client_id,
)

All-le :
    (a b : ChangesetInfo) (xs : List ChangesetInfo)
    → before b a ≡ false
    → All (λ c. before c b ≡ false) xs
    → All (λ c. before c a ≡ false) xs
All-le a b [] h k = tt
All-le a b (c ∷ xs) h k = (le_trans a b c h k.0, All-le a b xs h k.1)

All-insert_ordered :
    (a b : ChangesetInfo) (xs : List ChangesetInfo)
    → before a b ≡ false
    → All (λ c. before c b ≡ false) xs
    → All (λ c. before c b ≡ false) (insert_ordered a xs)
unfolding insert_ordered
All-insert_ordered a b [] h k = (h, tt)
All-insert_ordered a b (c ∷ xs) h k = ground (arith, All-insert_ordered a b xs h k.1)

insert_ordered-IsSortedBefore :
    (a : ChangesetInfo) (xs : List ChangesetInfo)
    → IsSortedBefore xs
    → IsSortedBefore (insert_ordered a xs)
unfolding insert_ordered
insert_ordered-IsSortedBefore a [] h = (tt, tt)
insert_ordered-IsSortedBefore a (b ∷ xs) h = elim (Bool-cases (before b a)) [
  | inl after ↦ rw after (
    All-insert_ordered a b xs (before-asymm b a after) h.0,
    insert_ordered-IsSortedBefore a xs h.1,
  )
  | inr first ↦ rw first ((first, All-le a b xs first h.0), h)
]

sort-IsSortedBefore : (xs : List ChangesetInfo) → IsSortedBefore (sort xs)
unfolding sort
sort-IsSortedBefore [] = tt
sort-IsSortedBefore (a ∷ xs) = insert_ordered-IsSortedBefore a (sort xs) (sort-IsSortedBefore xs)

pub sort-IsSorted : (xs : List ChangesetInfo) → IsSorted (sort xs)
sort-IsSorted xs = IsSortedBefore-IsSorted (sort xs) (sort-IsSortedBefore xs)

module _ (P : ChangesetInfo → Type 0) where
  All-insert_of :
      (a : ChangesetInfo) (xs : List ChangesetInfo) → P a → All P xs → All P (insert_ordered a xs)
  unfolding insert_ordered
  All-insert_of a [] h k = (h, tt)
  All-insert_of a (b ∷ xs) h k = ground (arith, All-insert_of a xs h k.1)

  pub All-sort : (xs : List ChangesetInfo) → All P xs → All P (sort xs)
  unfolding sort
  All-sort [] h = tt
  All-sort (a ∷ xs) h = All-insert_of a (sort xs) h.0 (All-sort xs h.1)
