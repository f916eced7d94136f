-- ===== src/Prelude/Members.antt =====
-- Membership in lists, by the library's `Mem`.
use mathlib.Core.List.{Mem, Mem-prop, not-mem-nil, mem-cons, mem-cons_self, mem-cons_of_mem}
use mathlib.Core.Logic.Or
use mathlib.Core.Path.{◌≡◌}
use mathlib.Core.Bool.{Bool, true}
use mathlib.Core.Logic.{inl, inr}
use mathlib.Core.List.{List, [], ◌∷◌}
use qsqlite_sync_engine.Prelude.Lists.{select}
use qsqlite_sync_engine.Prelude.Tests.{Bool-cases}

module _ {ℓ} {A : Type ℓ} (p : A → Bool) where
  -- What passes the test is selected.
  pub Mem-select : {a : A} (xs : List A) → p a ≡ true → Mem a xs → Mem a (select p xs)
  unfolding select
  Mem-select [] h m = absurd (not-mem-nil m)
  Mem-select {a} (x ∷ xs) h m = elim (Bool-cases (p x)) [
    | inl kept ↦ rw kept (
        Or.elim Mem-prop (mem-cons.0 m) (λ e. rw e mem-cons_self)
          (λ r. mem-cons_of_mem x (Mem-select xs h r)))
    | inr dropped ↦
        rw dropped (Or.elim Mem-prop (mem-cons.0 m) (λ (e : a ≡ x). cc) (λ r. Mem-select xs h r))
  ]

  -- What is selected was there and passes the test.
  pub select-Mem : {a : A} (xs : List A) → Mem a (select p xs) → (p a ≡ true) × Mem a xs
  unfolding select
  select-Mem [] m = absurd (not-mem-nil m)
  select-Mem {a} (x ∷ xs) m = elim (Bool-cases (p x)) [
    | inl kept ↦
        Or.elim both_prop (mem-cons.0 (rw kept at m))
          (λ (e : a ≡ x). (rw e kept, rw e mem-cons_self))
          (λ r. let s = select-Mem xs r in (s.0, mem-cons_of_mem x s.1))
    | inr dropped ↦ let s = select-Mem xs (rw dropped at m) in (s.0, mem-cons_of_mem x s.1)
  ]
    where
      both_prop : IsProp ((p a ≡ true) × Mem a (x ∷ xs))
      both_prop = hlevel Mem-prop

  pub select-Mem_mono :
      {a : A} (xs ys : List A) → (Mem a xs → Mem a ys) → Mem a (select p xs) → Mem a (select p ys)
  select-Mem_mono xs ys f m = let s = select-Mem xs m in Mem-select ys s.0 (f s.1)
