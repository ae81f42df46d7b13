-- ===== src/Common/Sort.antt =====
-- `sorted` with a key's order given as a test: stable, by insertion.
use spark_workflow_main.Common.Tests.{if◌then◌else◌, leb, Bool-cases}
use Prim.Native.Nat.{ℕ}
use mathlib.Core.Path.{◌≡◌}
use mathlib.Core.Logic.{inl, inr}
use mathlib.Core.Bool.{Bool, true, false}
use mathlib.Core.List.Perm
use mathlib.Core.List.{List, [], ◌∷◌, Perm}
use native.Mathlib.Omega.{arith}

module _ {ℓ} {A : Type ℓ} (le : A → A → Bool) where
  abbrev pub insert_sorted : A → List A → List A
  insert_sorted x [] = x ∷ []
  insert_sorted x (y ∷ ys) = if le x y then x ∷ y ∷ ys else y ∷ insert_sorted x ys

  abbrev pub sorted : List A → List A
  sorted [] = []
  sorted (x ∷ xs) = insert_sorted x (sorted xs)

  abbrev pub IsSorted : List A → Type 0
  IsSorted [] = Unit
  IsSorted (x ∷ []) = Unit
  IsSorted (x ∷ y ∷ l) = (le x y ≡ true) × IsSorted (y ∷ l)

  insert_sorted-perm : (x : A) (l : List A) → Perm (insert_sorted x l) (x ∷ l)
  insert_sorted-perm x [] = Perm.refl (x ∷ [])
  insert_sorted-perm x (y ∷ l) = elim (Bool-cases (le x y)) [
    | inl first ↦ rw first (Perm.refl (x ∷ y ∷ l))
    | inr later ↦ rw later (Perm.trans (Perm.cons y (insert_sorted-perm x l)) (Perm.swap x y l))
  ]

  pub sorted-perm : (l : List A) → Perm (sorted l) l
  sorted-perm [] = Perm.refl []
  sorted-perm (x ∷ l) = Perm.trans (insert_sorted-perm x (sorted l)) (Perm.cons x (sorted-perm l))

  module _ (total : (x y : A) → le x y ≡ false → le y x ≡ true) where
    insert_sorted-IsSorted : (x : A) (l : List A) → IsSorted l → IsSorted (insert_sorted x l)
    insert_sorted-IsSorted x [] h = tt
    insert_sorted-IsSorted x (y ∷ []) h = elim (Bool-cases (le x y)) [
      | inl first ↦ rw first (first, tt)
      | inr later ↦ rw later (total x y later, tt)
    ]
    insert_sorted-IsSorted x (y ∷ z ∷ l) h = elim (Bool-cases (le x y)) [
      | inl first ↦ rw first (first, h)
      | inr later ↦ elim (Bool-cases (le x z)) [
        | inl second ↦ rw (later, second) (total x y later, (second, h.1))
        | inr third ↦
            let rest : IsSorted (z ∷ insert_sorted x l) =
              rw third at (insert_sorted-IsSorted x (z ∷ l) h.1) in
            rw (later, third) (h.0, rest)
      ]
    ]

    pub sorted-IsSorted : (l : List A) → IsSorted (sorted l)
    sorted-IsSorted [] = tt
    sorted-IsSorted (x ∷ l) = insert_sorted-IsSorted x (sorted l) (sorted-IsSorted l)

pub leb_total : (x y : ℕ) → leb x y ≡ false → leb y x ≡ true
leb_total x y h = ground arith
