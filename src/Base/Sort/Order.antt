-- ===== src/Base/Sort/Order.antt =====
-- The sort of a list does not depend on its order, where the test is an order.
use mathlib.Core.Path.{◌≡◌, refl, sym, ◌∙◌, ap}
use mathlib.Core.Logic.{inl, inr}
use mathlib.Core.Bool.{Bool, true, false}
use mathlib.Core.List.{List, [], ◌∷◌, Perm, foldr, List-discrete}
use mathlib.Core.HLevel.{hedberg}
use mathlib.Core.List.Perm
use rigos.Base.Tests.{if◌then◌else◌, Bool-cases}
use rigos.Base.Sort.{insert, sort}

module _ {ℓ} {A : Type ℓ} (le : A → A → Bool) (total : (x y : A) → le x y ≡ false → le y x ≡ true)
    (trans : (x y z : A) → le x y ≡ true → le y z ≡ true → le x z ≡ true)
    (antisym : (x y : A) → le x y ≡ true → le y x ≡ true → x ≡ y) where
  two :
      (x y : A) (zs : List A)
      → (if le x y then x ∷ y ∷ zs else y ∷ x ∷ zs) ≡ (if le y x then y ∷ x ∷ zs else x ∷ y ∷ zs)
  two x y zs = elim (Bool-cases (le x y)) [
    | inl e ↦ elim (Bool-cases (le y x)) [
      | inl f ↦ rw (e, f) (λ i. antisym x y e f i ∷ sym (antisym x y e f) i ∷ zs)
      | inr f ↦ rw (e, f) refl
    ]
    | inr e ↦ rw (e, total x y e) refl
  ]

  contradicts : (x y z : A) → le y z ≡ true → le x z ≡ false → le x y ≡ false
  contradicts x y z h k = elim (Bool-cases (le x y)) [
    | inl e ↦ let t = trans x y z e h in absurd (cc)
    | inr e ↦ e
  ]

  insert_comm :
      (x y : A) (zs : List A) → insert le x (insert le y zs) ≡ insert le y (insert le x zs)
  unfolding insert
  insert_comm x y [] = two x y []
  insert_comm x y (z ∷ zs) = elim (Bool-cases (le y z)) [
    | inl e ↦ elim (Bool-cases (le x z)) [
      | inl f ↦ rw (e, f) (rw e (two x y (z ∷ zs)))
      | inr f ↦ rw (e, f, contradicts x y z e f) (rw e refl)
    ]
    | inr e ↦ elim (Bool-cases (le x z)) [
      | inl f ↦ rw (e, f, contradicts y x z f e) (rw e refl)
      | inr f ↦ rw (e, f) (rw e (ap (λ t. z ∷ t) (insert_comm x y zs)))
    ]
  ]

  sort-eq-foldr : (xs : List A) → sort le xs ≡ foldr (insert le) [] xs
  unfolding sort
  sort-eq-foldr [] = refl
  sort-eq-foldr (x ∷ xs) = ap (insert le x) (sort-eq-foldr xs)

  pub sort_of_Perm : Discrete A → (xs ys : List A) → Perm xs ys → sort le xs ≡ sort le ys
  sort_of_Perm decide xs ys p =
      sort-eq-foldr xs
      ∙ Perm.foldr-eq (hedberg (List-discrete decide)) (insert le) insert_comm p []
      ∙ sym (sort-eq-foldr ys)
