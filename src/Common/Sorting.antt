-- ===== src/Common/Sorting.antt =====
-- `sort` of the standard library, as an insertion sort by a total order.
use mathlib.Core.Path.{◌≡◌, refl, ap, ap₂, ◌∙◌}
use mathlib.Core.Logic.{∥∥₁_elim}
use mathlib.Core.Bool.{Bool, true, false}
use mathlib.Core.List.{List, [], ◌∷◌, Perm, Permᴰ}
use native.Mathlib.Omega.{arith}
use asapcollector_public.Common.Tests.{if◌then◌else◌}

pub record IsTotalOrder {ℓ} {A : Type ℓ} (le : A → A → Bool) : Type ℓ where
  pub total : (a b : A) → le a b ≡ false → le b a ≡ true
  pub antisymm : (a b : A) → le a b ≡ true → le b a ≡ true → a ≡ b
  pub trans : (a b c : A) → le a b ≡ true → le b c ≡ true → le a c ≡ true

module _ {ℓ} {A : Type ℓ} (le : A → A → Bool) where
  unfoldable pub sort_insert : A → List A → List A
  sort_insert x [] = x ∷ []
  sort_insert x (y ∷ ys) = if le x y then x ∷ y ∷ ys else y ∷ sort_insert x ys

  unfoldable pub sort : List A → List A
  unfolding sort_insert
  sort [] = []
  sort (x ∷ xs) = sort_insert x (sort xs)

  module _ (o : IsTotalOrder le) where
    sort_insert_swap :
        (x y : A) (l : List A) → sort_insert x (sort_insert y l) ≡ sort_insert y (sort_insert x l)
    unfolding sort_insert
    sort_insert_swap x y [] = ground (arith, o.total x y, o.total y x, o.antisymm x y)
    sort_insert_swap x y (z ∷ l) = ground (
      arith,
      o.total x y,
      o.total y x,
      o.antisymm x y,
      o.trans x y z,
      o.trans y x z,
      sort_insert_swap x y l,
    )

    sort-permᴰ : {xs ys : List A} → Permᴰ xs ys → sort xs ≡ sort ys
    unfolding sort
    sort-permᴰ Permᴰ.nil = refl
    sort-permᴰ (Permᴰ.cons {a} {b} {l₁} {l₂} e p) =
        ap (sort_insert a) (sort-permᴰ p) ∙ ap (λ x. sort_insert x (sort l₂)) e
    sort-permᴰ (Permᴰ.swap {a} {b} {a'} {b'} {l} e f) =
        sort_insert_swap a b (sort l) ∙ ap₂ (λ x y. sort_insert x (sort_insert y (sort l))) f e
    sort-permᴰ (Permᴰ.trans p q) = sort-permᴰ p ∙ sort-permᴰ q

    -- Lists with the same elements are sorted to the same list.
    pub sort-perm : IsSet (List A) → {xs ys : List A} → Perm xs ys → sort xs ≡ sort ys
    sort-perm s p = ∥∥₁_elim p (s _ _) sort-permᴰ
