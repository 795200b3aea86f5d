-- ===== src/Common/Order.antt =====
-- Laws of the sort.

use mathlib.Core.Path.{◌≡◌, refl, ◌∙◌}
use mathlib.Core.Bool.{Bool, true, false, ◌&&◌, ◌||◌}
use mathlib.Core.Logic.{inl, inr}
use mathlib.Core.List.{List, [], ◌∷◌, map}
use native.Mathlib.Omega.{arith}
use cpp_social_network_clien.Common.Tests.{Bool-cases}
use cpp_social_network_clien.Common.Lists.{any, all, insert_by, order_by, IsOrdered}
use cpp_social_network_clien.Common.Search.{all_mono, all-map}

module _ {ℓ} {A : Type ℓ} where
  pub any-insert_by :
      (before : A → A → Bool) (p : A → Bool) (a : A) (xs : List A)
      → any p (insert_by before a xs) ≡ (p a || any p xs)
  unfolding any insert_by
  any-insert_by before p a [] = refl
  any-insert_by before p a (x ∷ xs) = ground (arith, any-insert_by before p a xs)

  pub any-order_by :
      (before : A → A → Bool) (p : A → Bool) (xs : List A) → any p (order_by before xs) ≡ any p xs
  unfolding any order_by
  any-order_by before p [] = refl
  any-order_by before p (x ∷ xs) =
      ground (arith, any-insert_by before p x (order_by before xs), any-order_by before p xs)

  pub all-insert_by :
      (before : A → A → Bool) (p : A → Bool) (a : A) (xs : List A)
      → all p (insert_by before a xs) ≡ (p a && all p xs)
  unfolding all insert_by
  all-insert_by before p a [] = refl
  all-insert_by before p a (x ∷ xs) = ground (arith, all-insert_by before p a xs)

  pub all-order_by :
      (before : A → A → Bool) (p : A → Bool) (xs : List A) → all p (order_by before xs) ≡ all p xs
  unfolding all order_by
  all-order_by before p [] = refl
  all-order_by before p (x ∷ xs) =
      ground (arith, all-insert_by before p x (order_by before xs), all-order_by before p xs)

pub IsOrdered-map {ℓ κ} :
    {A : Type ℓ} {B : Type κ} (f : A → B) (before : B → B → Bool) (xs : List A)
    → IsOrdered (λ a b. before (f a) (f b)) xs
    → IsOrdered before (map f xs)
IsOrdered-map f before [] h = tt
IsOrdered-map f before (x ∷ xs) h =
    (all-map f (before (f x)) xs ∙ h.0, IsOrdered-map f before xs h.1)

module _ {ℓ} {A : Type ℓ} (before : A → A → Bool)
    (total : (a b : A) → before a b ≡ false → before b a ≡ true)
    (trans : (a b c : A) → before a b ≡ true → before b c ≡ true → before a c ≡ true) where
  insert_by-IsOrdered :
      (a : A) (xs : List A) → IsOrdered before xs → IsOrdered before (insert_by before a xs)
  unfolding insert_by all
  insert_by-IsOrdered a [] h = (refl, tt)
  insert_by-IsOrdered a (x ∷ xs) h = elim (Bool-cases (before a x)) [
    | inl y ↦ rw y (rw y (all_mono (before x) (before a) xs (λ z k. trans a x z y k) h.0), h)
    | inr n ↦
        rw n (
          all-insert_by before (before x) a xs ∙ rw (total a x n) h.0,
          insert_by-IsOrdered a xs h.1,
        )
  ]

  pub order_by-IsOrdered : (xs : List A) → IsOrdered before (order_by before xs)
  unfolding order_by
  order_by-IsOrdered [] = tt
  order_by-IsOrdered (x ∷ xs) = insert_by-IsOrdered x _ (order_by-IsOrdered xs)
