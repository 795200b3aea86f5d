-- ===== src/Common/Search.antt =====
-- Laws of the filters and searches of a list.
use Prim.Native.Nat.{◌+◌}
use mathlib.Core.Path.{◌≡◌, refl}
use mathlib.Core.Bool.{Bool, true, false, not, ◌&&◌, ◌||◌}
use mathlib.Core.Logic.{inl, inr}
use mathlib.Core.Option.{none, some}
use mathlib.Core.List.{List, [], ◌∷◌, ◌++◌, map}
use native.Mathlib.Omega.{arith}
use cpp_social_network_clien.Common.Tests.{&&-eq_true, Bool-cases}
use cpp_social_network_clien.Common.Lists.{length, first, is_empty, select, any, all, All, Has}

module _ {ℓ} {A : Type ℓ} where
  pub any-append : (p : A → Bool) (xs ys : List A) → any p (xs ++ ys) ≡ (any p xs || any p ys)
  unfolding any
  any-append p [] ys = refl
  any-append p (x ∷ xs) ys = ground (arith, any-append p xs ys)

  pub length-append : (xs ys : List A) → length (xs ++ ys) ≡ length xs + length ys
  length-append [] ys = omega arith
  length-append (x ∷ xs) ys = omega (arith, length-append xs ys)

  pub any-append_left : (p : A → Bool) (xs ys : List A) → any p xs ≡ true → any p (xs ++ ys) ≡ true
  any-append_left p xs ys h = ground (arith, any-append p xs ys)

  pub any-snoc : (p : A → Bool) (xs : List A) (a : A) → p a ≡ true → any p (xs ++ a ∷ []) ≡ true
  unfolding any
  any-snoc p [] a h = rw h
  any-snoc p (x ∷ xs) a h = ground (arith, any-snoc p xs a)

  pub any-select : (p q : A → Bool) (xs : List A) → any p (select q xs) ≡ any (λ x. q x && p x) xs
  unfolding any select
  any-select p q [] = refl
  any-select p q (x ∷ xs) = ground (arith, any-select p q xs)

  pub all-select : (p : A → Bool) (xs : List A) → all p (select p xs) ≡ true
  unfolding all select
  all-select p [] = refl
  all-select p (x ∷ xs) = ground (arith, all-select p xs)

  pub all_mono :
      (p q : A → Bool) (xs : List A)
      → ((x : A) → p x ≡ true → q x ≡ true)
      → all p xs ≡ true
      → all q xs ≡ true
  unfolding all
  all_mono p q [] k h = refl
  all_mono p q (x ∷ xs) k h = ground (arith, k x, all_mono p q xs k)

  pub all-select_of_all :
      (p q : A → Bool) (xs : List A) → all p xs ≡ true → all p (select q xs) ≡ true
  unfolding all select
  all-select_of_all p q [] h = refl
  all-select_of_all p q (x ∷ xs) h = ground (arith, all-select_of_all p q xs)

  pub all-first :
      (p : A → Bool) (xs : List A) (a : A) → all p xs ≡ true → first xs ≡ some a → p a ≡ true
  unfolding all
  all-first p [] a h e = ground arith
  all-first p (x ∷ xs) a h e = ground arith

  pub first_of_none : (xs : List A) → all (λ _. false) xs ≡ true → first xs ≡ none
  unfolding all
  first_of_none [] h = refl
  first_of_none (x ∷ xs) h = cc

  pub first_of_any : (p : A → Bool) (xs : List A) → any p xs ≡ true → (a : A) × (first xs ≡ some a)
  unfolding any
  first_of_any p [] h = ground arith
  first_of_any p (x ∷ xs) h = (x, refl)

  pub not-is_empty : (xs : List A) → not (is_empty xs) ≡ any (λ _. true) xs
  unfolding any
  not-is_empty [] = refl
  not-is_empty (x ∷ xs) = refl

  pub any-false-all :
      (p : A → Bool) (xs : List A) → any p xs ≡ false → all (λ x. not (p x)) xs ≡ true
  unfolding any all
  any-false-all p [] h = refl
  any-false-all p (x ∷ xs) h = ground (arith, any-false-all p xs)

  pub all-not-any : (p : A → Bool) (xs : List A) → all (λ x. not (p x)) xs ≡ true → any p xs ≡ false
  unfolding any all
  all-not-any p [] h = refl
  all-not-any p (x ∷ xs) h = ground (arith, all-not-any p xs)

  pub select_none : (p : A → Bool) (xs : List A) → any p xs ≡ false → select p xs ≡ []
  unfolding any select
  select_none p [] h = refl
  select_none p (x ∷ xs) h = ground (arith, select_none p xs)

  pub is_empty_of_all : (xs : List A) → all (λ _. false) xs ≡ true → is_empty xs ≡ true
  unfolding all
  is_empty_of_all [] h = refl
  is_empty_of_all (x ∷ xs) h = cc

  pub any_mono :
      (p q : A → Bool) (xs : List A)
      → ((x : A) → p x ≡ true → q x ≡ true)
      → any p xs ≡ true
      → any q xs ≡ true
  unfolding any
  any_mono p q [] k h = h
  any_mono p q (x ∷ xs) k h = ground (arith, k x, any_mono p q xs k)

  pub any_congr : (p q : A → Bool) (xs : List A) → ((x : A) → p x ≡ q x) → any p xs ≡ any q xs
  unfolding any
  any_congr p q [] k = refl
  any_congr p q (x ∷ xs) k = ground (arith, k x, any_congr p q xs k)

module _ {ℓ κ} {A : Type ℓ} {B : Type κ} where
  pub any-map : (f : A → B) (p : B → Bool) (xs : List A) → any p (map f xs) ≡ any (λ x. p (f x)) xs
  unfolding any
  any-map f p [] = refl
  any-map f p (x ∷ xs) = ground (arith, any-map f p xs)

  pub all-map : (f : A → B) (p : B → Bool) (xs : List A) → all p (map f xs) ≡ all (λ x. p (f x)) xs
  unfolding all
  all-map f p [] = refl
  all-map f p (x ∷ xs) = ground (arith, all-map f p xs)

module _ {ℓ κ} {A : Type ℓ} where
  pub All-of_all :
      (p : A → Bool) (P : A → Type κ) (xs : List A)
      → ((x : A) → p x ≡ true → P x)
      → all p xs ≡ true
      → All P xs
  unfolding all
  All-of_all p P [] k h = tt
  All-of_all p P (x ∷ xs) k h =
      (k x (&&-eq_true (p x) (all p xs) h).0, All-of_all p P xs k (&&-eq_true (p x) (all p xs) h).1)

pub All-map {ℓ κ ι} :
    {A : Type ℓ} {B : Type κ} (f : A → B) (P : B → Type ι) (xs : List A)
    → All (λ x. P (f x)) xs
    → All P (map f xs)
All-map f P [] h = tt
All-map f P (x ∷ xs) h = (h.0, All-map f P xs h.1)

module _ {A : Type 0} where
  pub Has-any : (p : A → Bool) (a : A) (xs : List A) → Has a xs → p a ≡ true → any p xs ≡ true
  unfolding any
  Has-any p a [] h k = absurd h
  Has-any p a (x ∷ xs) h k = ground (arith, Has-any p a xs)

  pub any-Has : (p : A → Bool) (xs : List A) → any p xs ≡ true → (a : A) × Has a xs × (p a ≡ true)
  unfolding any
  any-Has p [] h = absurd (ground arith)
  any-Has p (x ∷ xs) h = elim (Bool-cases (p x)) [
    | inl y ↦ (x, inl refl, y)
    | inr n ↦ let (a, there, k) = any-Has p xs (rw n at h) in (a, inr there, k)
  ]

module _ {A : Type 0} where
  pub all_of_Has :
      (q : A → Bool) (xs : List A) → ((a : A) → Has a xs → q a ≡ true) → all q xs ≡ true
  unfolding all
  all_of_Has q [] h = refl
  all_of_Has q (x ∷ xs) h =
      ground (arith, h x (inl refl), all_of_Has q xs (λ a there. h a (inr there)))

  pub Has-select :
      (p : A → Bool) (a : A) (xs : List A) → Has a (select p xs) → Has a xs × (p a ≡ true)
  unfolding select
  Has-select p a [] h = absurd h
  Has-select p a (x ∷ xs) h = elim (Bool-cases (p x)) [
    | inl y ↦ elim (rw y at h) [
      | inl e ↦ (inl e, rw e y)
      | inr there ↦ (inr (Has-select p a xs there).0, (Has-select p a xs there).1)
    ]
    | inr n ↦ let there = Has-select p a xs (rw n at h) in (inr there.0, there.1)
  ]

module _ {ℓ} {A : Type ℓ} where
  pub all-append : (p : A → Bool) (xs ys : List A) → all p (xs ++ ys) ≡ (all p xs && all p ys)
  unfolding all
  all-append p [] ys = refl
  all-append p (x ∷ xs) ys = ground (arith, all-append p xs ys)
