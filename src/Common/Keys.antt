-- ===== src/Common/Keys.antt =====
-- Lists whose entries are told apart by a key.
use Prim.Native.Nat.{◌≤◌}
use mathlib.Core.Path.{◌≡◌, refl, ◌∙◌}
use mathlib.Core.Bool.{Bool, true, false}
use mathlib.Core.Logic.{inl, inr}
use mathlib.Core.List.{List, [], ◌∷◌, ◌++◌, map}
use native.Mathlib.Omega.{arith}
use cpp_social_network_clien.Common.Tests.{Bool-cases}
use cpp_social_network_clien.Common.Lists.{select, any, count, distinct, Has}
use cpp_social_network_clien.Common.Search.{any-append, select_none, any_congr, any-map, Has-any}

module _ {ℓ} {A : Type ℓ} where
  pub distinct-snoc :
      (same : A → A → Bool) (xs : List A) (a : A)
      → distinct same xs ≡ true
      → any (λ x. same x a) xs ≡ false
      → distinct same (xs ++ a ∷ []) ≡ true
  unfolding distinct any
  distinct-snoc same [] a h k = refl
  distinct-snoc same (x ∷ xs) a h k =
      ground (arith, any-append (same x) xs (a ∷ []), distinct-snoc same xs a)

module _ {ℓ} {A : Type ℓ} where
  pub distinct-map :
      (same : A → A → Bool) (f : A → A) (xs : List A)
      → ((x y : A) → same (f x) (f y) ≡ same x y)
      → distinct same (map f xs) ≡ distinct same xs
  unfolding distinct
  distinct-map same f [] h = refl
  distinct-map same f (x ∷ xs) h =
      ground
        (arith, any-map f (same (f x)) xs ∙ any_congr _ (same x) xs (h x), distinct-map same f xs h)

  pub count_zero : (p : A → Bool) (xs : List A) → any p xs ≡ false → count p xs ≡ 0
  unfolding count any
  count_zero p [] h = refl
  count_zero p (x ∷ xs) h = ground (arith, count_zero p xs)

  pub any-false_mono :
      (p q : A → Bool) (xs : List A)
      → ((x : A) → p x ≡ true → q x ≡ true)
      → any q xs ≡ false
      → any p xs ≡ false
  unfolding any
  any-false_mono p q [] k h = refl
  any-false_mono p q (x ∷ xs) k h = ground (arith, k x, any-false_mono p q xs k)

  -- Of entries that would be the same there is at most one.
  pub count-distinct :
      (same : A → A → Bool) (p : A → Bool) (xs : List A)
      → ((x y : A) → p x ≡ true → p y ≡ true → same x y ≡ true)
      → distinct same xs ≡ true
      → count p xs ≤ 1
  unfolding count distinct
  count-distinct same p [] h d = omega arith
  count-distinct same p (x ∷ xs) h d = elim (Bool-cases (p x)) [
    | inl y ↦
        rw (y, count_zero p xs (any-false_mono p (same x) xs (λ z. h x z y) (ground arith)))
          (omega arith)
    | inr n ↦ rw n (ground (arith, count-distinct same p xs h))
  ]

module _ {A : Type 0} (same : A → A → Bool) (p : A → Bool) (r : A) where
  select_none_of_distinct :
      (xs : List A)
      → ((x : A) → p x ≡ true → same r x ≡ true)
      → any (same r) xs ≡ false
      → select p xs ≡ []
  select_none_of_distinct xs k h = select_none p xs (any-false_mono p (same r) xs k h)

  -- A condition on a unique key selects the one entry that has it.
  pub select_unique :
      (xs : List A)
      → ((x y : A) → same x y ≡ same y x)
      → ((x : A) → p x ≡ same r x)
      → same r r ≡ true
      → distinct same xs ≡ true
      → Has r xs
      → select p xs ≡ r ∷ []
  unfolding select distinct
  select_unique [] comm k own d h = absurd h
  select_unique (x ∷ xs) comm k own d (inl e) =
      let others : select p xs ≡ [] =
        select_none_of_distinct xs (λ z h. ground (arith, k z)) (ground arith) in
      ground (arith, k x, e)
  select_unique (x ∷ xs) comm k own d (inr h) =
      ground (arith, k x, comm r x, Has-any (same x) r xs h, select_unique xs comm k own)
