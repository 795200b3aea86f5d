-- ===== src/Common/Pieces.antt =====
-- Laws of `take` and `drop`.
use Prim.Native.Nat.{ℕ, zero, suc, ◌≤◌, ◌<◌}
use mathlib.Core.Path.{◌≡◌, refl, ap}
use mathlib.Core.Bool.{Bool, true, false}
use mathlib.Core.List.{List, [], ◌∷◌, ◌++◌}
use native.Mathlib.Omega.{arith}
use cpp_social_network_clien.Common.Bytes.{Text}
use cpp_social_network_clien.Common.Lists.{length, take, drop, all, is_empty}

module _ {ℓ} {A : Type ℓ} where
  pub take-all : (n : ℕ) (xs : List A) → length xs ≤ n → take n xs ≡ xs
  unfolding take
  take-all zero [] h = refl
  take-all zero (x ∷ xs) h = absurd (omega arith)
  take-all (suc n) [] h = refl
  take-all (suc n) (x ∷ xs) h = ap (λ (t : List A). x ∷ t) (take-all n xs (omega arith))

  pub drop-all : (n : ℕ) (xs : List A) → length xs ≤ n → drop n xs ≡ []
  unfolding drop
  drop-all zero [] h = refl
  drop-all zero (x ∷ xs) h = absurd (omega arith)
  drop-all (suc n) [] h = refl
  drop-all (suc n) (x ∷ xs) h = drop-all n xs (omega arith)

  pub drop-long : (n : ℕ) (xs : List A) → n < length xs → is_empty (drop n xs) ≡ false
  unfolding drop
  drop-long zero [] h = absurd (omega arith)
  drop-long zero (x ∷ xs) h = refl
  drop-long (suc n) [] h = absurd (omega arith)
  drop-long (suc n) (x ∷ xs) h = drop-long n xs (omega arith)

  pub take-append : (n : ℕ) (xs ys : List A) → n ≤ length xs → take n (xs ++ ys) ≡ take n xs
  unfolding take
  take-append zero xs ys h = refl
  take-append (suc n) [] ys h = absurd (omega arith)
  take-append (suc n) (x ∷ xs) ys h = ap (λ (t : List A). x ∷ t) (take-append n xs ys (omega arith))

pub all-take : (p : ℕ → Bool) (n : ℕ) (xs : Text) → all p xs ≡ true → all p (take n xs) ≡ true
unfolding take all
all-take p zero xs h = refl
all-take p (suc n) [] h = refl
all-take p (suc n) (x ∷ xs) h = ground (arith, all-take p n xs)

pub all-drop : (p : ℕ → Bool) (n : ℕ) (xs : Text) → all p xs ≡ true → all p (drop n xs) ≡ true
unfolding drop all
all-drop p zero xs h = h
all-drop p (suc n) [] h = refl
all-drop p (suc n) (x ∷ xs) h = ground (arith, all-drop p n xs)

pub drop-append :
    {A : Type 0} (n : ℕ) (xs ys : List A) → n ≤ length xs → drop n (xs ++ ys) ≡ drop n xs ++ ys
unfolding drop
drop-append zero xs ys h = refl
drop-append (suc n) [] ys h = absurd (omega arith)
drop-append (suc n) (x ∷ xs) ys h = drop-append n xs ys (omega arith)
