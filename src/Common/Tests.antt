-- ===== src/Common/Tests.antt =====
-- Boolean tests: numbers, the conditional, and equality as an instance argument.
use Prim.Native.Nat.{ℕ, compare, Ordering}
use mathlib.Core.Path.{◌≡◌, refl}
use mathlib.Core.Logic.{◌↔◌, ◌≢◌, ◌⊎◌, inl, inr}
use mathlib.Core.Bool.{Bool, true, false, ◌&&◌}
use mathlib.Core.Option.{Option, none, some}
use native.Mathlib.Omega.{arith}

abbrev pub ltb : ℕ → ℕ → Bool
ltb a b = elim (compare a b) [ Ordering.lt ↦ true | _ ↦ false ]

abbrev pub leb : ℕ → ℕ → Bool
leb a b = elim (compare a b) [ Ordering.gt ↦ false | _ ↦ true ]

abbrev pub nat_beq : ℕ → ℕ → Bool
nat_beq a b = elim (compare a b) [ Ordering.eq ↦ true | _ ↦ false ]

infix 1 if◌then◌else◌
abbrev pub if◌then◌else◌ {ℓ} : {A : Type ℓ} → Bool → A → A → A
if true then x else y = x
if false then x else y = y

pub nat_beq_iff : (a b : ℕ) → (nat_beq a b ≡ true) ↔ (a ≡ b)
nat_beq_iff a b = ground arith

-- To split on a computed value and keep the equation.
pub Bool-cases : (b : Bool) → (b ≡ true) ⊎ (b ≡ false)
Bool-cases true = inl refl
Bool-cases false = inr refl

pub Option-cases {ℓ} : {A : Type ℓ} (o : Option A) → (o ≡ none) ⊎ ((a : A) × (o ≡ some a))
Option-cases none = inl refl
Option-cases (some a) = inr (a, refl)

-- Types whose values the code compares with `==`.
pub record Eq {κ} (V : Type κ) : Type κ where
  pub same : V → V → Bool
  pub same_iff : (u v : V) → (same u v ≡ true) ↔ (u ≡ v)

infix 50 ◌==◌
abbrev pub ◌==◌ {κ} : {V : Type κ} ⦃q : Eq V⦄ → V → V → Bool
◌==◌ ⦃q = q⦄ u v = q.same u v

pub eq_iff {κ} : {V : Type κ} ⦃q : Eq V⦄ (u v : V) → ((u == v) ≡ true) ↔ (u ≡ v)
eq_iff ⦃q⦄ u v = q.same_iff u v

pub eq_refl {κ} : {V : Type κ} ⦃q : Eq V⦄ (v : V) → (v == v) ≡ true
eq_refl v = (eq_iff v v).1 refl

pub eq_apart {κ} : {V : Type κ} ⦃q : Eq V⦄ (u v : V) → u ≢ v → (u == v) ≡ false
eq_apart u v apart = elim (Bool-cases (u == v)) [
  | inl y ↦ absurd (apart ((eq_iff u v).0 y))
  | inr n ↦ n
]

instance abbrev pub nat_eq : Eq ℕ
nat_eq = record { same = nat_beq; same_iff = nat_beq_iff }

pub &&-eq_true : (a b : Bool) → (a && b) ≡ true → (a ≡ true) × (b ≡ true)
&&-eq_true a b h = ground arith

-- What holds on both branches holds of a conditional.
pub if_both {ℓ κ} :
    {A : Type ℓ} (P : A → Type κ) (b : Bool) (x y : A)
    → (b ≡ true → P x)
    → (b ≡ false → P y)
    → P (if b then x else y)
if_both P true x y h k = h refl
if_both P false x y h k = k refl
