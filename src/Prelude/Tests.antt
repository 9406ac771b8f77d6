-- ===== src/Prelude/Tests.antt =====
-- Boolean tests on the native numbers, the conditional and case splits on computed values.
use Prim.Native.Nat.{ℕ, compare, Ordering}
use mathlib.Core.Path.{◌≡◌, refl}
use mathlib.Core.Logic.{◌↔◌, ◌⊎◌, inl, inr}
use mathlib.Core.Bool.{Bool, true, false}
use mathlib.Core.Option.{Option, none, some}
use native.Mathlib.Omega.{arith}

abbrev pub ltb : ℕ → ℕ → Bool
ltb a b = elim (compare a b) [ Ordering.lt ↦ true | _ ↦ false ]

abbrev pub leb : ℕ → ℕ → Bool
leb a b = elim (compare a b) [ Ordering.gt ↦ false | _ ↦ true ]

abbrev pub nat_beq : ℕ → ℕ → Bool
nat_beq a b = elim (compare a b) [ Ordering.eq ↦ true | _ ↦ false ]

infix 1 if◌then◌else◌
abbrev pub if◌then◌else◌ {ℓ} : {A : Type ℓ} → Bool → A → A → A
if true then x else y = x
if false then x else y = y

pub nat_beq_iff : (a b : ℕ) → (nat_beq a b ≡ true) ↔ (a ≡ b)
nat_beq_iff a b = ground arith

pub Bool-cases : (b : Bool) → (b ≡ true) ⊎ (b ≡ false)
Bool-cases true = inl refl
Bool-cases false = inr refl

pub Option-cases {ℓ} : {A : Type ℓ} (o : Option A) → (o ≡ none) ⊎ ((a : A) × (o ≡ some a))
Option-cases none = inl refl
Option-cases (some a) = inr (a, refl)

-- Types with an equality test that decides equality: texts, numbers and keys.
pub record Eq {ℓ} (A : Type ℓ) : Type ℓ where
  pub test : A → A → Bool
  pub test_iff : (x y : A) → (test x y ≡ true) ↔ (x ≡ y)

instance abbrev pub nat_eq : Eq ℕ
nat_eq = record { test = nat_beq; test_iff = nat_beq_iff }

infix 50 ◌==◌
abbrev pub ◌==◌ {ℓ} : {A : Type ℓ} ⦃t : Eq A⦄ → A → A → Bool
◌==◌ ⦃t⦄ = t.test

-- A branch that is taken may be shown in place of the whole.
pub if-true {ℓ κ} :
    {A : Type ℓ} (a b : A) (P : A → Type κ) (t : Bool) → t ≡ true → P a → P (if t then a else b)
if-true a b P t e h = rw e h

pub if-false {ℓ κ} :
    {A : Type ℓ} (a b : A) (P : A → Type κ) (t : Bool) → t ≡ false → P b → P (if t then a else b)
if-false a b P t e h = rw e h

pub if-cases {ℓ κ} :
    {A : Type ℓ} (a b : A) (P : A → Type κ) (t : Bool) → P a → P b → P (if t then a else b)
if-cases a b P true ha hb = ha
if-cases a b P false ha hb = hb

pub if-equals {ℓ} :
    {A : Type ℓ} (a b c : A) (t : Bool)
    → (if t then a else b) ≡ c
    → ((t ≡ true) × (a ≡ c)) ⊎ ((t ≡ false) × (b ≡ c))
if-equals a b c true e = inl (refl, e)
if-equals a b c false e = inr (refl, e)
