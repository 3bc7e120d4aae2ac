-- ===== src/Shared/Tests.antt =====
-- Boolean tests on numbers, texts and optional values, and the conditional.
use Prim.Native.Nat.{ℕ, ◌≤◌, ◌<◌, compare, Ordering}
use Prim.Native.String.{String}
use mathlib.Core.Path.{◌≡◌, refl, ap}
use mathlib.Core.Logic.{◌⊎◌, inl, inr}
use mathlib.Core.Bool.{Bool, true, false, ◌&&◌}
use mathlib.Core.Option.{Option, none, some}
use native.Mathlib.Omega.{arith}
use text.Mathlib.Text.{◌==◌ as text_eq}
use text.Mathlib.TextEquality.{eq_iff}

abbrev pub ltb : ℕ → ℕ → Bool
ltb a b = elim (compare a b) [ Ordering.lt ↦ true | _ ↦ false ]

abbrev pub leb : ℕ → ℕ → Bool
leb a b = elim (compare a b) [ Ordering.gt ↦ false | _ ↦ true ]

abbrev pub nat_eq : ℕ → ℕ → Bool
nat_eq a b = elim (compare a b) [ Ordering.eq ↦ true | _ ↦ false ]

infix 1 if◌then◌else◌
abbrev pub if◌then◌else◌ {ℓ} : {A : Type ℓ} → Bool → A → A → A
if true then x else y = x
if false then x else y = y

-- What `==` of the program computes on a type: a test that holds of equal values only.
pub record Eq {ℓ} (T : Type ℓ) : Type ℓ where
  pub test : T → T → Bool
  pub test_same : {x : T} → test x x ≡ true
  pub test_sound : {x y : T} → test x y ≡ true → x ≡ y

pub nat_test_sound : {a b : ℕ} → nat_eq a b ≡ true → a ≡ b
nat_test_sound h = ground arith

pub nat_test_same : (a : ℕ) → nat_eq a a ≡ true
nat_test_same a = ground arith

instance abbrev pub Eq_nat : Eq ℕ
Eq_nat = record { test = nat_eq; test_same = λ {x}. nat_test_same x; test_sound = nat_test_sound }

infix 50 ◌==◌
abbrev pub ◌==◌ {ℓ} : {T : Type ℓ} ⦃decided : Eq T⦄ (x y : T) → Bool
◌==◌ ⦃decided⦄ x y = decided.test x y

instance abbrev pub Eq_text : Eq String
Eq_text = record {
  test = text_eq;
  test_same = λ {x}. (eq_iff x x).1 refl;
  test_sound = λ {x} {y}. (eq_iff x y).0;
}

abbrev pub both_or_neither {ℓ} : {T : Type ℓ} → (T → T → Bool) → Option T → Option T → Bool
both_or_neither f none none = true
both_or_neither f (some x) (some y) = f x y
both_or_neither f none (some y) = false
both_or_neither f (some x) none = false

pub option_test_same {ℓ} :
    {T : Type ℓ} (e : Eq T) (o : Option T) → both_or_neither e.test o o ≡ true
option_test_same e none = refl
option_test_same e (some x) = e.test_same

pub option_test_sound {ℓ} :
    {T : Type ℓ} (e : Eq T) (o o' : Option T) → both_or_neither e.test o o' ≡ true → o ≡ o'
option_test_sound e none none h = refl
option_test_sound e none (some y) h = cc
option_test_sound e (some x) none h = cc
option_test_sound e (some x) (some y) h = ap some (e.test_sound h)

instance abbrev pub Eq_option {ℓ} : {T : Type ℓ} ⦃e : Eq T⦄ → Eq (Option T)
Eq_option ⦃e⦄ = record {
  test = both_or_neither e.test;
  test_same = λ {x}. option_test_same e x;
  test_sound = λ {x} {y} h. option_test_sound e x y h;
}

abbrev pub is_none {ℓ} : {A : Type ℓ} → Option A → Bool
is_none none = true
is_none (some _) = false

abbrev pub is_some {ℓ} : {A : Type ℓ} → Option A → Bool
is_some none = false
is_some (some _) = true

-- `a or b` on optional values whose present values are all truthy.
abbrev pub or_else {ℓ} : {A : Type ℓ} → Option A → A → A
or_else none b = b
or_else (some a) b = a

-- To split on a computed value and keep the equation.
pub Bool-cases : (b : Bool) → (b ≡ true) ⊎ (b ≡ false)
Bool-cases true = inl refl
Bool-cases false = inr refl

pub Option-cases {ℓ} : {A : Type ℓ} (o : Option A) → (o ≡ none) ⊎ ((a : A) × (o ≡ some a))
Option-cases none = inl refl
Option-cases (some a) = inr (a, refl)

pub ltb→lt : (a b : ℕ) → ltb a b ≡ true → a < b
ltb→lt a b h = ground arith

pub leb→le : (a b : ℕ) → leb a b ≡ true → a ≤ b
leb→le a b h = ground arith

pub ltb-false : (a b : ℕ) → ltb a b ≡ false → b ≤ a
ltb-false a b h = ground arith

pub leb-false : (a b : ℕ) → leb a b ≡ false → b < a
leb-false a b h = ground arith

pub &&_true : (a b : Bool) → (a && b) ≡ true → (a ≡ true) × (b ≡ true)
&&_true a b h = ground arith

pub ==_refl {ℓ} : {A : Type ℓ} ⦃e : Eq A⦄ (a : A) → (a == a) ≡ true
==_refl ⦃e⦄ a = e.test_same

pub ==_eq {ℓ} : {A : Type ℓ} ⦃e : Eq A⦄ (a b : A) → (a == b) ≡ true → a ≡ b
==_eq ⦃e⦄ a b h = e.test_sound h

pub some_inj {ℓ} : {A : Type ℓ} {a b : A} → some a ≡ some b → a ≡ b
some_inj h = cc
