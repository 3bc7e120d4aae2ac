-- ===== src/Shared/Sorting.antt =====
-- Python's `sorted`, as a stable insertion sort, and what it keeps.
use Prim.Native.Nat.{ℕ, zero, suc}
use Prim.Native.Char.{code}
use Prim.Native.String.{String}
use mathlib.Core.Path.{◌≡◌, refl, sym, ap}
use mathlib.Core.Logic.{◌≢◌, inl, inr}
use mathlib.Core.Bool.{Bool, true, false}
use mathlib.Core.List.{List, [], ◌∷◌, ◌++◌, map}
use careerops_agent.Shared.Tests.{ltb, nat_eq, if◌then◌else◌, Bool-cases}
use careerops_agent.Shared.Lists.{All, take, keep, length}

-- `<` on texts: by code points.
abbrev pub text_below : (s t : String) → Bool
text_below s String.[] = false
text_below String.[] (String.◌∷◌ d t) = true
text_below (String.◌∷◌ c s) (String.◌∷◌ d t) =
    let later = text_below s t in if nat_eq (code c) (code d) then later else ltb (code c) (code d)

module _ {ℓ} {A : Type ℓ} (before : A → A → Bool) where
  abbrev pub insert : A → List A → List A
  insert x [] = x ∷ []
  insert x (y ∷ ys) = let later = insert x ys in if before y x then y ∷ later else x ∷ y ∷ ys

  abbrev pub sorted : List A → List A
  sorted [] = []
  sorted (x ∷ xs) = insert x (sorted xs)

module _ {ℓ κ} {A : Type ℓ} (P : A → Type κ) where
  insert-All :
      (before : A → A → Bool) (x : A) (xs : List A) → P x → All P xs → All P (insert before x xs)
  insert-All before x [] p u = (p, tt)
  insert-All before x (y ∷ ys) p (q, u) = elim (Bool-cases (before y x)) [
    | inl t ↦ rw t (q, insert-All before x ys p u)
    | inr f ↦ rw f (p, (q, u))
  ]

  pub sorted-All : (before : A → A → Bool) (xs : List A) → All P xs → All P (sorted before xs)
  sorted-All before [] u = tt
  sorted-All before (x ∷ xs) (p, u) =
      insert-All before x (sorted before xs) p (sorted-All before xs u)

  pub take-All : (n : ℕ) (xs : List A) → All P xs → All P (take n xs)
  take-All zero xs u = tt
  take-All (suc n) [] u = tt
  take-All (suc n) (x ∷ xs) (p, u) = (p, take-All n xs u)

  pub keep-All : (q : A → Bool) (xs : List A) → All P xs → All P (keep q xs)
  keep-All q [] u = tt
  keep-All q (x ∷ xs) (p, u) = elim (Bool-cases (q x)) [
    | inl t ↦ rw t (p, keep-All q xs u)
    | inr f ↦ rw f (keep-All q xs u)
  ]

module _ {ℓ κ} {A : Type ℓ} {K : Type κ} (key_of : A → K) where
  -- No two have the same key.
  abbrev pub IsDistinct : List A → Type κ
  IsDistinct [] = Unit
  IsDistinct (x ∷ xs) = All (λ y. key_of y ≢ key_of x) xs × IsDistinct xs

  insert-IsDistinct :
      (before : A → A → Bool) (x : A) (xs : List A)
      → All (λ y. key_of y ≢ key_of x) xs
      → IsDistinct xs
      → IsDistinct (insert before x xs)
  insert-IsDistinct before x [] o u = (tt, tt)
  insert-IsDistinct before x (y ∷ ys) (o, os) (d, u) = elim (Bool-cases (before y x)) [
    | inl t ↦ rw t (
      insert-All (λ z. key_of z ≢ key_of y) before x ys (λ e. o (sym e)) d,
      insert-IsDistinct before x ys os u,
    )
    | inr f ↦ rw f ((o, os), (d, u))
  ]

  pub sorted-IsDistinct :
      (before : A → A → Bool) (xs : List A) → IsDistinct xs → IsDistinct (sorted before xs)
  sorted-IsDistinct before [] u = tt
  sorted-IsDistinct before (x ∷ xs) (o, u) =
      insert-IsDistinct before x (sorted before xs)
        (sorted-All (λ y. key_of y ≢ key_of x) before xs o) (sorted-IsDistinct before xs u)

  pub take-IsDistinct : (n : ℕ) (xs : List A) → IsDistinct xs → IsDistinct (take n xs)
  take-IsDistinct zero xs u = tt
  take-IsDistinct (suc n) [] u = tt
  take-IsDistinct (suc n) (x ∷ xs) (o, u) =
      (take-All (λ y. key_of y ≢ key_of x) n xs o, take-IsDistinct n xs u)

module _ {ℓ κ} {A : Type ℓ} {B : Type κ} where
  pub map-All {μ} :
      (P : B → Type μ) (f : A → B) (xs : List A) → All (λ x. P (f x)) xs → All P (map f xs)
  map-All P f [] u = tt
  map-All P f (x ∷ xs) (p, u) = (p, map-All P f xs u)

  pub All-map {μ} :
      (P : B → Type μ) (f : A → B) (xs : List A) → All P (map f xs) → All (λ x. P (f x)) xs
  All-map P f [] u = tt
  All-map P f (x ∷ xs) (p, u) = (p, All-map P f xs u)

  pub map-IsDistinct : (f : A → B) (xs : List A) → IsDistinct f xs → IsDistinct (λ b. b) (map f xs)
  map-IsDistinct f [] u = tt
  map-IsDistinct f (x ∷ xs) (o, u) = (map-All (λ y. y ≢ f x) f xs o, map-IsDistinct f xs u)

  pub length-map : (f : A → B) (xs : List A) → length (map f xs) ≡ length xs
  length-map f [] = refl
  length-map f (x ∷ xs) = ap suc (length-map f xs)

module _ {ℓ} {A : Type ℓ} where
  pub append-All {κ} : (P : A → Type κ) (xs ys : List A) → All P xs → All P ys → All P (xs ++ ys)
  append-All P [] ys u w = w
  append-All P (x ∷ xs) ys (p, u) w = (p, append-All P xs ys u w)

  pub All-weaken {κ μ} :
      (P : A → Type κ) (Q : A → Type μ)
      → ((x : A) → P x → Q x)
      → (xs : List A) → All P xs
      → All Q xs
  All-weaken P Q f [] u = tt
  All-weaken P Q f (x ∷ xs) (p, u) = (f x p, All-weaken P Q f xs u)

  -- What a filter keeps passes its test.
  pub keep_sound : (p : A → Bool) (xs : List A) → All (λ x. p x ≡ true) (keep p xs)
  keep_sound p [] = tt
  keep_sound p (x ∷ xs) = elim (Bool-cases (p x)) [
    | inl t ↦ rw t (t, keep_sound p xs)
    | inr f ↦ rw f (keep_sound p xs)
  ]

  pub All-both {κ μ} :
      (P : A → Type κ) (Q : A → Type μ) (xs : List A)
      → All P xs
      → All Q xs
      → All (λ x. P x × Q x) xs
  All-both P Q [] u w = tt
  All-both P Q (x ∷ xs) (p, u) (q, w) = ((p, q), All-both P Q xs u w)
