-- ===== src/Shared/Keyed.antt =====
-- Tables whose rows are numbered from 1 on and have a key each.
use Prim.Native.Nat.{ℕ, suc, ◌+◌, ◌≤◌, ◌<◌}
use mathlib.Core.Path.{◌≡◌, ap, ◌∙◌, sym}
use mathlib.Core.Bool.{Bool, false}
use mathlib.Core.List.{List, [], ◌∷◌, ◌++◌}
use mathlib.Core.Option.{none, some}
use mathlib.Core.Logic.{◌≢◌, inl, inr}
use native.Mathlib.Omega.{arith}
use careerops_agent.Shared.Tests.{◌==◌, Eq_nat, Bool-cases, ==_eq, some_inj}
use careerops_agent.Shared.Lists.{All, first, update_where, length}

module _ {ℓ κ} {A : Type ℓ} {K : Type κ} (id_of : A → ℕ) (key_of : A → K) where
  -- The ids count the rows from `n + 1` on.
  abbrev pub Numbered : ℕ → List A → Type 0
  Numbered n [] = Unit {0}
  Numbered n (x ∷ xs) = (id_of x ≡ suc n) × Numbered (suc n) xs

  -- No two rows have the same key.
  abbrev pub Apart : List A → Type κ
  Apart [] = Unit
  Apart (x ∷ xs) = All (λ y. key_of y ≢ key_of x) xs × Apart xs

  abbrev pub IsTable : List A → Type κ
  IsTable xs = Numbered 0 xs × Apart xs

  -- The rows with the id of `r` have its key.
  abbrev Shares : A → List A → Type κ
  Shares r = All (λ y. id_of y ≡ id_of r → key_of y ≡ key_of r)

  below-Shares : (r : A) (n : ℕ) (xs : List A) → Numbered n xs → id_of r ≤ n → Shares r xs
  below-Shares r n [] u h = tt
  below-Shares r n (x ∷ xs) u h =
      (λ e. absurd (omega arith), below-Shares r (suc n) xs u.1 (omega arith))

  first-above :
      (q : A → Bool) (n : ℕ) (xs : List A) {r : A}
      → Numbered n xs
      → first q xs ≡ some r
      → n < id_of r
  first-above q n [] u h = cc
  first-above q n (x ∷ xs) u h = elim (Bool-cases (q x)) [
    | inl t ↦ omega (arith, ap id_of (some_inj (rw t at h)))
    | inr f ↦ omega (arith, first-above q (suc n) xs u.1 (rw f at h))
  ]

  -- A row that a query finds is the row with its id.
  first-Shares :
      (q : A → Bool) (n : ℕ) (xs : List A) {r : A}
      → Numbered n xs
      → first q xs ≡ some r
      → Shares r xs
  first-Shares q n [] u h = tt
  first-Shares q n (x ∷ xs) {r} u h = elim (Bool-cases (q x)) [
    | inl t ↦
        (let same = some_inj (rw t at h) in
          (λ _. ap key_of same, below-Shares r (suc n) xs u.1 (omega (arith, ap id_of same))))
    | inr f ↦ (
      λ same. absurd (omega (arith, first-above q (suc n) xs u.1 (rw f at h))),
      first-Shares q (suc n) xs u.1 (rw f at h),
    )
  ]

  Numbered-update :
      (r r' : A) (n : ℕ) (xs : List A)
      → id_of r' ≡ id_of r
      → Numbered n xs
      → Numbered n (update_where (λ y. id_of y == id_of r) (λ _. r') xs)
  Numbered-update r r' n [] e u = tt
  Numbered-update r r' n (x ∷ xs) e u = elim (Bool-cases (id_of x == id_of r)) [
    | inl t ↦
        rw t (omega (arith, ==_eq (id_of x) (id_of r) t), Numbered-update r r' (suc n) xs e u.1)
    | inr f ↦ rw f (u.0, Numbered-update r r' (suc n) xs e u.1)
  ]

  other-update :
      (k : K) (r r' : A) (xs : List A)
      → key_of r' ≡ key_of r
      → Shares r xs
      → All (λ y. key_of y ≢ k) xs
      → All (λ y. key_of y ≢ k) (update_where (λ y. id_of y == id_of r) (λ _. r') xs)
  other-update k r r' [] e s a = tt
  other-update k r r' (x ∷ xs) e s a = elim (Bool-cases (id_of x == id_of r)) [
    | inl t ↦ rw t (
      λ same. a.0 (s.0 (==_eq (id_of x) (id_of r) t) ∙ sym e ∙ same),
      other-update k r r' xs e s.1 a.1,
    )
    | inr f ↦ rw f (a.0, other-update k r r' xs e s.1 a.1)
  ]

  same_other :
      {k k' : K} → k ≡ k' → (xs : List A) → All (λ y. key_of y ≢ k) xs → All (λ y. key_of y ≢ k') xs
  same_other e [] a = tt
  same_other e (x ∷ xs) a = (λ same. a.0 (same ∙ sym e), same_other e xs a.1)

  Apart-update :
      (r r' : A) (xs : List A)
      → key_of r' ≡ key_of r
      → Shares r xs
      → Apart xs
      → Apart (update_where (λ y. id_of y == id_of r) (λ _. r') xs)
  Apart-update r r' [] e s a = tt
  Apart-update r r' (x ∷ xs) e s a = elim (Bool-cases (id_of x == id_of r)) [
    | inl t ↦
        (let same = s.0 (==_eq (id_of x) (id_of r) t) ∙ sym e in
          rw t (
            other-update (key_of r') r r' xs e s.1 (same_other same xs a.0),
            Apart-update r r' xs e s.1 a.1,
          ))
    | inr f ↦ rw f (other-update (key_of x) r r' xs e s.1 a.0, Apart-update r r' xs e s.1 a.1)
  ]

  -- A row that a query finds may be replaced by one with its id and its key.
  pub IsTable-update :
      (q : A → Bool) (r r' : A) (xs : List A)
      → first q xs ≡ some r
      → id_of r' ≡ id_of r
      → key_of r' ≡ key_of r
      → IsTable xs
      → IsTable (update_where (λ y. id_of y == id_of r) (λ _. r') xs)
  IsTable-update q r r' xs found e k (u, a) =
      (Numbered-update r r' 0 xs e u, Apart-update r r' xs k (first-Shares q 0 xs u found) a)

  Numbered-append :
      (n : ℕ) (xs : List A) (x : A)
      → Numbered n xs
      → id_of x ≡ suc (n + length xs)
      → Numbered n (xs ++ x ∷ [])
  Numbered-append n [] x u e = (omega arith, tt)
  Numbered-append n (y ∷ xs) x u e = (u.0, Numbered-append (suc n) xs x u.1 (omega arith))

  other-append :
      (k : K) (xs : List A) (x : A)
      → All (λ y. key_of y ≢ k) xs
      → key_of x ≢ k
      → All (λ y. key_of y ≢ k) (xs ++ x ∷ [])
  other-append k [] x a h = (h, tt)
  other-append k (y ∷ xs) x a h = (a.0, other-append k xs x a.1 h)

  Apart-append :
      (xs : List A) (x : A) → Apart xs → All (λ y. key_of y ≢ key_of x) xs → Apart (xs ++ x ∷ [])
  Apart-append [] x a h = (tt, tt)
  Apart-append (y ∷ xs) x a h =
      (other-append (key_of y) xs x a.0 (λ e. h.0 (sym e)), Apart-append xs x a.1 h.1)

  -- A row with the next id and a key of its own may be added.
  pub IsTable-append :
      (xs : List A) (x : A)
      → id_of x ≡ suc (length xs)
      → All (λ y. key_of y ≢ key_of x) xs
      → IsTable xs
      → IsTable (xs ++ x ∷ [])
  IsTable-append xs x e h (u, a) =
      (Numbered-append 0 xs x u (omega (arith, e)), Apart-append xs x a h)

-- The rows that a query passes over do not satisfy it.
pub first-none {ℓ} :
    {A : Type ℓ} (q : A → Bool) (xs : List A) → first q xs ≡ none → All (λ y. q y ≡ false) xs
first-none q [] h = tt
first-none q (x ∷ xs) h = elim (Bool-cases (q x)) [
  | inl t ↦ cc (rw t at h)
  | inr f ↦ (f, first-none q xs (rw f at h))
]
