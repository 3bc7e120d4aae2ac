-- ===== src/Shared/Dicts.antt =====
-- Python's dictionaries with texts as keys, in the order of their insertion.
use Prim.Native.String.{String}
use mathlib.Core.Path.{◌≡◌, refl, sym}
use mathlib.Core.Logic.{◌≢◌, inl, inr}
use mathlib.Core.Bool.{Bool, true}
use mathlib.Core.List.{List, [], ◌∷◌}
use mathlib.Core.Option.{Option, none, some}
use careerops_agent.Shared.Tests.{
  ◌==◌, Eq_text, if◌then◌else◌, is_some, Bool-cases, ==_eq, ==_refl, some_inj,
}
use careerops_agent.Shared.Lists.{All}
use careerops_agent.Shared.Sorting.{IsDistinct}

abbrev pub Dict {ℓ} : Type ℓ → Type ℓ
Dict V = List (String × V)

module _ {ℓ} {V : Type ℓ} where
  -- `d.get(key)`
  abbrev pub lookup : String → Dict V → Option V
  lookup key [] = none
  lookup key ((k, v) ∷ d) = let later = lookup key d in if k == key then some v else later

  -- `d[key] = value`
  abbrev pub put : String → V → Dict V → Dict V
  put key value [] = (key, value) ∷ []
  put key value ((k, v) ∷ d) =
      let later = put key value d in if k == key then (k, value) ∷ d else (k, v) ∷ later

  -- `key in d`
  abbrev pub has : String → Dict V → Bool
  has key d = is_some (lookup key d)

  -- `d.update(other)`
  abbrev pub update : Dict V → (other : Dict V) → Dict V
  update d [] = d
  update d ((k, v) ∷ other) = update (put k v d) other

module _ {ℓ} {V : Type ℓ} where
  pub has-put : (key : String) (v : V) (d : Dict V) → has key (put key v d) ≡ true
  has-put key v [] = rw (==_refl key) refl
  has-put key v ((k, w) ∷ d) = elim (Bool-cases (k == key)) [
    | inl t ↦ rw (t, t) refl
    | inr f ↦ rw (f, f) (has-put key v d)
  ]

  pub has-put_other :
      (key other : String) (v : V) (d : Dict V) → has key d ≡ true → has key (put other v d) ≡ true
  has-put_other key other v [] h = cc
  has-put_other key other v ((k, w) ∷ d) h = elim (Bool-cases (k == other)) [
    | inl t ↦ elim (Bool-cases (k == key)) [
      | inl t' ↦ rw (t, t') refl
      | inr f' ↦ rw (t, f') (rw f' at h)
    ]
    | inr f ↦ elim (Bool-cases (k == key)) [
      | inl t' ↦ rw (f, t') refl
      | inr f' ↦ rw (f, f') (has-put_other key other v d (rw f' at h))
    ]
  ]

module _ {ℓ κ} {V : Type ℓ} (P : String → V → Type κ) where
  -- Every entry is as `P` says.
  abbrev pub Each : Dict V → Type κ
  Each = All (λ e. P e.0 e.1)

  pub put-Each : (key : String) (v : V) (d : Dict V) → P key v → Each d → Each (put key v d)
  put-Each key v [] p e = (p, tt)
  put-Each key v ((k, w) ∷ d) p (e, es) = elim (Bool-cases (k == key)) [
    | inl t ↦ rw t (rw (==_eq k key t) p, es)
    | inr f ↦ rw f (e, put-Each key v d p es)
  ]

  pub lookup-Each : (key : String) (d : Dict V) {v : V} → Each d → lookup key d ≡ some v → P key v
  lookup-Each key [] e h = cc
  lookup-Each key ((k, w) ∷ d) (e, es) h = elim (Bool-cases (k == key)) [
    | inl t ↦ rw (sym (some_inj (rw t at h)), sym (==_eq k key t)) e
    | inr f ↦ lookup-Each key d es (rw f at h)
  ]

module _ {ℓ} {V : Type ℓ} where
  -- A dictionary has each key once.
  pub put-IsDistinct :
      (key : String) (v : V) (d : Dict V)
      → IsDistinct (λ e. e.0) d
      → IsDistinct (λ e. e.0) (put key v d)
  put-IsDistinct key v [] u = (tt, tt)
  put-IsDistinct key v ((k, w) ∷ d) (o, u) = elim (Bool-cases (k == key)) [
    | inl t ↦ rw t (o, u)
    | inr f ↦
        rw f (
          put-Each (λ k' _. k' ≢ k) key v d (λ e. cc (f, e, ==_refl k)) o,
          put-IsDistinct key v d u,
        )
  ]
