-- ===== src/Shared/Results.antt =====
-- Calls that may raise: a value or an exception.
use Prim.Native.String.{String}

-- An exception: the name of its type, and its text.
pub record Exception : Type 0 where
  pub kind : String
  pub text : String

pub data Result {ℓ} (A : Type ℓ) : Type ℓ where
  ok : A → Result A
  raised : Exception → Result A

abbrev pub value_error {ℓ} : {A : Type ℓ} → String → Result A
value_error text = raised (record { kind = "ValueError"; text = text })

-- What comes after a call that may raise.
abbrev pub and_then {ℓ κ} : {A : Type ℓ} {B : Type κ} → Result A → (A → Result B) → Result B
and_then (ok a) f = f a
and_then (raised x) f = raised x
