-- ===== src/Common/Results.antt =====
-- How a call into C++ code can end. `refused` is the `false` that a device returns, and `fault` is
-- behaviour that C++ leaves undefined, such as an access outside an array.
use mathlib.Core.Path.{◌≡◌, refl}
use mathlib.Core.Logic.{◌⊎◌, inl, inr}
use mathlib.Core.Option.{Option, none, some}

pub data Access {ℓ} (A : Type ℓ) : Type ℓ where
  done : A → Access A
  refused fault : Access A

-- An access whose out-of-range case is undefined behaviour.
abbrev pub or_fault {ℓ} : {A : Type ℓ} → Option A → Access A
or_fault none = fault
or_fault (some a) = done a

abbrev pub map_access {ℓ κ} : {A : Type ℓ} {B : Type κ} → (A → B) → Access A → Access B
map_access f (done a) = done (f a)
map_access f refused = refused
map_access f fault = fault

pub Option-cases {ℓ} : {A : Type ℓ} (o : Option A) → (o ≡ none) ⊎ ((a : A) × (o ≡ some a))
Option-cases none = inl refl
Option-cases (some a) = inr (a, refl)

pub Access-cases {ℓ} :
    {A : Type ℓ} (r : Access A) → ((a : A) × (r ≡ done a)) ⊎ (r ≡ refused) ⊎ (r ≡ fault)
Access-cases (done a) = inl (a, refl)
Access-cases refused = inr (inl refl)
Access-cases fault = inr (inr refl)
