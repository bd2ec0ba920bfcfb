-- ===== src/Contracts/Problems.antt =====
-- control_plane/contracts.py, `Problem`: the public code and the HTTP status of a refusal.
use pepeuchiacluster.Prelude.{ℕ, ◌≡◌, refl, String, Bool, true, false, if◌then◌else◌, ◌⊎◌, inl, inr}

pub record Problem : Type 0 where
  pub code : String
  pub status : ℕ

-- What a pure function of the program returns: its value, or the problem that it raises.
pub data Result {ℓ} (A : Type ℓ) : Type ℓ where
  err : Problem → Result A
  ok : A → Result A

abbrev pub problem : String → ℕ → Problem
problem c s = record { code = c; status = s }

-- `raise Problem(code)`: the default status is 400
abbrev pub refuse {ℓ} : {A : Type ℓ} → String → Result A
refuse c = err (problem c 400)

-- `if not test: raise Problem(code)`
abbrev pub require : Bool → String → Result (Unit {0})
require false c = refuse c
require true c = ok tt

infixl 5 ◌>>=◌ ◌>>◌
abbrev pub ◌>>=◌ {ℓ κ} : {A : Type ℓ} {B : Type κ} → Result A → (A → Result B) → Result B
err raised >>= next = err raised
ok value >>= next = next value

abbrev pub ◌>>◌ {ℓ} : {B : Type ℓ} → Result (Unit {0}) → Result B → Result B
check >> next = check >>= λ _. next

-- The steps of a block that has a value.
pub >>=-eq-ok {ℓ κ} :
    {A : Type ℓ} {B : Type κ} (first : Result A) (next : A → Result B) {answer : B}
    → (first >>= next) ≡ ok answer
    → (value : A) × (first ≡ ok value) × (next value ≡ ok answer)
>>=-eq-ok (err raised) next run = cc
>>=-eq-ok (ok value) next run = (value, refl, run)

pub ok-injective : {A : Type 0} (x y : A) → ok x ≡ ok y → x ≡ y
ok-injective x y h = cc

-- A check that is passed, and the value behind it.
pub required :
    {A : Type 0} (b : Bool) (c : String) (x y : A)
    → (require b c >> ok x) ≡ ok y
    → (b ≡ true) × (x ≡ y)
required true c x y e = (refl, ok-injective x y e)
required false c x y e = cc

-- the branch that returned
pub branch-eq-ok :
    {A : Type 0} (b : Bool) (x y : Result A) (a : A)
    → (if b then x else y) ≡ ok a
    → ((b ≡ true) × (x ≡ ok a)) ⊎ ((b ≡ false) × (y ≡ ok a))
branch-eq-ok true x y a e = inl (refl, e)
branch-eq-ok false x y a e = inr (refl, e)
