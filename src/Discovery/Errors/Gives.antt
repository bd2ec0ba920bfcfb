-- ===== src/Discovery/Errors/Gives.antt =====
-- Outcomes of database/poc/: what holds of a value that is returned.
use pepeuchiacluster.Prelude.{◌≡◌, refl, subst, Bool, true, false}
use pepeuchiacluster.Discovery.Errors.{Raised, Outcome, threw, done, require, ◌>>=◌}

pub record Gives {A : Type 0} (P : A → Type 0) (o : Outcome A) : Type 0 where
  pub gives : (a : A) → o ≡ done a → P a

pub done-injective {ℓ} : {A : Type ℓ} (a b : A) → Outcome.done a ≡ done b → a ≡ b
done-injective a b e = cc

module _ {A B : Type 0} {P : B → Type 0} where
  pub Gives-after :
      {Q : A → Type 0} {o : Outcome A} {next : A → Outcome B}
      → Gives Q o
      → ((a : A) → Q a → Gives P (next a))
      → Gives P (o >>= next)
  unfolding ◌>>=◌
  Gives-after {o = threw e} first then_ = record { gives = λ b same. cc }
  Gives-after {o = done a} first then_ = then_ a (first.gives a refl)

  pub Gives-bind :
      (o : Outcome A) {next : A → Outcome B} → ((a : A) → Gives P (next a)) → Gives P (o >>= next)
  Gives-bind o h = Gives-after {Q = λ _. Unit} (record { gives = λ a e. tt }) λ a _. h a

module _ {A : Type 0} {P : A → Type 0} where
  pub Gives-done : {a : A} → P a → Gives P (done a)
  Gives-done {a} p = record { gives = λ b e. subst P (done-injective a b e) p }

  pub Gives-threw : (e : Raised) → Gives P (threw e)
  Gives-threw e = record { gives = λ b same. cc }

  pub Gives-itself : {o : Outcome A} → Gives P o → Gives (λ a. (o ≡ done a) × P a) o
  Gives-itself h = record { gives = λ a e. (e, h.gives a e) }

pub require-Gives : (b : Bool) → Gives (λ _. b ≡ true) (require b)
require-Gives true = record { gives = λ _ _. refl }
require-Gives false = record { gives = λ _ e. cc }

-- The value of the first of two outcomes, where both return.
pub >>=-eq-done {ℓ κ} :
    {A : Type ℓ} {B : Type κ} (first : Outcome A) (next : A → Outcome B) {b : B}
    → (first >>= next) ≡ done b
    → (a : A) × (first ≡ done a) × (next a ≡ done b)
unfolding ◌>>=◌
>>=-eq-done (threw e) next run = cc
>>=-eq-done (done a) next run = (a, refl, run)
