-- ===== src/Discovery/Runtime/Rules.antt =====
-- Rules for the actions of database/poc/discovery_execution.py: what holds of the run before and after.
use pepeuchiacluster.Prelude.{◌≡◌, refl, Bool, true, false, if◌then◌else◌}
use pepeuchiacluster.Discovery.Errors.{Reason, Raised, execution_error, Outcome, threw, done}
use pepeuchiacluster.Discovery.Runtime.{
  Run, Action, continue, ◌>>=◌, pure, raise_for, lift, read, update,
}

-- What an outcome and its run satisfy: E for an exception, Q for a value.
abbrev pub Post {ℓ} :
    {A : Type ℓ} → (Raised → Run → Type 0) → (A → Run → Type 0) → Outcome A × Run → Type 0
Post E Q (threw e, b) = E e b
Post E Q (done a, b) = Q a b

abbrev pub IsExecution : Raised → Type 0
IsExecution (execution_error e) = Unit
IsExecution _ = ⊥

-- From a run of which P holds, an action raises as E says or gives a value as Q says.
pub record Carries {ℓ} {A : Type ℓ} (E : Raised → Run → Type 0) (P : Run → Type 0)
    (Q : A → Run → Type 0) (m : Action A) : Type 0 where
  pub at_run : (b : Run) → P b → Post E Q (m b)

Post-continue {ℓ κ} :
    {A : Type ℓ} {B : Type κ} (E : Raised → Run → Type 0) (R : B → Run → Type 0)
    (Q : A → Run → Type 0) (next : A → Action B) (o : Outcome A) (b : Run)
    → Post E Q (o, b)
    → ((a : A) → Carries E (Q a) R (next a))
    → Post E R (continue o next b)
Post-continue E R Q next (threw e) b first then_ = first
Post-continue E R Q next (done a) b first then_ = (then_ a).at_run b first

Post_weaken {ℓ} :
    {A : Type ℓ} (E E' : Raised → Run → Type 0) (Q Q' : A → Run → Type 0) (o : Outcome A × Run)
    → ((e : Raised) (b : Run) → E e b → E' e b)
    → ((a : A) (b : Run) → Q a b → Q' a b)
    → Post E Q o
    → Post E' Q' o
Post_weaken E E' Q Q' (threw e, b) on_error on_value h = on_error e b h
Post_weaken E E' Q Q' (done a, b) on_error on_value h = on_value a b h

module _ {ℓ} {A : Type ℓ} {E : Raised → Run → Type 0} {P : Run → Type 0} where
  pub Carries-bind {κ} :
      {B : Type κ} {Q : A → Run → Type 0} {R : B → Run → Type 0} {m : Action A}
      {next : A → Action B}
      → Carries E P Q m
      → ((a : A) → Carries E (Q a) R (next a))
      → Carries E P R (m >>= next)
  unfolding ◌>>=◌
  Carries-bind {Q = Q} {R = R} {m = m} {next = next} first then_ = record {
    at_run = λ b p. Post-continue E R Q next (m b).0 (m b).1 (first.at_run b p) then_;
  }

  pub Carries-weaken :
      {E' : Raised → Run → Type 0} {P' : Run → Type 0} {Q Q' : A → Run → Type 0} {m : Action A}
      → Carries E P Q m
      → ((b : Run) → P' b → P b)
      → ((e : Raised) (b : Run) → E e b → E' e b)
      → ((a : A) (b : Run) → Q a b → Q' a b)
      → Carries E' P' Q' m
  Carries-weaken {E' = E'} {Q = Q} {Q' = Q'} {m = m} h on_run on_error on_value = record {
    at_run = λ b p. Post_weaken E E' Q Q' (m b) on_error on_value (h.at_run b (on_run b p));
  }

  pub Carries-lift :
      {Q : A → Run → Type 0} (o : Outcome A)
      → ((b : Run) → P b → Post E Q (o, b))
      → Carries E P Q (lift o)
  unfolding lift
  Carries-lift o h = record { at_run = h }

  pub Carries-pure :
      {Q : A → Run → Type 0} (a : A) → ((b : Run) → P b → Q a b) → Carries E P Q (pure a)
  unfolding pure
  Carries-pure a h = record { at_run = h }

  pub Carries-raise_for :
      {Q : A → Run → Type 0} (e : Reason)
      → ((b : Run) → P b → E (execution_error e) b)
      → Carries E P Q (raise_for e)
  unfolding raise_for
  Carries-raise_for e h = record { at_run = h }

  pub Carries-read :
      {Q : A → Run → Type 0} (f : Run → A) → ((b : Run) → P b → Q (f b) b) → Carries E P Q (read f)
  unfolding read
  Carries-read f h = record { at_run = h }

  -- a fact that does not depend on the run
  pub Carries-given :
      {F : Type 0} {Q : A → Run → Type 0} {m : Action A}
      → (F → Carries E P Q m)
      → Carries E (λ b. P b × F) Q m
  Carries-given h = record { at_run = λ b p. (h p.1).at_run b p.0 }

module _ {E : Raised → Run → Type 0} {P : Run → Type 0} where
  pub Carries-update :
      {Q : Unit {0} → Run → Type 0} (f : Run → Run)
      → ((b : Run) → P b → Q tt (f b))
      → Carries E P Q (update f)
  unfolding update
  Carries-update f h = record { at_run = h }

  pub Carries-if {ℓ} :
      {A : Type ℓ} {Q : A → Run → Type 0} {m n : Action A} (test : Bool)
      → (test ≡ true → Carries E P Q m)
      → (test ≡ false → Carries E P Q n)
      → Carries E P Q (if test then m else n)
  Carries-if true holds fails = holds refl
  Carries-if false holds fails = fails refl
