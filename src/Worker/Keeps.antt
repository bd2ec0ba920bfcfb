-- ===== src/Worker/Keeps.antt =====
-- Rules for the steps of pepeuch_worker/runner.py: what holds of the identities drawn and of the claims
-- whose request was executed.
use pepeuchiacluster.Prelude.{ℕ, ◌+◌, ◌≡◌, refl, Bool, true, false, String, List, if◌then◌else◌}
use pepeuchiacluster.Contracts.{Result}
use pepeuchiacluster.Contracts.Lifecycle.{state_name}
use pepeuchiacluster.Contracts.Outcomes.{ExecutionResult}
use pepeuchiacluster.Worker.Requests.{Request}
use pepeuchiacluster.Worker.Machine.{
  Surroundings, Machine, Journal, Call, Ended, value, raised, died, Action, continue, ◌>>=◌, pure,
  raise, lift, after, effect, save, call, isolation, load, saving, calling, guarding, loading,
}
use pepeuchiacluster.Worker.Runner.{
  close, fetch_state, observe_state, settle_if, submit, deliver_if, with_result, deliver,
}

-- What holds of a machine, by its draws and the claims that were executed.
abbrev pub Claim : Type 1
Claim = ℕ → List String → Type 0

abbrev pub Holds : Claim → Machine → Type 0
Holds P w = P w.draws w.executed

-- However an action ends, it leads from P to Q.
pub record Carries {ℓ} {A : Type ℓ} (P Q : Claim) (m : Action A) : Type 0 where
  pub at_run : (w : Machine) → Holds P w → Holds Q (m w).1

Holds-continue {ℓ κ} :
    {A : Type ℓ} {B : Type κ} (Q R : Claim) (o : Ended A) (next : A → Action B) (w : Machine)
    → ((n : ℕ) (e : List String) → Q n e → R n e)
    → ((a : A) → Carries Q R (next a))
    → Holds Q w
    → Holds R (continue o next w).1
Holds-continue Q R (value a) next w weak then_ h = (then_ a).at_run w h
Holds-continue Q R (raised p) next w weak then_ h = weak _ _ h
Holds-continue Q R died next w weak then_ h = weak _ _ h

module _ {ℓ} {A : Type ℓ} {P : Claim} where
  pub Carries-bind {κ} :
      {B : Type κ} {Q R : Claim} {m : Action A} {next : A → Action B}
      → Carries P Q m
      → ((n : ℕ) (e : List String) → Q n e → R n e)
      → ((a : A) → Carries Q R (next a))
      → Carries P R (m >>= next)
  unfolding ◌>>=◌
  Carries-bind {Q = Q} {R = R} {m = m} {next = next} first weak then_ = record {
    at_run = λ w h. Holds-continue Q R (m w).0 next (m w).1 weak then_ (first.at_run w h);
  }

  pub Carries-then {κ} :
      {B : Type κ} {R : Claim} {m : Action A} {next : A → Action B}
      → Carries P P m
      → ((n : ℕ) (e : List String) → P n e → R n e)
      → ((a : A) → Carries P R (next a))
      → Carries P R (m >>= next)
  Carries-then first weak then_ = Carries-bind first weak then_

  pub Carries-pure : (a : A) → Carries P P (pure a)
  unfolding pure
  Carries-pure a = record { at_run = λ w h. h }

  pub Carries-raise : (c : String) (n : ℕ) → Carries P P (raise {A = A} c n)
  unfolding raise
  Carries-raise c n = record { at_run = λ w h. h }

  pub Carries-lift : (r : Result A) → Carries P P (lift r)
  unfolding lift
  Carries-lift r = record { at_run = λ w h. h }

  pub Carries-weaken :
      {P' Q Q' : Claim} {m : Action A}
      → Carries P Q m
      → ((n : ℕ) (e : List String) → P' n e → P n e)
      → ((n : ℕ) (e : List String) → Q n e → Q' n e)
      → Carries P' Q' m
  Carries-weaken h before after_ = record { at_run = λ w p. after_ _ _ (h.at_run w (before _ _ p)) }

  pub Carries-if :
      {Q : Claim} {m n : Action A} (test : Bool)
      → (test ≡ true → Carries P Q m)
      → (test ≡ false → Carries P Q n)
      → Carries P Q (if test then m else n)
  Carries-if true holds fails = holds refl
  Carries-if false holds fails = fails refl

module _ (s : Surroundings) (P : Claim) where
  pub effect-Carries :
      {A : Type 0} (Q : Claim) (m : Machine → Ended A × Machine)
      → ((n : ℕ) (e : List String) → P n e → Q n e)
      → ((w : Machine) → Holds P w → Holds Q (m w).1)
      → Carries P Q (effect s m)
  unfolding effect
  effect-Carries Q m weak step = record {
    at_run = λ w h.
        elim (s.lives w.effects)
          as (λ b.
            Holds Q
              (after s b (m (record w { effects = w.effects + 1 }))
                (record w { effects = w.effects + 1 })).1) [ true ↦ step _ h | false ↦ weak _ _ h ];
  }

  pub save-Keeps : (j : Journal) → Carries P P (save s j)
  unfolding save
  save-Keeps j = effect-Carries P (saving s j) (λ n e h. h) (λ w h. h)

  pub call-Keeps : (c : Call) → Carries P P (call s c)
  unfolding call
  call-Keeps c = effect-Carries P (calling s c) (λ n e h. h) (λ w h. h)

  pub isolation-Keeps : Carries P P (isolation s)
  unfolding isolation
  isolation-Keeps = effect-Carries P (guarding s) (λ n e h. h) (λ w h. h)

  pub load-Keeps : Carries P P (load s)
  unfolding load
  load-Keeps = effect-Carries P (loading s) (λ n e h. h) (λ w h. h)

  pub fetch_state-Keeps : (request : Request) → Carries P P (fetch_state s request)
  unfolding fetch_state
  fetch_state-Keeps request = Carries-then (call-Keeps _) (λ n e h. h) λ reply. Carries-lift _

  pub close-Keeps : (j : Journal) (answer : String) → Carries P P (close s j answer)
  unfolding close
  close-Keeps j answer = Carries-then (save-Keeps _) (λ n e h. h) λ _. Carries-pure answer

  pub observe_state-Keeps :
      (test : Bool) (j : Journal) (request : Request) (r : ExecutionResult)
      → Carries P P (settle_if s test j request r)
  unfolding settle_if
  observe_state-Keeps false j request r = Carries-pure r
  observe_state-Keeps true j request r =
      Carries-then (save-Keeps _) (λ n e h. h) λ _. Carries-pure _

  pub submit-Keeps :
      (j : Journal) (request : Request) (r : ExecutionResult) → Carries P P (submit s j request r)
  unfolding submit
  submit-Keeps j request r =
      Carries-then isolation-Keeps (λ n e h. h)
        λ _.
          Carries-then (call-Keeps _) (λ n e h. h)
            λ reply.
              Carries-then (Carries-lift _) (λ n e h. h)
                λ _. close-Keeps (with_result s j r) (state_name r.status)

  deliver_if-Keeps :
      (test : Bool) (state : String) (j : Journal) (request : Request) (r : ExecutionResult)
      → Carries P P (deliver_if s test state j request r)
  unfolding deliver_if observe_state
  deliver_if-Keeps true state j request r =
      Carries-then (observe_state-Keeps _ j request r) (λ n e h. h) (submit-Keeps j request)
  deliver_if-Keeps false state j request r = close-Keeps j state

  pub deliver-Keeps :
      (j : Journal) (request : Request) (r : ExecutionResult) → Carries P P (deliver s j request r)
  unfolding deliver
  deliver-Keeps j request r =
      Carries-then (fetch_state-Keeps request) (λ n e h. h)
        λ state. deliver_if-Keeps _ state j request r
