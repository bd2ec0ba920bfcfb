-- ===== src/Worker/Machine.antt =====
-- The effects of pepeuch_worker/runner.py: the journal on disk, the calls of the server, the executor,
-- and the death of the process between two effects.
use pepeuchiacluster.Prelude.{ℕ, ◌+◌, Bool, true, false, String, List, ◌∷◌, Option, some}
use pepeuchiacluster.Contracts.{Problem, Result, ok, err, problem}
use pepeuchiacluster.Contracts.Values.{Value}
use pepeuchiacluster.Contracts.Outcomes.{ExecutionResult}
use pepeuchiacluster.Worker.Requests.{Instants}

-- What a worker asks of the server: a claim with its identity, the state of an attempt, the end of one
-- with its result.
pub data Call : Type 0 where
  claim : String → Call
  state_of : String → Call
  finish : String → Value → Call

-- How the executor ends: with a result, by `KeyboardInterrupt`, by a `Problem`.
pub data Executed : Type 0 where
  produced : ExecutionResult → Executed
  keyboard : Executed
  refused : Executed

-- The configuration of a worker, and the fingerprint of its credential.
pub record Configuration : Type 0 where
  pub worker_id : String
  pub backend_url : String
  pub fingerprint : String

pub record Surroundings : Type 0 where
  pub config : Configuration
  pub instants : Instants
  pub is_uuid : String → Bool
  pub uuid : ℕ → String
  pub reply : ℕ → Call → Result Value
  pub execute : ℕ → Value → Executed
  pub guard : ℕ → Result (Unit {0})
  pub lives : ℕ → Bool

pub record Journal : Type 0 where
  pub worker_id : String
  pub backend_url : String
  pub credential_sha256 : String
  pub claim_id : String
  pub request : Option Value
  pub result : Option Value
  pub is_done : Bool

-- The journal on disk, the effects so far, the identities drawn, the calls made, and the claims whose
-- request was given to the executor, each with the latest first.
pub record Machine : Type 0 where
  pub journal : Option Journal
  pub effects : ℕ
  pub draws : ℕ
  pub sent : List Call
  pub executed : List String

-- How a step ends: with a value, with a `Problem`, or with the death of the process.
pub data Ended {ℓ} (A : Type ℓ) : Type ℓ where
  value : A → Ended A
  raised : Problem → Ended A
  died : Ended A

abbrev pub Action {ℓ} : Type ℓ → Type ℓ
Action A = Machine → Ended A × Machine

abbrev pub continue {ℓ κ} :
    {A : Type ℓ} {B : Type κ} → Ended A → (A → Action B) → Machine → Ended B × Machine
continue (value a) next w = next a w
continue (raised p) next w = (raised p, w)
continue died next w = (died, w)

infixl 5 ◌>>=◌ ◌>>◌
unfoldable pub ◌>>=◌ {ℓ κ} : {A : Type ℓ} {B : Type κ} → Action A → (A → Action B) → Action B
◌>>=◌ m next w = let (o, w') = m w in continue o next w'

abbrev pub ◌>>◌ {ℓ κ} : {A : Type ℓ} {B : Type κ} → Action A → Action B → Action B
m >> next = m >>= λ _. next

module _ {ℓ} {A : Type ℓ} where
  unfoldable pub pure : A → Action A
  pure a w = (value a, w)

  unfoldable pub raise : String → ℕ → Action A
  raise c s w = (raised (problem c s), w)

  abbrev pub ended : Result A → Ended A
  ended (ok a) = value a
  ended (err p) = raised p

  unfoldable pub lift : Result A → Action A
  lift r w = (ended r, w)

module _ (s : Surroundings) where
  open s use {config}

  abbrev pub after : Bool → {A : Type 0} → Ended A × Machine → Machine → Ended A × Machine
  after true next w = next
  after false next w = (died, w)

  -- an effect, unless the process has died before it
  unfoldable pub effect : {A : Type 0} → (Machine → Ended A × Machine) → Action A
  effect m w = let w' = record w { effects = w.effects + 1 } in after (s.lives w.effects) (m w') w'

  abbrev pub saving : Journal → Machine → Ended (Unit {0}) × Machine
  saving j w = (value tt, record w { journal = some j })

  -- `private_io.save`
  unfoldable pub save : Journal → Action (Unit {0})
  unfolding effect
  save j = effect (saving j)

  abbrev pub drawing : Machine → Ended String × Machine
  drawing w = (value (s.uuid w.draws), record w { draws = w.draws + 1 })

  -- `str(uuid4())`
  unfoldable pub draw : Action String
  unfolding effect
  draw = effect drawing

  abbrev pub calling : Call → Machine → Ended Value × Machine
  calling c w = (ended (s.reply w.effects c), record w { sent = c ∷ w.sent })

  -- `client.call`
  unfoldable pub call : Call → Action Value
  unfolding effect
  call c = effect (calling c)

  abbrev pub guarding : Machine → Ended (Unit {0}) × Machine
  guarding w = (ended (s.guard w.effects), w)

  -- `_isolation`
  unfoldable pub isolation : Action (Unit {0})
  unfolding effect
  isolation = effect guarding

  abbrev pub starting : String → Value → Machine → Ended Executed × Machine
  starting claim_id request w =
      (value (s.execute w.effects request), record w { executed = claim_id ∷ w.executed })

  -- `executor.execute`, for the request of a claim
  unfoldable pub start : String → Value → Action Executed
  unfolding effect
  start claim_id request = effect (starting claim_id request)

  abbrev pub loading : Machine → Ended (Option Journal) × Machine
  loading w = (value w.journal, w)

  -- what is read of the journal on disk
  unfoldable pub load : Action (Option Journal)
  unfolding effect
  load = effect loading
