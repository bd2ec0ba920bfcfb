-- ===== src/Contracts/Lifecycle.antt =====
-- control_plane/contracts.py: `STATES`, `TRANSITIONS`, `Principal`; control_plane/auth.py:
-- `require_role`. The same states are those of the tasks and of the attempts.
use pepeuchiacluster.Prelude.{ℕ, ◌≡◌, Bool, true, false, String, Option, none, arith, ◌↔◌}

pub data State : Type 0 where
  draft approved queued running completed failed cancel_requested cancelled interrupted : State

abbrev pub state_eq : State → State → Bool
state_eq draft draft = true
state_eq approved approved = true
state_eq queued queued = true
state_eq running running = true
state_eq completed completed = true
state_eq failed failed = true
state_eq cancel_requested cancel_requested = true
state_eq cancelled cancelled = true
state_eq interrupted interrupted = true
state_eq _ _ = false

pub state_eq_iff : (a b : State) → (state_eq a b ≡ true) ↔ (a ≡ b)
state_eq_iff a b = ground arith

-- `target in TRANSITIONS[state]`
unfoldable pub allowed : State → State → Bool
allowed draft approved = true
allowed draft cancelled = true
allowed approved queued = true
allowed approved cancelled = true
allowed queued running = true
allowed queued cancelled = true
allowed running completed = true
allowed running failed = true
allowed running cancel_requested = true
allowed running interrupted = true
allowed cancel_requested cancelled = true
allowed cancel_requested interrupted = true
allowed failed queued = true
allowed interrupted queued = true
allowed interrupted cancelled = true
allowed _ _ = false

-- `state IN ('running', 'cancel_requested')`
abbrev pub is_active : State → Bool
is_active running = true
is_active cancel_requested = true
is_active _ = false

pub record Principal : Type 0 where
  pub identity : String
  pub role : String
  pub credential_epoch : Option ℕ

abbrev pub system : Principal
system = record { identity = "local-system"; role = "system"; credential_epoch = none }

-- A run of allowed transitions.
pub data Run (s : State) : State → Type 0 where
  stay : Run s s
  step : {t u : State} → Run s t → allowed t u ≡ true → Run s u

-- The text that a column or a JSON member holds for a state.
abbrev pub state_name : State → String
state_name draft = "draft"
state_name approved = "approved"
state_name queued = "queued"
state_name running = "running"
state_name completed = "completed"
state_name failed = "failed"
state_name cancel_requested = "cancel_requested"
state_name cancelled = "cancelled"
state_name interrupted = "interrupted"
