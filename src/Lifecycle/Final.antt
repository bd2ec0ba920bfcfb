-- ===== src/Lifecycle/Final.antt =====
-- The final states of `TRANSITIONS` in control_plane/contracts.py, completed and cancelled.
use pepeuchiacluster.Prelude.{
  ◌≡◌, refl, ap, ◌∙◌, true, false, Bool, String, List, some, arith, Keyed,
}
use pepeuchiacluster.Contracts.Lifecycle.{State, completed, cancelled, allowed, Run, stay, step}
use pepeuchiacluster.Storage.Rows.{MissionRow}
use pepeuchiacluster.Storage.Database.{mission_with}
use pepeuchiacluster.Storage.Actions.{World, Env}
use pepeuchiacluster.Execution.Decide.{Coordinator}
use pepeuchiacluster.Api.{Call, serve}
use pepeuchiacluster.Lifecycle.Missions.{mission_key}
use pepeuchiacluster.Lifecycle.Requests.{serve-Evolves}

abbrev pub is_final : State → Bool
is_final completed = true
is_final cancelled = true
is_final _ = false

allowed-final : (s t : State) → is_final s ≡ true → allowed s t ≡ true → ⊥
unfolding allowed
allowed-final s t f e = ground arith

Run-final : {s t : State} → is_final s ≡ true → Run s t → t ≡ s
Run-final f stay = refl
Run-final {s} f (step {t} {u} r e) = absurd (allowed-final t u (ap is_final (Run-final f r) ∙ f) e)

-- A mission that is completed or cancelled is never changed again, whatever calls are served.
pub serve-final :
    (env : Env) (c : Coordinator) (calls : List Call) (w : World)
    → Keyed mission_key w.db.missions
    → (k : String) (row : MissionRow) → mission_with k w.db ≡ some row
    → is_final row.state ≡ true
    → mission_with k (serve env c calls w).db ≡ some row
serve-final env c calls w keyed k row found final =
    let (r, found', moved) = (serve-Evolves env c calls w keyed).at k row found in
    found' ∙ ap some (moved.rest ∙ ap (λ s. record row { state = s }) (Run-final final moved.run))
