-- ===== src/Tests/Restarts.antt =====
-- The theorems on the attempts that a restart and a revocation leave, at the control plane of the
-- test data.
use pepeuchiacluster.Prelude.{◌≡◌, refl, true, false, List, [], ◌∷◌, none, some, any}
use pepeuchiacluster.Prelude.Lists.{order_by}
use pepeuchiacluster.Contracts.{Result, ok}
use pepeuchiacluster.Contracts.Lifecycle.{draft, allowed}
use pepeuchiacluster.Contracts.Values.{fields, at}
use pepeuchiacluster.Contracts.Texts.{operation_id, identifier}
use pepeuchiacluster.Capabilities.{plan, spec_of}
use pepeuchiacluster.Storage.Responses.{Response, request}
use pepeuchiacluster.Storage.Database.{apply}
use pepeuchiacluster.Storage.Actions.{
  World, ◌>>=◌, guard, lift, transaction, query, or_raise, each, new_id, now, exec,
}
use pepeuchiacluster.Registry.{public_worker, list, revoke}
use pepeuchiacluster.Service.Ledger.{is_safe}
use pepeuchiacluster.Service.Operate.{transition, operate}
use pepeuchiacluster.Service.Decimal.{decimal}
use pepeuchiacluster.Execution.Fence.{recover, revoke_effect}
use pepeuchiacluster.Execution.Decide.{approve}
use pepeuchiacluster.Execution.Claim.{claim}
use pepeuchiacluster.Api.{Call, request_of, post_approve, post_claim, serve}
use pepeuchiacluster.Lifecycle.Covered.{is_held}
use pepeuchiacluster.Lifecycle.Fenced.{recover-clears, revoke_effect-clears}
use pepeuchiacluster.Tests.Data.{
  env_example, mission_id, owner, demo_worker, mission_in, world_with, operation, body, value_or,
}

-- the owner approves the mission, and the worker claims it
abbrev calls_example : List Call
calls_example =
    request_of owner (post_approve mission_id (body operation))
    ∷ request_of demo_worker (post_claim (body operation))
    ∷ []

abbrev before : World
before = serve env_example plan calls_example (world_with (mission_in draft))

-- the worker has an attempt
busy : any (is_held none) before.db.attempts ≡ true
unfolding ◌>>=◌ guard lift operation_id transaction query or_raise each new_id now exec apply
    is_safe public_worker list transition operate decimal approve claim serve fields at identifier
    plan order_by spec_of allowed
busy = refl

-- the backend starts again
abbrev restarted : Result (Unit {0}) × World
restarted = recover env_example before

restart_succeeds : restarted ≡ (ok tt, restarted.1)
unfolding ◌>>=◌ guard lift operation_id transaction query or_raise each new_id now exec apply
    is_safe public_worker list transition operate decimal recover approve claim serve fields at
    identifier plan order_by spec_of allowed
restart_succeeds = refl

recover-clears_example : any (is_held none) restarted.1.db.attempts ≡ false
recover-clears_example =
    recover-clears env_example plan calls_example (world_with (mission_in draft)) refl tt
      restarted.1 restart_succeeds

-- the worker's identity is revoked
abbrev revocation : Result Response × World
revocation = revoke_effect env_example owner demo_worker.identity before

abbrev revoked : Response
revoked = value_or (request none) revocation.0

revocation_succeeds : revocation ≡ (ok revoked, revocation.1)
unfolding ◌>>=◌ guard lift operation_id transaction query or_raise each new_id now exec apply
    is_safe public_worker list revoke transition operate decimal revoke_effect approve claim serve
    fields at identifier plan order_by spec_of allowed
revocation_succeeds = refl

revoke_effect-clears_example :
    any (is_held (some demo_worker.identity)) revocation.1.db.attempts ≡ false
revoke_effect-clears_example =
    revoke_effect-clears env_example plan calls_example (world_with (mission_in draft)) refl owner
      demo_worker.identity revoked revocation.1 revocation_succeeds
