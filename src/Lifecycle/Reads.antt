-- ===== src/Lifecycle/Reads.antt =====
-- The rows that the handlers read before a transition: the mission of an owner, and that of the next
-- task of a worker.
use pepeuchiacluster.Prelude.{
  ◌≡◌, refl, Bool, ◌&&◌, String, same, List, [], ◌∷◌, Option, none, some, inl, inr, with_key_more,
  Bool-cases, order_by, find, All, All-head?, All-order_by,
}
use pepeuchiacluster.Contracts.Lifecycle.{Principal, state_eq, queued}
use pepeuchiacluster.Contracts.Texts.{check_identifier}
use pepeuchiacluster.Storage.Rows.{MissionRow, TaskRow}
use pepeuchiacluster.Storage.Database.{Db, mission_with}
use pepeuchiacluster.Storage.Actions.{Action, ◌>>=◌, lift}
use pepeuchiacluster.Storage.Actions.Keeps.{Keeps, Keeps-lift}
use pepeuchiacluster.Storage.Actions.Ensures.{
  Ensures, Ensures-bind, Ensures-fetch, Ensures-Keeps, Keeps-Ensures,
}
use pepeuchiacluster.Registry.{require_role}
use pepeuchiacluster.Service.Access.{owned_mission}
use pepeuchiacluster.Execution.Claim.{Candidate, candidates, older, next_task, join_mission}
use pepeuchiacluster.Handlers.Reads.{require_role-Keeps}
use pepeuchiacluster.Lifecycle.Missions.{Evolves, mission_key}
use pepeuchiacluster.Lifecycle.Steps.{Current, EvolvesAt, Current-of_read}

Current-of_owned :
    (db0 : Db) (k : String) (q : MissionRow → Bool) (row : MissionRow) (db : Db)
    → Evolves db0 db
    → find (λ r. same r.id k && q r) db.missions ≡ some row
    → Current row db
unfolding mission_with
Current-of_owned db0 k q row db h e =
    Current-of_read k row db (with_key_more mission_key k q db.missions row h.keyed e)

pub Moves-owned :
    {db0 : Db} {B : Type 0} (p : Principal) (k : String) (f : MissionRow → Action B)
    → ((row : MissionRow) → Ensures (EvolvesAt db0 row) (f row) (λ _. Evolves db0))
    → Keeps (Evolves db0) (owned_mission p k >>= f)
unfolding owned_mission
Moves-owned {db0} p k f e = Ensures-Keeps (owned_mission p k >>= f) (
    Ensures-bind (owned_mission p k) f
      (Ensures-bind (require_role p "admin") _
        (Keeps-Ensures (require_role p "admin") (require_role-Keeps p "admin"))
        λ _.
          Ensures-bind (lift (check_identifier k)) _
            (Keeps-Ensures (lift (check_identifier k)) (Keeps-lift (check_identifier k)))
            λ _.
              Ensures-fetch (λ db. find (λ r. same r.id k && same r.owner p.identity) db.missions)
                "not_found" 404
                λ row db h found.
                  (h, Current-of_owned db0 k (λ r. same r.owner p.identity) row db h found))
      e)

abbrev IsCurrent : Db → Candidate → Type 0
IsCurrent db c = Current c.mission db

join_mission-IsCurrent :
    (db : Db) (t : TaskRow) (q : Option MissionRow) (rest : List Candidate)
    → mission_with t.mission_id db ≡ q
    → All (IsCurrent db) rest
    → All (IsCurrent db) (join_mission t q rest)
join_mission-IsCurrent db t none rest e h = h
join_mission-IsCurrent db t (some m) rest e h = elim (Bool-cases (state_eq m.state queued)) [
  | inl hit ↦ rw hit (Current-of_read t.mission_id m db e, h)
  | inr miss ↦ rw miss h
]

-- Every candidate's mission is the one that the table holds.
candidates-IsCurrent :
    (db : Db) (w : String) (ts : List TaskRow) → All (IsCurrent db) (candidates w ts db)
unfolding candidates
candidates-IsCurrent db w [] = tt
candidates-IsCurrent db w (t ∷ ts) =
    elim (Bool-cases (state_eq t.state queued && same t.worker_id w)) [
      | inl hit ↦ rw hit (
          join_mission-IsCurrent db t (mission_with t.mission_id db) (candidates w ts db) refl
            (candidates-IsCurrent db w ts))
      | inr miss ↦ rw miss (candidates-IsCurrent db w ts)
    ]

pub next_task-IsCurrent :
    (w : String) (c : Candidate) (db : Db) → next_task w db ≡ some c → Current c.mission db
unfolding next_task
next_task-IsCurrent w c db e =
    All-head? (IsCurrent db) (order_by older (candidates w db.tasks db)) c
      (All-order_by (IsCurrent db) older (candidates w db.tasks db)
        (candidates-IsCurrent db w db.tasks))
      e
