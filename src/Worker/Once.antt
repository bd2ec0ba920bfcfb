-- ===== src/Worker/Once.antt =====
-- The claims whose request a worker of pepeuch_worker/runner.py executes, over any runs and deaths.
use pepeuchiacluster.Prelude.{
  ℕ, ◌+◌, ◌<◌, ◌≡◌, refl, ◌∙◌, Bool, true, false, String, List, [], ◌∷◌, Option, none, some, All,
  arith,
}
use pepeuchiacluster.Contracts.Values.{Value, null}
use pepeuchiacluster.Worker.Requests.{Request}
use pepeuchiacluster.Worker.Machine.{
  ◌>>=◌, continue, after, effect, Surroundings, Machine, Journal, Action, starting, start, drawing,
  draw,
}
use pepeuchiacluster.Worker.Runner.{
  run_task, own_result, find_result, complete_task, follow_request, take_given, take_request,
  continue_with, new_journal, begin, run_once, with_result,
}
use pepeuchiacluster.Worker.Keeps.{
  Claim, Holds, Carries, Carries-bind, Carries-then, Carries-pure, Carries-raise, Carries-lift,
  Carries-weaken, effect-Carries, save-Keeps, call-Keeps, isolation-Keeps, load-Keeps,
  fetch_state-Keeps, close-Keeps, deliver-Keeps,
}

-- no claim stands twice
abbrev pub Distinct : List String → Type 0
Distinct [] = Unit
Distinct (x ∷ xs) = All (λ y. x ≡ y → ⊥) xs × Distinct xs

module _ (s : Surroundings) where
  -- one of the first identities
  abbrev pub Drawn : ℕ → String → Type 0
  Drawn n c = (i : ℕ) × (i < n) × (c ≡ s.uuid i)

  -- the claims that were executed are distinct, and drawn
  abbrev pub Once : Claim
  Once n e = Distinct e × All (Drawn n) e

  -- the same before the identity k is executed
  abbrev Fresh : ℕ → Claim
  Fresh k n e = (k < n) × Distinct e × All (Drawn k) e

  Drawn-later : (m n : ℕ) (e : List String) → m < n → All (Drawn m) e → All (Drawn n) e
  Drawn-later m n [] l h = tt
  Drawn-later m n (c ∷ cs) l h =
      let (i, less, same) = h.0 in ((i, omega arith, same), Drawn-later m n cs l h.1)

  Fresh-Once : (k n : ℕ) (e : List String) → Fresh k n e → Once n e
  Fresh-Once k n e h = (h.1, Drawn-later k n e h.0 h.2)

  module _ (pending : Bool) (P : Claim) (Own : String → Type 0)
      (weak : (n : ℕ) (e : List String) → P n e → Once n e)
      (starts : pending ≡ false
        → (c : String) → Own c
        → (n : ℕ) (e : List String) → P n e
        → Once n (c ∷ e)) where
    to_Once : {A : Type 0} {m : Action A} → Carries P P m → Carries P Once m
    to_Once h = Carries-weaken h (λ n e p. p) weak

    run_task-Once :
        (j : Journal) (request : Request)
        → pending ≡ false
        → Own j.claim_id
        → Carries P Once (run_task s j request)
    unfolding run_task start
    run_task-Once j request fresh own = Carries-bind (isolation-Keeps s P) weak λ _.
        Carries-bind
          (effect-Carries s P Once (starting s j.claim_id request.document) weak
            (λ w p. starts fresh j.claim_id own w.draws w.executed p))
          (λ n e h. h) λ e. Carries-pure _

    own_result-Once :
        (test : Bool) (j : Journal) (request : Request) (r : Option Value)
        → pending ≡ test
        → Own j.claim_id
        → Carries P Once (own_result s test j request r)
    unfolding own_result
    own_result-Once test j request (some document) same own = to_Once (Carries-lift _)
    own_result-Once true j request none same own = to_Once (Carries-pure _)
    own_result-Once false j request none same own = run_task-Once j request same own

    find_result-Once :
        (cancelling : Bool) (j : Journal) (request : Request)
        → Own j.claim_id
        → Carries P Once (find_result s cancelling pending j request)
    unfolding find_result
    find_result-Once true j request own = to_Once (Carries-pure _)
    find_result-Once false j request own = own_result-Once pending j request j.result refl own

    complete_task-Once :
        (live : Bool) (j : Journal) (request : Request) (state : String)
        → Own j.claim_id
        → Carries P Once (complete_task s live pending j request state)
    unfolding complete_task
    complete_task-Once false j request state own = to_Once (close-Keeps s P j state)
    complete_task-Once true j request state own =
        Carries-bind (find_result-Once _ j request own) (λ n e h. h)
          λ r.
            Carries-then (save-Keeps s Once (with_result s j r)) (λ n e h. h)
              λ _. deliver-Keeps s Once (with_result s j r) request r

    follow_request-Once :
        (j : Journal) (document : Value)
        → Own j.claim_id
        → Carries P Once (follow_request s pending j document)
    unfolding follow_request
    follow_request-Once j document own = Carries-bind (Carries-lift _) weak λ request.
        Carries-bind (fetch_state-Keeps s P request) weak
          λ state. complete_task-Once _ j request state own

    take_given-Once :
        (j : Journal) (document : Value)
        → Own j.claim_id
        → Carries P Once (take_given s pending j document)
    unfolding take_given
    take_given-Once j document own =
        Carries-bind (Carries-lift _) weak
          λ _. Carries-bind (save-Keeps s P _) weak λ _. follow_request-Once _ document own

    take_request-Once :
        (j : Journal) (document : Value)
        → Own j.claim_id
        → Carries P Once (take_request s pending j document)
    unfolding take_request
    take_request-Once j null own = to_Once (close-Keeps s P j "idle")
    take_request-Once j document own = take_given-Once j document own

    continue_with-Once :
        (j : Journal) (r : Option Value)
        → Own j.claim_id
        → Carries P Once (continue_with s pending j r)
    unfolding continue_with
    continue_with-Once j (some document) own = follow_request-Once j document own
    continue_with-Once j none own =
        Carries-bind (call-Keeps s P _) weak
          λ reply. Carries-bind (Carries-lift _) weak λ document. take_request-Once j document own

  module _ (distinct_ids : (i j : ℕ) → s.uuid i ≡ s.uuid j → i ≡ j) where
    other : (k : ℕ) (e : List String) → All (Drawn k) e → All (λ y. s.uuid k ≡ y → ⊥) e
    other k [] h = tt
    other k (c ∷ cs) h =
        let (i, less, same) = h.0 in
        (λ q. let equal = distinct_ids k i (q ∙ same) in omega arith, other k cs h.1)

    fresh_starts : (k n : ℕ) (e : List String) → Fresh k n e → Once n (s.uuid k ∷ e)
    fresh_starts k n e h = ((other k e h.2, h.1), ((k, h.0, refl), Drawn-later k n e h.0 h.2))

    -- the claim that is drawn
    draw_run :
        (w : Machine) → Holds Once w → Holds (Fresh w.draws) (record w { draws = w.draws + 1 })
    draw_run w h = (omega arith, h.0, h.1)

    draw-Once :
        (next : String → Action String)
        → ((n : ℕ) → Carries (Fresh n) Once (next (s.uuid n)))
        → Carries Once Once (draw s >>= next)
    unfolding draw effect ◌>>=◌
    draw-Once next rest = record {
      at_run = λ w h.
          elim (s.lives w.effects)
            as (λ b.
              Holds Once
                (continue
                  (after s b (drawing s (record w { effects = w.effects + 1 }))
                    (record w { effects = w.effects + 1 })).0
                  next
                  (after s b (drawing s (record w { effects = w.effects + 1 }))
                    (record w { effects = w.effects + 1 })).1).1) [
                      | true ↦ (rest w.draws).at_run _ (omega arith, h.0, h.1)
                      | false ↦ h
                    ];
    }

    fresh_run :
        (n : ℕ) (j : Journal)
        → j.claim_id ≡ s.uuid n
        → Carries (Fresh n) Once (continue_with s false j none)
    fresh_run n j own =
        continue_with-Once false (Fresh n) (λ c. c ≡ s.uuid n) (Fresh-Once n)
          (λ _ c same m e h. rw same (fresh_starts n m e h)) j none own

    begin-Once :
        (pending recover : Bool) (j : Option Journal)
        → Carries Once Once (begin s pending recover j)
    unfolding begin new_journal
    begin-Once true false j = Carries-raise _ _
    begin-Once true true none = Carries-pure _
    begin-Once true true (some j) =
        continue_with-Once true Once (λ _. Unit) (λ n e h. h) (λ e. cc) j j.request tt
    begin-Once false true j = Carries-pure _
    begin-Once false false j =
        draw-Once _
          λ n. Carries-then (save-Keeps s (Fresh n) _) (Fresh-Once n) λ _. fresh_run n _ refl

    run_once-Once : (recover : Bool) → Carries Once Once (run_once s recover)
    unfolding run_once
    run_once-Once recover =
        Carries-then (isolation-Keeps s Once) (λ n e h. h)
          λ _.
            Carries-then (load-Keeps s Once) (λ n e h. h)
              λ j.
                Carries-then (Carries-lift _) (λ n e h. h) λ pending. begin-Once pending recover j

-- the machine after runs of the worker, each with its `recover`
unfoldable pub runs : Surroundings → List Bool → Machine → Machine
unfolding run_once
runs s [] w = w
runs s (recover ∷ rest) w = runs s rest (run_once s recover w).1

runs_from-Once :
    (s : Surroundings) (distinct_ids : (i j : ℕ) → s.uuid i ≡ s.uuid j → i ≡ j)
    (recovers : List Bool) (w : Machine)
    → Holds (Once s) w
    → Holds (Once s) (runs s recovers w)
unfolding runs
runs_from-Once s distinct_ids [] w h = h
runs_from-Once s distinct_ids (r ∷ rs) w h =
    runs_from-Once s distinct_ids rs (run_once s r w).1
      ((run_once-Once s distinct_ids r).at_run w h)

-- a machine that has not run yet
abbrev pub untouched : Machine
untouched = record { journal = none; effects = 0; draws = 0; sent = []; executed = [] }

-- Over any runs of a worker, each started to recover or not, with any replies of the server and any
-- deaths between two effects, the executor is given the request of a claim at most once, where the
-- identities that are drawn are distinct; and each such claim is one that was drawn.
pub runs-Once :
    (s : Surroundings) (recovers : List Bool)
    → ((i j : ℕ) → s.uuid i ≡ s.uuid j → i ≡ j)
    → Distinct (runs s recovers untouched).executed
      × All (Drawn s (runs s recovers untouched).draws) (runs s recovers untouched).executed
runs-Once s recovers distinct_ids = runs_from-Once s distinct_ids recovers untouched (tt, tt)
