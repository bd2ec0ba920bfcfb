-- ===== src/Discovery/Report/Sources.antt =====
-- The report of database/poc/discovery_execution.py, `execute_sources`: one result for each task.
use pepeuchiacluster.Prelude.{◌≡◌, refl, true, List, [], ◌∷◌, All, all, Bool-cases, inl, inr}
use pepeuchiacluster.Discovery.Errors.{Outcome, done, ◌>>=◌}
use pepeuchiacluster.Discovery.Metadata.{Library}
use pepeuchiacluster.Discovery.Policy.{SourceResult, is_positive, check_task}
use pepeuchiacluster.Discovery.Execute.Honest.{IsHonest}
use pepeuchiacluster.Discovery.Execute.Budgets.{execute_source-IsHonest}
use pepeuchiacluster.Discovery.Report.{
  Planned, task_sources, result_sources, distinct, is_some_list, check_tasks, execute_each,
  check_report, execute_sources, all_complete,
}

module _ (lib : Library) where
  abbrev pub IsChecked : Planned → Type 0
  IsChecked p = check_task lib p.task ≡ done p.task

  check_tasks-done : (ps : List Planned) → All IsChecked ps → check_tasks lib ps ≡ done ps
  unfolding check_tasks ◌>>=◌
  check_tasks-done [] h = refl
  check_tasks-done (p ∷ ps) h = rw h.0 (rw (check_tasks-done ps h.1) refl)

  Answers : List Planned → Outcome (List SourceResult) → Type 0
  Answers ps o =
      (rs : List SourceResult) × (o ≡ done rs)
      × (result_sources rs ≡ task_sources ps)
      × All (IsHonest lib) rs

  execute_each-Answers : (ps : List Planned) → All IsChecked ps → Answers ps (execute_each lib ps)
  unfolding execute_each ◌>>=◌ Answers
  execute_each-Answers [] h = ([], refl, refl, tt)
  execute_each-Answers (p ∷ ps) h =
      let (r, returned, described, honest) =
        execute_source-IsHonest lib p.runtime p.task p.operation h.0 in
      let (rs, each, sources, all_honest) = execute_each-Answers ps h.1 in
      (
        r ∷ rs,
        rw returned (rw each refl),
        (rw (described.source_is, sources) refl),
        (honest, all_honest),
      )

-- A report of honest results is complete exactly when every result is positive.
all_complete-positive :
    (lib : Library) (rs : List SourceResult)
    → All (IsHonest lib) rs
    → all_complete rs ≡ all (λ r. is_positive r.status) rs
unfolding all_complete
all_complete-positive lib [] h = refl
all_complete-positive lib (r ∷ rs) h = elim (Bool-cases (is_positive r.status)) [
  | inl yes_ ↦
      let (v, published) = h.0.positive yes_ in
      rw (yes_, published.1) (all_complete-positive lib rs h.1)
  | inr no_ ↦ let (e, withheld) = h.0.negative no_ in rw (no_, withheld.1) refl
]

-- The execution of tasks that pass their checks, at least one and no two of one source, returns a
-- report with one result for each task, in their order; each says honestly whether it publishes a
-- snapshot, and the report is complete exactly when every result is positive.
pub execute_sources-Answers :
    (lib : Library) (ps : List Planned)
    → All (IsChecked lib) ps
    → is_some_list (task_sources ps) ≡ true
    → distinct (task_sources ps) ≡ true
    → (rs : List SourceResult) × (execute_sources lib ps ≡ done rs)
      × (result_sources rs ≡ task_sources ps)
      × All (IsHonest lib) rs
      × (all_complete rs ≡ all (λ r. is_positive r.status) rs)
unfolding execute_sources check_report ◌>>=◌ Answers
execute_sources-Answers lib ps h some_ differ =
    let (rs, each, sources, honest) = execute_each-Answers lib ps h in
    (
      rs,
      rw (some_, differ)
          (rw (check_tasks-done lib ps h) (rw each (rw sources (rw (some_, differ) refl)))),
      sources,
      honest,
      all_complete-positive lib rs honest,
    )
