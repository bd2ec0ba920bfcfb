-- ===== src/Discovery/Policy/Rechecked.antt =====
-- The checks of database/poc/execution_models.py return what they are given, so that a second check of
-- what has passed passes.
use pepeuchiacluster.Prelude.{
  ℕ, ◌≤◌, ◌≡◌, refl, sym, ap, ◌∙◌, subst, true, false, String, List, none, some, leb, arith,
}
use pepeuchiacluster.Contracts.Values.{Value, object, Members}
use pepeuchiacluster.Discovery.Errors.{Reason, done, ◌>>=◌}
use pepeuchiacluster.Discovery.Errors.Gives.{
  Gives, Gives-after, Gives-bind, Gives-done, Gives-itself, Gives-threw,
}
use pepeuchiacluster.Discovery.Metadata.{Library, copy_metadata, object_value}
use pepeuchiacluster.Discovery.Selection.{ResourceRef, safe_selection, planned_resources}
use pepeuchiacluster.Discovery.Policy.{
  SourceTask, SourceResult, is_positive, refs_within, validate_observation, check_task,
  check_publication, check_result,
}

module _ (lib : Library) where
  copy_metadata-Gives : (v : Value) → Gives (λ c. c ≡ v) (copy_metadata lib v)
  unfolding copy_metadata
  copy_metadata-Gives v = Gives-bind _ λ _. Gives-bind _ λ _. Gives-done refl

  object_value-Gives : (v : Value) → Gives (λ m. object m ≡ v) (object_value v)
  unfolding object_value
  object_value-Gives (object m) = Gives-done refl
  object_value-Gives _ = Gives-threw _

  safe_selection-Gives :
      (source : String) (v : Value) → Gives (λ m. object m ≡ v) (safe_selection lib source v)
  unfolding safe_selection
  safe_selection-Gives source v = Gives-bind _ λ _. Gives-bind _ λ _.
      Gives-after (copy_metadata-Gives v) λ c same_copy.
        Gives-after (object_value-Gives c) λ m same_object. Gives-bind _ λ _. Gives-bind _ λ _.
          Gives-bind _ λ _. Gives-bind _ λ _. Gives-bind _ λ _. Gives-done (same_object ∙ same_copy)

  planned_resources-Gives :
      (source : String) (scope : Members) (refs : List ResourceRef)
      → Gives (λ r. r ≡ refs) (planned_resources source scope refs)
  unfolding planned_resources
  planned_resources-Gives source scope refs =
      Gives-bind _ λ _. Gives-bind _ λ _. Gives-bind _ λ _. Gives-done refl

  validate_observation-Gives :
      (source : String) (selection : Members) (refs : List ResourceRef) (v : Value)
      → Gives (λ c. c ≡ v) (validate_observation lib source selection refs v)
  unfolding validate_observation
  validate_observation-Gives source selection refs v =
      Gives-after (copy_metadata-Gives v) λ c same_copy. Gives-bind _ λ _.
        Gives-bind _ λ _. Gives-bind _ λ _. Gives-bind _ λ _. Gives-bind _ λ _. Gives-done same_copy

  -- A task whose selection and resources pass their checks, as they are.
  pub record IsPlanned (t : SourceTask) : Type 0 where
    pub selected : safe_selection lib t.source (object t.selection) ≡ done t.selection
    pub planned : planned_resources t.source t.selection t.resources ≡ done t.resources

  object-injective : (m n : Members) → Value.object m ≡ object n → m ≡ n
  object-injective m n e = cc

  pub check_task-IsPlanned :
      (t : SourceTask) → Gives (λ own. IsPlanned own × (own ≡ t)) (check_task lib t)
  unfolding check_task
  check_task-IsPlanned t =
      Gives-after (Gives-itself (safe_selection-Gives t.source (object t.selection))) λ m h.
        let same_selection = object-injective m t.selection h.1 in
        Gives-after (Gives-itself (planned_resources-Gives t.source m t.resources)) λ refs g.
          Gives-bind _ λ _. Gives-done (
            record {
              selected = ap (λ x. safe_selection lib t.source (object x)) same_selection ∙ h.0;
              planned = ap (λ r. planned_resources t.source m r) g.1 ∙ g.0;
            },
            ap (λ x. record t { selection = x; resources = refs }) same_selection
                ∙ ap (λ r. record t { resources = r }) g.1,
          )

  pub checked_again :
      (source : String) (selection : Members) (refs : List ResourceRef) (v c : Value)
      → validate_observation lib source selection refs v ≡ done c
      → validate_observation lib source selection refs c ≡ done c
  checked_again source selection refs v c e =
      let same_value = (validate_observation-Gives source selection refs v).gives c e in
      subst (λ w. validate_observation lib source selection refs w ≡ done c) (sym same_value) e

  leb-true : (a b : ℕ) → a ≤ b → leb a b ≡ true
  leb-true a b h = ground arith

  -- the checks of a result whose selection and resources are those of a task that has passed
  pub check_result-check_publication :
      (r : SourceResult)
      → safe_selection lib r.source (object r.selection) ≡ done r.selection
      → planned_resources r.source r.selection r.resources ≡ done r.resources
      → r.attempts ≤ r.policy.max_attempts
      → r.requests ≤ r.policy.max_requests
      → check_result lib r ≡ check_publication lib r
  unfolding check_result ◌>>=◌
  check_result-check_publication r selected planned attempts requests =
      let attempts_in = leb-true _ _ attempts in
      let requests_in = leb-true _ _ requests in
      rw selected (rw planned (rw (attempts_in, requests_in) refl))

  -- what a snapshot that has been checked passes
  pub check_publication-done :
      (r : SourceResult) (v : Value)
      → is_positive r.status ≡ true
      → r.complete ≡ true
      → r.reason ≡ none
      → r.snapshot ≡ some v
      → refs_within r.resources r.policy.resources ≡ true
      → validate_observation lib r.source r.selection r.resources v ≡ done v
      → check_publication lib r ≡ done (record r { snapshot = some v })
  unfolding check_publication ◌>>=◌
  check_publication-done r v positive complete_ reason_ snapshot_ inside valid =
      rw (check_publication, positive)
        (rw (complete_, reason_, snapshot_) (rw inside (rw valid refl)))

  pub check_publication-negative :
      (r : SourceResult) (e : Reason)
      → is_positive r.status ≡ false
      → r.complete ≡ false
      → r.reason ≡ some e
      → r.snapshot ≡ none
      → check_publication lib r ≡ done r
  unfolding check_publication ◌>>=◌
  check_publication-negative r e positive complete_ reason_ snapshot_ =
      rw (check_publication, positive) (rw (complete_, reason_, snapshot_) refl)
