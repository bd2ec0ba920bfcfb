-- ===== src/Discovery/Policy.antt =====
-- database/poc/execution_models.py: `ExecutionPolicy`, `SourceTask`, `SourceResult`, and what is
-- required of an observation. A budget of time is in microseconds.
pub mod Rechecked
pub mod Retried
use pepeuchiacluster.Prelude.{
  ℕ, ◌-◌, Bool, true, false, ◌&&◌, ◌||◌, not, String, same, List, [], ◌∷◌, Option, none, some, all,
  any, map, leb, ltb, ◌==◌, is_some,
}
use pepeuchiacluster.Contracts.Values.{
  Value, null, text, array, object, Items, Members, none_left, member, contains, items,
}
use pepeuchiacluster.Discovery.Errors.{
  Status, success, unchanged, Reason, identity, incomplete, invalid_schema, Outcome, threw, done,
  value_error, require, require_for, ◌>>=◌, ◌>>◌,
}
use pepeuchiacluster.Discovery.Specs.{SourceSpec}
use pepeuchiacluster.Discovery.Specs.Known.{known_source}
use pepeuchiacluster.Discovery.Metadata.{
  Library, copy_metadata, object_value, list_value, get_value, item_value,
}
use pepeuchiacluster.Discovery.Selection.{
  ResourceRef, has_ref, ids_of, is_text_of, mode_is, known_spec, safe_selection, planned_resources,
}
use pepeuchiacluster.Discovery.Snapshots.{validate_snapshot}

pub record ExecutionPolicy : Type 0 where
  pub max_requests : ℕ
  pub max_attempts : ℕ
  pub total : ℕ
  pub max_delay : ℕ
  pub backoff : ℕ
  pub resources : List ResourceRef
  pub retry_http_statuses : List ℕ
  pub retry_transport_errors : Bool

abbrev some_refs : List ResourceRef → Bool
some_refs [] = false
some_refs (x ∷ xs) = true

-- `ExecutionPolicy.__post_init__`
unfoldable pub check_policy : ExecutionPolicy → Outcome (Unit {0})
check_policy p = do
  require (leb 1 p.max_attempts)
  require (ltb 0 p.total)
  require (leb p.backoff p.max_delay)
  require (some_refs p.resources)
  require
      (all (λ code. any (λ c. code == c) (429 ∷ 500 ∷ 502 ∷ 503 ∷ 504 ∷ [])) p.retry_http_statuses)

-- every reference is in the second list
abbrev pub refs_within : List ResourceRef → List ResourceRef → Bool
refs_within refs allowed = all (λ ref. has_ref ref allowed) refs

-- The fields of a task but for its operation.
pub record SourceTask : Type 0 where
  pub source : String
  pub selection : Members
  pub resources : List ResourceRef
  pub policy : ExecutionPolicy
  pub idempotent : Bool
  pub synthetic : Bool

pub record SourceResult : Type 0 where
  pub source : String
  pub selection : Members
  pub resources : List ResourceRef
  pub status : Status
  pub reason : Option Reason
  pub last_error : Option Reason
  pub attempts : ℕ
  pub requests : ℕ
  pub elapsed : ℕ
  pub waited : ℕ
  pub policy : ExecutionPolicy
  pub idempotent : Bool
  pub synthetic : Bool
  pub complete : Bool
  pub snapshot : Option Value

abbrev pub is_positive : Status → Bool
is_positive success = true
is_positive unchanged = true
is_positive _ = false

-- the member of a record that a snapshot lists
unfoldable pub record_field : String → Value → Outcome Value
unfolding object_value item_value
record_field k v = do m ← object_value v; item_value k m

unfoldable pub record_fields : String → List Value → Outcome (List Value)
unfolding record_field
record_fields k [] = done []
record_fields k (v ∷ vs) = do
  first ← record_field k v
  rest ← record_fields k vs
  done (first ∷ rest)

abbrev in_texts : List String → Value → Bool
in_texts names (text s) = contains s names
in_texts names _ = false

abbrev lists_text : String → List Value → Bool
lists_text s = any (is_text_of s)

-- the revision that the source's records may have
abbrev revision_allowed : SourceSpec → Value → Bool
revision_allowed spec null = spec.revision_nullable
revision_allowed spec v = not (same spec.revision_kind "none")

-- a revision is the selected tag
abbrev is_tag_of : Value → Value → Bool
is_tag_of (text t) v = is_text_of t v
is_tag_of _ v = false

module _ (lib : Library) where
  abbrev same_json : Value → Value → Bool
  same_json a b = same (lib.canonical_json a) (lib.canonical_json b)

  -- The checks on the records of a validated snapshot.
  unfoldable pub check_records :
      String → Members → List ResourceRef → List Value → Outcome (Unit {0})
  unfolding known_spec record_fields
  check_records source selection refs records = do
    sources ← record_fields "source" records
    types ← record_fields "entity_type" records
    spec ← known_spec source
    require_for (all (is_text_of source) sources && all (in_texts spec.entity_types) types) identity
    revisions ← record_fields "source_revision" records
    require_for (all (revision_allowed spec) revisions) invalid_schema
    actual ← record_fields "source_id" records
    require_for (all (in_texts (ids_of refs)) actual) identity
    require_for (all (λ id. lists_text id actual) (ids_of refs)) incomplete
    require_for
        (not (mode_is "exact_tag" selection)
          || all (is_tag_of (get_value "tag" selection)) revisions)
        identity

  -- `validate_observation`
  unfoldable pub validate_observation : String → Members → List ResourceRef → Value → Outcome Value
  unfolding copy_metadata validate_snapshot list_value item_value check_records
  validate_observation source selection refs snapshot = do
    copy ← copy_metadata lib snapshot
    data_ ← validate_snapshot lib copy
    scope ← item_value "scope" data_
    require_for (same_json scope (object (member source (object selection) none_left))) identity
    records ← item_value "records" data_ >>= list_value
    check_records source selection refs (items records)
    done copy

  -- `SourceTask.__post_init__`: the selection and the resources are the checked ones
  unfoldable pub check_task : SourceTask → Outcome SourceTask
  unfolding safe_selection planned_resources
  check_task t = do
    scope ← safe_selection lib t.source (object t.selection)
    refs ← planned_resources t.source scope t.resources
    require (
        not (same t.source "moark")
        || (t.synthetic && is_text_of "synthetic_fixture" (get_value "input" scope))
        || (not t.synthetic && not (is_text_of "synthetic_fixture" (get_value "input" scope))))
    done (record t { selection = scope; resources = refs })

  checked_snapshot : SourceResult → Option Value → Outcome Value
  unfolding validate_observation
  checked_snapshot r none = threw value_error
  checked_snapshot r (some s) = validate_observation r.source r.selection r.resources s

  published : Bool → SourceResult → Outcome SourceResult
  unfolding checked_snapshot
  published true r = do
    require (r.complete && not (is_some r.reason) && is_some r.snapshot)
    require (refs_within r.resources r.policy.resources)
    snapshot ← checked_snapshot r r.snapshot
    done (record r { snapshot = some snapshot })
  published false r = do
    require (not (r.complete || is_some r.snapshot || not (is_some r.reason)))
    done r

  -- the last two branches of the check of a result
  unfoldable pub check_publication : SourceResult → Outcome SourceResult
  unfolding published
  check_publication r = published (is_positive r.status) r

  -- `SourceResult.__post_init__`
  unfoldable pub check_result : SourceResult → Outcome SourceResult
  unfolding safe_selection planned_resources check_publication
  check_result r = do
    scope ← safe_selection lib r.source (object r.selection)
    refs ← planned_resources r.source scope r.resources
    require (leb r.attempts r.policy.max_attempts && leb r.requests r.policy.max_requests)
    check_publication (record r { selection = scope; resources = refs })
