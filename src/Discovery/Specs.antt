-- ===== src/Discovery/Specs.antt =====
-- database/poc/source_spec_design.py: the static descriptions of the sources, and their checks.
pub mod Known
use pepeuchiacluster.Prelude.{
  ℕ, Bool, true, false, ◌&&◌, ◌||◌, not, String, same, List, [], ◌∷◌, Option, none, some, all, find,
  any, is_some, leb, ltb, ◌==◌, if◌then◌else◌,
}
use pepeuchiacluster.Contracts.Values.{contains}
use pepeuchiacluster.Contracts.Texts.{codes, is_lower, is_digit}
use pepeuchiacluster.Discovery.Errors.{Outcome, done, require, ◌>>=◌, ◌>>◌}

-- `RESOURCE_TYPES`
abbrev pub resource_types : List String
resource_types =
    "model_reference" ∷ "model_artifact" ∷ "agent_resource" ∷ "nim_microservice"
    ∷ "inference_endpoint" ∷ []

-- `SELECTION_MODES`
abbrev pub selection_modes : List String
selection_modes = "first_n_sorted" ∷ "exact_ids" ∷ "first_n_unique" ∷ "exact_tag" ∷ []

-- `CAPABILITIES`
abbrev pub capabilities : List String
capabilities =
    "metadata" ∷ "offline_fixture" ∷ "local_pinning" ∷ "catalog_pinning"
    ∷ "explicit_model_relationships" ∷ "file_listing" ∷ "observed_formats" ∷ "deployment_profiles"
    ∷ "served_model_listing" ∷ []

-- A time-out is in whole seconds.
pub record TransportSpec : Type 0 where
  pub kind : String
  pub configured_hosts : List String
  pub max_response_bytes : Option ℕ
  pub timeout_seconds : Option ℕ
  pub redirects : String
  pub strict_url_policy : Bool

abbrev is_empty : List String → Bool
is_empty [] = true
is_empty (x ∷ xs) = false

abbrev positive : Option ℕ → Bool
positive none = false
positive (some n) = ltb 0 n

abbrev up_to : ℕ → Option ℕ → Bool
up_to most none = false
up_to most (some n) = ltb 0 n && leb n most

abbrev is_bounded : TransportSpec → Bool
is_bounded t = is_some t.max_response_bytes || is_some t.timeout_seconds

http_rules : TransportSpec → Outcome (Unit {0})
http_rules t = do
  require (not (is_empty t.configured_hosts) && positive t.max_response_bytes)
  require (up_to 60 t.timeout_seconds)
  require (not (same t.kind "bounded_http") || t.strict_url_policy && same t.redirects "forbidden")
  require (
      not (same t.kind "legacy_http")
      || not t.strict_url_policy && same t.redirects "urllib_default")

-- the three branches on the kind
transport_rules : TransportSpec → Outcome (Unit {0})
unfolding http_rules
transport_rules t =
    if same t.kind "local_files"
    then require (
        is_empty t.configured_hosts
        && not (is_bounded t)
        && same t.redirects "not_applicable"
        && not t.strict_url_policy)
    else if same t.kind "official_sdk"
    then require (
        not (is_empty t.configured_hosts)
        && not (is_bounded t)
        && same t.redirects "sdk_managed"
        && not t.strict_url_policy)
    else http_rules t

-- `TransportSpec.__post_init__`
unfoldable pub check_transport : TransportSpec → Outcome (Unit {0})
unfolding transport_rules
check_transport t = do
  require (contains t.kind ("local_files" ∷ "legacy_http" ∷ "bounded_http" ∷ "official_sdk" ∷ []))
  transport_rules t

pub record SourceSpec : Type 0 where
  pub source : String
  pub entity_types : List String
  pub selection_modes : List String
  pub collection_strategy : String
  pub revision_kind : String
  pub revision_validation : String
  pub revision_nullable : Bool
  pub access_scope : String
  pub transport : TransportSpec
  pub capabilities : List String

-- `[a-z0-9][a-z0-9.-]*`
abbrev is_namespace : List ℕ → Bool
is_namespace [] = false
is_namespace (c ∷ cs) =
    (is_lower c || is_digit c) && all (λ d. is_lower d || is_digit d || d == b'.' || d == b'-') cs

abbrev within : List String → List String → Bool
within xs ys = all (λ x. contains x ys) xs

-- `SourceSpec.__post_init__`, the transport's check before it
unfoldable pub check_spec : SourceSpec → Outcome (Unit {0})
unfolding check_transport
check_spec s = do
  check_transport s.transport
  require (is_namespace (codes s.source))
  require (not (is_empty s.entity_types) && within s.entity_types resource_types)
  require (not (is_empty s.selection_modes) && within s.selection_modes selection_modes)
  require (not (same s.collection_strategy ""))
  require (
      contains s.revision_kind
        ("catalog_commit" ∷ "repository_sha" ∷ "mutable_container_tag" ∷ "none" ∷ []))
  require (
      contains s.revision_validation (
        "sha1_exact" ∷ "nonempty_string" ∷ "full_hash_if_available" ∷ "container_tag" ∷ "none"
        ∷ []))
  require (contains s.access_scope ("local_pinned" ∷ "anonymous" ∷ "sdk_managed" ∷ []))
  require (contains "metadata" s.capabilities && within s.capabilities capabilities)

-- `source_index`: a repeated namespace fails; `known` are the sources before
unfoldable pub source_index : List String → List SourceSpec → Outcome (List SourceSpec)
unfolding check_spec
source_index known [] = done []
source_index known (s ∷ rest) = do
  check_spec s
  require (not (contains s.source known))
  more ← source_index (s.source ∷ known) rest
  done (s ∷ more)

abbrev pub local_files : TransportSpec
local_files = record {
  kind = "local_files";
  configured_hosts = [];
  max_response_bytes = none;
  timeout_seconds = none;
  redirects = "not_applicable";
  strict_url_policy = false;
}

-- `_legacy`
abbrev pub legacy : List String → TransportSpec
legacy hosts = record {
  kind = "legacy_http";
  configured_hosts = hosts;
  max_response_bytes = some 3_000_000;
  timeout_seconds = some 20;
  redirects = "urllib_default";
  strict_url_policy = false;
}

-- `_bounded`
abbrev pub bounded : String → TransportSpec
bounded host = record {
  kind = "bounded_http";
  configured_hosts = host ∷ [];
  max_response_bytes = some 2_000_000;
  timeout_seconds = some 20;
  redirects = "forbidden";
  strict_url_policy = true;
}

abbrev pub sdk : TransportSpec
sdk = record {
  kind = "official_sdk";
  configured_hosts = "modelscope.cn" ∷ "modelscope.ai" ∷ [];
  max_response_bytes = none;
  timeout_seconds = none;
  redirects = "sdk_managed";
  strict_url_policy = false;
}
