-- ===== src/Discovery/Specs/Known.antt =====
-- database/poc/source_spec_design.py, `SOURCE_SPECS`: the seven sources that are described.
use pepeuchiacluster.Prelude.{true, false, String, same, List, [], ◌∷◌, Option, find}
use pepeuchiacluster.Discovery.Specs.{SourceSpec, local_files, legacy, bounded, sdk}

abbrev pub models_dev : SourceSpec
models_dev = record {
  source = "models.dev";
  entity_types = "model_reference" ∷ [];
  selection_modes = "first_n_sorted" ∷ [];
  collection_strategy = "pinned TOML files";
  revision_kind = "catalog_commit";
  revision_validation = "sha1_exact";
  revision_nullable = false;
  access_scope = "local_pinned";
  transport = local_files;
  capabilities = "metadata" ∷ "offline_fixture" ∷ "local_pinning" ∷ [];
}

abbrev pub huggingface : SourceSpec
huggingface = record {
  source = "huggingface";
  entity_types = "model_artifact" ∷ [];
  selection_modes = "exact_ids" ∷ [];
  collection_strategy = "targeted repository metadata GET";
  revision_kind = "repository_sha";
  revision_validation = "nonempty_string";
  revision_nullable = true;
  access_scope = "anonymous";
  transport = legacy ("huggingface.co" ∷ []);
  capabilities =
      "metadata" ∷ "offline_fixture" ∷ "explicit_model_relationships" ∷ "file_listing"
      ∷ "observed_formats" ∷ [];
}

abbrev pub awesome_ai_agents : SourceSpec
awesome_ai_agents = record {
  source = "awesome-ai-agents";
  entity_types = "agent_resource" ∷ [];
  selection_modes = "first_n_unique" ∷ [];
  collection_strategy = "pin catalog commit then sample unique entries";
  revision_kind = "catalog_commit";
  revision_validation = "sha1_exact";
  revision_nullable = false;
  access_scope = "anonymous";
  transport = legacy ("api.github.com" ∷ "raw.githubusercontent.com" ∷ []);
  capabilities = "metadata" ∷ "offline_fixture" ∷ "catalog_pinning" ∷ [];
}

abbrev pub nvidia_nim_metadata : SourceSpec
nvidia_nim_metadata = record {
  source = "nvidia-nim-metadata";
  entity_types = "nim_microservice" ∷ [];
  selection_modes = "exact_tag" ∷ [];
  collection_strategy = "one resourceId and tag metadata GET";
  revision_kind = "mutable_container_tag";
  revision_validation = "container_tag";
  revision_nullable = false;
  access_scope = "anonymous";
  transport = legacy ("api.ngc.nvidia.com" ∷ []);
  capabilities = "metadata" ∷ "offline_fixture" ∷ "deployment_profiles" ∷ [];
}

abbrev pub modelscope : SourceSpec
modelscope = record {
  source = "modelscope";
  entity_types = "model_artifact" ∷ [];
  selection_modes = "exact_ids" ∷ [];
  collection_strategy = "official SDK get_repo model metadata";
  revision_kind = "repository_sha";
  revision_validation = "full_hash_if_available";
  revision_nullable = true;
  access_scope = "sdk_managed";
  transport = sdk;
  capabilities = "metadata" ∷ "offline_fixture" ∷ [];
}

abbrev pub csghub : SourceSpec
csghub = record {
  source = "csghub";
  entity_types = "model_artifact" ∷ [];
  selection_modes = "exact_ids" ∷ [];
  collection_strategy = "official csg repository metadata GET at main";
  revision_kind = "repository_sha";
  revision_validation = "full_hash_if_available";
  revision_nullable = true;
  access_scope = "anonymous";
  transport = bounded "hub.opencsg.com";
  capabilities = "metadata" ∷ "offline_fixture" ∷ "file_listing" ∷ "observed_formats" ∷ [];
}

abbrev pub moark : SourceSpec
moark = record {
  source = "moark";
  entity_types = "inference_endpoint" ∷ [];
  selection_modes = "exact_ids" ∷ [];
  collection_strategy = "public text roster GET then exact model ID selection";
  revision_kind = "none";
  revision_validation = "none";
  revision_nullable = true;
  access_scope = "anonymous";
  transport = bounded "moark.ai";
  capabilities = "metadata" ∷ "offline_fixture" ∷ "served_model_listing" ∷ [];
}

-- `SOURCE_SPECS`
abbrev pub source_specs : List SourceSpec
source_specs =
    models_dev ∷ huggingface ∷ awesome_ai_agents ∷ nvidia_nim_metadata ∷ modelscope ∷ csghub ∷ moark
    ∷ []

-- `SOURCE_SPECS[source]`
abbrev pub known_source : String → Option SourceSpec
known_source source = find (λ s. same s.source source) source_specs
