-- ===== src/Discovery/Records.antt =====
-- database/poc/discovery_cache.py: the payload of a record, its key and its digest. `SourceRecord` is of
-- database/poc/source_adapters.py.
use Prim.Native.String.{◌++◌ as concat}
use pepeuchiacluster.Prelude.{Bool, true, false, String, List, Option, none, some, all}
use pepeuchiacluster.Contracts.Values.{
  Value, null, text, array, object, nil, cons, Members, none_left, member, contains, items,
}
use pepeuchiacluster.Contracts.Outcomes.{array_of}
use pepeuchiacluster.Discovery.Errors.{Outcome, threw, done, value_error, require, ◌>>=◌, ◌>>◌}
use pepeuchiacluster.Discovery.Specs.{resource_types}
use pepeuchiacluster.Discovery.Metadata.{
  Library, copy_metadata, object_value, list_value, nonempty_string, get_value,
}

pub record SourceRecord : Type 0 where
  pub source : String
  pub source_id : String
  pub source_revision : Option String
  pub entity_type : String
  pub display_name : String
  pub attributes : Members
  pub relationships : List Value
  pub raw_metadata : Members

abbrev optional_text : Option String → Value
optional_text none = null
optional_text (some s) = text s

abbrev payload_value : SourceRecord → Members
payload_value r = member "source" (text r.source) (
    member "entity_type" (text r.entity_type) (
      member "source_id" (text r.source_id) (
        member "source_revision" (optional_text r.source_revision) (
          member "display_name" (text r.display_name) (
            member "attributes" (object r.attributes) (
              member "relationships" (array (array_of r.relationships))
                (member "raw_metadata" (object r.raw_metadata) none_left)))))))

unfoldable pub optional_revision : Value → Outcome (Option String)
optional_revision null = done none
optional_revision (text s) = done (some s)
optional_revision _ = threw value_error

abbrev all_texts : Members → Bool
all_texts none_left = true
all_texts (member k (text s) rest) = all_texts rest
all_texts (member k v rest) = false

-- an object whose values are texts
abbrev is_relationship : Value → Bool
is_relationship (object m) = all_texts m
is_relationship _ = false

module _ (lib : Library) where
  -- `digest`
  unfoldable pub digest : Value → String
  digest v = lib.sha256 (lib.canonical_json v)

  -- `record_key`
  unfoldable pub record_key : String → String → String → String
  unfolding digest
  record_key source entity_type source_id =
      concat "d_"
        (digest (array (cons (text source) (cons (text entity_type) (cons (text source_id) nil)))))

  -- `record_payload`
  unfoldable pub record_payload : SourceRecord → Outcome Members
  unfolding copy_metadata object_value
  record_payload r = copy_metadata lib (object (payload_value r)) >>= object_value

  -- `SourceRecord.__post_init__`
  unfoldable pub check_record : SourceRecord → Outcome SourceRecord
  unfolding copy_metadata
  check_record r = do
    _ ← copy_metadata lib (object r.attributes)
    _ ← copy_metadata lib (array (array_of r.relationships))
    _ ← copy_metadata lib (object r.raw_metadata)
    done r

  -- `_record_from_payload`
  unfoldable pub record_from_payload : Members → Outcome SourceRecord
  unfolding nonempty_string optional_revision object_value list_value check_record
  record_from_payload payload = do
    source ← nonempty_string (get_value "source" payload)
    entity_type ← nonempty_string (get_value "entity_type" payload)
    source_id ← nonempty_string (get_value "source_id" payload)
    display_name ← nonempty_string (get_value "display_name" payload)
    require (contains entity_type resource_types)
    source_revision ← optional_revision (get_value "source_revision" payload)
    attributes ← object_value (get_value "attributes" payload)
    raw_metadata ← object_value (get_value "raw_metadata" payload)
    relations ← list_value (get_value "relationships" payload)
    require (all is_relationship (items relations))
    check_record (record {
      source = source;
      source_id = source_id;
      source_revision = source_revision;
      entity_type = entity_type;
      display_name = display_name;
      attributes = attributes;
      relationships = items relations;
      raw_metadata = raw_metadata;
    })
