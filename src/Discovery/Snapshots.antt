-- ===== src/Discovery/Snapshots.antt =====
-- database/poc/discovery_cache.py: the snapshot of a collection, and its validation.
use Prim.Native.String.{◌++◌ as concat}
use pepeuchiacluster.Prelude.{
  ℕ, Bool, true, false, ◌&&◌, ◌||◌, not, String, same, List, [], ◌∷◌, Option, none, some, all, find,
  length, drop, order_by, text_le, ◌==◌, if◌then◌else◌, map,
}
use pepeuchiacluster.Contracts.Values.{
  Value, null, text, array, object, nil, cons, Members, none_left, member, keys, items,
}
use pepeuchiacluster.Contracts.Texts.{codes, is_hex, is_digest}
use pepeuchiacluster.Contracts.Outcomes.{array_of}
use pepeuchiacluster.Discovery.Errors.{Outcome, done, require, ◌>>=◌, ◌>>◌}
use pepeuchiacluster.Discovery.Metadata.{
  Library, copy_metadata, same_value, object_value, list_value, text_value, get_value,
}
use pepeuchiacluster.Discovery.Selection.{same_set}
use pepeuchiacluster.Discovery.Records.{
  SourceRecord, digest, record_key, record_payload, record_from_payload,
}

abbrev drop_prefix : String → List ℕ
drop_prefix s = drop 2 (codes s)

abbrev starts_with_d : List ℕ → Bool
starts_with_d (a ∷ b ∷ cs) = a == b'd' && b == b'_'
starts_with_d _ = false

-- `d_` and 64 hexadecimal digits
unfoldable pub is_record_key : String → Bool
is_record_key s =
    starts_with_d (codes s) && all is_hex (drop_prefix s) && length (drop_prefix s) == 64

-- the members but for those two
unfoldable pub payload_of : Members → Members
payload_of none_left = none_left
payload_of (member k v rest) =
    let more = payload_of rest in
    if same k "record_key" || same k "payload_sha256" then more else member k v more

module _ (lib : Library) where
  -- `_validate_time`
  unfoldable pub validate_time : Value → Outcome (Unit {0})
  unfolding text_value
  validate_time v = do s ← text_value v; require (lib.is_timestamp s)

  -- the time given, or the present one
  abbrev captured_or_now : Value → Value
  captured_or_now null = text lib.now
  captured_or_now v = v

  -- an entry of a snapshot: its key, its digest, and its payload
  pub record Entry : Type 0 where
    pub key : String
    pub sha256 : String
    pub payload : Members

  unfoldable pub entry_value : Entry → Value
  entry_value e =
      object (member "record_key" (text e.key) (member "payload_sha256" (text e.sha256) e.payload))

  unfoldable pub entry_of : SourceRecord → Outcome Entry
  unfolding record_payload record_from_payload digest record_key
  entry_of r = do
    payload ← record_payload lib r
    _ ← record_from_payload lib payload
    done (record {
      key = record_key lib r.source r.entity_type r.source_id;
      sha256 = digest lib (object payload);
      payload = payload;
    })

  -- `prior is not None and prior != entry`
  unfoldable pub conflicts : Option Entry → Entry → Bool
  unfolding same_value entry_value
  conflicts none e = false
  conflicts (some prior) e = not (same_value (entry_value prior) (entry_value e))

  abbrev replace_entry : Entry → List Entry → List Entry
  replace_entry e [] = e ∷ []
  replace_entry e (x ∷ xs) =
      let rest = replace_entry e xs in if same x.key e.key then e ∷ xs else x ∷ rest

  -- the loop on the records, with the entries so far
  unfoldable pub gather_entries : List Entry → List SourceRecord → Outcome (List Entry)
  unfolding entry_of conflicts
  gather_entries by_key [] = done by_key
  gather_entries by_key (r ∷ rs) = do
    e ← entry_of r
    require (not (conflicts (find (λ x. same x.key e.key) by_key) e))
    gather_entries (replace_entry e by_key) rs

  abbrev no_entries : List Entry → Bool
  no_entries [] = true
  no_entries (x ∷ xs) = false

  abbrev pair_value : Entry → Value
  pair_value e = array (cons (text e.key) (cons (text e.sha256) nil))

  -- `"s_" + digest({"scope": scope, "content": signature})`
  unfoldable pub snapshot_id : Value → List Entry → String
  unfolding digest
  snapshot_id scope entries = concat "s_" (
      digest lib (
        object (
          member "scope" scope
            (member "content" (array (array_of (map pair_value entries))) none_left))))

  pub record Snapshot : Type 0 where
    pub id : String
    pub captured_at : Value
    pub scope : Value
    pub entries : List Entry

  abbrev is_empty_object : Members → Bool
  is_empty_object none_left = true
  is_empty_object (member k v rest) = false

  -- `make_snapshot`
  unfoldable pub make_snapshot : List SourceRecord → Value → Value → Outcome Snapshot
  unfolding copy_metadata object_value validate_time gather_entries snapshot_id
  make_snapshot records scope captured_at = do
    declared ← object_value scope
    require (not (is_empty_object declared))
    copy ← copy_metadata lib scope
    validate_time (captured_or_now captured_at)
    by_key ← gather_entries [] records
    require (not (no_entries by_key))
    done (
        let entries = order_by (λ a b. text_le a.key b.key) by_key in
        record {
          id = snapshot_id copy entries;
          captured_at = captured_or_now captured_at;
          scope = copy;
          entries = entries;
        })

  -- `snapshot["records"]`
  unfoldable pub records_value : List Entry → Value
  unfolding entry_value
  records_value entries = array (array_of (map entry_value entries))

  abbrev is_hex_text : Value → Bool
  is_hex_text (text s) = is_digest s
  is_hex_text _ = false

  abbrev is_key_text : Value → Bool
  is_key_text (text s) = is_record_key s
  is_key_text _ = false

  -- one entry of a snapshot that is validated
  unfoldable pub recover_record : Value → Outcome SourceRecord
  unfolding object_value is_digest is_record_key payload_of record_from_payload record_payload
      digest record_key same_value
  recover_record value = do
    entry ← object_value value
    require (is_key_text (get_value "record_key" entry))
    require (is_hex_text (get_value "payload_sha256" entry))
    found ← record_from_payload lib (payload_of entry)
    whole ← record_payload lib found
    require (same_set (keys (payload_of entry)) (keys whole))
    require (
        same_value (text (digest lib (object (payload_of entry))))
          (get_value "payload_sha256" entry))
    require (
        same_value (text (record_key lib found.source found.entity_type found.source_id))
          (get_value "record_key" entry))
    done found

  unfoldable pub recover_records : List Value → Outcome (List SourceRecord)
  unfolding recover_record
  recover_records [] = done []
  recover_records (v ∷ vs) = do r ← recover_record v; rs ← recover_records vs; done (r ∷ rs)

  -- `validate_snapshot`
  unfoldable pub validate_snapshot : Value → Outcome Members
  unfolding object_value list_value recover_records make_snapshot records_value same_value
  validate_snapshot value = do
    data_ ← object_value value
    require (same_value (get_value "format" data_) (text "pepeuch-ai.discovery-cache/v1"))
    records ← list_value (get_value "records" data_)
    recovered ← recover_records (items records)
    expected ← make_snapshot recovered (get_value "scope" data_) (get_value "captured_at" data_)
    require (
        same_value (get_value "snapshot_id" data_) (text expected.id)
        && same_value (array records) (records_value expected.entries))
    done data_
