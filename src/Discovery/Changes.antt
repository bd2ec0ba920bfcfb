-- ===== src/Discovery/Changes.antt =====
-- database/poc/discovery_cache.py, `compare_snapshots`: what differs between two snapshots of a scope.
pub mod Classified
use pepeuchiacluster.Prelude.{
  ℕ, Bool, true, false, not, String, same, List, [], ◌∷◌, Option, none, some, length, order_by,
  text_le, map, any, select,
}
use pepeuchiacluster.Prelude.Keys.{with_key}
use pepeuchiacluster.Contracts.Values.{Value, Items, Members, items}
use pepeuchiacluster.Discovery.Errors.{Outcome, done, require, ◌>>=◌, ◌>>◌}
use pepeuchiacluster.Discovery.Metadata.{
  Library, same_value, object_value, list_value, text_value, item_value, get_value,
}
use pepeuchiacluster.Discovery.Snapshots.{validate_snapshot}

-- what the comparison reads of an entry: `x["record_key"]` and `x["payload_sha256"]`
pub record Observed : Type 0 where
  pub key : String
  pub sha256 : String

unfoldable pub observed : Value → Outcome Observed
unfolding object_value item_value text_value
observed value = do
  entry ← object_value value
  key_value ← item_value "record_key" entry
  key_text ← text_value key_value
  sha_value ← item_value "payload_sha256" entry
  sha_text ← text_value sha_value
  done (record { key = key_text; sha256 = sha_text })

unfoldable pub all_observed : List Value → Outcome (List Observed)
unfolding observed
all_observed [] = done []
all_observed (v ∷ vs) = do x ← observed v; xs ← all_observed vs; done (x ∷ xs)

abbrev pub lookup : String → List Observed → Option Observed
lookup k xs = with_key Observed.key k xs

-- `{x["record_key"]: x for x in records}`; the last entry of a key stays
unfoldable pub index : List Observed → List Observed
index [] = []
index (x ∷ xs) =
    let rest = index xs in elim (lookup x.key rest) [ none ↦ x ∷ rest | some later ↦ rest ]

pub record Changes : Type 0 where
  pub added : List String
  pub changed : List String
  pub not_observed : List String
  pub unchanged_count : ℕ

-- an entry with another digest, or with the same, or no entry
abbrev pub is_other : String → Option Observed → Bool
is_other sha none = false
is_other sha (some x) = not (same x.sha256 sha)

abbrev pub is_same : String → Option Observed → Bool
is_same sha none = false
is_same sha (some x) = same x.sha256 sha

abbrev pub is_missing : Option Observed → Bool
is_missing none = true
is_missing (some x) = false

abbrev pub sorted_keys : List Observed → List String
sorted_keys xs = order_by text_le (map Observed.key xs)

-- the comparison of the two dictionaries
unfoldable pub changes_between : List Observed → List Observed → Changes
changes_between old new = record {
  added = sorted_keys (select (λ x. is_missing (lookup x.key old)) new);
  changed = sorted_keys (select (λ x. is_other x.sha256 (lookup x.key old)) new);
  not_observed = sorted_keys (select (λ x. is_missing (lookup x.key new)) old);
  unchanged_count = length (select (λ x. is_same x.sha256 (lookup x.key old)) new);
}

-- the entries of a valid snapshot, in order
unfoldable pub rows_of : Members → Outcome (List Observed)
unfolding item_value list_value all_observed
rows_of snapshot = do
  records ← item_value "records" snapshot
  entries ← list_value records
  all_observed (items entries)

module _ (lib : Library) where
  -- `compare_snapshots`, but for the constant note and the two identities that it copies
  unfoldable pub compare_snapshots : Value → Value → Outcome Changes
  unfolding validate_snapshot same_value rows_of index changes_between
  compare_snapshots before after = do
    first ← validate_snapshot lib before
    second ← validate_snapshot lib after
    require (same_value (get_value "scope" first) (get_value "scope" second))
    old ← rows_of first
    new ← rows_of second
    done (changes_between (index old) (index new))
