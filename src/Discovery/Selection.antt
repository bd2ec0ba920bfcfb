-- ===== src/Discovery/Selection.antt =====
-- database/poc/execution_models.py: `ResourceRef`, `safe_selection` and `_planned_resources`, which
-- check what an execution may ask for.
use Prim.Native.String.{◌++◌ as concat}
use pepeuchiacluster.Prelude.{
  ℕ, ◌+◌, Bool, true, false, ◌&&◌, ◌||◌, not, String, same, List, [], ◌∷◌, ◌++◌, none, some, all,
  any, map, length, leb, ◌==◌, is_some, if◌then◌else◌,
}
use pepeuchiacluster.Contracts.Values.{Value, int, text, array, Members, keys, contains, items}
use pepeuchiacluster.Contracts.Texts.{codes, is_lower, is_upper, is_digit}
use pepeuchiacluster.Discovery.Errors.{Outcome, threw, done, value_error, require, ◌>>=◌, ◌>>◌}
use pepeuchiacluster.Discovery.Specs.{SourceSpec}
use pepeuchiacluster.Discovery.Specs.Known.{known_source}
use pepeuchiacluster.Discovery.Metadata.{
  Library, copy_metadata, object_value, text_value, get_value,
}

abbrev pub is_alnum : ℕ → Bool
is_alnum c = is_lower c || is_upper c || is_digit c

-- a part of a path that is "", "." or "..", by the dots read so far; `named` is another part
pub data Part : Type 0 where
  dots : ℕ → Part
  named : Part

abbrev is_bad : Part → Bool
is_bad (dots n) = leb n 2
is_bad named = false

abbrev next_part : ℕ → Part → Part
next_part c (dots n) = if c == b'.' then dots (n + 1) else named
next_part c named = named

-- no part of `value.split("/")` is "", "." or ".."
abbrev good_parts : Part → List ℕ → Bool
good_parts p [] = not (is_bad p)
good_parts p (c ∷ cs) =
    let rest = good_parts (dots 0) cs in
    let same_part = good_parts (next_part c p) cs in
    if c == b'/' then not (is_bad p) && rest else same_part

-- at most 256 characters, `[A-Za-z0-9][A-Za-z0-9._/-]*`, and no bad part
unfoldable pub is_public : List ℕ → Bool
is_public [] = false
is_public (c ∷ cs) =
    leb (length cs) 255
    && is_alnum c
    && all (λ d. is_alnum d || any (λ e. d == e) (b'.' ∷ b'_' ∷ b'/' ∷ b'-' ∷ [])) cs
    && good_parts (dots 0) (c ∷ cs)

-- `_identifier`
unfoldable pub public_identifier : Value → Outcome String
unfolding is_public
public_identifier (text s) = do require (is_public (codes s)); done s
public_identifier _ = threw value_error

pub record ResourceRef : Type 0 where
  pub source : String
  pub source_id : String

-- `ResourceRef.__post_init__`
unfoldable pub check_ref : ResourceRef → Outcome (Unit {0})
unfolding public_identifier
check_ref ref = do
  require (is_some (known_source ref.source))
  _ ← public_identifier (text ref.source_id)
  done tt

abbrev pub same_ref : ResourceRef → ResourceRef → Bool
same_ref a b = same a.source b.source && same a.source_id b.source_id

-- `ref in refs`
abbrev pub has_ref : ResourceRef → List ResourceRef → Bool
has_ref ref = any (same_ref ref)

-- `[A-Za-z0-9_][A-Za-z0-9_.-]{0,127}`
abbrev is_tag : List ℕ → Bool
is_tag [] = false
is_tag (c ∷ cs) =
    (is_alnum c || c == b'_')
    && all (λ d. is_alnum d || d == b'_' || d == b'.' || d == b'-') cs
    && leb (length cs) 127

abbrev distinct : List String → Bool
distinct [] = true
distinct (x ∷ xs) = not (contains x xs) && distinct xs

unfoldable pub texts_of : List Value → Outcome (List String)
texts_of [] = done []
texts_of (text s ∷ vs) = do more ← texts_of vs; done (s ∷ more)
texts_of (v ∷ vs) = threw value_error

abbrev is_empty : List String → Bool
is_empty [] = true
is_empty (x ∷ xs) = false

unfoldable pub identifiers : List String → Outcome (Unit {0})
unfolding public_identifier
identifiers [] = done tt
identifiers (s ∷ more) = do _ ← public_identifier (text s); identifiers more

-- `scope.get("ids")`: distinct texts, at least one
unfoldable pub selected_ids : Value → Outcome (List String)
unfolding texts_of
selected_ids (array vs) = do
  ids ← texts_of (items vs)
  require (not (is_empty ids) && distinct ids)
  done ids
selected_ids _ = threw value_error

abbrev is_natural : Value → Bool
is_natural (int n) = true
is_natural _ = false

abbrev is_tag_value : Value → Bool
is_tag_value (text s) = is_tag (codes s)
is_tag_value _ = false

-- the text is this one
abbrev pub is_text_of : String → Value → Bool
is_text_of s (text t) = same t s
is_text_of s _ = false

-- The fields of a mode, checked; the last branch is the one of `exact_tag`.
unfoldable pub mode_fields : String → Members → Outcome (List String)
unfolding selected_ids identifiers public_identifier
mode_fields mode scope =
    if same mode "exact_ids"
    then (do ids ← selected_ids (get_value "ids" scope); identifiers ids; done ("ids" ∷ []))
    else if same mode "first_n_sorted" || same mode "first_n_unique"
    then (do require (is_natural (get_value "limit" scope)); done ("limit" ∷ []))
    else (do
      _ ← public_identifier (get_value "resource_id" scope)
      require (is_tag_value (get_value "tag" scope))
      done ("resource_id" ∷ "tag" ∷ []))

abbrev endpoints : SourceSpec → List String
endpoints spec = map (λ host. concat "https://" host) spec.transport.configured_hosts

-- a value that is one of the texts
abbrev is_one_of : List String → Value → Bool
is_one_of names (text s) = contains s names
is_one_of names _ = false

-- The further fields of a source, checked.
unfoldable pub source_fields : String → SourceSpec → Members → Outcome (List String)
source_fields source spec scope =
    if same source "modelscope"
    then (do
      require (is_one_of (endpoints spec) (get_value "endpoint" scope))
      done ("endpoint" ∷ []))
    else if same source "csghub"
    then (do
      require (is_one_of (endpoints spec) (get_value "endpoint" scope))
      require (
          is_text_of "csg" (get_value "source" scope)
          && is_text_of "main" (get_value "revision_request" scope))
      done ("endpoint" ∷ "source" ∷ "revision_request" ∷ []))
    else if same source "moark"
    then (do
      require (
          is_text_of "https://moark.ai/v1" (get_value "endpoint" scope)
          && is_text_of "https://moark.ai/v1/models?type=text2text&include_details=false"
              (get_value "catalog_url" scope)
          && is_text_of "anonymous" (get_value "authentication" scope)
          && is_one_of ("synthetic_fixture" ∷ "public_api" ∷ []) (get_value "input" scope))
      done ("endpoint" ∷ "catalog_url" ∷ "authentication" ∷ "input" ∷ []))
    else done []

-- two sets of names
abbrev pub same_set : List String → List String → Bool
same_set xs ys = all (λ x. contains x ys) xs && all (λ y. contains y xs) ys

unfoldable pub known_spec : String → Outcome SourceSpec
known_spec source = elim (known_source source) [ none ↦ threw value_error | some s ↦ done s ]

module _ (lib : Library) where
  -- `safe_selection`
  unfoldable pub safe_selection : String → Value → Outcome Members
  unfolding known_spec copy_metadata object_value text_value mode_fields source_fields
  safe_selection source value = do
    spec ← known_spec source
    _ ← object_value value
    copy ← copy_metadata lib value
    scope ← object_value copy
    mode ← text_value (get_value "mode" scope)
    require (contains mode spec.selection_modes)
    by_mode ← mode_fields mode scope
    by_source ← source_fields source spec scope
    require (same_set (keys scope) ("mode" ∷ by_mode ++ by_source))
    done scope

abbrev distinct_refs : List ResourceRef → Bool
distinct_refs [] = true
distinct_refs (x ∷ xs) = not (has_ref x xs) && distinct_refs xs

abbrev no_refs : List ResourceRef → Bool
no_refs [] = true
no_refs (x ∷ xs) = false

abbrev pub ids_of : List ResourceRef → List String
ids_of = map (λ ref. ref.source_id)

abbrev texts_in : Value → List String
texts_in (array vs) = map_texts (items vs)
  where
    map_texts : List Value → List String
    map_texts [] = []
    map_texts (text s ∷ vs) = s ∷ map_texts vs
    map_texts (v ∷ vs) = map_texts vs
texts_in _ = []

-- the mode of a selection that `safe_selection` has returned
abbrev pub mode_is : String → Members → Bool
mode_is mode scope = is_text_of mode (get_value "mode" scope)

-- `_planned_resources`
unfoldable pub planned_resources : String → Members → List ResourceRef → Outcome (List ResourceRef)
planned_resources source scope refs = do
  require (not (no_refs refs) && all (λ ref. same ref.source source) refs && distinct_refs refs)
  require
      (not (mode_is "exact_ids" scope) || same_set (ids_of refs) (texts_in (get_value "ids" scope)))
  require (
      not (mode_is "exact_tag" scope)
      || all (λ id. is_text_of id (get_value "resource_id" scope)) (ids_of refs))
  done refs
