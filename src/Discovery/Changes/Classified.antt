-- ===== src/Discovery/Changes/Classified.antt =====
-- Every record of two snapshots that database/poc/discovery_cache.py compares is classified once.
use pepeuchiacluster.Prelude.{
  ℕ, suc, ◌+◌, ◌≡◌, refl, sym, ap, subst, ◌∙◌, Bool, true, false, ◌&&◌, not, String, same, same_iff,
  List, [], ◌∷◌, Option, none, some, length, text_le, map, select, arith, Bool-cases, inl, inr,
  if◌then◌else◌,
}
use pepeuchiacluster.Prelude.Lists.{any-order_by, length-order_by}
use pepeuchiacluster.Prelude.Keys.{with_key-key, Keyed}
use pepeuchiacluster.Contracts.Values.{Value, Members, contains}
use pepeuchiacluster.Discovery.Errors.{done, require}
use pepeuchiacluster.Discovery.Errors.Gives.{done-injective, >>=-eq-done, require-Gives}
use pepeuchiacluster.Discovery.Metadata.{Library, same_value, get_value}
use pepeuchiacluster.Discovery.Snapshots.{validate_snapshot}
use pepeuchiacluster.Discovery.Changes.{
  Observed, rows_of, compare_snapshots, Changes, lookup, index, is_other, is_same, is_missing,
  sorted_keys, changes_between,
}

index-Keyed : (xs : List Observed) → Keyed Observed.key (index xs)
unfolding index
index-Keyed [] = tt
index-Keyed (x ∷ xs) = kept (index-Keyed xs) (lookup x.key (index xs)) refl
  where
    kept :
        Keyed Observed.key (index xs)
        → (o : Option Observed) → lookup x.key (index xs) ≡ o
        → Keyed Observed.key (elim o [ none ↦ x ∷ index xs | some later ↦ index xs ])
    kept keyed none e = (e, keyed)
    kept keyed (some later) e = keyed

-- whether the entry of a key is there and passes a test
abbrev pub holds : (Observed → Bool) → Option Observed → Bool
holds q none = false
holds q (some x) = q x

contains-select :
    (q : Observed → Bool) (k : String) (xs : List Observed)
    → Keyed Observed.key xs
    → contains k (map Observed.key (select q xs)) ≡ holds q (lookup k xs)
contains-select q k [] keyed = refl
contains-select q k (x ∷ xs) keyed = elim (Bool-cases (same x.key k)) [
  | inl hit ↦
      let here : x.key ≡ k = (same_iff x.key k).0 hit in
      let gone : lookup k xs ≡ none = subst (λ j. lookup j xs ≡ none) here keyed.0 in
      ground (arith, contains-select q k xs keyed.1, (same_iff k x.key).1 (sym here))
  | inr miss ↦ ground (arith, contains-select q k xs keyed.1, same_iff k x.key, same_iff x.key k)
]

contains-sorted_keys :
    (q : Observed → Bool) (k : String) (xs : List Observed)
    → Keyed Observed.key xs
    → contains k (sorted_keys (select q xs)) ≡ holds q (lookup k xs)
contains-sorted_keys q k xs keyed =
    any-order_by (same k) text_le (map Observed.key (select q xs)) ∙ contains-select q k xs keyed

-- the count of the entries by class goes on with an entry of one class
one_more :
    (o : Option Observed) (x : Observed) (news others sames : List Observed) (n : ℕ)
    → length news + length others + length sames ≡ n
    → length (if is_missing o then x ∷ news else news)
        + length (if is_other x.sha256 o then x ∷ others else others)
        + length (if is_same x.sha256 o then x ∷ sames else sames)
      ≡ suc n
one_more none x news others sames n e = omega (arith, e)
one_more (some prior) x news others sames n e = elim (Bool-cases (same prior.sha256 x.sha256)) [
  | inl hit ↦ rw hit (omega (arith, e))
  | inr miss ↦ rw miss (omega (arith, e))
]

length-classes :
    (old new : List Observed)
    → length (select (λ x. is_missing (lookup x.key old)) new)
        + length (select (λ x. is_other x.sha256 (lookup x.key old)) new)
        + length (select (λ x. is_same x.sha256 (lookup x.key old)) new)
      ≡ length new
length-classes old [] = refl
length-classes old (x ∷ xs) =
    one_more (lookup x.key old) x _ _ _ (length xs) (length-classes old xs)

length-names : (xs : List Observed) → length (map Observed.key xs) ≡ length xs
length-names [] = refl
length-names (x ∷ xs) = ap suc (length-names xs)

length-sorted_keys : (xs : List Observed) → length (sorted_keys xs) ≡ length xs
length-sorted_keys xs = length-order_by text_le (map Observed.key xs) ∙ length-names xs

-- a test that depends on the key of the entry found is at the key that was asked for
holds-lookup :
    (q : String → Observed → Bool) (k : String) (xs : List Observed) (o : Option Observed)
    → lookup k xs ≡ o
    → holds (λ x. q x.key x) o ≡ holds (q k) o
holds-lookup q k xs none e = refl
holds-lookup q k xs (some x) e = ap (λ j. q j x) (with_key-key Observed.key k xs x e)

-- of two entries of a key, each there or not
abbrev pub is_new : Option Observed → Option Observed → Bool
is_new prior found = is_missing prior && not (is_missing found)

abbrev pub is_changed : Option Observed → Option Observed → Bool
is_changed prior none = false
is_changed prior (some x) = is_other x.sha256 prior

holds-new :
    (prior found : Option Observed) → holds (λ x. is_missing prior) found ≡ is_new prior found
holds-new none none = refl
holds-new none (some x) = refl
holds-new (some y) none = refl
holds-new (some y) (some x) = refl

holds-changed :
    (prior found : Option Observed)
    → holds (λ x. is_other x.sha256 prior) found ≡ is_changed prior found
holds-changed prior none = refl
holds-changed prior (some x) = refl

-- For every key, in terms of the entries of the two dictionaries: it is added where it is only in the
-- new one, not observed where it is only in the old one, and changed where the digests differ; and the
-- new one has as many entries as are added, changed and unchanged.
abbrev pub Classifies : List Observed → List Observed → Changes → Type 0
Classifies old new c =
    ((k : String) → contains k c.added ≡ is_new (lookup k old) (lookup k new))
    × ((k : String) → contains k c.not_observed ≡ is_new (lookup k new) (lookup k old))
    × ((k : String) → contains k c.changed ≡ is_changed (lookup k old) (lookup k new))
    × (length c.added + length c.changed + c.unchanged_count ≡ length new)

changes_between-Classifies :
    (first second : List Observed)
    → Classifies (index first) (index second) (changes_between (index first) (index second))
unfolding changes_between
changes_between-Classifies first second =
    let old = index first in
    let new = index second in
    (
      (λ k. only k old new (index-Keyed second)),
      (λ k. only k new old (index-Keyed first)),
      (λ k.
          contains-sorted_keys _ k new (index-Keyed second)
          ∙ holds-lookup (λ j x. is_other x.sha256 (lookup j old)) k new (lookup k new) refl
          ∙ holds-changed (lookup k old) (lookup k new)),
      (rw
          (
            length-sorted_keys (select (λ x. is_missing (lookup x.key old)) new),
            length-sorted_keys (select (λ x. is_other x.sha256 (lookup x.key old)) new),
          )
          (length-classes old new)),
    )
  where
    only :
        (k : String) (old new : List Observed)
        → Keyed Observed.key new
        → contains k (sorted_keys (select (λ x. is_missing (lookup x.key old)) new))
          ≡ is_new (lookup k old) (lookup k new)
    only k old new keyed =
        contains-sorted_keys _ k new keyed
        ∙ holds-lookup (λ j x. is_missing (lookup j old)) k new (lookup k new) refl
        ∙ holds-new (lookup k old) (lookup k new)

-- What is returned for two valid snapshots of the same scope classifies the entries of both.
pub compare_snapshots-Classifies :
    (lib : Library) (before after : Value) (c : Changes)
    → compare_snapshots lib before after ≡ done c
    → (first : Members) × (second : Members) × (old : List Observed) × (new : List Observed)
      × (validate_snapshot lib before ≡ done first)
      × (validate_snapshot lib after ≡ done second)
      × (rows_of first ≡ done old)
      × (rows_of second ≡ done new)
      × (same_value (get_value "scope" first) (get_value "scope" second) ≡ true)
      × Classifies (index old) (index new) c
unfolding compare_snapshots
compare_snapshots-Classifies lib before after c run =
    let (first, valid_before, run1) = >>=-eq-done (validate_snapshot lib before) _ run in
    let (second, valid_after, run2) = >>=-eq-done (validate_snapshot lib after) _ run1 in
    let (passed, scopes, run3) =
      >>=-eq-done (require (same_value (get_value "scope" first) (get_value "scope" second))) _
        run2 in
    let (old, old_rows, run4) = >>=-eq-done (rows_of first) _ run3 in
    let (new, new_rows, run5) = >>=-eq-done (rows_of second) _ run4 in
    (
      first,
      second,
      old,
      new,
      valid_before,
      valid_after,
      old_rows,
      new_rows,
      (require-Gives _).gives passed scopes,
      subst (Classifies (index old) (index new)) (done-injective _ c run5)
          (changes_between-Classifies old new),
    )
