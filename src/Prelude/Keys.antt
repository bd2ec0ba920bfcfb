-- ===== src/Prelude/Keys.antt =====
-- Tables with a primary key: no key stands twice, and what the updates leave for a look-up by key.
use mathlib.Core.Path.{◌≡◌, refl, subst, ap, ◌∙◌}
use mathlib.Core.Logic.{inl, inr}
use mathlib.Core.Bool.{Bool, ◌&&◌}
use mathlib.Core.Option.{Option, none, some}
use mathlib.Core.List.{List, [], ◌∷◌, ◌++◌}
use Prim.Native.String.{String}
use text.Mathlib.Text.{◌==◌ as same}
use text.Mathlib.TextEquality.{eq_iff as same_iff}
use native.Mathlib.Omega.{arith}
use pepeuchiacluster.Prelude.Tests.{if◌then◌else◌, Bool-cases}
use pepeuchiacluster.Prelude.Lists.{find, update_where, find-append_none, find_holds}

module _ {ℓ} {A : Type ℓ} (key : A → String) where
  abbrev pub with_key : String → List A → Option A
  with_key k = find (λ r. same (key r) k)

  abbrev pub Keyed : List A → Type ℓ
  Keyed [] = Unit
  Keyed (r ∷ rs) = (with_key (key r) rs ≡ none) × Keyed rs

  pub with_key-key : (k : String) (rs : List A) (r : A) → with_key k rs ≡ some r → key r ≡ k
  with_key-key k [] r e = cc
  with_key-key k (x ∷ rs) r e = ground (arith, same_iff (key x) k, with_key-key k rs r)

  -- A further condition picks no other row than the key does.
  pub with_key_more :
      (k : String) (q : A → Bool) (rs : List A) (row : A)
      → Keyed rs
      → find (λ r. same (key r) k && q r) rs ≡ some row
      → with_key k rs ≡ some row
  with_key_more k q [] row keyed e = cc
  with_key_more k q (r ∷ rs) row keyed e = elim (Bool-cases (same (key r) k)) [
    | inl hit ↦ elim (Bool-cases (q r)) [
      | inl more ↦ ground arith
      | inr less ↦
          let gone : with_key k rs ≡ none =
            subst (λ j. with_key j rs ≡ none) ((same_iff (key r) k).0 hit) keyed.0 in
          ground (arith, with_key_more k q rs row keyed.1)
    ]
    | inr miss ↦ ground (arith, with_key_more k q rs row keyed.1)
  ]

  pub Keyed-append :
      (rs : List A) (row : A) → Keyed rs → with_key (key row) rs ≡ none → Keyed (rs ++ row ∷ [])
  Keyed-append [] row keyed e = (refl, tt)
  Keyed-append (r ∷ rs) row keyed e = ground (
    arith,
    find-append_none (λ x. same (key x) (key r)) rs (row ∷ []),
    Keyed-append rs row keyed.1,
    same_iff (key r) (key row),
    same_iff (key row) (key r),
  )

  module _ (p : A → Bool) (f : A → A) (keeps : (r : A) → key (f r) ≡ key r) where
    abbrev pub updated : Option A → Option A
    updated none = none
    updated (some r) = some (if p r then f r else r)

    pub with_key-update :
        (k : String) (rs : List A) → with_key k (update_where p f rs) ≡ updated (with_key k rs)
    with_key-update k [] = refl
    with_key-update k (r ∷ rs) = elim (Bool-cases (p r)) [
      | inl hit ↦ rw (hit, keeps r) (ground (arith, with_key-update k rs))
      | inr miss ↦ rw miss (ground (arith, with_key-update k rs))
    ]

    pub Keyed-update : (rs : List A) → Keyed rs → Keyed (update_where p f rs)
    Keyed-update [] keyed = tt
    Keyed-update (r ∷ rs) keyed = elim (Bool-cases (p r)) [
      | inl hit ↦
          rw (hit, keeps r) (rw (with_key-update (key r) rs, keyed.0) refl, Keyed-update rs keyed.1)
      | inr miss ↦ rw miss (rw (with_key-update (key r) rs, keyed.0) refl, Keyed-update rs keyed.1)
    ]

  -- the row of the key that an update is for
  pub with_key-own_update :
      (f : A → A) (keeps : (r : A) → key (f r) ≡ key r) (k : String) (rs : List A) (r : A)
      → with_key k rs ≡ some r
      → with_key k (update_where (λ x. same (key x) k) f rs) ≡ some (f r)
  with_key-own_update f keeps k rs r e =
      with_key-update (λ x. same (key x) k) f keeps k rs
      ∙ ap (updated (λ x. same (key x) k) f keeps) e
      ∙ ap (λ b. some (if b then f r else r)) (find_holds (λ x. same (key x) k) rs r e)
