-- ===== src/Execution/Plans.antt =====
-- The plans that `approve` of control_plane/execution.py accepts, and those of the two coordinators.
use mathlib.Core.Option.{some-injective}
use pepeuchiacluster.Prelude.{
  ◌≡◌, refl, sym, subst, Bool, true, false, ◌&&◌, String, same, same_refl, same_iff, List, [], ◌∷◌,
  Option, none, some, arith, any, if◌then◌else◌, Bool-cases, inl, inr,
}
use pepeuchiacluster.Contracts.{ok-injective, Problem, Result, ok, err}
use pepeuchiacluster.Contracts.Values.{contains}
use pepeuchiacluster.Capabilities.{
  Spec, spec_of, demo, demo_spec, cpu_digest, cpu_spec, routed, first_able, route, demo_plan, plan,
}
use pepeuchiacluster.Storage.Rows.{Plan}
use pepeuchiacluster.Storage.Responses.{MissionView, PublicWorker}
use pepeuchiacluster.Execution.Decide.{is_valid_plan}

found_able :
    (c : String) (ws : List PublicWorker) (w : PublicWorker)
    → first_able c ws ≡ some w
    → any (λ x. same x.id w.id && contains c x.capabilities) ws ≡ true
found_able c [] w e = ground arith
found_able c (x ∷ ws) w e =
    let again = found_able c ws w in let mine = same_refl w.id in ground arith

valid-routed :
    (c : String) (s : Spec) (w : PublicWorker) (ws : List PublicWorker)
    → first_able c ws ≡ some w
    → is_valid_plan (routed c s w.id) c s ws ≡ true
unfolding is_valid_plan
valid-routed c s w ws e = elim (Bool-cases s.simulated) [
  | inl real ↦ rw (same_refl c) (
      rw (same_refl s.role)
        (rw (same_refl s.instruction) (rw real (rw (found_able c ws w e) refl))))
  | inr not_real ↦ rw (same_refl c) (
      rw (same_refl s.role)
        (rw (same_refl s.instruction) (rw not_real (rw (found_able c ws w e) refl))))
]

route-valid :
    (c : String) (s : Spec) (ws : List PublicWorker) (o : Option PublicWorker) (p : Plan)
    → first_able c ws ≡ o
    → route c s o ≡ ok p
    → is_valid_plan p c s ws ≡ true
route-valid c s ws none p found e = ground arith
route-valid c s ws (some w) p found e =
    subst (λ x. is_valid_plan x c s ws ≡ true) (ok-injective _ p e) (valid-routed c s w ws found)

if_true : {A : Type 0} (b : Bool) (x y z : A) → b ≡ true → (if b then x else y) ≡ z → x ≡ z
if_true b x y z h e = subst (λ t. (if t then x else y) ≡ z) h e

if_false : {A : Type 0} (b : Bool) (x y z : A) → b ≡ false → (if b then x else y) ≡ z → y ≡ z
if_false b x y z h e = subst (λ t. (if t then x else y) ≡ z) h e

refused : {A : Type 0} (c : Problem) (a : A) → err c ≡ ok a → ⊥
refused c a e = ground arith

no_refusal :
    {A : Type 0} (b : Bool) (m : Result A) (c : Problem) (a : A)
    → (if b then m else err c) ≡ ok a
    → m ≡ ok a
no_refusal true m c a e = e
no_refusal false m c a e = absurd (refused c a e)

reach :
    (c d : String) (t : Spec) (ws : List PublicWorker) (p : Plan) (s : Spec)
    → same c d ≡ true
    → route d t (first_able d ws) ≡ ok p
    → some t ≡ some s
    → is_valid_plan p c s ws ≡ true
reach c d t ws p s hit e known =
    let valid = route-valid d t ws (first_able d ws) p refl e in
    let here = subst (λ x. is_valid_plan p d x ws ≡ true) (some-injective t s known) valid in
    subst (λ x. is_valid_plan p x s ws ≡ true) (sym ((same_iff c d).0 hit)) here

-- A plan of the coordinator of the control plane, for a mission of either capability, always passes
-- the test of `approve`.
pub plan-is_valid :
    (seen : MissionView) (ws : List PublicWorker) (p : Plan) (s : Spec)
    → plan seen ws ≡ ok p
    → spec_of seen.required_capability ≡ some s
    → is_valid_plan p seen.required_capability s ws ≡ true
unfolding plan demo_plan spec_of
plan-is_valid seen ws p s e known =
    let c = seen.required_capability in
    elim (Bool-cases (same c demo)) [
      | inl hit ↦
          reach c demo demo_spec ws p s hit (if_true _ _ _ _ hit e) (if_true _ _ _ _ hit known)
      | inr miss ↦
          let other = if_false _ _ _ _ miss e in
          let spec = if_false _ _ _ _ miss known in
          elim (Bool-cases (same c cpu_digest)) [
            | inl cpu ↦
                reach c cpu_digest cpu_spec ws p s cpu
                  (no_refusal _ _ _ p (if_true _ _ _ _ cpu other)) (if_true _ _ _ _ cpu spec)
            | inr none_known ↦ absurd (refused _ p (if_false _ _ _ _ none_known other))
          ]
    ]
