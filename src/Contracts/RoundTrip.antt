-- ===== src/Contracts/RoundTrip.antt =====
-- Encoding and decoding of the results of control_plane/contracts.py.
use pepeuchiacluster.Prelude.{◌≡◌, refl, sym, ap, subst, String, List, [], ◌∷◌, Option, some, arith}
use pepeuchiacluster.Contracts.Problems.{
  Result, ok, require, ◌>>=◌, ok-injective, required, >>=-eq-ok,
}
use pepeuchiacluster.Contracts.Values.{
  Value, null, text, array, Items, nil, cons, Members, items, fields, at, contains,
}
use pepeuchiacluster.Contracts.Texts.{codes, is_identifier, check_identifier, identifier}
use pepeuchiacluster.Contracts.Lifecycle.{
  State, completed, failed, interrupted, cancelled, state_name,
}
use pepeuchiacluster.Contracts.Outcomes.{
  ExecutionResult, status_of, outputs_of, error_code_of, from_dict, to_dict, array_of, error_value,
  error_codes,
}

-- What the decoding checks of a result.
pub record IsReported (r : ExecutionResult) : Type 0 where
  pub attempt_id : identifier (text r.attempt_id) ≡ ok r.attempt_id
  pub generation : identifier (text r.generation) ≡ ok r.generation
  pub status : status_of (text (state_name r.status)) ≡ ok r.status
  pub outputs : outputs_of (array (array_of r.outputs)) ≡ ok r.outputs
  pub error_code : error_code_of (error_value r.error_code) ≡ ok r.error_code

pub from_dict-to_dict : (r : ExecutionResult) → IsReported r → from_dict (to_dict r) ≡ ok r
unfolding from_dict to_dict fields at require
from_dict-to_dict r h =
    rw h.attempt_id (rw h.generation (rw h.status (rw h.outputs (rw h.error_code refl))))

items-array_of : (vs : List Value) → items (array_of vs) ≡ vs
items-array_of [] = refl
items-array_of (v ∷ vs) = ap (λ l. v ∷ l) (items-array_of vs)

array_of-items : (vs : Items) → array_of (items vs) ≡ vs
array_of-items nil = refl
array_of-items (cons v vs) = ap (cons v) (array_of-items vs)

status-again : (v : Value) (s : State) → status_of v ≡ ok s → status_of (text (state_name s)) ≡ ok s
unfolding status_of
status-again (text t) completed e = refl
status-again (text t) failed e = refl
status-again (text t) interrupted e = refl
status-again (text t) cancelled e = refl
status-again (text t) _ e = ground arith
status-again _ s e = ground arith

outputs-again :
    (v : Value) (vs : List Value) → outputs_of v ≡ ok vs → outputs_of (array (array_of vs)) ≡ ok vs
unfolding outputs_of
outputs-again (array xs) vs e =
    let (short, same_items) = required _ _ _ _ e in
    rw (items-array_of vs) (rw (sym same_items) (rw short refl))
outputs-again _ vs e = ground arith

error_code-again :
    (v : Value) (c : Option String) → error_code_of v ≡ ok c → error_code_of (error_value c) ≡ ok c
unfolding error_code_of
error_code-again null c e = ground arith
error_code-again (text t) c e =
    let (known, same_code) = required (contains t error_codes) _ (some t) c e in
    subst (λ x. error_code_of (error_value x) ≡ ok x) same_code (rw known refl)
error_code-again _ c e = ground arith

pub identifier-again : (v : Value) (k : String) → identifier v ≡ ok k → identifier (text k) ≡ ok k
unfolding identifier check_identifier
identifier-again (text t) k e =
    let (valid, same_text) = required (is_identifier (codes t)) _ t k e in
    subst (λ x. identifier (text x) ≡ ok x) same_text (rw valid refl)
identifier-again _ k e = ground arith

-- What holds of the value of a result that has one.
record Yields {A : Type 0} (Q : A → Type 0) (m : Result A) : Type 0 where
  at_ok : (a : A) → m ≡ ok a → Q a

Yields-ok : {A : Type 0} {Q : A → Type 0} (a : A) → Q a → Yields Q (ok a)
Yields-ok {A} {Q} a q = record { at_ok = λ b e. subst Q (ok-injective a b e) q }

Yields-bind :
    {A B : Type 0} {Q : B → Type 0} (m : Result A) (f : A → Result B)
    → ((a : A) → m ≡ ok a → Yields Q (f a))
    → Yields Q (m >>= f)
Yields-bind m f k = record {
  at_ok = λ b e. let (a, found, rest) = >>=-eq-ok m f e in (k a found).at_ok b rest;
}

-- a member that is read and decoded
from_member :
    {A : Type 0} (m : Members) (k : String) (f : Value → Result A) (a : A)
    → (at k m >>= f) ≡ ok a
    → (v : Value) × (f v ≡ ok a)
from_member m k f a e = let (v, _, d) = >>=-eq-ok (at k m) f e in (v, d)

-- A decoded result satisfies all that the decoding checks.
decoded : (v : Value) → Yields IsReported (from_dict v)
unfolding from_dict
decoded v = Yields-bind (fields v _ _) _ λ m _. Yields-bind (at "schema" m) _ λ schema _.
    Yields-bind (require _ "invalid_schema") _ λ _ _.
      Yields-bind (at "attempt_id" m >>= identifier) _ λ attempt e1.
        Yields-bind (at "generation" m >>= identifier) _ λ generation e2.
          Yields-bind (at "status" m >>= status_of) _ λ status e3.
            Yields-bind (at "outputs" m >>= outputs_of) _ λ outputs e4.
              Yields-bind (at "error_code" m >>= error_code_of) _ λ code e5.
                let (v1, d1) = from_member m "attempt_id" identifier attempt e1 in
                let (v2, d2) = from_member m "generation" identifier generation e2 in
                let (v3, d3) = from_member m "status" status_of status e3 in
                let (v4, d4) = from_member m "outputs" outputs_of outputs e4 in
                let (v5, d5) = from_member m "error_code" error_code_of code e5 in
                Yields-ok _ (record {
                  attempt_id = identifier-again v1 attempt d1;
                  generation = identifier-again v2 generation d2;
                  status = status-again v3 status d3;
                  outputs = outputs-again v4 outputs d4;
                  error_code = error_code-again v5 code d5;
                })

-- A result that has been decoded is encoded to a document that decodes to the same result, so that
-- the second decoding in `finish` never refuses what the first has passed.
pub from_dict-again :
    (v : Value) (r : ExecutionResult) → from_dict v ≡ ok r → from_dict (to_dict r) ≡ ok r
from_dict-again v r e = from_dict-to_dict r ((decoded v).at_ok r e)
