-- ===== src/Worker/Receipts/Accepted.antt =====
-- The receipts that pepeuch_worker/verification.py accepts.
use pepeuchiacluster.Prelude.{
  ℕ, ◌+◌, ◌≤◌, ◌<◌, ◌≡◌, refl, sym, subst, ◌∙◌, ap, Bool-cases, inl, inr, Bool, true, false, not,
  String, same, same_iff, List, [], ◌∷◌, Option, none, some, all, arith, if◌then◌else◌,
}
use pepeuchiacluster.Contracts.{Result, ok, err, ok-injective, >>=-eq-ok}
use pepeuchiacluster.Contracts.Values.{
  Value, text, object, Members, none_left, member, keys, contains, fields, at,
}
use pepeuchiacluster.Contracts.Texts.{is_digest}
use pepeuchiacluster.Worker.Receipts.{
  Readings, negative_tests, proof_errors, receipt_schema, equals_text, is_digest_text, is_proved,
  test_errors, same_names, tests_errors, is_fresh, bound_errors, Receipt, read_receipt,
  checked_errors, receipt_errors,
}

pub equals_text-eq : (s : String) (v : Value) → equals_text s v ≡ true → v ≡ text s
equals_text-eq s (text t) e = ap text ((same_iff t s).0 e)
equals_text-eq s _ e = cc

-- the text of a digest
abbrev pub HoldsDigest : Value → Type 0
HoldsDigest v = (d : String) × (v ≡ text d) × (is_digest d ≡ true)

pub is_digest_text-HoldsDigest : (v : Value) → is_digest_text v ≡ true → HoldsDigest v
is_digest_text-HoldsDigest (text d) e = (d, refl, e)
is_digest_text-HoldsDigest _ e = cc

-- the lists have the same names
abbrev pub SameNames : List String → List String → Type 0
SameNames xs ys = (x : String) → contains x xs ≡ contains x ys

subset-contains :
    (xs ys : List String)
    → all (λ x. contains x ys) xs ≡ true
    → (x : String) → contains x xs ≡ true
    → contains x ys ≡ true
subset-contains [] ys e x h = cc
subset-contains (z ∷ xs) ys e x h =
    let rest = subset-contains xs ys in
    elim (Bool-cases (same x z)) [
      | inl hit ↦
          let here : contains z ys ≡ true = ground arith in
          subst (λ y. contains y ys ≡ true) (sym ((same_iff x z).0 hit)) here
      | inr miss ↦ rest (ground arith) x (ground arith)
    ]

pub same_names-SameNames : (xs ys : List String) → same_names xs ys ≡ true → SameNames xs ys
same_names-SameNames xs ys e x =
    let there = subset-contains xs ys (ground arith) x in
    let back = subset-contains ys xs (ground arith) x in ground arith

-- A result of the three fields that is a pass of an independent probe, with the digest of its evidence.
pub record IsProof (result : Value) : Type 0 where
  pub m : Members
  pub read : fields result ("outcome" ∷ "method" ∷ "evidence_sha256" ∷ []) [] ≡ ok m
  pub outcome : at "outcome" m ≡ ok (text "pass")
  pub method : at "method" m ≡ ok (text "independent-os-probe/v1")
  pub evidence : (v : Value) × (at "evidence_sha256" m ≡ ok v) × HoldsDigest v

is_proved-IsProof : (v : Value) → is_proved v ≡ ok true → IsProof v
unfolding is_proved
is_proved-IsProof v e =
    let (m, read, e1) = >>=-eq-ok (fields v _ []) _ e in
    let (outcome, is_outcome, e2) = >>=-eq-ok (at "outcome" m) _ e1 in
    let (method, is_method, e3) = >>=-eq-ok (at "method" m) _ e2 in
    let (evidence, is_evidence, e4) = >>=-eq-ok (at "evidence_sha256" m) _ e3 in
    let all_ = ok-injective _ true e4 in
    let one : equals_text "pass" outcome ≡ true = ground arith in
    let two : equals_text "independent-os-probe/v1" method ≡ true = ground arith in
    let three : is_digest_text evidence ≡ true = ground arith in
    record {
      m = m;
      read = read;
      outcome = is_outcome ∙ ap ok (equals_text-eq "pass" outcome one);
      method = is_method ∙ ap ok (equals_text-eq "independent-os-probe/v1" method two);
      evidence = (evidence, is_evidence, is_digest_text-HoldsDigest evidence three);
    }

-- every test of a receipt is proved
abbrev pub AllProved : Members → Type 0
AllProved none_left = Unit
AllProved (member name result rest) = IsProof result × AllProved rest

proof_errors_none :
    (name : String) (r : Result Bool) (rest : List String)
    → proof_errors name r rest ≡ []
    → (r ≡ ok true) × (rest ≡ [])
proof_errors_none name (err p) rest e = cc
proof_errors_none name (ok false) rest e = cc
proof_errors_none name (ok true) rest e = (refl, e)

test_errors-AllProved : (tests : Members) → test_errors tests ≡ [] → AllProved tests
unfolding test_errors
test_errors-AllProved none_left e = tt
test_errors-AllProved (member name result rest) e =
    let (proved, none_) = proof_errors_none name (is_proved result) (test_errors rest) e in
    (is_proved-IsProof result proved, test_errors-AllProved rest none_)

-- the tests of a receipt: those that are asked for, each proved
abbrev pub HasTests : Value → Type 0
HasTests v =
    (tests : Members) × (v ≡ object tests) × SameNames (keys tests) negative_tests × AllProved tests

chosen_none :
    (b : Bool) (rest : List String) (x : String)
    → (if b then rest else x ∷ []) ≡ []
    → (b ≡ true) × (rest ≡ [])
chosen_none true rest x e = (refl, e)
chosen_none false rest x e = cc

passed_none :
    (b : Bool) (x : String) (rest : List String)
    → (if not b then x ∷ [] else rest) ≡ []
    → (b ≡ true) × (rest ≡ [])
passed_none true x rest e = (refl, e)
passed_none false x rest e = cc

tests_errors-HasTests : (v : Value) → tests_errors v ≡ [] → HasTests v
unfolding tests_errors
tests_errors-HasTests (object tests) e =
    let (named, none_) =
      chosen_none (same_names (keys tests) negative_tests) (test_errors tests) _ e in
    (
      tests,
      refl,
      same_names-SameNames (keys tests) negative_tests named,
      test_errors-AllProved tests none_,
    )
tests_errors-HasTests _ e = cc

-- a time between the two instants of a receipt, which are no further apart than its greatest age
abbrev pub IsTimely : Option ℕ → ℕ → Option ℕ → Option ℕ → Type 0
IsTimely now max_age issued expires =
    (n : ℕ) × (i : ℕ) × (x : ℕ) × (now ≡ some n)
    × (issued ≡ some i)
    × (expires ≡ some x)
    × (i ≤ n)
    × (n < x)
    × (x ≤ i + max_age)

pub is_fresh-IsTimely :
    (now : Option ℕ) (max_age : ℕ) (issued expires : Option ℕ)
    → is_fresh now max_age issued expires ≡ true
    → IsTimely now max_age issued expires
unfolding is_fresh
is_fresh-IsTimely (some n) max_age (some i) (some x) e =
    (n, i, x, refl, refl, refl, ground arith, ground arith, ground arith)
is_fresh-IsTimely _ max_age _ _ e = cc

-- two digests that are there and are the same
abbrev pub IsBound : Option String → Option String → Type 0
IsBound given expected = (d : String) × (given ≡ some d) × (expected ≡ some d)

bound_errors_none :
    (given expected : Option String) (rest : List String)
    → bound_errors given expected rest ≡ []
    → IsBound given expected × (rest ≡ [])
bound_errors_none (some a) (some b) rest e =
    let (agree, none_) = passed_none (same a b) _ _ e in
    ((b, ap some ((same_iff a b).0 agree), refl), none_)
bound_errors_none _ _ rest e = cc

module _ (readings : Readings) (context : Value) (now : Option ℕ) (max_age : ℕ) where
  -- a receipt of this context, at this time
  pub record IsReceipt (r : Receipt) : Type 0 where
    pub schema_is : r.schema ≡ text receipt_schema
    pub bound : IsBound (readings.digest r.binding) (readings.digest context)
    pub timely : IsTimely now max_age (readings.instant r.issued) (readings.instant r.expires)
    pub tested : HasTests r.tests

  checked_errors-IsReceipt :
      (o : Result Receipt)
      → checked_errors readings context now max_age o ≡ []
      → (r : Receipt) × (o ≡ ok r) × IsReceipt r
  unfolding checked_errors
  checked_errors-IsReceipt (err p) e = cc
  checked_errors-IsReceipt (ok r) e =
      let (schema_, first) = passed_none (equals_text receipt_schema r.schema) _ _ e in
      let (bound_, second) =
        bound_errors_none (readings.digest r.binding) (readings.digest context) _ first in
      let (fresh_, third) =
        passed_none (is_fresh now max_age (readings.instant r.issued) (readings.instant r.expires))
          _ _ second in
      (
        r,
        refl,
        record {
          schema_is = equals_text-eq receipt_schema r.schema schema_;
          bound = bound_;
          timely = is_fresh-IsTimely now max_age _ _ fresh_;
          tested = tests_errors-HasTests r.tests third;
        },
      )

  -- Where no error is given, a document of the five fields is given: its schema is the receipt's, its
  -- binding and the context have the same digest, its two instants are around now and at most the greatest
  -- age apart, and its tests have exactly the names that are asked for, each the pass of an independent
  -- probe with the digest of its evidence.
  pub receipt_errors-IsReceipt :
      (document : Option Value)
      → receipt_errors readings context now max_age document ≡ []
      → (v : Value) × (r : Receipt) × (document ≡ some v) × (read_receipt v ≡ ok r) × IsReceipt r
  unfolding receipt_errors
  receipt_errors-IsReceipt none e = cc
  receipt_errors-IsReceipt (some v) e =
      let (r, read, is) = checked_errors-IsReceipt (read_receipt v) e in (v, r, refl, read, is)
