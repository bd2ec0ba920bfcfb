-- ===== src/Worker/Channel/Decision/Permits.antt =====
-- The replies that pepeuch_worker/verification_channel.py takes for a permit.
use pepeuchiacluster.Prelude.{
  ℕ, ◌≡◌, ◌≢◌, ◌∙◌, [], ◌∷◌, refl, ap, Bool, true, false, String, same_iff, Option, none, some,
  arith,
}
use pepeuchiacluster.Contracts.{ok, ok-injective, >>=-eq-ok}
use pepeuchiacluster.Contracts.Values.{
  Value, text, bool, object, Members, none_left, member, keys, fields, at,
}
use pepeuchiacluster.Contracts.Texts.{is_digest}
use pepeuchiacluster.Worker.Channel.{check}
use pepeuchiacluster.Worker.Receipts.{Readings, equals_text, is_digest_text, is_fresh, same_names}
use pepeuchiacluster.Worker.Receipts.Accepted.{
  IsTimely, is_fresh-IsTimely, equals_text-eq, HoldsDigest, is_digest_text-HoldsDigest, SameNames,
  same_names-SameNames,
}
use pepeuchiacluster.Worker.Channel.Decision.{
  Reply, read_reply, is_answer, check_reply, Query, reply_schema, checks, is_digest_of,
  is_real_digest, zero_digest, is_true, check_guarantee, check_guarantees, all_guarantees,
  validate_decision,
}

pub check-ok : (b : Bool) (u : Unit {0}) → check b ≡ ok u → b ≡ true
check-ok true u e = refl
check-ok false u e = cc

-- A guarantee of the three fields that is enforced and verified, with the digest of its evidence.
pub record IsGuarantee (item : Value) : Type 0 where
  pub m : Members
  pub read : fields item ("enforced" ∷ "verified" ∷ "evidence_sha256" ∷ []) [] ≡ ok m
  pub enforced : at "enforced" m ≡ ok (bool true)
  pub verified : at "verified" m ≡ ok (bool true)
  pub evidence : (v : Value) × (at "evidence_sha256" m ≡ ok v) × HoldsDigest v

is_true-eq : (v : Value) → is_true v ≡ true → v ≡ bool true
is_true-eq (bool b) e = ap bool e
is_true-eq _ e = cc

check_guarantee-IsGuarantee : (v : Value) → check_guarantee v ≡ ok tt → IsGuarantee v
unfolding check_guarantee
check_guarantee-IsGuarantee v e =
    let (m, read, e1) = >>=-eq-ok (fields v _ []) _ e in
    let (enforced, is_enforced, e2) = >>=-eq-ok (at "enforced" m) _ e1 in
    let (verified, is_verified, e3) = >>=-eq-ok (at "verified" m) _ e2 in
    let (evidence, is_evidence, e4) = >>=-eq-ok (at "evidence_sha256" m) _ e3 in
    let all_ = check-ok _ tt e4 in
    let one : is_true enforced ≡ true = ground arith in
    let two : is_true verified ≡ true = ground arith in
    let three : is_digest_text evidence ≡ true = ground arith in
    record {
      m = m;
      read = read;
      enforced = is_enforced ∙ ap ok (is_true-eq enforced one);
      verified = is_verified ∙ ap ok (is_true-eq verified two);
      evidence = (evidence, is_evidence, is_digest_text-HoldsDigest evidence three);
    }

-- every guarantee is enforced and verified, with evidence
abbrev pub AllGuaranteed : Members → Type 0
AllGuaranteed none_left = Unit
AllGuaranteed (member name item rest) = IsGuarantee item × AllGuaranteed rest

-- the text of a digest that is not all zeros
abbrev pub HoldsRealDigest : Value → Type 0
HoldsRealDigest v = (d : String) × (v ≡ text d) × (is_digest d ≡ true) × (d ≢ zero_digest)

is_real_digest-HoldsRealDigest : (v : Value) → is_real_digest v ≡ true → HoldsRealDigest v
is_real_digest-HoldsRealDigest (text d) e =
    (d, refl, ground arith, λ h. (let hit = (same_iff d zero_digest).1 h in ground arith))
is_real_digest-HoldsRealDigest _ e = cc

check_guarantees-AllGuaranteed : (m : Members) → check_guarantees m ≡ ok tt → AllGuaranteed m
unfolding check_guarantees
check_guarantees-AllGuaranteed none_left e = tt
check_guarantees-AllGuaranteed (member name item rest) e =
    let (u, here, there) = >>=-eq-ok (check_guarantee item) _ e in
    (check_guarantee-IsGuarantee item here, check_guarantees-AllGuaranteed rest there)

-- exactly the guarantees that are asked for, each given
abbrev pub HasGuarantees : Value → Type 0
HasGuarantees v = (m : Members) × (v ≡ object m) × SameNames (keys m) checks × AllGuaranteed m

all_guarantees-HasGuarantees : (v : Value) → all_guarantees v ≡ ok tt → HasGuarantees v
unfolding all_guarantees
all_guarantees-HasGuarantees (object m) e =
    let (u, named, there) = >>=-eq-ok (check (same_names (keys m) checks)) _ e in
    (
      m,
      refl,
      same_names-SameNames (keys m) checks (check-ok _ u named),
      check_guarantees-AllGuaranteed m there,
    )
all_guarantees-HasGuarantees _ e = cc

is_digest_of-eq :
    (d : Option String) (v : Value)
    → is_digest_of d v ≡ true
    → (s : String) × (d ≡ some s) × (v ≡ text s)
is_digest_of-eq none v e = cc
is_digest_of-eq (some s) v e = (s, refl, equals_text-eq s v e)

module _ (readings : Readings) (query : Query) (now : Option ℕ) where
  -- A permit for this query, at this time.
  pub record IsPermit (r : Reply) : Type 0 where
    pub schema : r.schema ≡ text reply_schema
    pub nonce : r.nonce ≡ text query.nonce
    pub decision : r.decision ≡ text "permit"
    pub context : (d : String) × (readings.digest query.context ≡ some d) × (r.context ≡ text d)
    pub configuration :
        (d : String) × (readings.digest query.configuration ≡ some d) × (r.configuration ≡ text d)
    pub profile : r.profile ≡ text query.profile
    pub policy : HoldsRealDigest r.policy
    pub receipt : HoldsRealDigest r.receipt
    pub timely : IsTimely now 2000000 (readings.instant r.issued) (readings.instant r.expires)
    pub guarantees : HasGuarantees r.guarantees

  check_reply-IsPermit : (r : Reply) → check_reply readings query now r ≡ ok tt → IsPermit r
  unfolding check_reply
  check_reply-IsPermit r e =
      let (u, answer, e1) = >>=-eq-ok (check (is_answer readings query now r)) _ e in
      let (v, is_real, e2) = >>=-eq-ok (check (is_real_digest r.policy)) _ e1 in
      let (x, is_receipt, e3) = >>=-eq-ok (check (is_real_digest r.receipt)) _ e2 in
      let (w, fresh, given) =
        >>=-eq-ok
          (check (is_fresh now 2000000 (readings.instant r.issued) (readings.instant r.expires))) _
          e3 in
      let fits = check-ok (is_answer readings query now r) u answer in
      let fits1 : equals_text reply_schema r.schema ≡ true = ground arith in
      let fits2 : equals_text query.nonce r.nonce ≡ true = ground arith in
      let fits3 : equals_text "permit" r.decision ≡ true = ground arith in
      let fits4 : is_digest_of (readings.digest query.context) r.context ≡ true = ground arith in
      let fits5 : is_digest_of (readings.digest query.configuration) r.configuration ≡ true =
        ground arith in
      let fits6 : equals_text query.profile r.profile ≡ true = ground arith in
      record {
        schema = equals_text-eq reply_schema r.schema fits1;
        nonce = equals_text-eq query.nonce r.nonce fits2;
        decision = equals_text-eq "permit" r.decision fits3;
        context = is_digest_of-eq (readings.digest query.context) r.context fits4;
        configuration = is_digest_of-eq (readings.digest query.configuration) r.configuration fits5;
        profile = equals_text-eq query.profile r.profile fits6;
        policy = is_real_digest-HoldsRealDigest r.policy (check-ok _ v is_real);
        receipt = is_real_digest-HoldsRealDigest r.receipt (check-ok _ x is_receipt);
        timely = is_fresh-IsTimely now 2000000 _ _ (check-ok _ w fresh);
        guarantees = all_guarantees-HasGuarantees r.guarantees given;
      }

  -- A reply that is taken has the fields of a decision. It is a permit for the nonce, the context, the
  -- configuration and the profile of the query, with the digests of a policy and of a receipt, issued
  -- and not expired, at most two seconds apart. Its guarantees have exactly the names of the checks, and
  -- each is enforced and verified, with the digest of its evidence.
  pub validate_decision-IsPermit :
      (document policy : Value)
      → validate_decision readings query now document ≡ ok policy
      → (r : Reply) × (read_reply document ≡ ok r) × (r.policy ≡ policy) × IsPermit r
  unfolding validate_decision
  validate_decision-IsPermit document policy e =
      let (r, read_, e1) = >>=-eq-ok (read_reply document) _ e in
      let (u, checked, e2) = >>=-eq-ok (check_reply readings query now r) _ e1 in
      (r, read_, ok-injective r.policy policy e2, check_reply-IsPermit r checked)
