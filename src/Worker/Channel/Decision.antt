-- ===== src/Worker/Channel/Decision.antt =====
-- pepeuch_worker/verification_channel.py, `validate_decision`: what a reply must be to permit a launch.
pub mod Permits
use pepeuchiacluster.Prelude.{
  ℕ, ◌+◌, Bool, true, false, ◌&&◌, not, String, same, List, [], ◌∷◌, Option, none, some,
}
use pepeuchiacluster.Contracts.{Result, ok, err, ◌>>=◌, ◌>>◌}
use pepeuchiacluster.Contracts.Values.{
  Value, text, bool, object, Members, none_left, member, keys, fields, at,
}
use pepeuchiacluster.Contracts.Texts.{is_digest}
use pepeuchiacluster.Worker.Channel.{check, unverified}
use pepeuchiacluster.Worker.Receipts.{Readings, equals_text, is_digest_text, is_fresh, same_names}

-- `REPLY`
abbrev pub reply_schema : String
reply_schema = "pepeuch.worker/verification-decision/v1"

-- `CHECKS` of pepeuch_worker/verification.py
abbrev pub checks : List String
checks =
    "identity" ∷ "groups" ∷ "privileges" ∷ "cgroup" ∷ "cpu" ∷ "memory" ∷ "swap" ∷ "pids"
    ∷ "code_readonly" ∷ "filesystem" ∷ "devices" ∷ "network_ipv4" ∷ "network_ipv6"
    ∷ "backend_only_port" ∷ "account_exclusive" ∷ "group_stop" ∷ "runtime" ∷ "backend_identity"
    ∷ "inherited_sockets" ∷ "unit_binding" ∷ "code_integrity" ∷ []

-- The request that a session sends, as far as the reply is compared with it.
pub record Query : Type 0 where
  pub nonce : String
  pub context : Value
  pub configuration : Value
  pub profile : String

-- a value is the text of a digest
abbrev pub is_digest_of : Option String → Value → Bool
is_digest_of none v = false
is_digest_of (some d) v = equals_text d v

abbrev pub zero_digest : String
zero_digest = "0000000000000000000000000000000000000000000000000000000000000000"

abbrev pub is_true : Value → Bool
is_true (bool b) = b
is_true _ = false

-- one guarantee of a decision
unfoldable pub check_guarantee : Value → Result (Unit {0})
check_guarantee item = do
  m ← fields item ("enforced" ∷ "verified" ∷ "evidence_sha256" ∷ []) []
  enforced ← at "enforced" m
  verified ← at "verified" m
  evidence ← at "evidence_sha256" m
  check (is_true enforced && is_true verified && is_digest_text evidence)

unfoldable pub check_guarantees : Members → Result (Unit {0})
unfolding check_guarantee
check_guarantees none_left = ok tt
check_guarantees (member name item rest) = do check_guarantee item; check_guarantees rest

unfoldable pub all_guarantees : Value → Result (Unit {0})
unfolding check_guarantees
all_guarantees (object m) = do check (same_names (keys m) checks); check_guarantees m
all_guarantees _ = unverified

abbrev pub is_real_digest : Value → Bool
is_real_digest v = is_digest_text v && not (equals_text zero_digest v)

-- The fields of a reply that are read.
pub record Reply : Type 0 where
  pub schema : Value
  pub nonce : Value
  pub context : Value
  pub configuration : Value
  pub profile : Value
  pub policy : Value
  pub issued : Value
  pub expires : Value
  pub decision : Value
  pub guarantees : Value
  pub receipt : Value

unfoldable pub read_reply : Value → Result Reply
read_reply document = do
  m ←
      fields document
        ("schema" ∷ "nonce" ∷ "context_sha256" ∷ "configuration_sha256" ∷ "profile"
          ∷ "policy_sha256" ∷ "issued_monotonic" ∷ "expires_monotonic" ∷ "decision" ∷ "guarantees"
          ∷ "receipt_sha256" ∷ [])
        []
  a ← at "schema" m
  b ← at "nonce" m
  c ← at "context_sha256" m
  d ← at "configuration_sha256" m
  e ← at "profile" m
  f ← at "policy_sha256" m
  g ← at "issued_monotonic" m
  h ← at "expires_monotonic" m
  i ← at "decision" m
  j ← at "guarantees" m
  k ← at "receipt_sha256" m
  ok (record {
    schema = a;
    nonce = b;
    context = c;
    configuration = d;
    profile = e;
    policy = f;
    issued = g;
    expires = h;
    decision = i;
    guarantees = j;
    receipt = k;
  })

module _ (readings : Readings) (query : Query) (now : Option ℕ) where
  -- the reply is a permit, for this query
  abbrev pub is_answer : Reply → Bool
  is_answer r =
      equals_text reply_schema r.schema
      && equals_text query.nonce r.nonce
      && equals_text "permit" r.decision
      && is_digest_of (readings.digest query.context) r.context
      && is_digest_of (readings.digest query.configuration) r.configuration
      && equals_text query.profile r.profile

  unfoldable pub check_reply : Reply → Result (Unit {0})
  unfolding all_guarantees is_fresh
  check_reply r = do
    check (is_answer r)
    check (is_real_digest r.policy)
    check (is_real_digest r.receipt)
    check (is_fresh now 2000000 (readings.instant r.issued) (readings.instant r.expires))
    all_guarantees r.guarantees

  -- `validate_decision`; a session keeps the digest of the policy
  unfoldable pub validate_decision : Value → Result Value
  unfolding read_reply check_reply
  validate_decision document = do r ← read_reply document; check_reply r; ok r.policy
