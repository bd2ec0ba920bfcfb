-- ===== src/Tests/Channel.antt =====
-- A root controller that permits a launch over the channel of pepeuch_worker/verification_channel.py.
use pepeuchiacluster.Prelude.{
  ℕ, ◌≡◌, ◌≢◌, refl, true, false, ◌==◌, String, List, [], ◌∷◌, Option, none, some, arith,
  if◌then◌else◌,
}
use pepeuchiacluster.Contracts.{ok}
use pepeuchiacluster.Contracts.Values.{
  Value, null, bool, int, text, array, object, nil, cons, Members, none_left, member, fields, at,
}
use pepeuchiacluster.Contracts.Texts.{is_digest}
use pepeuchiacluster.Worker.Receipts.{Readings}
use pepeuchiacluster.Worker.Channel.{
  Credential, Peer, start, exhausted, receive, frame, transfer, is_root,
}
use pepeuchiacluster.Worker.Channel.Root.{receive-ends, IsFromRoot, transfer-IsFromRoot}
use pepeuchiacluster.Worker.Channel.Frames.{transfer-frame}
use pepeuchiacluster.Worker.Channel.Decision.{
  Query, checks, reply_schema, Reply, read_reply, validate_decision,
}
use pepeuchiacluster.Worker.Channel.Decision.Permits.{IsPermit, validate_decision-IsPermit}
use pepeuchiacluster.Worker.Channel.Session.{
  WorkerConfiguration, Look, Session, check_once, check_all,
}
use pepeuchiacluster.Worker.Channel.Session.Constant.{IsSettled, check_once-settles}

abbrev ones : String
ones = "1111111111111111111111111111111111111111111111111111111111111111"

abbrev seconds : Value → Option ℕ
seconds (int n) = some n
seconds _ = none

abbrev readings : Readings
readings = record { digest = λ v. some "digest"; instant = seconds }

abbrev guarantees : List String → Members
guarantees [] = none_left
guarantees (name ∷ rest) =
    member name
      (object (
        member "enforced" (bool true)
          (member "verified" (bool true) (member "evidence_sha256" (text ones) none_left))))
      (guarantees rest)

abbrev permit : Value
permit = object (
    member "schema" (text reply_schema) (
      member "nonce" (text "nonce") (
        member "context_sha256" (text "digest") (
          member "configuration_sha256" (text "digest") (
            member "profile" (text "profile") (
              member "policy_sha256" (text ones) (
                member "issued_monotonic" (int 10) (
                  member "expires_monotonic" (int 20) (
                    member "decision" (text "permit") (
                      member "guarantees" (object (guarantees checks))
                        (member "receipt_sha256" (text ones) none_left)))))))))))

abbrev root : Credential
root = record { pid = 1; uid = 0; gid = 0 }

abbrev message : ℕ → List ℕ
message n = if n == 0 then 0 ∷ 0 ∷ 0 ∷ 2 ∷ [] else 7 ∷ 8 ∷ []

-- every document is written as two bytes, which are read as the permit
abbrev peer : Peer
peer = record {
  receive_message =
      λ n wanted. record { bytes = message n; credentials = root ∷ []; unexpected = false };
  clock = λ n. n;
  deadline = 100;
  canonical = λ v. 7 ∷ 8 ∷ [];
  decode = λ raw. ok permit;
}

receive-ends_example : receive peer 5 start ≢ exhausted
receive-ends_example = receive-ends peer 5 start

framed : (v : Value) → frame peer v ≡ some (0 ∷ 0 ∷ 0 ∷ 2 ∷ 7 ∷ 8 ∷ [])
unfolding frame
framed v = refl

transfer-frame_example : transfer peer null ≡ ok (permit, some root)
transfer-frame_example =
    transfer-frame peer null permit root (0 ∷ 0 ∷ 0 ∷ 2 ∷ 7 ∷ 8 ∷ []) (0 ∷ 0 ∷ 0 ∷ 2 ∷ 7 ∷ 8 ∷ [])
      (framed null) (framed permit) (omega arith) refl (omega arith) (omega arith) refl refl refl

transferred : transfer peer null ≡ ok (permit, some root)
unfolding transfer
transferred = refl

transfer-IsFromRoot_example : IsFromRoot peer permit (some root)
transfer-IsFromRoot_example = transfer-IsFromRoot peer null permit (some root) transferred

abbrev query : Query
query = record { nonce = "nonce"; context = null; configuration = null; profile = "profile" }

permitted : validate_decision readings query (some 15) permit ≡ ok (text ones)
unfolding validate_decision fields at is_digest
permitted = refl

validate_decision-IsPermit_example :
    (r : Reply) × (read_reply permit ≡ ok r)
    × (r.policy ≡ text ones)
    × IsPermit readings query (some 15) r
validate_decision-IsPermit_example =
    validate_decision-IsPermit readings query (some 15) permit (text ones) permitted

abbrev configuration : WorkerConfiguration
configuration = record {
  document = null;
  profile = "profile";
  expected_uid = 1000;
  expected_gid = 1000;
  backend_uid = 1001;
}

abbrev four : Value
four = array (cons (int 1000) (cons (int 1000) (cons (int 1000) (cons (int 1000) nil))))

abbrev process : Value
process = object (
    member "pid" (int 7) (
      member "status"
        (object (
          member "Uid" four (
            member "Gid" four (
              member "NoNewPrivs" (int 1) (
                member "CapInh" (int 0) (
                  member "CapPrm" (int 0) (
                    member "CapEff" (int 0)
                      (member "CapBnd" (int 0) (member "CapAmb" (int 0) none_left)))))))))
        none_left))

abbrev observations : Value
observations = object (
    member "synthetic" (bool false) (
      member "stable" (bool true) (
        member "unavailable" (array nil)
          (member "process" process (member "configuration_sha256" (text "digest") none_left)))))

abbrev look : Look
look = record {
  is_system = true;
  controller = root;
  observations = observations;
  pid = 7;
  uid = 1000;
  euid = 1000;
  gid = 1000;
  egid = 1000;
  nonce = "nonce";
  peer = peer;
  now = some 15;
}

abbrev fresh_session : Session
fresh_session = record { context = none; writer = none; policy = none }

abbrev verified : Session
verified = record { context = some process; writer = some root; policy = some (text ones) }

checked : check_once readings (λ r. false) (int 3) configuration fresh_session look ≡ ok verified
unfolding check_once fields at is_digest
checked = refl

check_once-settles_example :
    (w : Credential) × (p : String) × (d : String) × (is_root w ≡ true)
    × IsSettled readings (λ r. false) (int 3) configuration w p d verified
    × IsSettled readings
        (λ r. false)
        (int 3)
        configuration
        w
        p
        d
        (check_all readings (λ r. false) (int 3) configuration verified (look ∷ look ∷ []))
check_once-settles_example =
    check_once-settles readings (λ r. false) (int 3) configuration fresh_session verified look
      (look ∷ look ∷ []) checked
