-- ===== src/Worker/Channel/Session.antt =====
-- pepeuch_worker/verification_channel.py, `VerificationSession`: the checks of one launch. What a check
-- sees of the system is a `Look`; an error of a system call has the answer of a refusal.
pub mod Constant
use pepeuchiacluster.Prelude.{
  ℕ, Bool, true, false, ◌&&◌, ◌||◌, not, String, same, List, [], ◌∷◌, Option, none, some, all, leb,
  ltb, ◌==◌,
}
use pepeuchiacluster.Contracts.{Result, ok, err, ◌>>=◌, ◌>>◌}
use pepeuchiacluster.Contracts.Values.{
  Value, null, bool, int, real, text, array, object, nil, cons, Members, none_left, member, at,
}
use pepeuchiacluster.Discovery.Metadata.{same_value, get_value}
use pepeuchiacluster.Worker.Receipts.{Readings}
use pepeuchiacluster.Worker.Channel.{
  Credential, Peer, check, unverified, same_credential, is_root, transfer,
}
use pepeuchiacluster.Worker.Channel.Decision.{Query, validate_decision, is_true, is_digest_of}

pub record WorkerConfiguration : Type 0 where
  pub document : Value
  pub profile : String
  pub expected_uid : ℕ
  pub expected_gid : ℕ
  pub backend_uid : ℕ

-- What one check sees. `is_system` says that the calls on the descriptor succeed, that it is a Unix
-- stream socket, and that `/proc/self/uid_map` is that of the initial namespace.
pub record Look : Type 0 where
  pub is_system : Bool
  pub controller : Credential
  pub observations : Value
  pub pid : ℕ
  pub uid : ℕ
  pub euid : ℕ
  pub gid : ℕ
  pub egid : ℕ
  pub nonce : String
  pub peer : Peer
  pub now : Option ℕ

pub record Session : Type 0 where
  pub context : Option Value
  pub writer : Option Credential
  pub policy : Option Value

abbrev is_descriptor : Value → Bool
is_descriptor (int n) = leb 3 n && leb n 1024
is_descriptor _ = false

abbrev is_false : Value → Bool
is_false (bool b) = not b
is_false _ = false

unfoldable pub members_of : Value → Result Members
members_of (object m) = ok m
members_of _ = unverified

abbrev four_times : ℕ → Value
four_times n = array (cons (int n) (cons (int n) (cons (int n) (cons (int n) nil))))

abbrev capability_sets : List String
capability_sets = "CapInh" ∷ "CapPrm" ∷ "CapEff" ∷ "CapBnd" ∷ "CapAmb" ∷ []

abbrev pub same_digest : Option String → Option String → Bool
same_digest (some a) (some b) = same a b
same_digest _ _ = false

abbrev pub same_writers : Option Credential → Option Credential → Bool
same_writers none new = true
same_writers (some old) none = false
same_writers (some old) (some new) = same_credential old new

abbrev pub same_policies : Option Value → Value → Bool
same_policies none new = true
same_policies (some old) new = same_value old new

abbrev pub kept : Session → Result Session → Session
kept s (ok s') = s'
kept s (err p) = s

-- `except (Problem, ...): raise Problem("os_isolation_not_verified", 503)`
abbrev pub one_refusal : Result Session → Result Session
one_refusal (ok s) = ok s
one_refusal (err p) = unverified

module _ (readings : Readings) (is_zero : ℕ → Bool) (descriptor : Value)
    (c : WorkerConfiguration) where
  -- the truth of a value; `is_zero` tells it of a float
  abbrev is_truthy : Value → Bool
  is_truthy null = false
  is_truthy (bool b) = b
  is_truthy (int n) = not (n == 0)
  is_truthy (real r) = not (is_zero r)
  is_truthy (text t) = not (same t "")
  is_truthy (array nil) = false
  is_truthy (object none_left) = false
  is_truthy _ = true

  -- `context.get("status") or {}`
  abbrev process_status : Value → Value
  process_status v = elim (is_truthy v) [ true ↦ v | false ↦ object none_left ]

  -- the identity of the process against the configuration
  abbrev is_identity : Look → Bool
  is_identity l =
      l.uid == l.euid
      && l.gid == l.egid
      && l.euid == c.expected_uid
      && l.egid == c.expected_gid
      && not (l.euid == 0)
      && not (l.egid == 0)
      && not (l.euid == c.backend_uid)

  -- the status of the process, as it was observed
  unfoldable pub is_confined : Members → Bool
  unfolding same_value
  is_confined status =
      same_value (get_value "Uid" status) (four_times c.expected_uid)
      && same_value (get_value "Gid" status) (four_times c.expected_gid)
      && same_value (get_value "NoNewPrivs" status) (int 1)
      && all (λ name. same_value (get_value name status) (int 0)) capability_sets

  abbrev pub is_stable : Members → Bool
  is_stable o =
      is_false (get_value "synthetic" o)
      && is_true (get_value "stable" o)
      && not (is_truthy (get_value "unavailable" o))

  -- the context of a look, which passes its checks
  unfoldable pub observed_context : Look → Result Value
  unfolding members_of is_confined same_value
  observed_context l = do
    check (is_descriptor descriptor && l.is_system && is_root l.controller)
    o ← members_of l.observations
    check (is_stable o)
    context ← at "process" o
    m ← members_of context
    status ← members_of (process_status (get_value "status" m))
    check (
        same_value (get_value "pid" m) (int l.pid)
        && is_identity l
        && is_digest_of (readings.digest c.document) (get_value "configuration_sha256" o)
        && is_confined status)
    ok context

  -- the context is that of the earlier checks
  abbrev pub is_same_context : Option Value → Value → Bool
  is_same_context none context = true
  is_same_context (some old) context = same_digest (readings.digest old) (readings.digest context)

  abbrev pub query_of : Look → Value → Query
  query_of l context = record {
    nonce = l.nonce;
    context = context;
    configuration = c.document;
    profile = c.profile;
  }

  -- the request that is sent
  unfoldable pub request_of : Look → Value → Value
  request_of l context = object (
      member "schema" (text "pepeuch.worker/verification-request/v1") (
        member "nonce" (text l.nonce)
          (member "configuration" c.document (member "context" context none_left))))

  -- from the reply on
  unfoldable pub accept_reply : Session → Look → Value → Value → Option Credential → Result Session
  unfolding validate_decision same_value
  accept_reply s l context reply writer = do
    policy ← validate_decision readings (query_of l context) l.now reply
    check (same_writers s.writer writer && same_policies s.policy policy)
    ok (record { context = some context; writer = writer; policy = some policy })

  -- from the context on
  unfoldable pub ask : Session → Look → Value → Result Session
  unfolding transfer request_of accept_reply
  ask s l context = do
    check (is_same_context s.context context)
    (reply, writer) ← transfer l.peer (request_of l context)
    accept_reply s l context reply writer

  -- the body of `check`
  unfoldable pub check_body : Session → Look → Result Session
  unfolding observed_context ask
  check_body s l = do context ← observed_context l; ask s l context

  -- `check`: the session after a check that succeeds; any error is turned into one refusal
  unfoldable pub check_once : Session → Look → Result Session
  unfolding check_body
  check_once s l = one_refusal (check_body s l)

  -- a sequence of checks
  unfoldable pub check_all : Session → List Look → Session
  unfolding check_once
  check_all s [] = s
  check_all s (l ∷ ls) = check_all (kept s (check_once s l)) ls
