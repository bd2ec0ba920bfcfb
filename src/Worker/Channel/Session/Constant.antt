-- ===== src/Worker/Channel/Session/Constant.antt =====
-- The checks of one launch by pepeuch_worker/verification_channel.py: what one that succeeds has seen,
-- and what stays from one to the next.
use pepeuchiacluster.Prelude.{
  ℕ, ◌≡◌, refl, ◌∙◌, sym, ap, subst, Bool, true, ◌&&◌, String, same_iff, List, [], ◌∷◌, Option,
  none, some, arith,
}
use pepeuchiacluster.Contracts.{Result, ok, err, ok-injective, >>=-eq-ok}
use pepeuchiacluster.Contracts.Values.{Value, text}
use pepeuchiacluster.Discovery.Metadata.{same_value}
use pepeuchiacluster.Worker.Receipts.{Readings}
use pepeuchiacluster.Worker.Channel.{Credential, check, is_root, transfer}
use pepeuchiacluster.Worker.Channel.Root.{IsFromRoot, transfer-IsFromRoot}
use pepeuchiacluster.Worker.Channel.Loop.{same_credential-eq}
use pepeuchiacluster.Worker.Channel.Decision.{Reply, read_reply, validate_decision}
use pepeuchiacluster.Worker.Channel.Decision.Permits.{
  IsPermit, check-ok, validate_decision-IsPermit,
}
use pepeuchiacluster.Worker.Channel.Session.{
  check_body, one_refusal, accept_reply, ask, WorkerConfiguration, Look, Session, observed_context,
  is_same_context, same_digest, query_of, request_of, same_writers, same_policies, check_once, kept,
  check_all,
}

same_writers-eq :
    (w : Credential) (o : Option Credential) → same_writers (some w) o ≡ true → o ≡ some w
same_writers-eq w none e = cc
same_writers-eq w (some w') e = ap some (sym (same_credential-eq w w' e))

same_policies-eq : (p : String) (v : Value) → same_policies (some (text p)) v ≡ true → v ≡ text p
unfolding same_value
same_policies-eq p (text t) e = ap text (sym ((same_iff p t).0 e))
same_policies-eq p _ e = cc

same_digest-eq : (d : String) (o : Option String) → same_digest (some d) o ≡ true → o ≡ some d
same_digest-eq d none e = cc
same_digest-eq d (some x) e = ap some (sym ((same_iff d x).0 e))

one_refusal-ok : (o : Result Session) (s : Session) → one_refusal o ≡ ok s → o ≡ ok s
one_refusal-ok (ok s') s e = e
one_refusal-ok (err p) s e = cc

module _ (readings : Readings) (is_zero : ℕ → Bool) (descriptor : Value)
    (c : WorkerConfiguration) where
  -- What a check that succeeds has seen, and what it leaves.
  pub record IsVerified (s : Session) (l : Look) (s' : Session) : Type 0 where
    pub context : Value
    pub observed : observed_context readings is_zero descriptor c l ≡ ok context
    pub known : is_same_context readings is_zero descriptor c s.context context ≡ true
    pub document : Value
    pub from_root : IsFromRoot l.peer document s'.writer
    pub reply : Reply
    pub is_reply : read_reply document ≡ ok reply
    pub permit : IsPermit readings (query_of readings is_zero descriptor c l context) l.now reply
    pub writer_kept : same_writers s.writer s'.writer ≡ true
    pub policy_kept : same_policies s.policy reply.policy ≡ true
    pub new_context : s'.context ≡ some context
    pub new_policy : s'.policy ≡ some reply.policy

  accept_reply-IsVerified :
      (s : Session) (l : Look) (context document : Value) (writer : Option Credential)
      (s' : Session)
      → observed_context readings is_zero descriptor c l ≡ ok context
      → is_same_context readings is_zero descriptor c s.context context ≡ true
      → IsFromRoot l.peer document writer
      → accept_reply readings is_zero descriptor c s l context document writer ≡ ok s'
      → IsVerified s l s'
  unfolding accept_reply
  accept_reply-IsVerified s l context document writer s' observed known from_root e =
      let query = query_of readings is_zero descriptor c l context in
      let (policy, valid, e1) = >>=-eq-ok (validate_decision readings query l.now document) _ e in
      let (reply, is_reply, is_policy, permit) =
        validate_decision-IsPermit readings query l.now document policy valid in
      let agree = same_writers s.writer writer && same_policies s.policy policy in
      let (u, agreed, e2) = >>=-eq-ok (check agree) _ e1 in
      let fits : agree ≡ true = check-ok agree u agreed in
      subst (IsVerified s l) (ok-injective _ s' e2) (record {
        context = context;
        observed = observed;
        known = known;
        document = document;
        from_root = from_root;
        reply = reply;
        is_reply = is_reply;
        permit = permit;
        writer_kept = ground arith;
        policy_kept = subst (λ v. same_policies s.policy v ≡ true) (sym is_policy) (ground arith);
        new_context = refl;
        new_policy = ap some (sym is_policy);
      })

  ask-IsVerified :
      (s : Session) (l : Look) (context : Value) (s' : Session)
      → observed_context readings is_zero descriptor c l ≡ ok context
      → ask readings is_zero descriptor c s l context ≡ ok s'
      → IsVerified s l s'
  unfolding ask
  ask-IsVerified s l context s' observed e =
      let known = is_same_context readings is_zero descriptor c s.context context in
      let (u, is_known, e1) = >>=-eq-ok (check known) _ e in
      let request = request_of readings is_zero descriptor c l context in
      let ((document, writer), transferred, e2) = >>=-eq-ok (transfer l.peer request) _ e1 in
      accept_reply-IsVerified s l context document writer s' observed (check-ok known u is_known)
        (transfer-IsFromRoot l.peer request document writer transferred) e2

  -- A check that succeeds has observed a stable, confined process of the configured identity, whose
  -- context is that of the checks before. Root alone has written the reply in time, and it is a permit
  -- for this nonce, context and configuration. The writer and the policy are those of the checks before.
  pub check_once-IsVerified :
      (s : Session) (l : Look) (s' : Session)
      → check_once readings is_zero descriptor c s l ≡ ok s'
      → IsVerified s l s'
  unfolding check_once check_body
  check_once-IsVerified s l s' e =
      let (context, observed, e1) =
        >>=-eq-ok (observed_context readings is_zero descriptor c l) _ (one_refusal-ok _ s' e) in
      ask-IsVerified s l context s' observed e1

  -- a session whose root process, policy and digest of the context are settled
  pub record IsSettled (w : Credential) (p d : String) (s : Session) : Type 0 where
    pub writer : s.writer ≡ some w
    pub policy : s.policy ≡ some (text p)
    pub context : (v : Value) × (s.context ≡ some v) × (readings.digest v ≡ some d)

  IsVerified-IsSettled :
      (s s' : Session) (l : Look)
      → IsVerified s l s'
      → (w : Credential) × (p : String) × (d : String) × (is_root w ≡ true) × IsSettled w p d s'
  IsVerified-IsSettled s s' l v =
      let (p, is_text_, _, _) = v.permit.policy in
      let (d, is_d, _) = v.permit.context in
      (
        v.from_root.root,
        p,
        d,
        v.from_root.is_root_,
        record {
          writer = v.from_root.is_writer_;
          policy = v.new_policy ∙ ap some is_text_;
          context = (v.context, v.new_context, is_d);
        },
      )

  kept-IsSettled :
      (w : Credential) (p d : String) (s : Session) (l : Look) (o : Result Session)
      → check_once readings is_zero descriptor c s l ≡ o
      → IsSettled w p d s
      → IsSettled w p d (kept s o)
  kept-IsSettled w p d s l (err q) e settled = settled
  kept-IsSettled w p d s l (ok s') e settled =
      let v = check_once-IsVerified s l s' e in
      let (p', is_text_, _, _) = v.permit.policy in
      let (old, is_old, is_d) = settled.context in
      record {
        writer =
            same_writers-eq w s'.writer
              (subst (λ o. same_writers o s'.writer ≡ true) settled.writer v.writer_kept);
        policy =
            v.new_policy
            ∙ ap some (
                same_policies-eq p v.reply.policy (
                  subst (λ o. same_policies o v.reply.policy ≡ true) settled.policy v.policy_kept));
        context = (
          v.context,
          v.new_context,
          same_digest-eq d (readings.digest v.context) (
              subst (λ o. same_digest o (readings.digest v.context) ≡ true) is_d
                (subst (λ o. is_same_context readings is_zero descriptor c o v.context ≡ true)
                  is_old v.known)),
        );
      }

  check_all-IsSettled :
      (w : Credential) (p d : String) (s : Session) (ls : List Look)
      → IsSettled w p d s
      → IsSettled w p d (check_all readings is_zero descriptor c s ls)
  unfolding check_all
  check_all-IsSettled w p d s [] settled = settled
  check_all-IsSettled w p d s (l ∷ ls) settled =
      check_all-IsSettled w p d (kept s (check_once readings is_zero descriptor c s l)) ls
        (kept-IsSettled w p d s l (check_once readings is_zero descriptor c s l) refl settled)

  -- Once a check has succeeded, one root process, one policy and one digest of the context stay those
  -- of the session over any further checks, whether they succeed or not.
  pub check_once-settles :
      (s s' : Session) (l : Look) (ls : List Look)
      → check_once readings is_zero descriptor c s l ≡ ok s'
      → (w : Credential) × (p : String) × (d : String) × (is_root w ≡ true)
        × IsSettled w p d s'
        × IsSettled w p d (check_all readings is_zero descriptor c s' ls)
  check_once-settles s s' l ls e =
      let (w, p, d, root, settled) = IsVerified-IsSettled s s' l (check_once-IsVerified s l s' e) in
      (w, p, d, root, settled, check_all-IsSettled w p d s' ls settled)
