-- ===== src/Worker/Channel/Root.antt =====
-- What `transfer` of pepeuch_worker/verification_channel.py takes: one document of one root process.
use pepeuchiacluster.Prelude.{
  ℕ, suc, ◌-◌, ◌≤◌, ◌<◌, ◌≡◌, ◌≢◌, refl, sym, ap, ◌∙◌, subst, true, ◌&&◌, List, [], ◌++◌, Option,
  none, some, arith, length, leb, ltb, inl, inr,
}
use pepeuchiacluster.Contracts.{Result, ok, err, ok-injective, branch-eq-ok}
use pepeuchiacluster.Contracts.Values.{Value}
use pepeuchiacluster.Worker.Channel.{
  decoded, start, Credential, Peer, Progress, Received, got, refused, exhausted, is_root,
  receive_loop, receive, unpack, body_of, read_body, after_header, after_frame, frame, transfer,
  max_frame,
}
use pepeuchiacluster.Worker.Channel.Loop.{
  From, one_more, IsReceived, message, receive_loop-ends, receive_loop-round,
  receive_loop-IsReceived,
}

module _ (peer : Peer) where
  -- A loop for so many bytes ends in them or in a refusal, whatever the peer sends and the clock says.
  pub receive-ends : (size : ℕ) (s : Progress) → receive peer size s ≢ exhausted
  unfolding receive
  receive-ends size s = receive_loop-ends peer (suc size) size s [] (omega arith)

  -- the first message, and those that follow it
  receive-header :
      (size : ℕ) (raw : List ℕ) (s : Progress)
      → 0 < size
      → receive peer size start ≡ got raw s
      → (w : Credential) × (is_root w ≡ true) × (s.writer ≡ some w) × From peer w 0 s.messages raw
  unfolding receive
  receive-header size raw s positive e =
      let (w, allowed, in_time, go_on) =
        receive_loop-round peer size size start s [] raw e (omega arith) in
      let p = message peer 0 (size - length {A = ℕ} []) in
      let later = receive_loop-IsReceived peer size size 1 w ([] ++ p.bytes) raw s go_on in
      let (rest, whole, from) = later.end_bytes in
      (
        w,
        allowed.root,
        later.end_writer,
        subst (From peer w 0 s.messages) (sym whole)
            (one_more 0 s.messages (size - 0) rest in_time allowed.alone allowed.clean from),
      )

  receive-body :
      (size : ℕ) (w : Credential) (raw : List ℕ) (s s' : Progress)
      → s.writer ≡ some w
      → receive peer size s ≡ got raw s'
      → IsReceived peer w s.messages size [] raw s'
  unfolding receive
  receive-body size w raw s s' is e =
      receive_loop-IsReceived peer (suc size) size s.messages w [] raw s' (
        subst
          (λ (o : Option Credential).
            receive_loop peer (suc size) size (record { messages = s.messages; writer = o }) []
            ≡ got raw s')
          is e)

  -- A document that is returned, from one writer.
  pub record IsFromRoot (v : Value) (writer : Option Credential) : Type 0 where
    pub root : Credential
    pub is_root_ : is_root root ≡ true
    pub is_writer_ : writer ≡ some root
    pub header_messages : ℕ
    pub messages : ℕ
    pub header : List ℕ
    pub body : List ℕ
    pub size : ℕ
    pub header_from : From peer root 0 header_messages header
    pub body_from : From peer root header_messages messages body
    pub is_size : unpack header ≡ some size
    pub positive : 0 < size
    pub within : size ≤ max_frame
    pub whole : size ≤ length body
    pub is_document : peer.decode body ≡ ok v

  decoded-ok :
      (r : Result Value) (s : Progress) (v : Value) (writer : Option Credential)
      → decoded peer r s ≡ ok (v, writer)
      → (r ≡ ok v) × (writer ≡ s.writer)
  decoded-ok (ok u) s v writer e =
      let same_ = ok-injective (u, s.writer) (v, writer) e in
      (
        ap (λ (x : Value × Option Credential). ok x.0) same_,
        sym (ap (λ (x : Value × Option Credential). x.1) same_),
      )
  decoded-ok (err p) s v writer e = cc

  body_of-ok :
      (o : Received) (v : Value) (writer : Option Credential)
      → body_of peer o ≡ ok (v, writer)
      → (raw : List ℕ) × (s : Progress) × (o ≡ got raw s)
        × (peer.decode raw ≡ ok v)
        × (writer ≡ s.writer)
  unfolding body_of
  body_of-ok (got raw s) v writer e =
      let (is, same_) = decoded-ok (peer.decode raw) s v writer e in (raw, s, refl, is, same_)
  body_of-ok _ v writer e = cc

  read_body-IsFromRoot :
      (o : Option ℕ) (header : List ℕ) (s : Progress) (w : Credential) (v : Value)
      (writer : Option Credential)
      → is_root w ≡ true
      → s.writer ≡ some w
      → From peer w 0 s.messages header
      → unpack header ≡ o
      → read_body peer o s ≡ ok (v, writer)
      → IsFromRoot v writer
  unfolding read_body
  read_body-IsFromRoot none header s w v writer root is from unpacked e = cc
  read_body-IsFromRoot (some size) header s w v writer root is from unpacked e =
      let fits = ltb 0 size && leb size max_frame in
      elim (branch-eq-ok fits (body_of peer (receive peer size s)) _ (v, writer) e) [
        | inl (within_, e1) ↦
            let (raw, s', received, is_document_, same_) =
              body_of-ok (receive peer size s) v writer e1 in
            let body_ = receive-body size w raw s s' is received in
            let (rest, whole_, from_) = body_.end_bytes in
            record {
              root = w;
              is_root_ = root;
              is_writer_ = same_ ∙ body_.end_writer;
              header_messages = s.messages;
              messages = s'.messages;
              header = header;
              body = raw;
              size = size;
              header_from = from;
              body_from = subst (From peer w s.messages s'.messages) (sym whole_) from_;
              is_size = unpacked;
              positive = ground arith;
              within = ground arith;
              whole = body_.enough;
              is_document = is_document_;
            }
        | inr (_, e1) ↦ cc
      ]

  -- What a transfer returns is decoded from what one root process wrote, before the deadline and alone.
  pub transfer-IsFromRoot :
      (document v : Value) (writer : Option Credential)
      → transfer peer document ≡ ok (v, writer)
      → IsFromRoot v writer
  unfolding transfer after_header
  transfer-IsFromRoot document v writer e =
      transferred (frame peer document) (receive peer 4 start) refl e
    where
      transferred :
          (o : Option (List ℕ)) (r : Received)
          → receive peer 4 start ≡ r
          → after_frame peer o (after_header peer r) ≡ ok (v, writer)
          → IsFromRoot v writer
      transferred none r is e = cc
      transferred (some sent) (got header s) is e =
          let (w, root, is_writer_, from) = receive-header 4 header s (omega arith) is in
          read_body-IsFromRoot (unpack header) header s w v writer root is_writer_ from refl e
      transferred (some sent) refused is e = cc
      transferred (some sent) exhausted is e = cc
