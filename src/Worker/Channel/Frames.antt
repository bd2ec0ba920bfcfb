-- ===== src/Worker/Channel/Frames.antt =====
-- A frame of pepeuch_worker/verification_channel.py, as it is sent and as it is read.
use mathlib.Core.Option.{some-injective}
use pepeuchiacluster.Prelude.{
  ℕ, zero, suc, ◌+◌, ◌-◌, ◌≤◌, ◌<◌, ◌≡◌, refl, ap, ◌∙◌, subst, true, false, ◌&&◌, List, [], ◌∷◌,
  ◌++◌, none, some, arith, length, leb, ltb, take, drop, Bool-cases, inl, inr,
}
use pepeuchiacluster.Contracts.{ok}
use pepeuchiacluster.Contracts.Values.{Value}
use pepeuchiacluster.Worker.Channel.{
  Credential, Part, Peer, Progress, got, is_root, is_writer, receive_loop, receive, pack, unpack,
  same_credential, frame, body_of, read_body, after_header, transfer, start, max_frame,
}

unpack-pack : (n : ℕ) → n ≤ max_frame → unpack (pack n) ≡ some n
unfolding pack unpack
unpack-pack n small = ap some (omega arith)

abbrev part : Credential → List ℕ → Part
part w raw = record { bytes = raw; credentials = w ∷ []; unexpected = false }

same_credential_refl : (w : Credential) → same_credential w w ≡ true
same_credential_refl w = ground arith

module _ (peer : Peer) where
  -- one message with all the bytes that are wanted
  receive-one :
      (size : ℕ) (s : Progress) (w : Credential) (raw : List ℕ)
      → 0 < size
      → length raw ≡ size
      → peer.receive_message s.messages size ≡ part w raw
      → peer.clock s.messages < peer.deadline
      → is_root w ≡ true
      → is_writer s.writer w ≡ true
      → receive peer size s ≡ got raw (record { messages = s.messages + 1; writer = some w })
  unfolding receive receive_loop
  receive-one zero s w raw positive whole sent early root same_ = elim positive [ ]
  receive-one (suc size) s w [] positive whole sent early root same_ = absurd (omega (arith, whole))
  receive-one (suc size) s w (b ∷ raw) positive whole sent early root same_ =
      let wanted : (suc size - 0) ≡ suc size = omega arith in
      let more : leb (suc size) 0 ≡ false = ground arith in
      let in_time : leb peer.deadline (peer.clock s.messages) ≡ false = ground (arith, early) in
      let enough : leb (suc size) (length (b ∷ raw)) ≡ true = ground (arith, whole) in
      rw (more, in_time) (rw wanted (rw sent (rw (root, same_) (rw enough refl))))

  frame-parts :
      (v : Value) (sent : List ℕ)
      → frame peer v ≡ some sent
      → (length (peer.canonical v) ≤ max_frame)
        × (take 4 sent ≡ pack (length (peer.canonical v)))
        × (drop 4 sent ≡ peer.canonical v)
  unfolding frame
  frame-parts v sent e = elim (Bool-cases (leb (length (peer.canonical v)) max_frame)) [
    | inl fits ↦
        let is_sent : pack (length (peer.canonical v)) ++ peer.canonical v ≡ sent =
          some-injective _ sent (rw fits at e) in
        (
          ground arith,
          subst (λ x. take 4 x ≡ pack (length (peer.canonical v))) is_sent refl,
          subst (λ x. drop 4 x ≡ peer.canonical v) is_sent refl,
        )
    | inr over ↦ let impossible : none ≡ some sent = rw over at e in cc
  ]

  after_header-read :
      (raw : List ℕ) (n : ℕ) (s : Progress)
      → unpack raw ≡ some n
      → after_header peer (got raw s) ≡ read_body peer (some n) s
  unfolding after_header
  after_header-read raw n s e = ap (λ o. read_body peer o s) e

  read_body-decodes :
      (n : ℕ) (raw : List ℕ) (s s' : Progress) (v : Value)
      → (ltb 0 n && leb n max_frame) ≡ true
      → receive peer n s ≡ got raw s'
      → peer.decode raw ≡ ok v
      → read_body peer (some n) s ≡ ok (v, s'.writer)
  unfolding read_body body_of
  read_body-decodes n raw s s' v fits received decodes = rw fits (rw received (rw decodes refl))

  -- Where root answers a request with the frame of a document, in time and in one message for the
  -- length and one for the rest, the transfer returns the document, if it is read as it was written.
  pub transfer-frame :
      (document v : Value) (w : Credential) (own sent : List ℕ)
      → frame peer document ≡ some own
      → frame peer v ≡ some sent
      → 0 < length (peer.canonical v)
      → is_root w ≡ true
      → peer.clock 0 < peer.deadline
      → peer.clock 1 < peer.deadline
      → peer.receive_message 0 4 ≡ part w (take 4 sent)
      → peer.receive_message 1 (length (peer.canonical v)) ≡ part w (drop 4 sent)
      → peer.decode (peer.canonical v) ≡ ok v
      → transfer peer document ≡ ok (v, some w)
  unfolding transfer
  transfer-frame document v w own sent own_frame its_frame positive root early next_early first
        second decodes =
      let (small, is_header, is_payload) = frame-parts v sent its_frame in
      let payload = peer.canonical v in
      let header_ : receive peer 4 start
          ≡ got (pack (length payload)) (record { messages = 1; writer = some w }) =
        receive-one 4 start w (pack (length payload)) (omega arith) refl
          (first ∙ ap (part w) is_header) early root refl in
      let body_ : receive peer (length payload) (record { messages = 1; writer = some w })
          ≡ got payload (record { messages = 2; writer = some w }) =
        receive-one (length payload) (record { messages = 1; writer = some w }) w payload positive
          refl (second ∙ ap (part w) is_payload) next_early root (same_credential_refl w) in
      let fits : (ltb 0 (length payload) && leb (length payload) max_frame) ≡ true =
        ground (arith, positive, small) in
      rw own_frame (
        rw header_ (
          after_header-read (pack (length payload)) (length payload) _
            (unpack-pack (length payload) small)
          ∙ read_body-decodes (length payload) payload _ _ v fits body_ decodes))
