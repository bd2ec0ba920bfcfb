-- ===== src/Worker/Channel/Loop.antt =====
-- The loop of `receive` in pepeuch_worker/verification_channel.py: what it takes, and that it ends.
use mathlib.Core.Option.{some-injective}
use pepeuchiacluster.Prelude.{
  not, ℕ, zero, suc, ◌+◌, ◌-◌, ◌≤◌, ◌<◌, ◌≡◌, ◌≢◌, refl, sym, ap, ◌∙◌, subst, true, false, ◌&&◌,
  List, [], ◌∷◌, ◌++◌, append_assoc, append-nil, length-append, Option, none, some, arith, length,
  leb, Bool-cases, inl, inr,
}
use pepeuchiacluster.Worker.Channel.{
  sole, permitted, is_writer, same_credential, Credential, Part, Peer, Progress, Received, got,
  refused, exhausted, writer_of, is_root, accept, receive_loop,
}

pub same_credential-eq : (a b : Credential) → same_credential a b ≡ true → a ≡ b
same_credential-eq a b e = ground arith

module _ (peer : Peer) where
  abbrev pub message : ℕ → ℕ → Part
  message n wanted = peer.receive_message n wanted

  accept-exhausted :
      (w : Option Credential) (bytes : List ℕ) (rest : Received)
      → accept peer w bytes rest ≡ exhausted
      → (0 < length bytes) × (rest ≡ exhausted)
  accept-exhausted none bytes rest e = cc
  accept-exhausted (some c) [] rest e = cc
  accept-exhausted (some c) (b ∷ bs) rest e = (omega arith, e)

  accept-got :
      (w : Option Credential) (bytes : List ℕ) (rest : Received) (raw : List ℕ) (s : Progress)
      → accept peer w bytes rest ≡ got raw s
      → (c : Credential) × (w ≡ some c) × (rest ≡ got raw s)
  accept-got none bytes rest raw s e = cc
  accept-got (some c) [] rest raw s e = cc
  accept-got (some c) (b ∷ bs) rest raw s e = (c, refl, e)

  -- with more fuel than bytes are wanted, a loop does not run out of it
  pub receive_loop-ends :
      (fuel size : ℕ) (s : Progress) (parts : List ℕ)
      → size - length parts < fuel
      → receive_loop peer fuel size s parts ≢ exhausted
  unfolding receive_loop
  receive_loop-ends zero size s parts enough e = absurd (omega (arith, enough))
  receive_loop-ends (suc fuel) size s parts enough e = elim (Bool-cases (leb size (length parts))) [
    | inl whole ↦ let impossible : got parts s ≡ exhausted = rw whole at e in cc
    | inr less ↦ elim (Bool-cases (leb peer.deadline (peer.clock s.messages))) [
      | inl late ↦ let impossible : refused ≡ exhausted = rw (less, late) at e in cc
      | inr early ↦
          let p = message s.messages (size - length parts) in
          let c = writer_of s.writer p in
          let next : Progress = record { messages = s.messages + 1; writer = c } in
          let (longer, more) =
            accept-exhausted c p.bytes (receive_loop peer fuel size next (parts ++ p.bytes))
              (rw (less, early) at e) in
          receive_loop-ends fuel size next (parts ++ p.bytes)
            (ground (arith, length-append parts p.bytes)) more
    ]
  ]

  -- The messages from one on to another: each of the one writer alone, with nothing else, before the
  -- deadline; and their bytes in order.
  pub data From (w : Credential) : ℕ → ℕ → List ℕ → Type 0 where
    no_more : (n : ℕ) → From w n n []
    one_more :
        (n k wanted : ℕ) (rest : List ℕ)
        → peer.clock n < peer.deadline
        → sole (peer.receive_message n wanted).credentials ≡ some w
        → (peer.receive_message n wanted).unexpected ≡ false
        → From w (n + 1) k rest
        → From w n k ((peer.receive_message n wanted).bytes ++ rest)

  pub record IsAllowed (writer : Option Credential) (p : Part) (c : Credential) : Type 0 where
    pub alone : sole p.credentials ≡ some c
    pub clean : p.unexpected ≡ false
    pub root : is_root c ≡ true
    pub same_ : is_writer writer c ≡ true

  permitted-IsAllowed :
      (writer : Option Credential) (p : Part) (o : Option Credential) (c : Credential)
      → sole p.credentials ≡ o
      → permitted writer p.unexpected o ≡ some c
      → IsAllowed writer p c
  permitted-IsAllowed writer p none c is e = cc
  permitted-IsAllowed writer p (some d) c is e =
      elim (Bool-cases (not p.unexpected && is_root d && is_writer writer d)) [
        | inl allowed ↦
            let same_ : d ≡ c = some-injective d c (rw allowed at e) in
            subst (IsAllowed writer p) same_ (record {
              alone = is;
              clean = ground arith;
              root = ground arith;
              same_ = ground arith;
            })
        | inr not_allowed ↦ let impossible : none ≡ some c = rw not_allowed at e in cc
      ]

  -- one round that goes on to take something
  pub receive_loop-round :
      (fuel size : ℕ) (s s' : Progress) (parts raw : List ℕ)
      → receive_loop peer (suc fuel) size s parts ≡ got raw s'
      → length parts < size
      → (c : Credential) × IsAllowed s.writer (message s.messages (size - length parts)) c
        × (peer.clock s.messages < peer.deadline)
        × (receive_loop peer fuel size
              (record { messages = s.messages + 1; writer = some c })
              (parts ++ (message s.messages (size - length parts)).bytes)
            ≡ got raw s')
  unfolding receive_loop
  receive_loop-round fuel size s s' parts raw e more =
      let p = message s.messages (size - length parts) in
      let c = writer_of s.writer p in
      let next : Progress = record { messages = s.messages + 1; writer = c } in
      let rest = receive_loop peer fuel size next (parts ++ p.bytes) in
      let less : leb size (length parts) ≡ false = ground (arith, more) in
      elim (Bool-cases (leb peer.deadline (peer.clock s.messages))) [
        | inl late ↦ let impossible : refused ≡ got raw s' = rw (less, late) at e in cc
        | inr early ↦
            let (c', is, go_on) = accept-got c p.bytes rest raw s' (rw (less, early) at e) in
            (
              c',
              permitted-IsAllowed s.writer p (sole p.credentials) c' refl is,
              ground arith,
              subst
                  (λ (o : Option Credential).
                    receive_loop peer fuel size (record { messages = s.messages + 1; writer = o })
                      (parts ++ p.bytes)
                    ≡ got raw s')
                  is go_on,
            )
      ]

  got-injective : (xs ys : List ℕ) (s s' : Progress) → got xs s ≡ got ys s' → (xs ≡ ys) × (s ≡ s')
  got-injective xs ys s s' e = (cc, cc)

  -- what is received from a writer on
  pub record IsReceived (w : Credential) (n size : ℕ) (parts raw : List ℕ) (s : Progress)
      : Type 0 where
    pub end_writer : s.writer ≡ some w
    pub end_bytes : (rest : List ℕ) × (raw ≡ parts ++ rest) × From w n s.messages rest
    pub enough : size ≤ length raw

  pub receive_loop-IsReceived :
      (fuel size n : ℕ) (w : Credential) (parts raw : List ℕ) (s' : Progress)
      → receive_loop peer fuel size (record { messages = n; writer = some w }) parts ≡ got raw s'
      → IsReceived w n size parts raw s'
  unfolding receive_loop
  receive_loop-IsReceived zero size n w parts raw s' e = cc
  receive_loop-IsReceived (suc fuel) size n w parts raw s' e =
      elim (Bool-cases (leb size (length parts))) [
        | inl whole ↦
            let (same_bytes, same_progress) = got-injective parts raw _ s' (rw whole at e) in
            record {
              end_writer = ap Progress.writer (sym same_progress);
              end_bytes = (
                [],
                sym same_bytes ∙ sym (append-nil parts),
                subst (λ k. From w n k []) (ap Progress.messages same_progress) (no_more n),
              );
              enough = subst (λ x. size ≤ length x) same_bytes (ground arith);
            }
        | inr less ↦
            let (c, allowed, in_time, go_on) =
              receive_loop-round fuel size (record { messages = n; writer = some w }) s' parts raw e
                (ground arith) in
            let same_ : c ≡ w = sym (same_credential-eq w c allowed.same_) in
            let p = message n (size - length parts) in
            let later =
              receive_loop-IsReceived fuel size (n + 1) c (parts ++ p.bytes) raw s' go_on in
            let (rest, whole, from) = later.end_bytes in
            record {
              end_writer = later.end_writer ∙ ap some same_;
              end_bytes = (
                p.bytes ++ rest,
                whole ∙ append_assoc parts p.bytes rest,
                one_more n s'.messages (size - length parts) rest in_time
                    (allowed.alone ∙ ap some same_) allowed.clean
                    (subst (λ x. From x (n + 1) s'.messages rest) same_ from),
              );
              enough = later.enough;
            }
      ]
