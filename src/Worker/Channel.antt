-- ===== src/Worker/Channel.antt =====
-- pepeuch_worker/verification_channel.py, `transfer` on a channel whose peer must be root: a frame of
-- four bytes for the length and a document. The n-th `recvmsg` of a transfer is `peer n`, for so many
-- bytes; the clock counts microseconds, and is read before each.
pub mod Loop
pub mod Root
pub mod Frames
pub mod Decision
pub mod Session
use pepeuchiacluster.Prelude.{
  ℕ, zero, suc, ◌+◌, ◌-◌, ◌*◌, ◌/◌, ◌%◌, ◌^◌, Bool, true, false, ◌&&◌, ◌||◌, not, List, [], ◌∷◌,
  ◌++◌, Option, none, some, length, leb, ltb, ◌==◌, if◌then◌else◌,
}
use pepeuchiacluster.Contracts.{Result, ok, err, problem}
use pepeuchiacluster.Contracts.Values.{Value}

-- The credentials of a message. `pid` is 0 where the number is not above 0.
pub record Credential : Type 0 where
  pub pid : ℕ
  pub uid : ℕ
  pub gid : ℕ

-- What `recvmsg` returns: the bytes, the credentials among the ancillary data, and whether there is
-- any other ancillary data or a flag that some of it was cut.
pub record Part : Type 0 where
  pub bytes : List ℕ
  pub credentials : List Credential
  pub unexpected : Bool

pub record Peer : Type 0 where
  pub receive_message : ℕ → ℕ → Part
  pub clock : ℕ → ℕ
  pub deadline : ℕ
  pub canonical : Value → List ℕ
  pub decode : List ℕ → Result Value

abbrev pub unverified {ℓ} : {A : Type ℓ} → Result A
unverified = err (problem "os_isolation_not_verified" 503)

abbrev pub check : Bool → Result (Unit {0})
check true = ok tt
check false = unverified

abbrev pub same_credential : Credential → Credential → Bool
same_credential a b = a.pid == b.pid && a.uid == b.uid && a.gid == b.gid

abbrev pub is_root : Credential → Bool
is_root c = ltb 0 c.pid && c.uid == 0 && c.gid == 0

-- the writer so far is this one
abbrev pub is_writer : Option Credential → Credential → Bool
is_writer none c = true
is_writer (some w) c = same_credential w c

abbrev pub sole : List Credential → Option Credential
sole (c ∷ []) = some c
sole _ = none

abbrev pub permitted : Option Credential → Bool → Option Credential → Option Credential
permitted writer unexpected none = none
permitted writer unexpected (some c) =
    if not unexpected && is_root c && is_writer writer c then some c else none

-- the one credential of a part, that it is allowed to have
abbrev pub writer_of : Option Credential → Part → Option Credential
writer_of writer p = permitted writer p.unexpected (sole p.credentials)

-- Where a transfer stands: the messages received, and their writer.
pub record Progress : Type 0 where
  pub messages : ℕ
  pub writer : Option Credential

abbrev pub start : Progress
start = record { messages = 0; writer = none }

-- What a loop ends in. `exhausted` is its fuel.
pub data Received : Type 0 where
  got : List ℕ → Progress → Received
  refused : Received
  exhausted : Received

abbrev pub is_nil : List ℕ → Bool
is_nil [] = true
is_nil (b ∷ bs) = false

abbrev pub max_frame : ℕ
max_frame = 131072

-- `struct.pack("!I", n)`
unfoldable pub pack : ℕ → List ℕ
pack n = (n / 2 ^ 24 % 256) ∷ (n / 2 ^ 16 % 256) ∷ (n / 2 ^ 8 % 256) ∷ (n % 256) ∷ []

-- `struct.unpack("!I", raw)[0]`; `none` is a `struct.error`
unfoldable pub unpack : List ℕ → Option ℕ
unpack (a ∷ b ∷ c ∷ d ∷ []) = some (a * 2 ^ 24 + b * 2 ^ 16 + c * 2 ^ 8 + d)
unpack _ = none

module _ (peer : Peer) where
  -- after the credentials of a part: an empty one is the end of the stream
  abbrev pub accept : Option Credential → List ℕ → Received → Received
  accept none bytes rest = refused
  accept (some c) bytes rest = if is_nil bytes then refused else rest

  -- the loop of `receive`, with the bytes so far
  unfoldable pub receive_loop : ℕ → ℕ → Progress → List ℕ → Received
  receive_loop zero size s parts = exhausted
  receive_loop (suc fuel) size s parts =
      let p = peer.receive_message s.messages (size - length parts) in
      let writer = writer_of s.writer p in
      let next : Progress = record { messages = s.messages + 1; writer = writer } in
      let rest = receive_loop fuel size next (parts ++ p.bytes) in
      if leb size (length parts)
      then got parts s
      else if leb peer.deadline (peer.clock s.messages)
      then refused
      else accept writer p.bytes rest

  -- `receive(size)`: every round that goes on brings a byte
  unfoldable pub receive : ℕ → Progress → Received
  unfolding receive_loop
  receive size s = receive_loop (suc size) size s []

  -- the bytes that are sent
  unfoldable pub frame : Value → Option (List ℕ)
  unfolding pack
  frame document =
      let payload = peer.canonical document in
      if leb (length payload) max_frame then some (pack (length payload) ++ payload) else none

  -- what `decode_json` says of a body, with its writer
  abbrev pub decoded : Result Value → Progress → Result (Value × Option Credential)
  decoded (ok v) s = ok (v, s.writer)
  decoded (err p) s = err p

  unfoldable pub body_of : Received → Result (Value × Option Credential)
  body_of (got raw s) = decoded (peer.decode raw) s
  body_of _ = unverified

  -- the body behind a length
  unfoldable pub read_body : Option ℕ → Progress → Result (Value × Option Credential)
  unfolding receive body_of
  read_body none s = unverified
  read_body (some size) s =
      if ltb 0 size && leb size max_frame then body_of (receive size s) else unverified

  unfoldable pub after_header : Received → Result (Value × Option Credential)
  unfolding unpack read_body
  after_header (got raw s) = read_body (unpack raw) s
  after_header _ = unverified

  abbrev pub after_frame :
      Option (List ℕ) → Result (Value × Option Credential) → Result (Value × Option Credential)
  after_frame none rest = unverified
  after_frame (some sent) rest = rest

  -- `transfer`, where the peer must be root
  unfoldable pub transfer : Value → Result (Value × Option Credential)
  unfolding receive frame after_header
  transfer document = after_frame (frame document) (after_header (receive 4 start))
