-- ===== src/Transport.antt =====
-- src/transport/mod.rs: frames by length on a stream of bytes, and the mutual handshake. A stream
-- is the bytes that will arrive and the bytes that have been written; a write goes through, and the
-- end of what arrives is the error of the system for it.
pub mod Frames
pub mod Steps
pub mod Sound
pub mod Agreement
pub mod Peers
use neonet.Base.Results.{
  IoError, Result, err, invalid_data, invalid_input, io_error, ok, permission_denied,
  unexpected_eof, unsupported,
}
use neonet.Base.{
  Bool, List, Option, [], find, if◌then◌else◌, length, list_eq, ltb, nat_eq, none, not, some, suc,
  true, zero, ℕ, ◌%◌, ◌*◌, ◌++◌, ◌+◌, ◌/◌, ◌==◌, ◌∷◌,
}
use neonet.Base.Text.{Bytes, Text}
use neonet.Base.Codec.{Codec}
use neonet.Identity.{PublicIdentity}
use neonet.Protocol.{
  Hello, Challenge, SignatureMessage, NegotiatedProtocol, ProtocolError, major_mismatch,
  invalid_signature, Identity, Crates, new_hello, sign_challenge, verify_challenge, negotiate,
}

pub record Stream : Type 0 where
  pub inbox : Bytes
  pub outbox : Bytes

-- An error of `io::Result`, or a panic.
pub data Failure : Type 0 where
  io : IoError → Failure
  panicked : Failure

abbrev pub Step {ℓ} : Type ℓ → Type ℓ
Step A = Result Failure A × Stream

-- `?` on a step
abbrev pub and_then {ℓ κ} : {A : Type ℓ} {B : Type κ} → Step A → (A → Stream → Step B) → Step B
and_then (ok a, s) f = f a s
and_then (err e, s) f = (err e, s)

abbrev pub max_frame : ℕ
max_frame = 1024 * 1024

-- `write_u32`: four bytes, the most significant first.
unfoldable pub be32 : ℕ → Bytes
be32 n = n / 16777216 % 256 ∷ n / 65536 % 256 ∷ n / 256 % 256 ∷ n % 256 ∷ []

-- `read_u32`, with what is left of the bytes
unfoldable pub read_u32 : Bytes → Option (ℕ × Bytes)
read_u32 [] = none
read_u32 (a ∷ []) = none
read_u32 (a ∷ b ∷ []) = none
read_u32 (a ∷ b ∷ c ∷ []) = none
read_u32 (a ∷ b ∷ c ∷ d ∷ rest) = some (a * 16777216 + b * 65536 + c * 256 + d, rest)

-- `read_exact` of `n` bytes, with what is left
unfoldable pub read_exact : ℕ → Bytes → Option (Bytes × Bytes)
read_exact zero xs = some ([], xs)
read_exact (suc n) [] = none
read_exact (suc n) (x ∷ xs) = elim (read_exact n xs) [
  | none ↦ none
  | some (taken, rest) ↦ some (x ∷ taken, rest)
]

unfoldable pub write_frame : Bytes → Stream → Step (Unit {0})
write_frame payload s =
    if ltb max_frame (length payload)
    then (err (io (io_error invalid_input "frame too large")), s)
    else (
      ok tt,
      record { inbox = s.inbox; outbox = s.outbox ++ (be32 (length payload) ++ payload) },
    )

unfoldable pub read_body : ℕ → Bytes → Stream → Step Bytes
unfolding read_exact
read_body len rest s =
    if ltb max_frame len
    then (err (io (io_error invalid_data "frame too large")), record s { inbox = rest })
    else elim (read_exact len rest) [
      | none ↦ (err (io (io_error unexpected_eof "early eof")), record s { inbox = [] })
      | some (buf, left) ↦ (ok buf, record s { inbox = left })
    ]

unfoldable pub read_frame : Stream → Step Bytes
unfolding read_u32 read_body
read_frame s = elim (read_u32 s.inbox) [
  | none ↦ (err (io (io_error unexpected_eof "early eof")), record s { inbox = [] })
  | some (len, rest) ↦ read_body len rest s
]

-- `write_frame(stream, &postcard::to_allocvec(value).map_err(codec_err)?)`
unfoldable pub send_value : {A : Type 0} → Codec A Bytes → A → Stream → Step (Unit {0})
unfolding write_frame
send_value c a s = elim (c.encode a) [
  | none ↦ (err (io (io_error invalid_data "codec")), s)
  | some bytes ↦ write_frame bytes s
]

abbrev pub decoded : {A : Type 0} → Option A → Result Failure A
decoded none = err (io (io_error invalid_data "codec"))
decoded (some a) = ok a

-- `postcard::from_bytes(&read_frame(stream).await?).map_err(codec_err)?`
unfoldable pub receive_value : {A : Type 0} → Codec A Bytes → Stream → Step A
unfolding read_frame
receive_value c s = and_then (read_frame s) (λ bytes s'. (decoded (c.decode bytes), s'))

pub record HandshakeResult : Type 0 where
  pub remote : Hello
  pub negotiated : NegotiatedProtocol

-- The pinned key against the key of the remote HELLO.
abbrev pub pin_holds : Option PublicIdentity → PublicIdentity → Bool
pin_holds none remote = true
pin_holds (some pinned) remote = pinned.public_key == remote.public_key

unfoldable pub settle : Hello → Hello → Result Failure HandshakeResult
unfolding negotiate
settle local remote = elim (negotiate local.version local.features remote.version remote.features) [
  | err e ↦ err (io (io_error unsupported "incompatible protocol major version"))
  | ok n ↦ ok (record { remote = remote; negotiated = n })
]

module _ {Key : Type 0} (crates : Crates Key) where
  -- From `verify_challenge` on: the signature, the pin, the negotiation.
  unfoldable pub conclude :
      Option PublicIdentity
      → Hello
      → Challenge
      → Hello
      → SignatureMessage
      → Result Failure HandshakeResult
  unfolding verify_challenge settle
  conclude pinned local challenge remote message =
      elim (verify_challenge crates local challenge remote.identity message) [
        | none ↦ err panicked
        | some (err e) ↦ err (io (io_error permission_denied "invalid signature"))
        | some (ok u) ↦
            if not (pin_holds pinned remote.identity)
            then err
                (io (io_error permission_denied "remote identity does not match pinned public key"))
            else settle local remote
      ]

  unfoldable pub send_signature : Identity → Hello → Challenge → Stream → Step (Unit {0})
  unfolding sign_challenge send_value
  send_signature id remote challenge s = elim (sign_challenge crates id remote challenge) [
    | none ↦ (err panicked, s)
    | some message ↦ send_value crates.signature_codec message s
  ]

  -- The two signatures, once both challenges are known.
  unfoldable pub exchange_signatures :
      Identity
      → Option PublicIdentity
      → Hello
      → Challenge
      → Hello
      → Challenge
      → Stream
      → Step HandshakeResult
  unfolding receive_value send_signature conclude
  exchange_signatures id pinned local challenge remote remote_challenge s =
      and_then (send_signature id remote remote_challenge s) λ u s1.
        and_then (receive_value crates.signature_codec s1)
          λ message s2. (conclude pinned local challenge remote message, s2)

  -- The exchange after the two HELLOs: the challenges, then the signatures.
  unfoldable pub exchange :
      Identity → Option PublicIdentity → Hello → Challenge → Hello → Stream → Step HandshakeResult
  unfolding send_value receive_value exchange_signatures
  exchange id pinned local challenge remote s =
      and_then (send_value crates.challenge_codec challenge s) λ u s1.
        and_then (receive_value crates.challenge_codec s1) λ remote_challenge s2.
          exchange_signatures id pinned local challenge remote remote_challenge s2

  -- `session_id` and the nonce of `challenge` are the random bytes that the call draws.
  unfoldable pub handshake_inner :
      Identity
      → List Text
      → Option PublicIdentity
      → Bytes
      → Challenge
      → Stream
      → Step HandshakeResult
  unfolding new_hello send_value receive_value exchange
  handshake_inner id features pinned session_id challenge s =
      let local = new_hello id features session_id in
      and_then (send_value crates.hello_codec local s) λ u s1.
        and_then (receive_value crates.hello_codec s1)
          λ remote s2. exchange id pinned local challenge remote s2

-- `BootstrapEntry`, its address as the source prints it.
pub record BootstrapEntry : Type 0 where
  pub address : Text
  pub pinned_public_key : Bytes

module _ {Key : Type 0} (crates : Crates Key) where
  unfoldable pub handshake_tcp_with_bootstrap :
      Identity
      → List Text
      → List BootstrapEntry
      → Text
      → Bytes
      → Challenge
      → Stream
      → Step HandshakeResult
  unfolding handshake_inner
  handshake_tcp_with_bootstrap id features bootstrap peer session_id challenge s =
      elim (find (λ (e : BootstrapEntry). e.address == peer) bootstrap) [
        | none ↦ (err (io (io_error permission_denied "no bootstrap trust entry for peer")), s)
        | some entry ↦
            handshake_inner crates id features
              (some (record { public_key = entry.pinned_public_key })) session_id challenge s
      ]
