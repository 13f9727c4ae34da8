-- ===== src/Messaging/Frames.antt =====
-- src/messaging.rs, the wire frame: size limits, round trip, and the sender check on arrival.
use neonet.Base.{◌≤◌, ◌≡◌, Option, some, arith, length, beq-eq}
use neonet.Base.Results.{ok, bind_ok}
use neonet.Base.Codec.{Codec}
use neonet.Base.Text.{Bytes}
use neonet.Identity.{PublicIdentity, identity_eq}
use neonet.Messaging.{
  Message, MessagingFrame, message, max_message_size, validate_size, frame_encode, frame_decode,
  receive_message, accept,
}

encode_inv :
    (to_allocvec : MessagingFrame → Option Bytes) (frame : MessagingFrame) (bytes : Bytes)
    → frame_encode to_allocvec frame ≡ ok bytes
    → (to_allocvec frame ≡ some bytes) × (length bytes ≤ max_message_size)
unfolding frame_encode
encode_inv to_allocvec frame bytes h = ground arith

-- What `encode` produces is within the size limit, and `decode` reads it back.
pub frame_decode-encode :
    (postcard : Codec MessagingFrame Bytes) (frame : MessagingFrame) (bytes : Bytes)
    → frame_encode postcard.encode frame ≡ ok bytes
    → (length bytes ≤ max_message_size) × (frame_decode postcard.decode bytes ≡ ok frame)
unfolding frame_decode
frame_decode-encode postcard frame bytes h =
    let (written, fits) = encode_inv postcard.encode frame bytes h in
    (fits, ground (arith, postcard.decode-encode frame bytes written))

decode_inv :
    (from_bytes : Bytes → Option MessagingFrame) (bytes : Bytes) (frame : MessagingFrame)
    → frame_decode from_bytes bytes ≡ ok frame
    → (from_bytes bytes ≡ some frame) × (length bytes ≤ max_message_size)
unfolding frame_decode
decode_inv from_bytes bytes frame h = ground arith

accept_inv :
    (to_allocvec : Message → Option Bytes) (peer : PublicIdentity) (f : MessagingFrame)
    (m : Message)
    → accept to_allocvec peer f ≡ ok m
    → (m.sender ≡ peer) × (f ≡ message m) × (validate_size to_allocvec m ≡ ok tt)
unfolding accept
accept_inv to_allocvec peer (message k) m h = ground (arith, beq-eq k.sender peer)

-- A received message was sent by the peer that the transport authenticated, is what the frame
-- decodes to, and both the frame and the message are within the size limit.
pub receive_message_sound :
    (to_allocvec : Message → Option Bytes) (from_bytes : Bytes → Option MessagingFrame)
    (peer : PublicIdentity) (bytes : Bytes) (m : Message)
    → receive_message to_allocvec from_bytes peer bytes ≡ ok m
    → (m.sender ≡ peer)
      × (from_bytes bytes ≡ some (message m))
      × (length bytes ≤ max_message_size)
      × (validate_size to_allocvec m ≡ ok tt)
unfolding receive_message accept
receive_message_sound to_allocvec from_bytes peer bytes m h =
    let (f, decoded, accepted) = bind_ok (frame_decode from_bytes bytes) _ h in
    let (sender, whole, valid) = accept_inv to_allocvec peer f m accepted in
    let (parsed, fits) = decode_inv from_bytes bytes f decoded in
    (sender, rw whole at parsed, fits, valid)
