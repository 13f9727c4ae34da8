-- ===== src/Messaging.antt =====
-- src/messaging.rs: messages, the wire frame, and the bounded offline queue. The router is in
-- Messaging/Router.
pub mod Channel
pub mod Router
pub mod Queue
pub mod Frames
use neonet.Base.{
  ℕ, ◌*◌, Option, none, some, List, [], ◌∷◌, ◌++◌, ltb, length, drop, ◌==◌, if◌then◌else◌, not,
  nat_beq,
}
use neonet.Base.Maps.{Map, get, insert, remove}
use neonet.Base.Results.{
  Io, ok, err, io_error, invalid_data, invalid_input, permission_denied, ◌>>=◌, ◌>>◌, ok_or,
}
use neonet.Base.Text.{Bytes}
use neonet.Identity.{PublicIdentity, identity_eq}

-- 1 MiB
abbrev pub max_message_size : ℕ
max_message_size = 1024 * 1024

pub record Message : Type 0 where
  pub id : Bytes
  pub sender : PublicIdentity
  pub recipient : PublicIdentity
  pub payload : Bytes

pub data MessagingFrame : Type 0 where
  message : Message → MessagingFrame

-- `postcard::to_allocvec` on a message gives bytes or an error.
unfoldable pub validate_size : (Message → Option Bytes) → Message → Io (Unit {0})
validate_size to_allocvec m = do
  encoded ← ok_or (to_allocvec m) (io_error invalid_data "codec")
  if ltb max_message_size (length encoded)
      then err (io_error invalid_input "message too large")
      else ok tt

-- `Message::new`, with the sixteen random bytes of the id.
unfoldable pub new_message :
    (Message → Option Bytes) → Bytes → PublicIdentity → PublicIdentity → Bytes → Io Message
unfolding validate_size
new_message to_allocvec id sender recipient payload = do
  let m : Message = record { id = id; sender = sender; recipient = recipient; payload = payload }
  validate_size to_allocvec m
  ok m

unfoldable pub frame_encode : (MessagingFrame → Option Bytes) → MessagingFrame → Io Bytes
frame_encode to_allocvec frame = do
  bytes ← ok_or (to_allocvec frame) (io_error invalid_data "codec")
  if ltb max_message_size (length bytes)
      then err (io_error invalid_input "message frame too large")
      else ok bytes

unfoldable pub frame_decode : (Bytes → Option MessagingFrame) → Bytes → Io MessagingFrame
frame_decode from_bytes bytes =
    if ltb max_message_size (length bytes)
    then err (io_error invalid_data "message frame too large")
    else ok_or (from_bytes bytes) (io_error invalid_data "codec")

-- The `match` of `receive_message`.
accept : (Message → Option Bytes) → PublicIdentity → MessagingFrame → Io Message
unfolding validate_size
accept to_allocvec authenticated_sender (message m) = do
  validate_size to_allocvec m
  if not (m.sender == authenticated_sender)
      then err (io_error permission_denied "message sender does not match authenticated peer")
      else ok m

-- `receive_message` on the bytes of the frame that was read.
unfoldable pub receive_message :
    (Message → Option Bytes) → (Bytes → Option MessagingFrame) → PublicIdentity → Bytes → Io Message
unfolding accept frame_decode
receive_message to_allocvec from_bytes authenticated_sender bytes = do
  frame ← frame_decode from_bytes bytes
  accept to_allocvec authenticated_sender frame

pub record OfflineQueue : Type 0 where
  pub capacity : ℕ
  pub queues : Map PublicIdentity (List Message)

unfoldable pub new_queue : ℕ → Io OfflineQueue
new_queue capacity =
    if nat_beq capacity 0
    then err (io_error invalid_input "queue capacity must be > 0")
    else ok (record { capacity = capacity; queues = [] })

-- The entry of a recipient, `or_default`.
unfoldable pub queue_of : OfflineQueue → PublicIdentity → List Message
queue_of q recipient = elim (get recipient q.queues) [ none ↦ [] | some queue ↦ queue ]

abbrev pub front : List Message → Option Message
front [] = none
front (m ∷ ms) = some m

-- The queue after the message, and the message that was evicted.
unfoldable pub push : OfflineQueue → Message → OfflineQueue × Option Message
unfolding queue_of
push q m =
    let queue = queue_of q m.recipient ++ m ∷ [] in
    if ltb q.capacity (length queue)
    then (record q { queues = insert m.recipient (drop 1 queue) q.queues }, front queue)
    else (record q { queues = insert m.recipient queue q.queues }, none)

unfoldable pub drain : OfflineQueue → PublicIdentity → OfflineQueue × List Message
unfolding queue_of
drain q recipient = (record q { queues = remove recipient q.queues }, queue_of q recipient)

unfoldable pub queue_len : OfflineQueue → PublicIdentity → ℕ
unfolding queue_of
queue_len q recipient = length (queue_of q recipient)
