-- ===== src/Client.antt =====
-- src/app/mod.rs: the reply to a request, and the client that calls a peer and pairs answers with
-- its calls. The serialiser and the node's `send_raw` are parameters; a channel that a caller waits
-- on is a number. The dispatcher is not modelled: `handled` is what the pump gives to it.
pub mod Answers
use neonet.Base.{
  ℕ, Bool, Option, none, some, List, [], ◌∷◌, ltb, length, list_eq, nat_eq, if◌then◌else◌,
}
use neonet.Base.Maps.{Map, get, insert, remove}
use neonet.Base.Results.{
  Io, Result, ok, err, io_error, invalid_data, invalid_input, ok_or, ◌>>=◌, ◌>>◌,
}
use neonet.Base.Text.{Bytes}
use neonet.Identity.{PublicIdentity}
use neonet.Messaging.{Message, new_message, max_message_size}

-- What the pump does with a message.
pub data Pumped : Type 0 where
  answered : ℕ → Message → Pumped
  handled : Message → Pumped

-- The calls that wait for their answers, by the ids of the requests.
abbrev pub Waiting : Type 0
Waiting = Map Bytes ℕ

module _ {Frame World : Type 0} (to_allocvec : Frame → Option Bytes)
    (message_bytes : Message → Option Bytes)
    (send_raw : Message → World → Io (Unit {0}) × World) where
  unfoldable pub encode_frame : Frame → Io Bytes
  encode_frame frame = do
    bytes ← ok_or (to_allocvec frame) (io_error invalid_data "codec")
    if ltb max_message_size (length bytes)
        then err (io_error invalid_input "application frame too large")
        else ok bytes

  send_encoded : PublicIdentity → Message → Io Bytes → World → Io (Unit {0}) × World
  send_encoded identity request (err e) w = (err e, w)
  send_encoded identity request (ok payload) w =
      send_raw
        (record {
          id = request.id;
          sender = identity;
          recipient = request.sender;
          payload = payload;
        })
        w

  unfoldable pub reply : PublicIdentity → Message → Frame → World → Io (Unit {0}) × World
  unfolding encode_frame send_encoded
  reply identity request frame w = send_encoded identity request (encode_frame frame) w

  unfoldable send_request : ℕ → Io Message → Waiting → World → Io Bytes × Waiting × World
  send_request tx (err e) waiting w = (err e, waiting, w)
  send_request tx (ok message) waiting w =
      let (sent, w') = send_raw message w in
      (sent >> ok message.id, insert message.id tx waiting, w')

  -- `call` up to its wait on the channel `tx`: the id that it waits for. `id` are random bytes.
  unfoldable pub call :
      PublicIdentity
      → Bytes
      → ℕ
      → PublicIdentity
      → Frame
      → Waiting
      → World
      → Io Bytes × Waiting × World
  unfolding encode_frame new_message send_request
  call identity id tx peer frame waiting w =
      send_request tx
        (encode_frame frame >>= λ bytes. new_message message_bytes id identity peer bytes) waiting w

-- The loop of the pump over the messages of the inbox.
unfoldable pub pump : List Message → Waiting → List Pumped × Waiting
pump [] waiting = ([], waiting)
pump (m ∷ inbox) waiting = elim (get m.id waiting) [
  | none ↦ let (out, waiting') = pump inbox waiting in (handled m ∷ out, waiting')
  | some tx ↦
      let (out, waiting') = pump inbox (remove m.id waiting) in (answered tx m ∷ out, waiting')
]
