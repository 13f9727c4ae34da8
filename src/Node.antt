-- ===== src/Node.antt =====
-- src/node.rs: who may connect, what the reader of a connection routes, and which routes a
-- connection sets up and takes down. Sockets and tasks are not modelled: a connection is the
-- channel of its writer, and the reader is a step on each frame that arrives.
pub mod Attribution
pub mod Connections
pub mod Bounded
use neonet.Base.{Bool, true, false, Option, none, some, List, Eq, ◌==◌, if◌then◌else◌, ◌&&◌, not}
use neonet.Base.Sets.{contains}
use neonet.Base.Results.{Io, Result, ok, err, io_error, permission_denied, ◌>>=◌}
use neonet.Base.Text.{Bytes}
use neonet.Identity.{PublicIdentity, identity_eq}
use neonet.Messaging.{Message, MessagingFrame, message, frame_decode}
use neonet.Messaging.Channel.{Channels}
use neonet.Messaging.Router.{
  Router, send, set_next_hop, set_relay, remove_relay, remove_next_hop_if_current,
}

-- `AllowList`: `none` is open, a list admits its members.
abbrev pub AllowList : Type 0
AllowList = Option (List PublicIdentity)

unfoldable pub permits : AllowList → PublicIdentity → Bool
permits none identity = true
permits (some list) identity = contains identity list

-- `handle_inbound` up to the call of `pump_connection`: the identity that is let in. The argument
-- is the result of the handshake.
unfoldable pub admit_inbound : AllowList → Io PublicIdentity → Io PublicIdentity
unfolding permits
admit_inbound allow handshake = do
  remote ← handshake
  if not (permits allow remote)
      then err (io_error permission_denied "peer is not on the allow list")
      else ok remote

module _ {Sender : Type 0} where
  -- The beginning of `pump_connection`.
  unfoldable pub open_connection : PublicIdentity → Sender → Bool → Router Sender → Router Sender
  unfolding set_next_hop set_relay
  open_connection remote out_tx is_relay r =
      let r' = set_next_hop remote out_tx r in if is_relay then set_relay remote r' else r'

-- The end of `pump_connection`.
module _ {Sender : Type 0} ⦃same : Eq Sender⦄ where
  unfoldable pub close_connection : PublicIdentity → Sender → Bool → Router Sender → Router Sender
  unfolding remove_next_hop_if_current remove_relay
  close_connection remote out_tx is_relay r =
      let r' = remove_next_hop_if_current remote out_tx r in
      if is_relay then remove_relay remote r' else r'

module _ {World Sender : Type 0} (ch : Channels World Sender) (to_allocvec : Message → Option Bytes)
    (from_bytes : Bytes → Option MessagingFrame) where
  -- `send_raw`: the evicted message is dropped.
  unfoldable pub send_raw : Message → Router Sender → World → Io (Unit {0}) × Router Sender × World
  send_raw m r w = let (res, r', w') = send ch to_allocvec m r w in (res >>= (λ _. ok tt), r', w')

  -- The reader's loop body on a message: a sender that the connection does not vouch for is
  -- dropped, and the result of `send` is ignored.
  route_decoded : Bool → PublicIdentity → Message → Router Sender → World → Router Sender × World
  route_decoded is_relay remote m r w =
      let (res, r', w') = send ch to_allocvec m r w in
      if not is_relay && not (m.sender == remote) then (r, w) else (r', w')

  on_decoded :
      Io MessagingFrame → Bool → PublicIdentity → Router Sender → World → Router Sender × World
  unfolding route_decoded
  on_decoded (ok (message m)) is_relay remote r w = route_decoded is_relay remote m r w
  on_decoded (err e) is_relay remote r w = (r, w)

  -- The reader's loop body on a frame: what does not decode is skipped.
  unfoldable pub on_frame :
      Bool → PublicIdentity → Bytes → Router Sender → World → Router Sender × World
  unfolding on_decoded
  on_frame is_relay remote frame r w =
      on_decoded (frame_decode from_bytes frame) is_relay remote r w
