-- ===== src/Node/Attribution.antt =====
-- src/node.rs: an inbound connection cannot speak for another device.
use neonet.Base.{
  ◌≡◌, ◌⊎◌, inl, inr, refl, Bool, true, false, Option, some, arith, ◌==◌, beq-eq, Bool-cases, List,
  ◌↔◌,
}
use neonet.Base.Results.{Io, ok, err}
use neonet.Base.Sets.{contains}
use neonet.Base.Text.{Bytes}
use neonet.Identity.{PublicIdentity, identity_eq}
use neonet.Messaging.{Message, MessagingFrame, message, frame_decode}
use neonet.Messaging.Channel.{Channels}
use neonet.Messaging.Router.{Router, send}
use neonet.Node.{admit_inbound, on_frame, on_decoded}

module _ {World Sender : Type 0} (ch : Channels World Sender) (to_allocvec : Message → Option Bytes)
    (from_bytes : Bytes → Option MessagingFrame) where
  -- A frame was skipped, or it decodes to a message that the connection may carry and the router
  -- has sent it.
  abbrev pub Routed :
      Bool
      → PublicIdentity
      → Io MessagingFrame
      → Router Sender
      → World
      → Router Sender × World
      → Type 0
  Routed is_relay remote decoded r w out =
      (out ≡ (r, w))
      ⊎ ((m : Message) × (decoded ≡ ok (message m))
          × ((is_relay ≡ true) ⊎ (m.sender ≡ remote))
          × (out ≡ ((send ch to_allocvec m r w).1, (send ch to_allocvec m r w).2)))

  decoded-Routed :
      (d : Io MessagingFrame) (is_relay : Bool) (remote : PublicIdentity) (r : Router Sender)
      (w : World)
      → Routed is_relay remote d r w (on_decoded ch to_allocvec from_bytes d is_relay remote r w)
  unfolding on_decoded
  decoded-Routed (err e) is_relay remote r w = inl refl
  decoded-Routed (ok (message m)) true remote r w = inr (m, refl, inl refl, refl)
  decoded-Routed (ok (message m)) false remote r w = elim (Bool-cases (m.sender == remote)) [
    | inl e ↦ inr (m, refl, inr (beq-eq m.sender remote e), ground arith)
    | inr n ↦ inl (ground arith)
  ]

  -- On every frame, the reader changes nothing, or the frame decodes to a message that the router
  -- then sends; on a connection that is no relay, that message's sender is the authenticated peer.
  pub on_frame_attribution :
      (is_relay : Bool) (remote : PublicIdentity) (frame : Bytes) (r : Router Sender) (w : World)
      → let out = on_frame ch to_allocvec from_bytes is_relay remote frame r w in
        (out ≡ (r, w))
        ⊎ ((m : Message) × (frame_decode from_bytes frame ≡ ok (message m))
            × ((is_relay ≡ true) ⊎ (m.sender ≡ remote))
            × (out ≡ ((send ch to_allocvec m r w).1, (send ch to_allocvec m r w).2)))
  unfolding on_frame
  on_frame_attribution is_relay remote frame r w =
      decoded-Routed (frame_decode from_bytes frame) is_relay remote r w

-- A peer is let in exactly if the handshake authenticated it and the allow list, unless it is
-- open, names it.
pub admit_inbound_iff :
    (list : List PublicIdentity) (h : Io PublicIdentity) (id : PublicIdentity)
    → (admit_inbound (some list) h ≡ ok id) ↔ ((h ≡ ok id) × (contains id list ≡ true))
unfolding admit_inbound
admit_inbound_iff list (ok j) id = ground arith
admit_inbound_iff list (err e) id = ground arith
