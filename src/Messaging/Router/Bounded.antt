-- ===== src/Messaging/Router/Bounded.antt =====
-- src/messaging.rs, `Router`: what its methods do to the offline queue.
use neonet.Base.{◌≡◌, ◌⊎◌, inl, inr, refl, Bool, true, false, Option, Eq, ap}
use neonet.Base.Results.{Io, ok, err}
use neonet.Base.Text.{Bytes}
use neonet.Identity.{PublicIdentity}
use neonet.Messaging.{Message, OfflineQueue, validate_size, push, drain}
use neonet.Messaging.Channel.{Channels}
use neonet.Messaging.Router.{Router, send, register, try_routes, finish, sized}
use neonet.Messaging.Router.Attempts.{Attempt, try_routes-Attempt}

module _ {World Sender : Type 0} ⦃same : Eq Sender⦄ (ch : Channels World Sender) where
  -- The offline queue is as before, or has the message pushed.
  abbrev pub KeptOrPushed : Message → OfflineQueue → OfflineQueue → Type 0
  KeptOrPushed m q q' = (q' ≡ q) ⊎ (q' ≡ (push q m).0)

  finish-offline :
      (m : Message) (r : Router Sender) (w : World) (out : Bool × Router Sender × World)
      → Attempt ch m r w out
      → KeptOrPushed m r.offline (finish ch m out).1.offline
  unfolding finish
  finish-offline m r w (true, r', w') a = inl a.offline
  finish-offline m r w (false, r', w') a = inr (ap (λ q. (push q m).0) a.offline)

  sized-offline :
      (v : Io (Unit {0})) (m : Message) (r : Router Sender) (w : World)
      → KeptOrPushed m r.offline (sized ch v m r w).1.offline
  unfolding sized
  sized-offline (ok _) m r w =
      finish-offline m r w (try_routes ch m r w) (try_routes-Attempt ch m r w)
  sized-offline (err e) m r w = inl refl

  pub send-offline :
      (to_allocvec : Message → Option Bytes) (m : Message) (r : Router Sender) (w : World)
      → KeptOrPushed m r.offline (send ch to_allocvec m r w).1.offline
  unfolding send
  send-offline to_allocvec m r w = sized-offline (validate_size to_allocvec m) m r w

  pub register-offline :
      (id : PublicIdentity) (r : Router Sender) (w : World)
      → (register ch id r w).0.offline ≡ (drain r.offline id).0
  unfolding register
  register-offline id r w = refl
