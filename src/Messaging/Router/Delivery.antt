-- ===== src/Messaging/Router/Delivery.antt =====
-- src/messaging.rs, `Router::send`: where a message ends up.
use neonet.Base.{
  ◌≡◌, ◌⊎◌, inl, inr, refl, Bool, true, false, Option, none, some, [], arith, Eq, ◌==◌, ◌∙◌, ap,
}
use neonet.Base.Maps.{contains_key, get}
use neonet.Base.Results.{Io, ok, err}
use neonet.Base.Text.{Bytes}
use neonet.Identity.{PublicIdentity, identity_eq}
use neonet.Messaging.Queue.{queue_of-push_ne}
use neonet.Messaging.{queue_of, Message, validate_size, push}
use neonet.Messaging.Channel.{Channels}
use neonet.Messaging.Router.{reachable, finish, sized, send, Router, try_routes}
use neonet.Messaging.Router.Attempts.{
  AcceptedBy, Untouched, Within, IsRoute, Attempt, try_routes-Attempt,
}

unreachable :
    {Sender : Type 0} (id : PublicIdentity) (r : Router Sender)
    → reachable id r ≡ false
    → (get id r.next_hops ≡ none) × (r.relays ≡ [])
unfolding reachable contains_key
unreachable id r h = ground arith

module _ {World Sender : Type 0} ⦃same : Eq Sender⦄ (ch : Channels World Sender) where
  finish_once :
      (m : Message) (r : Router Sender) (w : World) (out : Bool × Router Sender × World)
      → Attempt ch m r w out
      → let (res, r', w') = finish ch m out in
        ((s : Sender) × IsRoute r m s
          × AcceptedBy ch m s w w'
          × (res ≡ ok none)
          × (r'.offline ≡ r.offline))
        ⊎ (Untouched ch w w'
            × (res ≡ ok (push r.offline m).1)
            × (r'.offline ≡ (push r.offline m).0))
  unfolding finish
  finish_once m r w (true, r1, w1) a =
      let (s, route, got) = a.accepted refl in inl (s, route, got, refl, a.offline)
  finish_once m r w (false, r1, w1) a = inr (a.refused refl, rw a.offline refl, rw a.offline refl)

  -- A message of acceptable size is never lost or doubled by `send`, which returns: either one
  -- route of the router accepted it, nothing else and no other channel did, and the offline queue
  -- is as before, or no channel accepted anything and the result and the offline queue are those
  -- of `push`.
  pub send_exactly_once :
      (to_allocvec : Message → Option Bytes) (m : Message) (r : Router Sender) (w : World)
      → validate_size to_allocvec m ≡ ok tt
      → let (res, r', w') = send ch to_allocvec m r w in
        ((s : Sender) × IsRoute r m s
          × AcceptedBy ch m s w w'
          × (res ≡ ok none)
          × (r'.offline ≡ r.offline))
        ⊎ (Untouched ch w w'
            × (res ≡ ok (push r.offline m).1)
            × (r'.offline ≡ (push r.offline m).0))
  unfolding send
  send_exactly_once to_allocvec m r w valid =
      rw valid (finish_once m r w (try_routes ch m r w) (try_routes-Attempt ch m r w))

  -- What `send` may change of the routes and of the other queues.
  abbrev Keeps : Message → Router Sender → Router Sender → Type 0
  Keeps m r r' =
      Within r'.peers r.peers
      × Within r'.next_hops r.next_hops
      × (r'.relays ≡ r.relays)
      × ((id : PublicIdentity)
          → (m.recipient == id) ≡ false
          → queue_of r'.offline id ≡ queue_of r.offline id)

  finish-Keeps :
      (m : Message) (r : Router Sender) (w : World) (out : Bool × Router Sender × World)
      → Attempt ch m r w out
      → Keeps m r (finish ch m out).1
  unfolding finish
  finish-Keeps m r w (true, r1, w1) a =
      (a.peers, a.next_hops, a.relays, λ id n. ap (λ q. queue_of q id) a.offline)
  finish-Keeps m r w (false, r1, w1) a = (
    a.peers,
    a.next_hops,
    a.relays,
    λ id n. queue_of-push_ne r1.offline m id n ∙ ap (λ q. queue_of q id) a.offline,
  )

  sized-Keeps :
      (v : Io (Unit {0})) (m : Message) (r : Router Sender) (w : World)
      → Keeps m r (sized ch v m r w).1
  unfolding sized
  sized-Keeps (ok _) m r w = finish-Keeps m r w (try_routes ch m r w) (try_routes-Attempt ch m r w)
  sized-Keeps (err e) m r w = ((λ j s h. h), (λ j s h. h), refl, (λ id n. refl))

  -- `send` changes no route but to drop it: every peer and next hop of the new router is one of
  -- the old, the relays are the same, and no other recipient's offline queue has changed.
  pub send_keeps_routes :
      (to_allocvec : Message → Option Bytes) (m : Message) (r : Router Sender) (w : World)
      → let (res, r', w') = send ch to_allocvec m r w in
        Within r'.peers r.peers
        × Within r'.next_hops r.next_hops
        × (r'.relays ≡ r.relays)
        × ((id : PublicIdentity)
            → (m.recipient == id) ≡ false
            → queue_of r'.offline id ≡ queue_of r.offline id)
  unfolding send
  send_keeps_routes to_allocvec m r w = sized-Keeps (validate_size to_allocvec m) m r w

  -- A connected peer comes first: if its channel accepts, nothing else is tried and the router is
  -- as before.
  pub send_prefers_peer :
      (to_allocvec : Message → Option Bytes) (m : Message) (r : Router Sender) (w : World)
      (tx : Sender)
      → validate_size to_allocvec m ≡ ok tt
      → get m.recipient r.peers ≡ some tx
      → (ch.send tx m w).0 ≡ true
      → send ch to_allocvec m r w ≡ (ok none, r, (ch.send tx m w).1)
  unfolding send
  send_prefers_peer to_allocvec m r w tx valid here sends = rw (valid, here, sends)

  -- A message whose recipient is no peer and is unreachable by `reachable` waits offline, and
  -- nothing else changes.
  pub send_unreachable :
      (to_allocvec : Message → Option Bytes) (m : Message) (r : Router Sender) (w : World)
      → validate_size to_allocvec m ≡ ok tt
      → get m.recipient r.peers ≡ none
      → reachable m.recipient r ≡ false
      → send ch to_allocvec m r w
        ≡ (ok (push r.offline m).1, record r { offline = (push r.offline m).0 }, w)
  unfolding send
  send_unreachable to_allocvec m r w valid gone far =
      let (no_hop, no_relay) = unreachable m.recipient r far in rw (valid, gone, no_hop, no_relay)
