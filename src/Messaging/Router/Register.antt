-- ===== src/Messaging/Router/Register.antt =====
-- src/messaging.rs, `Router::register`: queued messages reach the new channel first and in order.
use neonet.Base.{
  suc, ◌≤◌, ◌≡◌, ◌≢◌, refl, List, [], ◌∷◌, ◌++◌, some, arith, length, append-nil, append_assoc,
  ◌==◌, false, ◌-◌,
}
use neonet.Base.Maps.{get, get-insert_self, get-remove, get-remove_self}
use neonet.Identity.{PublicIdentity, identity_eq}
use neonet.Messaging.{Message, OfflineQueue, queue_of, drain}
use neonet.Messaging.Channel.{Channels}
use neonet.Messaging.Queue.{IsBounded}
use neonet.Messaging.Router.{Router, refill, register}

module _ {World Sender : Type 0} (ch : Channels World Sender) where
  -- A channel with room for all of them takes every message, in order.
  refill_all :
      (tx : Sender) (ms : List Message) (w : World)
      → length ms ≤ ch.room tx w
      → ch.received tx (refill ch tx ms w) ≡ ch.received tx w ++ ms
  unfolding refill
  refill_all tx [] w h = rw append-nil
  refill_all tx (m ∷ ms) w h =
      let e : ch.room tx w ≡ suc (ch.room tx w - 1) = omega arith in
      let (got, left) = ch.try_send_accepted tx m w (ch.room tx w - 1) e in
      rw (refill_all tx ms (ch.try_send tx m w).1 (omega arith), got) (rw append_assoc)

  refill_others :
      (tx t : Sender) (ms : List Message) (w : World)
      → t ≢ tx
      → ch.received t (refill ch tx ms w) ≡ ch.received t w
  unfolding refill
  refill_others tx t [] w h = refl
  refill_others tx t (m ∷ ms) w h =
      rw (refill_others tx t ms (ch.try_send tx m w).1 h) (ch.try_send_others tx t m w h)

drain_lem : (q : OfflineQueue) (id : PublicIdentity) → (drain q id).1 ≡ queue_of q id
unfolding drain
drain_lem q id = refl

queue_of-drain_self : (q : OfflineQueue) (id : PublicIdentity) → queue_of (drain q id).0 id ≡ []
unfolding queue_of drain
queue_of-drain_self q id = ground (arith, get-remove_self id q.queues)

queue_of-drain_ne :
    (q : OfflineQueue) (id j : PublicIdentity)
    → (id == j) ≡ false
    → queue_of (drain q id).0 j ≡ queue_of q j
unfolding queue_of drain
queue_of-drain_ne q id j h = ground (arith, get-remove j id q.queues)

module _ {World Sender : Type 0} (ch : Channels World Sender) where
  fresh_holds :
      (id : PublicIdentity) (r : Router Sender) (w : World)
      → IsBounded r.offline
      → let (r', tx, w') = register ch id r w in ch.received tx w' ≡ queue_of r.offline id
  unfolding register
  fresh_holds id r w b =
      let (tx, w') = ch.channel r.offline.capacity w in
      let fits : length (drain r.offline id).1 ≤ ch.room tx w' =
        rw (drain_lem, ch.channel_room r.offline.capacity w) (b.within id) in
      rw (refill_all ch tx (drain r.offline id).1 w' fits, ch.channel_empty r.offline.capacity w)
        (drain_lem r.offline id)

  -- With a bounded offline queue, registering an identity gives a fresh channel that has accepted
  -- exactly the messages queued for it, oldest first; its queue is then empty, no other queue and
  -- no other channel has changed, and the channel is the identity's peer.
  pub register_delivers :
      (id : PublicIdentity) (r : Router Sender) (w : World)
      → IsBounded r.offline
      → let (r', tx, w') = register ch id r w in
        (ch.received tx w' ≡ queue_of r.offline id)
        × (queue_of r'.offline id ≡ [])
        × (get id r'.peers ≡ some tx)
        × ((j : PublicIdentity) → (id == j) ≡ false → queue_of r'.offline j ≡ queue_of r.offline j)
        × ((t : Sender) → t ≢ tx → ch.received t w' ≡ ch.received t w)
  unfolding register
  register_delivers id r w b = (
    fresh_holds id r w b,
    queue_of-drain_self r.offline id,
    get-insert_self id _ r.peers,
    queue_of-drain_ne r.offline id,
    λ t n. rw (refill_others ch _ t (drain r.offline id).1 _ n) (ch.channel_others _ w t n),
  )
