-- ===== src/Messaging/Router.antt =====
-- src/messaging.rs: `Router`. Its methods take the state of all channels and return the new one.
-- A `HashSet` of relays is a list in the order in which the loop meets them.
pub mod Attempts
pub mod Delivery
pub mod Register
pub mod Routes
pub mod Bounded
use neonet.Base.{
  ℕ, Bool, true, false, Option, none, some, List, [], ◌∷◌, Eq, ◌==◌, if◌then◌else◌, ◌||◌, not,
  is_empty,
}
use neonet.Base.Maps.{Map, get, insert, remove, contains_key}
use neonet.Base.Sets.{add, discard}
use neonet.Base.Results.{Io, ok, err, ◌>>=◌}
use neonet.Base.Text.{Bytes}
use neonet.Identity.{PublicIdentity, identity_eq}
use neonet.Messaging.{Message, OfflineQueue, validate_size, new_queue, push, drain, queue_len}
use neonet.Messaging.Channel.{Channels}

pub record Router (Sender : Type 0) : Type 0 where
  pub peers : Map PublicIdentity Sender
  pub next_hops : Map PublicIdentity Sender
  pub relays : List PublicIdentity
  pub offline : OfflineQueue

module _ {Sender : Type 0} where
  unfoldable pub new : ℕ → Io (Router Sender)
  unfolding new_queue
  new queue_capacity_per_identity = do
    offline ← new_queue queue_capacity_per_identity
    ok (record { peers = []; next_hops = []; relays = []; offline = offline })

  unfoldable pub unregister : PublicIdentity → Router Sender → Router Sender
  unregister identity r = record r { peers = remove identity r.peers }

  unfoldable pub set_next_hop : PublicIdentity → Sender → Router Sender → Router Sender
  set_next_hop destination next_hop r = record r {
    next_hops = insert destination next_hop r.next_hops;
  }

  unfoldable pub remove_next_hop : PublicIdentity → Router Sender → Router Sender
  remove_next_hop destination r = record r { next_hops = remove destination r.next_hops }

  unfoldable pub has_next_hop : PublicIdentity → Router Sender → Bool
  has_next_hop destination r = contains_key destination r.next_hops

  unfoldable pub set_relay : PublicIdentity → Router Sender → Router Sender
  set_relay relay r = record r { relays = add relay r.relays }

  unfoldable pub remove_relay : PublicIdentity → Router Sender → Router Sender
  remove_relay relay r = record r { relays = discard relay r.relays }

  unfoldable pub reachable : PublicIdentity → Router Sender → Bool
  reachable destination r = contains_key destination r.next_hops || not (is_empty r.relays)

  unfoldable pub queued : PublicIdentity → Router Sender → ℕ
  queued recipient r = queue_len r.offline recipient

-- `same_channel` is the equality of senders.
module _ {Sender : Type 0} ⦃same : Eq Sender⦄ where
  unfoldable pub remove_next_hop_if_current :
      PublicIdentity → Sender → Router Sender → Router Sender
  unfolding remove_next_hop
  remove_next_hop_if_current destination expected r = elim (get destination r.next_hops) [
    | none ↦ r
    | some current ↦ if current == expected then remove_next_hop destination r else r
  ]

module _ {World Sender : Type 0} (ch : Channels World Sender) where
  -- The loop over the queued messages: a refused `try_send` is ignored.
  unfoldable pub refill : Sender → List Message → World → World
  refill tx [] w = w
  refill tx (m ∷ ms) w = refill tx ms (ch.try_send tx m w).1

  -- The router, the new channel and the state of the channels.
  unfoldable pub register : PublicIdentity → Router Sender → World → Router Sender × Sender × World
  unfolding refill
  register identity r w =
      let (tx, w') = ch.channel r.offline.capacity w in
      let (offline, queue) = drain r.offline identity in
      (record r { offline = offline; peers = insert identity tx r.peers }, tx, refill tx queue w')

  -- One `if let Some(..) = .. .cloned()` of `send` on the channel found: whether the message is
  -- out. The second router is the one without the dead entry.
  attempt :
      Option Sender → Message → Router Sender → Router Sender → World → Bool × Router Sender × World
  attempt none m r dropped w = (false, r, w)
  attempt (some tx) m r dropped w =
      let (accepted, w') = ch.send tx m w in
      if accepted then (true, r, w') else (false, dropped, w')

  unfoldable pub try_peer : Message → Router Sender → World → Bool × Router Sender × World
  unfolding attempt
  try_peer m r w =
      attempt (get m.recipient r.peers) m r (record r { peers = remove m.recipient r.peers }) w

  -- The next hop of `via`, which is the recipient or a relay.
  unfoldable pub try_next_hop :
      PublicIdentity → Message → Router Sender → World → Bool × Router Sender × World
  unfolding attempt
  try_next_hop via m r w =
      attempt (get via r.next_hops) m r (record r { next_hops = remove via r.next_hops }) w

  -- `return Ok(None)` if the message is out, and the next block otherwise.
  or_else :
      Bool × Router Sender × World
      → (Router Sender → World → Bool × Router Sender × World)
      → Bool × Router Sender × World
  or_else (true, r, w) next = (true, r, w)
  or_else (false, r, w) next = next r w

  -- `for relay in &self.relays`
  unfoldable pub try_relays :
      List PublicIdentity → Message → Router Sender → World → Bool × Router Sender × World
  unfolding try_next_hop or_else
  try_relays [] m r w = (false, r, w)
  try_relays (relay ∷ relays) m r w =
      or_else (try_next_hop relay m r w) (λ r' w'. try_relays relays m r' w')

  -- All routes in order.
  unfoldable pub try_routes : Message → Router Sender → World → Bool × Router Sender × World
  unfolding try_peer try_next_hop try_relays or_else
  try_routes m r w =
      or_else (try_peer m r w) (λ r1 w1.
        or_else (try_next_hop m.recipient m r1 w1) (λ r2 w2. try_relays r2.relays m r2 w2))

  -- `Ok(self.offline.push(message))`, where no route took the message.
  finish : Message → Bool × Router Sender × World → Io (Option Message) × Router Sender × World
  finish m (true, r, w) = (ok none, r, w)
  finish m (false, r, w) =
      let (offline, evicted) = push r.offline m in (ok evicted, record r { offline = offline }, w)

  -- `message.validate_size()?`
  sized :
      Io (Unit {0}) → Message → Router Sender → World → Io (Option Message) × Router Sender × World
  unfolding try_routes finish
  sized (err e) m r w = (err e, r, w)
  sized (ok _) m r w = finish m (try_routes m r w)

  -- The result with the evicted message, the router and the state of the channels.
  unfoldable pub send :
      (Message → Option Bytes)
      → Message
      → Router Sender
      → World
      → Io (Option Message) × Router Sender × World
  unfolding sized
  send to_allocvec m r w = sized (validate_size to_allocvec m) m r w
