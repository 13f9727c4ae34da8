-- ===== src/Node/Connections.antt =====
-- src/node.rs, `pump_connection`: two connections of one remote identity, one of which ends.
use neonet.Base.{◌≡◌, ◌≢◌, Bool, true, false, none, some, arith, Eq, beq_refl, beq-ne}
use neonet.Base.Maps.{get, get-insert, get-remove}
use neonet.Base.Sets.{contains, contains-discard}
use neonet.Identity.{PublicIdentity, identity_eq}
use neonet.Messaging.Router.{
  Router, set_next_hop, set_relay, remove_relay, remove_next_hop_if_current,
}
use neonet.Node.{open_connection, close_connection}

module _ {Sender : Type 0} ⦃same : Eq Sender⦄ (id : PublicIdentity) where
  next_hop-open :
      (tx : Sender) (is_relay : Bool) (r : Router Sender)
      → get id (open_connection id tx is_relay r).next_hops ≡ some tx
  unfolding open_connection set_next_hop set_relay
  next_hop-open tx is_relay r = ground (arith, get-insert id id tx r.next_hops, beq_refl id)

  next_hop-close :
      (tx live : Sender) (is_relay : Bool) (r : Router Sender)
      → get id r.next_hops ≡ some live
      → live ≢ tx
      → get id (close_connection id tx is_relay r).next_hops ≡ some live
  unfolding close_connection remove_next_hop_if_current remove_relay
  next_hop-close tx live is_relay r h n = ground (arith, beq-ne live tx n)

  next_hop-close_self :
      (tx : Sender) (is_relay : Bool) (r : Router Sender)
      → get id r.next_hops ≡ some tx
      → get id (close_connection id tx is_relay r).next_hops ≡ none
  unfolding close_connection remove_next_hop_if_current remove_relay
  next_hop-close_self tx is_relay r h =
      ground (arith, beq_refl tx, get-remove id id r.next_hops, beq_refl id)

  relays-close :
      (tx : Sender) (r : Router Sender) → contains id (close_connection id tx true r).relays ≡ false
  unfolding close_connection remove_relay
  relays-close tx r =
      let r' = remove_next_hop_if_current id tx r in
      ground (arith, contains-discard id id r'.relays, beq_refl id)

  -- A dying connection does not take down the route of a later connection of the same identity:
  -- the route belongs to the later one, whatever the kinds of the two.
  pub stale_close_keeps_route :
      (first second : Sender) (k1 k2 : Bool) (r : Router Sender)
      → second ≢ first
      → get id
          (close_connection id first k1
            (open_connection id second k2 (open_connection id first k1 r))).next_hops
        ≡ some second
  stale_close_keeps_route first second k1 k2 r n =
      next_hop-close first second k1 _ (next_hop-open second k2 (open_connection id first k1 r)) n

  -- The connection that owns the route removes it.
  pub owner_close_removes_route :
      (tx : Sender) (is_relay : Bool) (r : Router Sender)
      → get id (close_connection id tx is_relay (open_connection id tx is_relay r)).next_hops ≡ none
  owner_close_removes_route tx is_relay r =
      next_hop-close_self tx is_relay _ (next_hop-open tx is_relay r)

  -- The relay mark has no such care: when the first of two relay connections to one core ends, the
  -- core is no relay any more, though the second connection is its next hop.
  pub stale_close_drops_relay :
      (first second : Sender) (r : Router Sender)
      → second ≢ first
      → let r' =
          close_connection id first true
            (open_connection id second true (open_connection id first true r)) in
        (get id r'.next_hops ≡ some second) × (contains id r'.relays ≡ false)
  stale_close_drops_relay first second r n =
      (stale_close_keeps_route first second true true r n, relays-close first _)
