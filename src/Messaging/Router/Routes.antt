-- ===== src/Messaging/Router/Routes.antt =====
-- src/messaging.rs, the route table of `Router`: what the methods that change one route leave.
use neonet.Base.{◌≡◌, refl, false, Option, none, some, arith, Eq, ◌==◌, beq_refl, if◌then◌else◌}
use neonet.Base.Maps.{get, get-remove}
use neonet.Identity.{PublicIdentity, identity_eq}
use neonet.Messaging.Router.{Router, remove_next_hop_if_current}

-- The entry that `remove_next_hop_if_current` leaves.
abbrev pub survivor : {Sender : Type 0} ⦃same : Eq Sender⦄ → Sender → Option Sender → Option Sender
survivor expected none = none
survivor expected (some current) = if current == expected then none else some current

module _ {Sender : Type 0} ⦃same : Eq Sender⦄ (id : PublicIdentity) (r : Router Sender) where
  remove_current :
      (tx : Sender) (o : Option Sender)
      → get id r.next_hops ≡ o
      → get id (remove_next_hop_if_current id tx r).next_hops ≡ survivor tx o
  unfolding remove_next_hop_if_current
  remove_current tx o h = ground (arith, get-remove id id r.next_hops, beq_refl id)

  -- Removing the route of a connection removes it exactly if it still belongs to that connection,
  -- and leaves the routes of all others, the peers, the relays and the offline queue alone.
  pub remove_next_hop_if_current_exact :
      (tx : Sender)
      → let r' = remove_next_hop_if_current id tx r in
        (get id r'.next_hops ≡ survivor tx (get id r.next_hops))
        × ((j : PublicIdentity) → (id == j) ≡ false → get j r'.next_hops ≡ get j r.next_hops)
        × (r'.peers ≡ r.peers)
        × (r'.relays ≡ r.relays)
        × (r'.offline ≡ r.offline)
  unfolding remove_next_hop_if_current
  remove_next_hop_if_current_exact tx = (
    remove_current tx (get id r.next_hops) refl,
    λ j n. ground (arith, get-remove j id r.next_hops),
    ground arith,
    ground arith,
    ground arith,
  )
