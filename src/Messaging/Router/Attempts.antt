-- ===== src/Messaging/Router/Attempts.antt =====
-- src/messaging.rs, the attempts of `Router::send`: what one route leaves, and one after another.
use neonet.Base.{
  ◌≡◌, ◌≢◌, inl, inr, refl, Bool, true, false, Option, none, some, List, [], ◌∷◌, ◌++◌, arith, Eq,
  ◌==◌, Bool-cases, beq-eq, ◌∙◌, beq_refl, ap,
}
use neonet.Base.Maps.{Map, get, remove, get-remove}
use neonet.Base.Sets.{contains}
use neonet.Identity.{PublicIdentity, identity_eq}
use neonet.Messaging.{Message}
use neonet.Messaging.Channel.{Channels}
use neonet.Messaging.Router.{
  attempt, Router, try_peer, try_next_hop, try_relays, try_routes, or_else,
}

-- The channels that `r` may use for `m`: the recipient's own, its next hop, and the next hops of
-- the relays.
pub data IsRoute {Sender : Type 0} (r : Router Sender) (m : Message) (s : Sender) : Type 0 where
  peer : get m.recipient r.peers ≡ some s → IsRoute r m s
  hop : get m.recipient r.next_hops ≡ some s → IsRoute r m s
  relay :
      (via : PublicIdentity)
      → contains via r.relays ≡ true
      → get via r.next_hops ≡ some s
      → IsRoute r m s

module _ {World Sender : Type 0} (ch : Channels World Sender) where
  -- `s` accepted `m` and nothing else, and no other channel accepted anything.
  abbrev pub AcceptedBy : Message → Sender → World → World → Type 0
  AcceptedBy m s w w' =
      (ch.received s w' ≡ ch.received s w ++ m ∷ [])
      × ((t : Sender) → t ≢ s → ch.received t w' ≡ ch.received t w)

  abbrev pub Untouched : World → World → Type 0
  Untouched w w' = (t : Sender) → ch.received t w' ≡ ch.received t w

-- Every entry of `m'` is one of `m`.
abbrev pub Within :
    {Sender : Type 0} → Map PublicIdentity Sender → Map PublicIdentity Sender → Type 0
Within {Sender} m' m = (j : PublicIdentity) (s : Sender) → get j m' ≡ some s → get j m ≡ some s

Within-remove :
    {Sender : Type 0} (id : PublicIdentity) (m : Map PublicIdentity Sender) → Within (remove id m) m
Within-remove id m j s h = ground (arith, get-remove j id m)

first_in : (v : PublicIdentity) (vs : List PublicIdentity) → contains v (v ∷ vs) ≡ true
unfolding contains
first_in v vs = ground (arith, beq_refl v)

later_in :
    (u v : PublicIdentity) (vs : List PublicIdentity)
    → contains u vs ≡ true
    → contains u (v ∷ vs) ≡ true
unfolding contains
later_in u v vs h = ground arith

-- What one attempt leaves: the router has the same queue and relays and no new route; an accepted
-- message is in one channel, a route of the old router, and a refused one is nowhere.
pub record Attempt {World Sender : Type 0} (ch : Channels World Sender) (m : Message)
    (r : Router Sender) (w : World) (out : Bool × Router Sender × World) : Type 0 where
  pub offline : out.1.offline ≡ r.offline
  pub relays : out.1.relays ≡ r.relays
  pub peers : Within out.1.peers r.peers
  pub next_hops : Within out.1.next_hops r.next_hops
  pub accepted : out.0 ≡ true → (s : Sender) × IsRoute r m s × AcceptedBy ch m s w out.2
  pub refused : out.0 ≡ false → Untouched ch w out.2

module _ {World Sender : Type 0} ⦃same : Eq Sender⦄ (ch : Channels World Sender) where
  refused-Untouched :
      (s : Sender) (m : Message) (w : World)
      → (ch.send s m w).0 ≡ false
      → Untouched ch w (ch.send s m w).1
  refused-Untouched s m w h t = elim (Bool-cases (t == s)) [
    | inl e ↦ rw (beq-eq t s e) (ch.send_refused s m w h)
    | inr n ↦ ch.send_others s t m w (λ e. ground (arith, same.beq_iff t s))
  ]

  accepted_once :
      (s : Sender) (m : Message) (w : World)
      → (ch.send s m w).0 ≡ true
      → AcceptedBy ch m s w (ch.send s m w).1
  accepted_once s m w h = (ch.send_accepted s m w h, λ t n. ch.send_others s t m w n)

  idle : (m : Message) (r : Router Sender) (w : World) → Attempt ch m r w (false, r, w)
  idle m r w = record {
    offline = refl;
    relays = refl;
    peers = λ j s h. h;
    next_hops = λ j s h. h;
    accepted = λ h. cc;
    refused = λ h t. refl;
  }

  attempt-Attempt :
      (o : Option Sender) (m : Message) (r dropped : Router Sender) (w : World)
      → ((s : Sender) → o ≡ some s → IsRoute r m s)
      → dropped.offline ≡ r.offline
      → dropped.relays ≡ r.relays
      → Within dropped.peers r.peers
      → Within dropped.next_hops r.next_hops
      → Attempt ch m r w (attempt ch o m r dropped w)
  unfolding attempt
  attempt-Attempt none m r dropped w route d1 d2 d3 d4 = idle m r w
  attempt-Attempt (some s) m r dropped w route d1 d2 d3 d4 = elim (Bool-cases (ch.send s m w).0) [
    | inl got ↦ rw got (record {
      offline = refl;
      relays = refl;
      peers = λ j t h. h;
      next_hops = λ j t h. h;
      accepted = λ h. (s, route s refl, accepted_once s m w got);
      refused = λ h. cc;
    })
    | inr lost ↦ rw lost (record {
      offline = d1;
      relays = d2;
      peers = d3;
      next_hops = d4;
      accepted = λ h. cc;
      refused = λ h. refused-Untouched s m w lost;
    })
  ]

  try_peer-Attempt :
      (m : Message) (r : Router Sender) (w : World) → Attempt ch m r w (try_peer ch m r w)
  unfolding try_peer
  try_peer-Attempt m r w =
      attempt-Attempt (get m.recipient r.peers) m r _ w (λ s e. peer e) refl refl
        (Within-remove m.recipient r.peers) (λ j t h. h)

  try_next_hop-Attempt :
      (via : PublicIdentity) (m : Message) (r : Router Sender) (w : World)
      → ((s : Sender) → get via r.next_hops ≡ some s → IsRoute r m s)
      → Attempt ch m r w (try_next_hop ch via m r w)
  unfolding try_next_hop
  try_next_hop-Attempt via m r w route =
      attempt-Attempt (get via r.next_hops) m r _ w route refl refl (λ j t h. h)
        (Within-remove via r.next_hops)

  IsRoute-back :
      (m : Message) (r r' : Router Sender) (s : Sender)
      → r'.relays ≡ r.relays
      → Within r'.peers r.peers
      → Within r'.next_hops r.next_hops
      → IsRoute r' m s
      → IsRoute r m s
  IsRoute-back m r r' s same_relays p n (peer e) = peer (p m.recipient s e)
  IsRoute-back m r r' s same_relays p n (hop e) = hop (n m.recipient s e)
  IsRoute-back m r r' s same_relays p n (relay via c e) =
      relay via (rw (← same_relays) c) (n via s e)

  -- An attempt that fails, and then another.
  Attempt-then :
      (m : Message) (r r1 : Router Sender) (w w1 : World) (out : Bool × Router Sender × World)
      → Attempt ch m r w (false, r1, w1)
      → Attempt ch m r1 w1 out
      → Attempt ch m r w out
  Attempt-then m r r1 w w1 out a b = record {
    offline = b.offline ∙ a.offline;
    relays = b.relays ∙ a.relays;
    peers = λ j s h. a.peers j s (b.peers j s h);
    next_hops = λ j s h. a.next_hops j s (b.next_hops j s h);
    accepted = λ h.
        let (s, route, (got, others)) = b.accepted h in
        let before : Untouched ch w w1 = a.refused refl in
        (
          s,
          IsRoute-back m r r1 s a.relays a.peers a.next_hops route,
          (got ∙ ap (λ l. l ++ m ∷ []) (before s), λ t n. others t n ∙ before t),
        );
    refused = λ h t. b.refused h t ∙ a.refused refl t;
  }

  or_else-Attempt :
      (m : Message) (r : Router Sender) (w : World) (out : Bool × Router Sender × World)
      (next : Router Sender → World → Bool × Router Sender × World)
      → Attempt ch m r w out
      → ((r1 : Router Sender) (w1 : World)
          → Attempt ch m r w (false, r1, w1)
          → Attempt ch m r1 w1 (next r1 w1))
      → Attempt ch m r w (or_else ch out next)
  unfolding or_else
  or_else-Attempt m r w (true, r1, w1) next a k = a
  or_else-Attempt m r w (false, r1, w1) next a k =
      Attempt-then m r r1 w w1 (next r1 w1) a (k r1 w1 a)

  try_relays-Attempt :
      (relays : List PublicIdentity) (m : Message) (r : Router Sender) (w : World)
      → ((v : PublicIdentity) → contains v relays ≡ true → contains v r.relays ≡ true)
      → Attempt ch m r w (try_relays ch relays m r w)
  unfolding try_relays
  try_relays-Attempt [] m r w sub = idle m r w
  try_relays-Attempt (v ∷ vs) m r w sub =
      or_else-Attempt m r w (try_next_hop ch v m r w) _
        (try_next_hop-Attempt v m r w (λ s e. relay v (sub v (first_in v vs)) e))
        (λ r1 w1 a. try_relays-Attempt vs m r1 w1 (λ u h. rw a.relays (sub u (later_in u v vs h))))

  pub try_routes-Attempt :
      (m : Message) (r : Router Sender) (w : World) → Attempt ch m r w (try_routes ch m r w)
  unfolding try_routes
  try_routes-Attempt m r w =
      or_else-Attempt m r w (try_peer ch m r w) _ (try_peer-Attempt m r w) (λ r1 w1 a.
        or_else-Attempt m r1 w1 (try_next_hop ch m.recipient m r1 w1) _
          (try_next_hop-Attempt m.recipient m r1 w1 (λ s e. hop e))
          (λ r2 w2 b. try_relays-Attempt r2.relays m r2 w2 (λ v h. h)))
