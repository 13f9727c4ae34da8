-- ===== src/Examples/Messages.antt =====
-- Runs of src/messaging.rs.
use neonet.Base.{
  ℕ, ◌≡◌, ◌≢◌, ◌⊎◌, refl, false, none, some, [], ◌∷◌, ◌++◌, arith, Option, ◌==◌, nat_eq,
}
use neonet.Base.Maps.{get}
use neonet.Base.Newest.{newest}
use neonet.Base.Results.{ok}
use neonet.Base.Text.{Bytes}
use neonet.Identity.{PublicIdentity, identity_eq}
use neonet.Messaging.{Message, OfflineQueue, validate_size, push, queue_of}
use neonet.Messaging.Queue.{IsBounded, push_all, push_all-newest}
use neonet.Messaging.Router.{Router, send, register}
use neonet.Messaging.Router.Attempts.{IsRoute, AcceptedBy, Untouched}
use neonet.Messaging.Router.Delivery.{send_exactly_once}
use neonet.Messaging.Router.Register.{register_delivers}
use neonet.Examples.Wire.{channels, alice, bob, carol, letter, world}
use neonet.Examples.Serial.{write_message}

abbrev allocvec : Message → Option Bytes
allocvec m = some (write_message m)

-- A queue of capacity 2 with one message for bob.
abbrev queue : OfflineQueue
queue = record { capacity = 2; queues = (bob, letter 7 alice bob ∷ []) ∷ [] }

queue-IsBounded : IsBounded queue
unfolding queue_of get
queue-IsBounded = record { positive = omega arith; within = λ id. ground arith }

-- bob is a dead peer and has a next hop that accepts; carol has none.
abbrev router : Router ℕ
router = record { peers = (bob, 1) ∷ []; next_hops = (bob, 0) ∷ []; relays = []; offline = queue }

push_all-newest_example :
    queue_of
      (push_all (letter 8 alice bob ∷ letter 9 alice carol ∷ letter 10 alice bob ∷ []) queue)
      bob
    ≡ newest 2 (queue_of queue bob ++ letter 8 alice bob ∷ letter 10 alice bob ∷ [])
push_all-newest_example =
    push_all-newest (letter 8 alice bob ∷ letter 9 alice carol ∷ letter 10 alice bob ∷ []) queue bob
      queue-IsBounded

send_exactly_once_example :
    let m = letter 4 alice bob in
    let (res, r', w') = send channels allocvec m router world in
    ((s : ℕ) × IsRoute router m s
      × AcceptedBy channels m s world w'
      × (res ≡ ok none)
      × (r'.offline ≡ router.offline))
    ⊎ (Untouched channels world w'
        × (res ≡ ok (push router.offline m).1)
        × (r'.offline ≡ (push router.offline m).0))
unfolding validate_size
send_exactly_once_example =
    send_exactly_once channels allocvec (letter 4 alice bob) router world refl

register_delivers_example :
    let (r', tx, w') = register channels bob router world in
    (w'.log tx ≡ queue_of queue bob)
    × (queue_of r'.offline bob ≡ [])
    × (get bob r'.peers ≡ some tx)
    × ((j : PublicIdentity) → (bob == j) ≡ false → queue_of r'.offline j ≡ queue_of queue j)
    × ((t : ℕ) → t ≢ tx → w'.log t ≡ world.log t)
register_delivers_example = register_delivers channels bob router world queue-IsBounded
