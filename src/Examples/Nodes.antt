-- ===== src/Examples/Nodes.antt =====
-- Runs of src/node.rs.
use neonet.Base.{ℕ, ◌≡◌, ◌≤◌, ◌⊎◌, refl, true, false, some, [], arith, Option, nat_eq}
use neonet.Base.Maps.{get}
use neonet.Base.Results.{ok}
use neonet.Base.Text.{Bytes}
use neonet.Identity.{identity_eq}
use neonet.Messaging.{Message, message, frame_decode}
use neonet.Messaging.Router.{Router, send, new, queued}
use neonet.Node.{send_raw, on_frame, open_connection, close_connection}
use neonet.Node.Attribution.{on_frame_attribution}
use neonet.Node.Bounded.{queued_bounded, start, after, local}
use neonet.Node.Connections.{stale_close_keeps_route}
use neonet.Examples.Wire.{channels, alice, bob, carol, letter, world}
use neonet.Examples.Serial.{write_message, frames, write_frame}

abbrev allocvec : Message → Option Bytes
allocvec m = some (write_message m)

abbrev empty : Router ℕ
empty = record {
  peers = [];
  next_hops = [];
  relays = [];
  offline = record { capacity = 1; queues = [] };
}

-- carol's frame is in alice's name, and is dropped.
on_frame_attribution_example :
    let bytes = write_frame (message (letter 5 alice bob)) in
    let out = on_frame channels allocvec frames.decode false carol bytes empty world in
    (out ≡ (empty, world))
    ⊎ ((m : Message) × (frame_decode frames.decode bytes ≡ ok (message m))
        × ((false ≡ true) ⊎ (m.sender ≡ carol))
        × (out
            ≡ ((send channels allocvec m empty world).1, (send channels allocvec m empty world).2)))
on_frame_attribution_example =
    on_frame_attribution channels allocvec frames.decode false carol
      (write_frame (message (letter 5 alice bob))) empty world

stale_close_keeps_route_example :
    get bob
      (close_connection bob 0 false
        (open_connection bob 1 false (open_connection bob 0 false empty))).next_hops
    ≡ some 1
stale_close_keeps_route_example =
    stale_close_keeps_route bob 0 1 false false empty (λ e. absurd (omega arith))

-- Two letters wait for carol, who has room for one.
queued_bounded_example :
    let (res1, r1, w1) =
      send_raw channels allocvec frames.decode (letter 5 alice carol) empty world in
    let (res2, r2, w2) = send_raw channels allocvec frames.decode (letter 6 alice carol) r1 w1 in
    queued carol r2 ≤ 1
unfolding new
queued_bounded_example =
    let (res1, r1, w1) =
      send_raw channels allocvec frames.decode (letter 5 alice carol) empty world in
    let (res2, r2, w2) = send_raw channels allocvec frames.decode (letter 6 alice carol) r1 w1 in
    queued_bounded channels allocvec frames.decode 1 empty world (r2, w2) refl
      (after (after start (local (letter 5 alice carol) empty world))
        (local (letter 6 alice carol) r1 w1))
      carol
