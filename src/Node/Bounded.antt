-- ===== src/Node/Bounded.antt =====
-- src/node.rs and src/messaging.rs: a node at work, as steps on its router and its channels.
use neonet.Base.{ℕ, ◌≤◌, ◌≡◌, refl, Bool, Option, arith, Eq, inl, inr}
use neonet.Base.Results.{ok, bind_ok}
use neonet.Base.Text.{Bytes}
use neonet.Identity.{PublicIdentity}
use neonet.Messaging.{Message, MessagingFrame, new_queue, queue_len, drain}
use neonet.Messaging.Channel.{Channels}
use neonet.Messaging.Queue.{
  capacity-new_queue, IsBounded, new_queue-IsBounded, push-IsBounded, drain-IsBounded,
  capacity-push,
}
use neonet.Messaging.Router.{Router, new, register, unregister, send, queued}
use neonet.Messaging.Router.Bounded.{send-offline, register-offline}
use neonet.Node.{open_connection, close_connection, on_frame, send_raw}
use neonet.Node.Attribution.{on_frame_attribution}

module _ {World Sender : Type 0} ⦃same : Eq Sender⦄ (ch : Channels World Sender)
    (to_allocvec : Message → Option Bytes) (from_bytes : Bytes → Option MessagingFrame) where
  -- The steps of a node; `elsewhere` is what the receivers and the tasks do to the channels.
  pub data Step : Router Sender × World → Router Sender × World → Type 0 where
    local :
        (m : Message) (r : Router Sender) (w : World)
        → Step
            (r, w)
            (
              (send_raw ch to_allocvec from_bytes m r w).1,
              (send_raw ch to_allocvec from_bytes m r w).2,
            )
    frame :
        (is_relay : Bool) (remote : PublicIdentity) (bytes : Bytes) (r : Router Sender) (w : World)
        → Step (r, w) (on_frame ch to_allocvec from_bytes is_relay remote bytes r w)
    attach :
        (id : PublicIdentity) (r : Router Sender) (w : World)
        → Step (r, w) ((register ch id r w).0, (register ch id r w).2)
    detach :
        (id : PublicIdentity) (r : Router Sender) (w : World) → Step (r, w) (unregister id r, w)
    connect :
        (id : PublicIdentity) (tx : Sender) (is_relay : Bool) (r : Router Sender) (w : World)
        → Step (r, w) (open_connection id tx is_relay r, w)
    disconnect :
        (id : PublicIdentity) (tx : Sender) (is_relay : Bool) (r : Router Sender) (w : World)
        → Step (r, w) (close_connection id tx is_relay r, w)
    elsewhere : (r : Router Sender) (w w' : World) → Step (r, w) (r, w')

  pub data Reach (s : Router Sender × World) : Router Sender × World → Type 0 where
    start : Reach s s
    after : {t u : Router Sender × World} → Reach s t → Step t u → Reach s u

  -- The queue capacity `n` is kept, and every queue is within it.
  pub record Holds (n : ℕ) (s : Router Sender × World) : Type 0 where
    pub capacity : s.0.offline.capacity ≡ n
    pub bounded : IsBounded s.0.offline

  Holds-of :
      (n : ℕ) (r r' : Router Sender) (w w' : World)
      → (r'.offline ≡ r.offline)
      → Holds n (r, w)
      → Holds n (r', w')
  Holds-of n r r' w w' e h = record { capacity = rw e h.capacity; bounded = rw e h.bounded }

  send-Holds :
      (n : ℕ) (m : Message) (r : Router Sender) (w : World)
      → Holds n (r, w)
      → Holds n ((send ch to_allocvec m r w).1, (send ch to_allocvec m r w).2)
  send-Holds n m r w h = elim (send-offline ch to_allocvec m r w) [
    | inl kept ↦ Holds-of n r _ w _ kept h
    | inr pushed ↦ record {
      capacity = rw (pushed, capacity-push) h.capacity;
      bounded = rw pushed (push-IsBounded r.offline m h.bounded);
    }
  ]

  frame-Holds :
      (n : ℕ) (is_relay : Bool) (remote : PublicIdentity) (bytes : Bytes) (r : Router Sender)
      (w : World)
      → Holds n (r, w)
      → Holds n (on_frame ch to_allocvec from_bytes is_relay remote bytes r w)
  frame-Holds n is_relay remote bytes r w h =
      elim (on_frame_attribution ch to_allocvec from_bytes is_relay remote bytes r w) [
        | inl skipped ↦ rw skipped h
        | inr (m, decoded, may, routed) ↦ rw routed (send-Holds n m r w h)
      ]

  Step-Holds : {n : ℕ} {s t : Router Sender × World} → Step s t → Holds n s → Holds n t
  unfolding send_raw unregister open_connection close_connection drain
  Step-Holds {n} (local m r w) h = send-Holds n m r w h
  Step-Holds {n} (frame is_relay remote bytes r w) h = frame-Holds n is_relay remote bytes r w h
  Step-Holds {n} (attach id r w) h = record {
    capacity = rw register-offline h.capacity;
    bounded = rw register-offline (drain-IsBounded r.offline id h.bounded);
  }
  Step-Holds {n} (detach id r w) h = Holds-of n r _ w w refl h
  Step-Holds {n} (connect id tx is_relay r w) h = Holds-of n r _ w w (ground arith) h
  Step-Holds {n} (disconnect id tx is_relay r w) h = Holds-of n r _ w w (ground arith) h
  Step-Holds {n} (elsewhere r w w') h = Holds-of n r r w w' refl h

  Reach-Holds : {n : ℕ} {s t : Router Sender × World} → Holds n s → Reach s t → Holds n t
  Reach-Holds h start = h
  Reach-Holds h (after reach step) = Step-Holds step (Reach-Holds h reach)

  new-Holds : (n : ℕ) (r : Router Sender) (w : World) → new n ≡ ok r → Holds n (r, w)
  unfolding new
  new-Holds n r w made =
      let (q, fresh, whole) = bind_ok (new_queue n) _ made in
      let same_queue : q ≡ r.offline = ground arith in
      record {
        capacity = rw (← same_queue) (capacity-new_queue n q fresh);
        bounded = rw (← same_queue) (new_queue-IsBounded n q fresh);
      }

  -- Whatever a node goes through from the start, with whatever frames, connections and
  -- registrations, no identity ever has more than the configured number of messages queued.
  pub queued_bounded :
      (capacity : ℕ) (r : Router Sender) (w : World) (s : Router Sender × World)
      → new capacity ≡ ok r
      → Reach (r, w) s
      → (id : PublicIdentity) → queued id s.0 ≤ capacity
  unfolding queued queue_len
  queued_bounded capacity r w s made reach id =
      let h = Reach-Holds (new-Holds capacity r w made) reach in
      rw (← h.capacity) (h.bounded.within id)
