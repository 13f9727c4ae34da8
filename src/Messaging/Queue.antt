-- ===== src/Messaging/Queue.antt =====
-- src/messaging.rs, `OfflineQueue`: each queue holds the newest messages of its recipient's history.
use neonet.Base.{
  ◌≤◌, ◌<◌, ◌≡◌, false, List, [], ◌∷◌, ◌++◌, arith, length, length-append, ◌==◌, if◌then◌else◌,
  drop, beq_refl, Option, Bool-cases, keep, append-nil, ℕ, sym, some, inl, beq-eq, append_assoc,
  inr, none, refl,
}
use neonet.Base.Maps.{insert, get-insert, get, get-remove}
use neonet.Base.Newest.{newest, newest_all, newest-drop, newest-append, length-newest}
use neonet.Base.Results.{ok}
use neonet.Identity.{PublicIdentity, identity_eq}
use neonet.Messaging.{Message, OfflineQueue, new_queue, queue_of, front, push, drain}

pub record IsBounded (q : OfflineQueue) : Type 0 where
  pub positive : 0 < q.capacity
  pub within : (id : PublicIdentity) → length (queue_of q id) ≤ q.capacity

-- Writing one queue.
queue_of-insert :
    (q : OfflineQueue) (id r : PublicIdentity) (l : List Message)
    → queue_of (record q { queues = insert r l q.queues }) id
      ≡ (if r == id then l else queue_of q id)
unfolding queue_of
queue_of-insert q id r l = ground (arith, get-insert id r l q.queues)

module _ (q : OfflineQueue) (m : Message) where
  pub capacity-push : (push q m).0.capacity ≡ q.capacity
  unfolding push
  capacity-push = ground arith

  pub queue_of-push_ne :
      (id : PublicIdentity) → (m.recipient == id) ≡ false → queue_of (push q m).0 id ≡ queue_of q id
  unfolding push
  queue_of-push_ne id h =
      let queue = queue_of q m.recipient ++ m ∷ [] in
      ground (
        arith,
        queue_of-insert q id m.recipient queue,
        queue_of-insert q id m.recipient (drop 1 queue),
      )

  pub queue_of-push_self :
      length (queue_of q m.recipient) ≤ q.capacity
      → queue_of (push q m).0 m.recipient ≡ newest q.capacity (queue_of q m.recipient ++ m ∷ [])
  unfolding push
  queue_of-push_self h =
      let queue = queue_of q m.recipient ++ m ∷ [] in
      ground (
        arith,
        beq_refl m.recipient,
        length-append (queue_of q m.recipient) (m ∷ []),
        newest_all q.capacity queue,
        newest-drop q.capacity queue,
        queue_of-insert q m.recipient m.recipient queue,
        queue_of-insert q m.recipient m.recipient (drop 1 queue),
      )

abbrev pub to_list : Option Message → List Message
to_list none = []
to_list (some m) = m ∷ []

abbrev CutIsWhole : List Message → Type 0
CutIsWhole l = to_list (front l) ++ drop 1 l ≡ l

cut_whole : (l : List Message) → CutIsWhole l
cut_whole [] = refl
cut_whole (x ∷ xs) = refl

-- A push loses nothing: what it evicts, followed by the recipient's new queue, is the old queue
-- followed by the message.
pub push_conserves :
    (q : OfflineQueue) (m : Message)
    → to_list (push q m).1 ++ queue_of (push q m).0 m.recipient ≡ queue_of q m.recipient ++ m ∷ []
unfolding push
push_conserves q m =
    let queue = queue_of q m.recipient ++ m ∷ [] in
    ground (
      arith,
      beq_refl m.recipient,
      cut_whole queue,
      queue_of-insert q m.recipient m.recipient queue,
      queue_of-insert q m.recipient m.recipient (drop 1 queue),
    )

pub capacity-new_queue :
    (capacity : ℕ) (q : OfflineQueue) → new_queue capacity ≡ ok q → q.capacity ≡ capacity
unfolding new_queue
capacity-new_queue capacity q h = ground arith

-- A fresh queue is empty and within its capacity, which is not 0.
pub new_queue-IsBounded :
    (capacity : ℕ) (q : OfflineQueue) → new_queue capacity ≡ ok q → IsBounded q
unfolding new_queue queue_of get
new_queue-IsBounded capacity q h = record { positive = ground arith; within = λ id. ground arith }

pub push-IsBounded : (q : OfflineQueue) (m : Message) → IsBounded q → IsBounded (push q m).0
push-IsBounded q m b = record {
  positive = rw capacity-push b.positive;
  within = λ id. rw capacity-push (elim (Bool-cases (m.recipient == id)) [
    | inl e ↦
        rw (← beq-eq m.recipient id e)
          (rw (queue_of-push_self q m (b.within m.recipient)) (length-newest _ _))
    | inr n ↦ rw (queue_of-push_ne q m id n) (b.within id)
  ]);
}

pub drain-IsBounded :
    (q : OfflineQueue) (id : PublicIdentity) → IsBounded q → IsBounded (drain q id).0
unfolding drain queue_of
drain-IsBounded q id b = record {
  positive = b.positive;
  within = λ j. ground (arith, get-remove j id q.queues, b.within j);
}

-- Pushing a run of messages.
abbrev pub push_all : List Message → OfflineQueue → OfflineQueue
push_all [] q = q
push_all (m ∷ ms) q = push_all ms (push q m).0

abbrev pub sent_to : PublicIdentity → List Message → List Message
sent_to id = keep (λ m. m.recipient == id)

-- Whatever run of messages is pushed onto a bounded queue, each recipient's queue holds the newest
-- `capacity` messages of that recipient's history, in order: what it held before, then the
-- messages of the run for that recipient.
pub push_all-newest :
    (ms : List Message) (q : OfflineQueue) (id : PublicIdentity)
    → IsBounded q
    → queue_of (push_all ms q) id ≡ newest q.capacity (queue_of q id ++ sent_to id ms)
push_all-newest [] q id b = rw append-nil (sym (newest_all _ _ (b.within id)))
push_all-newest (m ∷ ms) q id b =
    rw (push_all-newest ms (push q m).0 id (push-IsBounded q m b), capacity-push)
      (elim (Bool-cases (m.recipient == id)) [
        | inl e ↦ rw e (at_recipient (beq-eq m.recipient id e))
        | inr n ↦ rw (n, queue_of-push_ne q m id n)
      ])
  where
    at_recipient :
        m.recipient ≡ id
        → newest q.capacity (queue_of (push q m).0 id ++ sent_to id ms)
          ≡ newest q.capacity (queue_of q id ++ m ∷ sent_to id ms)
    at_recipient e =
        rw (← e, queue_of-push_self q m (b.within m.recipient), newest-append, append_assoc)
