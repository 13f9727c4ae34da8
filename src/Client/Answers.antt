-- ===== src/Client/Answers.antt =====
-- src/app/mod.rs: which message answers a call.
use neonet.Base.{
  ◌≡◌, refl, ℕ, Bool, true, false, Option, some, List, [], ◌∷◌, ◌==◌, list_eq, nat_eq, not, ◌&&◌,
  ◌||◌, if◌then◌else◌, arith, inl, inr, Bool-cases, Option-cases, list_beq_iff, nat_beq,
  nat_beq_iff, beq-eq,
}
use neonet.Base.Maps.{get, insert, remove, get-insert_self, get-remove}
use neonet.Base.Text.{Bytes}
use neonet.Base.Results.{Io, ok, err, ◌>>=◌}
use neonet.Identity.{PublicIdentity}
use neonet.Messaging.{Message, new_message}
use neonet.Client.{Pumped, answered, handled, Waiting, pump, call, send_request, encode_frame}

-- The messages that a channel is given.
unfoldable pub answers : ℕ → List Pumped → List Message
answers tx [] = []
answers tx (answered t m ∷ out) =
    let rest = answers tx out in if nat_beq t tx then m ∷ rest else rest
answers tx (handled m ∷ out) = answers tx out

-- The first message with an id, if there is one.
unfoldable pub first_with : Bytes → List Message → List Message
first_with id [] = []
first_with id (m ∷ inbox) = let rest = first_with id inbox in if m.id == id then m ∷ [] else rest

-- Whether another call than that of the id waits on the channel.
unfoldable pub elsewhere : Bytes → ℕ → Waiting → Bool
elsewhere id tx [] = false
elsewhere id tx ((k, t) ∷ waiting) =
    let rest = elsewhere id tx waiting in not (k == id) && nat_beq t tx || rest

unfoldable pub in_use : ℕ → Waiting → Bool
in_use tx [] = false
in_use tx ((k, t) ∷ waiting) = let rest = in_use tx waiting in nat_beq t tx || rest

get-in_use :
    (k : Bytes) (t tx : ℕ) (w : Waiting)
    → get k w ≡ some t
    → in_use tx w ≡ false
    → nat_beq t tx ≡ false
unfolding get in_use
get-in_use k t tx [] g u = cc
get-in_use k t tx ((j, s) ∷ w) g u =
    ground (arith, get-in_use k t tx w, nat_beq_iff s tx, nat_beq_iff t tx)

get-elsewhere :
    (id k : Bytes) (t tx : ℕ) (w : Waiting)
    → get k w ≡ some t
    → (k == id) ≡ false
    → elsewhere id tx w ≡ false
    → nat_beq t tx ≡ false
unfolding get elsewhere
get-elsewhere id k t tx [] g n u = cc
get-elsewhere id k t tx ((j, s) ∷ w) g n u =
    ground
      (arith, get-elsewhere id k t tx w, list_beq_iff j k, list_beq_iff j id, list_beq_iff k id)

in_use-remove :
    (k : Bytes) (tx : ℕ) (w : Waiting) → in_use tx w ≡ false → in_use tx (remove k w) ≡ false
unfolding in_use remove
in_use-remove k tx [] u = refl
in_use-remove k tx ((j, s) ∷ w) u = ground (arith, in_use-remove k tx w)

elsewhere-remove :
    (id k : Bytes) (tx : ℕ) (w : Waiting)
    → elsewhere id tx w ≡ false
    → elsewhere id tx (remove k w) ≡ false
unfolding elsewhere remove
elsewhere-remove id k tx [] u = refl
elsewhere-remove id k tx ((j, s) ∷ w) u = ground (arith, elsewhere-remove id k tx w)

in_use-remove_self :
    (id : Bytes) (tx : ℕ) (w : Waiting)
    → elsewhere id tx w ≡ false
    → in_use tx (remove id w) ≡ false
unfolding elsewhere in_use remove
in_use-remove_self id tx [] u = refl
in_use-remove_self id tx ((j, s) ∷ w) u = ground (arith, in_use-remove_self id tx w)

elsewhere-in_use :
    (id : Bytes) (tx : ℕ) (w : Waiting) → in_use tx w ≡ false → elsewhere id tx w ≡ false
unfolding elsewhere in_use
elsewhere-in_use id tx [] u = refl
elsewhere-in_use id tx ((j, s) ∷ w) u = ground (arith, elsewhere-in_use id tx w)

elsewhere-insert :
    (id : Bytes) (tx : ℕ) (w : Waiting)
    → in_use tx w ≡ false
    → elsewhere id tx (insert id tx w) ≡ false
unfolding elsewhere in_use insert
elsewhere-insert id tx [] u = ground (arith, list_beq_iff id id)
elsewhere-insert id tx ((j, s) ∷ w) u =
    ground (arith, elsewhere-insert id tx w, elsewhere-in_use id tx w, list_beq_iff id id)

answers_none :
    (inbox : List Message) (tx : ℕ) (w : Waiting)
    → in_use tx w ≡ false
    → answers tx (pump inbox w).0 ≡ []
unfolding answers pump
answers_none [] tx w u = refl
answers_none (m ∷ inbox) tx w u = elim (Option-cases (get m.id w)) [
  | inl e ↦ rw (e, pump) (answers_none inbox tx w u)
  | inr (t, e) ↦
      rw (e, pump)
        (ground (
          arith,
          get-in_use m.id t tx w e u,
          answers_none inbox tx (remove m.id w) (in_use-remove m.id tx w u),
        ))
]

answers_same :
    (m : Message) (inbox : List Message) (id : Bytes) (tx : ℕ) (w : Waiting)
    → get id w ≡ some tx
    → elsewhere id tx w ≡ false
    → (m.id == id) ≡ true
    → answers tx (pump (m ∷ inbox) w).0 ≡ first_with id (m ∷ inbox)
unfolding answers pump first_with
answers_same m inbox id tx w g u same =
    let hit : get m.id w ≡ some tx = rw (beq-eq m.id id same) g in
    let unused : elsewhere m.id tx w ≡ false = rw (beq-eq m.id id same) u in
    rw (hit, pump)
      (rw same (
        ground (
          arith,
          nat_beq_iff tx tx,
          answers_none inbox tx (remove m.id w) (in_use-remove_self m.id tx w unused),
        )))

answers_first :
    (inbox : List Message) (id : Bytes) (tx : ℕ) (w : Waiting)
    → get id w ≡ some tx
    → elsewhere id tx w ≡ false
    → answers tx (pump inbox w).0 ≡ first_with id inbox
unfolding answers pump first_with
answers_first [] id tx w g u = refl
answers_first (m ∷ inbox) id tx w g u = elim (Bool-cases (m.id == id)) [
  | inl same ↦ answers_same m inbox id tx w g u same
  | inr other ↦ elim (Option-cases (get m.id w)) [
    | inl e ↦ rw (e, pump) (rw other (answers_first inbox id tx w g u))
    | inr (t, e) ↦
        rw (e, pump)
          (ground (
            arith,
            get-elsewhere id m.id t tx w e other u,
            answers_first inbox id tx (remove m.id w) (ground (arith, get-remove id m.id w))
                (elsewhere-remove id m.id tx w u),
          ))
  ]
]

answers-pump :
    (inbox : List Message) (id : Bytes) (tx : ℕ) (waiting : Waiting)
    → in_use tx waiting ≡ false
    → answers tx (pump inbox (insert id tx waiting)).0 ≡ first_with id inbox
answers-pump inbox id tx waiting u =
    answers_first inbox id tx (insert id tx waiting) (get-insert_self id tx waiting)
      (elsewhere-insert id tx waiting u)

module _ {Frame World : Type 0} (to_allocvec : Frame → Option Bytes)
    (message_bytes : Message → Option Bytes)
    (send_raw : Message → World → Io (Unit {0}) × World) where
  send_request_lem :
      (tx : ℕ) (message : Io Message) (waiting : Waiting) (w : World) (id : Bytes)
      → (send_request to_allocvec message_bytes send_raw tx message waiting w).0 ≡ ok id
      → (send_request to_allocvec message_bytes send_raw tx message waiting w).1
        ≡ insert id tx waiting
  unfolding send_request
  send_request_lem tx (err e) waiting w id h = cc
  send_request_lem tx (ok m) waiting w id h = ground arith

  -- When a call was sent, on a channel that no other call waits on, the caller is given the first
  -- message with the id of the request that comes in, whoever sent it, and no other, whatever else
  -- comes in and whichever calls wait beside it.
  pub call_answered :
      (identity : PublicIdentity) (random : Bytes) (tx : ℕ) (peer : PublicIdentity) (frame : Frame)
      (waiting : Waiting) (w : World) (id : Bytes) (inbox : List Message)
      → in_use tx waiting ≡ false
      → (call to_allocvec message_bytes send_raw identity random tx peer frame waiting w).0 ≡ ok id
      → answers tx
          (pump inbox
            (call to_allocvec message_bytes send_raw identity random tx peer frame waiting w).1).0
        ≡ first_with id inbox
  unfolding call
  call_answered identity random tx peer frame waiting w id inbox u h =
      rw
        (send_request_lem tx
          (encode_frame to_allocvec message_bytes send_raw frame >>= λ bytes.
            new_message message_bytes random identity peer bytes)
          waiting w id h)
        (answers-pump inbox id tx waiting u)
