-- ===== src/Messaging/Channel.antt =====
-- The channels of `tokio::sync::mpsc`, which src/messaging.rs uses: what they do to the messages
-- that they have accepted, as an interface. A channel stands for both of its ends.
use neonet.Base.{ℕ, suc, Bool, true, false, List, [], ◌∷◌, ◌++◌, ◌≡◌, ◌≢◌}
use neonet.Messaging.{Message}

pub record Channels (World Sender : Type 0) : Type 0 where
  -- `mpsc::channel(n)`
  pub channel : ℕ → World → Sender × World
  -- `tx.send(m).await` and `tx.try_send(m)`: whether the message was accepted
  pub send : Sender → Message → World → Bool × World
  pub try_send : Sender → Message → World → Bool × World
  -- all that the channel has accepted so far, and how much more `try_send` gets in
  pub received : Sender → World → List Message
  pub room : Sender → World → ℕ
  pub channel_empty : (n : ℕ) (w : World) → received (channel n w).0 (channel n w).1 ≡ []
  pub channel_room : (n : ℕ) (w : World) → room (channel n w).0 (channel n w).1 ≡ n
  pub channel_others :
      (n : ℕ) (w : World) (t : Sender)
      → t ≢ (channel n w).0
      → received t (channel n w).1 ≡ received t w
  pub send_accepted :
      (s : Sender) (m : Message) (w : World)
      → (send s m w).0 ≡ true
      → received s (send s m w).1 ≡ received s w ++ m ∷ []
  pub send_refused :
      (s : Sender) (m : Message) (w : World)
      → (send s m w).0 ≡ false
      → received s (send s m w).1 ≡ received s w
  pub send_others :
      (s t : Sender) (m : Message) (w : World) → t ≢ s → received t (send s m w).1 ≡ received t w
  pub try_send_accepted :
      (s : Sender) (m : Message) (w : World) (n : ℕ)
      → room s w ≡ suc n
      → (received s (try_send s m w).1 ≡ received s w ++ m ∷ []) × (room s (try_send s m w).1 ≡ n)
  pub try_send_others :
      (s t : Sender) (m : Message) (w : World)
      → t ≢ s
      → received t (try_send s m w).1 ≡ received t w
