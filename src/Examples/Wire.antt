-- ===== src/Examples/Wire.antt =====
-- Channels that keep what they accept, identities and messages.
use neonet.Base.{
  ℕ, zero, suc, ◌≡◌, ◌≢◌, refl, Bool, true, false, List, [], ◌∷◌, ◌++◌, ◌==◌, nat_eq, beq_refl,
  beq-ne, if◌then◌else◌,
}
use neonet.Identity.{PublicIdentity}
use neonet.Messaging.{Message}
use neonet.Messaging.Channel.{Channels}

pub record World : Type 0 where
  pub next : ℕ
  pub log : ℕ → List Message
  pub free : ℕ → ℕ
  pub is_open : ℕ → Bool

abbrev pub set {ℓ} : {A : Type ℓ} → ℕ → A → (ℕ → A) → ℕ → A
set s a f t = if t == s then a else f t

pub set_self {ℓ} : {A : Type ℓ} (s : ℕ) (a : A) (f : ℕ → A) → set s a f s ≡ a
set_self s a f = rw (beq_refl s) refl

pub set_ne {ℓ} : {A : Type ℓ} (s t : ℕ) (a : A) (f : ℕ → A) → t ≢ s → set s a f t ≡ f t
set_ne s t a f n = rw (beq-ne t s n) refl

abbrev pub new_channel : ℕ → World → ℕ × World
new_channel n w = (
  w.next,
  record {
    next = suc w.next;
    log = set w.next [] w.log;
    free = set w.next n w.free;
    is_open = set w.next true w.is_open;
  },
)

abbrev pub accept_in : ℕ → Message → World → World
accept_in s m w = record w { log = set s (w.log s ++ m ∷ []) w.log }

abbrev pub send_in : Bool → ℕ → Message → World → Bool × World
send_in true s m w = (true, accept_in s m w)
send_in false s m w = (false, w)

abbrev pub try_in : ℕ → ℕ → Message → World → Bool × World
try_in zero s m w = (false, w)
try_in (suc n) s m w = (true, record (accept_in s m w) { free = set s n w.free })

pub accepted_in :
    (b : Bool) (s : ℕ) (m : Message) (w : World)
    → (send_in b s m w).0 ≡ true
    → (send_in b s m w).1.log s ≡ w.log s ++ m ∷ []
accepted_in true s m w h = set_self s (w.log s ++ m ∷ []) w.log
accepted_in false s m w h = cc

pub refused_in :
    (b : Bool) (s : ℕ) (m : Message) (w : World)
    → (send_in b s m w).0 ≡ false
    → (send_in b s m w).1.log s ≡ w.log s
refused_in true s m w h = cc
refused_in false s m w h = refl

pub others_in :
    (b : Bool) (s t : ℕ) (m : Message) (w : World) → t ≢ s → (send_in b s m w).1.log t ≡ w.log t
others_in true s t m w n = set_ne s t (w.log s ++ m ∷ []) w.log n
others_in false s t m w n = refl

pub others_try : (k s t : ℕ) (m : Message) (w : World) → t ≢ s → (try_in k s m w).1.log t ≡ w.log t
others_try zero s t m w n = refl
others_try (suc k) s t m w n = set_ne s t (w.log s ++ m ∷ []) w.log n

abbrev pub channels : Channels World ℕ
channels = record {
  channel = new_channel;
  send = λ s m w. send_in (w.is_open s) s m w;
  try_send = λ s m w. try_in (w.free s) s m w;
  received = λ s w. w.log s;
  room = λ s w. w.free s;
  channel_empty = λ n w. set_self w.next [] w.log;
  channel_room = λ n w. set_self w.next n w.free;
  channel_others = λ n w t h. set_ne w.next t [] w.log h;
  send_accepted = λ s m w h. accepted_in (w.is_open s) s m w h;
  send_refused = λ s m w h. refused_in (w.is_open s) s m w h;
  send_others = λ s t m w h. others_in (w.is_open s) s t m w h;
  try_send_accepted = λ s m w n h. rw h (set_self s (w.log s ++ m ∷ []) w.log, set_self s n w.free);
  try_send_others = λ s t m w h. others_try (w.free s) s t m w h;
}

abbrev pub alice : PublicIdentity
alice = record { public_key = 1 ∷ [] }

abbrev pub bob : PublicIdentity
bob = record { public_key = 2 ∷ [] }

abbrev pub carol : PublicIdentity
carol = record { public_key = 3 ∷ [] }

abbrev pub letter : ℕ → PublicIdentity → PublicIdentity → Message
letter n sender recipient = record {
  id = n ∷ [];
  sender = sender;
  recipient = recipient;
  payload = n ∷ n ∷ [];
}

-- Two channels, 0 that is open and 1 that is closed.
abbrev pub world : World
world = record { next = 2; log = λ t. []; free = λ t. 2; is_open = λ t. t == 0 }
