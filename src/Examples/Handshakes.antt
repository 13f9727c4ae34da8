-- ===== src/Examples/Handshakes.antt =====
-- Runs of src/protocol/mod.rs and src/transport/mod.rs. A signature is the key before the bytes.
use neonet.Base.Sets.{contains}
use neonet.Base.Text.{Bytes, Text}
use neonet.Base.Results.{ok}
use neonet.Base.{
  [], beq_refl, drop, length, list_eq, nat_eq, refl, some, ℕ, ◌++◌, ◌==◌, ◌∷◌, ◌≡◌, List, ap, arith,
  none, true,
}
use neonet.Identity.{PublicIdentity}
use neonet.Protocol.{
  Hello, Challenge, SignatureMessage, Identity, Crates, new_hello, challenge_payload, verifies,
  negotiate, Signs,
}
use neonet.Transport.{HandshakeResult, pin_holds, write_frame, read_frame, handshake_inner}
use neonet.Transport.Steps.{Fits}
use neonet.Transport.Frames.{read_frame-write_frame}
use neonet.Transport.Sound.{handshake_sound}
use neonet.Transport.Peers.{handshake_agrees, handshake_echo, script, signature_of}
use neonet.Examples.Wire.{alice, bob}
use neonet.Examples.Serial.{
  total, put, first_of, rest_of, head_of, put_all, get_all, take-append, drop-append,
  get_all-put_all,
}

abbrev write_hello : Hello → Bytes
write_hello h =
    h.version.major
    ∷ h.version.minor
    ∷ length h.features
    ∷ put h.identity.public_key (put h.session_id (put_all h.features))

abbrev read_hello : Bytes → Hello
read_hello b = record {
  version = record { major = head_of b; minor = head_of (drop 1 b) };
  features = get_all (head_of (drop 2 b)) (rest_of (rest_of (drop 3 b)));
  identity = record { public_key = first_of (drop 3 b) };
  session_id = first_of (rest_of (drop 3 b));
}

read-write_hello : (h : Hello) → read_hello (write_hello h) ≡ h
read-write_hello h =
    rw (take-append, drop-append, take-append, drop-append, get_all-put_all h.features) refl

abbrev crates : Crates Bytes
crates = record {
  hello_codec = total write_hello read_hello read-write_hello;
  challenge_codec = total (λ (c : Challenge). c.nonce) (λ b. record { nonce = b }) (λ c. refl);
  signature_codec =
      total (λ (s : SignatureMessage). s.signature) (λ b. record { signature = b }) (λ s. refl);
  verifying_key = λ id. some id.public_key;
  verify = λ key payload signature. signature == key ++ payload;
}

abbrev signer : PublicIdentity → Identity
signer id = record { public = id; sign = λ payload. id.public_key ++ payload }

signer-Signs : (id : PublicIdentity) → Signs crates (signer id)
unfolding Signs verifies
signer-Signs id payload = beq_refl (id.public_key ++ payload)

abbrev challenge_of : ℕ → Challenge
challenge_of n = record { nonce = n ∷ [] }

-- What the two sides say: the features 1 and 2, and the feature 2.
abbrev xs : List Text
xs = (1 ∷ []) ∷ (2 ∷ []) ∷ []

abbrev ys : List Text
ys = (2 ∷ []) ∷ []

abbrev bytes_a : Bytes
bytes_a = write_hello (new_hello (signer alice) xs (5 ∷ []))

abbrev bytes_b : Bytes
bytes_b = write_hello (new_hello (signer bob) ys (6 ∷ []))

abbrev signed_a : Bytes
signed_a = alice.public_key ++ (bytes_b ++ 8 ∷ [])

abbrev signed_b : Bytes
signed_b = bob.public_key ++ (bytes_a ++ 7 ∷ [])

hello_a-Fits : Fits crates.hello_codec (new_hello (signer alice) xs (5 ∷ [])) bytes_a
unfolding Fits new_hello
hello_a-Fits = (refl, omega arith)

hello_b-Fits : Fits crates.hello_codec (new_hello (signer bob) ys (6 ∷ [])) bytes_b
unfolding Fits new_hello
hello_b-Fits = (refl, omega arith)

challenge-Fits : (n : ℕ) → Fits crates.challenge_codec (challenge_of n) (n ∷ [])
unfolding Fits
challenge-Fits n = (refl, omega arith)

signed_a-Fits :
    Fits crates.signature_codec (signature_of crates (signer alice) (bytes_b ++ 8 ∷ [])) signed_a
unfolding Fits new_hello
signed_a-Fits = (refl, omega arith)

signed_b-Fits :
    Fits crates.signature_codec (signature_of crates (signer bob) (bytes_a ++ 7 ∷ [])) signed_b
unfolding Fits new_hello
signed_b-Fits = (refl, omega arith)

abbrev own_signature : Bytes
own_signature = alice.public_key ++ (bytes_a ++ 7 ∷ [])

own_signature-Fits :
    Fits crates.signature_codec
      (signature_of crates (signer alice) (bytes_a ++ 7 ∷ []))
      own_signature
unfolding Fits new_hello
own_signature-Fits = (refl, omega arith)

read_frame-write_frame_example :
    (f : Bytes) × ((write_frame (7 ∷ 8 ∷ []) (record { inbox = []; outbox = 3 ∷ [] })).1.outbox
      ≡ 3 ∷ [] ++ f)
    × (read_frame (record { inbox = f ++ 9 ∷ []; outbox = [] })
        ≡ (ok (7 ∷ 8 ∷ []), record { inbox = 9 ∷ []; outbox = [] }))
unfolding write_frame
read_frame-write_frame_example =
    read_frame-write_frame (7 ∷ 8 ∷ []) (9 ∷ []) [] (record { inbox = []; outbox = 3 ∷ [] }) refl

handshake_agrees_example :
    (r : HandshakeResult) × (q : HandshakeResult) × (handshake_inner crates
        (signer alice)
        xs
        none
        (5 ∷ [])
        (challenge_of 7)
        (record { inbox = script crates bytes_b (8 ∷ []) signed_b; outbox = [] })
      ≡ (ok r, record { inbox = []; outbox = script crates bytes_a (7 ∷ []) signed_a }))
    × (handshake_inner crates
          (signer bob)
          ys
          (some alice)
          (6 ∷ [])
          (challenge_of 8)
          (record { inbox = script crates bytes_a (7 ∷ []) signed_a; outbox = [] })
        ≡ (ok q, record { inbox = []; outbox = script crates bytes_b (8 ∷ []) signed_b }))
    × (r.remote ≡ new_hello (signer bob) ys (6 ∷ []))
    × (q.remote ≡ new_hello (signer alice) xs (5 ∷ []))
    × (r.negotiated.version ≡ q.negotiated.version)
    × (contains (2 ∷ []) r.negotiated.features ≡ contains (2 ∷ []) q.negotiated.features)
handshake_agrees_example =
    handshake_agrees crates none (some alice) (signer alice) (signer bob) xs ys (5 ∷ []) (6 ∷ [])
      (challenge_of 7) (challenge_of 8) bytes_a bytes_b (7 ∷ []) (8 ∷ []) signed_a signed_b (2 ∷ [])
      (signer-Signs alice) (signer-Signs bob) refl refl hello_a-Fits hello_b-Fits (challenge-Fits 7)
      (challenge-Fits 8) signed_a-Fits signed_b-Fits

handshake_echo_example :
    (r : HandshakeResult) × (sent : Bytes) × (handshake_inner crates
        (signer alice)
        xs
        none
        (5 ∷ [])
        (challenge_of 7)
        (record { inbox = sent; outbox = [] })
      ≡ (ok r, record { inbox = []; outbox = sent }))
    × (r.remote.identity ≡ alice)
handshake_echo_example =
    handshake_echo crates none (signer alice) xs (5 ∷ []) (challenge_of 7) bytes_a (7 ∷ [])
      own_signature (signer-Signs alice) refl hello_a-Fits (challenge-Fits 7) own_signature-Fits

-- A run that succeeds: alice's side of a handshake with bob, with bob pinned.
run :
    (r : HandshakeResult) × ((handshake_inner crates
        (signer alice)
        xs
        (some bob)
        (5 ∷ [])
        (challenge_of 7)
        (record { inbox = script crates bytes_b (8 ∷ []) signed_b; outbox = [] })).0
      ≡ ok r)
run =
    let (r, q, a, b, c, d, e, f) =
      handshake_agrees crates (some bob) none (signer alice) (signer bob) xs ys (5 ∷ []) (6 ∷ [])
        (challenge_of 7) (challenge_of 8) bytes_a bytes_b (7 ∷ []) (8 ∷ []) signed_a signed_b []
        (signer-Signs alice) (signer-Signs bob) refl refl hello_a-Fits hello_b-Fits
        (challenge-Fits 7) (challenge-Fits 8) signed_a-Fits signed_b-Fits in
    (r, ap (λ t. t.0) a)

handshake_sound_example :
    (payload : Bytes) × (message : SignatureMessage) × (challenge_payload crates
        (new_hello (signer alice) xs (5 ∷ []))
        (challenge_of 7)
      ≡ some payload)
    × (verifies crates run.0.remote.identity payload message ≡ true)
    × (pin_holds (some bob) run.0.remote.identity ≡ true)
    × (negotiate
          (new_hello (signer alice) xs (5 ∷ [])).version
          xs
          run.0.remote.version
          run.0.remote.features
        ≡ ok run.0.negotiated)
handshake_sound_example =
    handshake_sound crates (signer alice) xs (some bob) (5 ∷ []) (challenge_of 7)
      (record { inbox = script crates bytes_b (8 ∷ []) signed_b; outbox = [] }) run.0 run.1
