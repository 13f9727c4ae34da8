-- ===== src/Transport/Sound.antt =====
-- src/transport/mod.rs: what a handshake that succeeds has checked.
use neonet.Base.Text.{Bytes, Text}
use neonet.Base.Results.{Result-cases, ok}
use neonet.Base.{List, Option, Option-cases, arith, inl, inr, some, true, ◌≡◌}
use neonet.Identity.{PublicIdentity}
use neonet.Protocol.{
  Hello, Challenge, SignatureMessage, Identity, Crates, new_hello, challenge_payload, verifies,
  verify_challenge, negotiate,
}
use neonet.Transport.{
  Stream, and_then, pin_holds, settle, conclude, send_value, receive_value, send_signature,
  exchange_signatures, exchange, handshake_inner, HandshakeResult,
}
use neonet.Transport.Steps.{and_then_inv}

module _ {Key : Type 0} (crates : Crates Key) where
  settle_ok :
      (local remote : Hello) (r : HandshakeResult)
      → settle local remote ≡ ok r
      → (r.remote ≡ remote)
        × (negotiate local.version local.features remote.version remote.features ≡ ok r.negotiated)
  unfolding settle
  settle_ok local remote r h =
      elim (Result-cases (negotiate local.version local.features remote.version remote.features)) [
        | inl (n, e) ↦ ground (arith, e)
        | inr (x, e) ↦ ground (arith, e)
      ]

  conclude_ok :
      (pinned : Option PublicIdentity) (local : Hello) (challenge : Challenge) (remote : Hello)
      (message : SignatureMessage) (r : HandshakeResult)
      → conclude crates pinned local challenge remote message ≡ ok r
      → (payload : Bytes) × (challenge_payload crates local challenge ≡ some payload)
        × (verifies crates remote.identity payload message ≡ true)
        × (pin_holds pinned remote.identity ≡ true)
        × (settle local remote ≡ ok r)
  unfolding conclude verify_challenge
  conclude_ok pinned local challenge remote message r h =
      elim (Option-cases (challenge_payload crates local challenge)) [
        | inl e ↦ ground (arith, e)
        | inr (payload, e) ↦ (payload, e, ground (arith, e), ground (arith, e), ground (arith, e))
      ]

  module _ (id : Identity) (pinned : Option PublicIdentity) (local : Hello) (challenge : Challenge)
      (remote : Hello) (r : HandshakeResult) where
    signatures_ok :
        (rc : Challenge) (s : Stream)
        → (exchange_signatures crates id pinned local challenge remote rc s).0 ≡ ok r
        → (message : SignatureMessage) × (conclude crates pinned local challenge remote message
            ≡ ok r)
    unfolding exchange_signatures
    signatures_ok rc s h =
        let (u, a, h1) =
          and_then_inv (send_signature crates id remote rc s)
            (λ u s1.
              and_then (receive_value crates.signature_codec s1)
                λ message s2. (conclude crates pinned local challenge remote message, s2))
            r h in
        let (message, b, h2) =
          and_then_inv
            (receive_value crates.signature_codec (send_signature crates id remote rc s).1)
            (λ message s2. (conclude crates pinned local challenge remote message, s2)) r h1 in
        (message, h2)

    exchange_ok :
        (s : Stream)
        → (exchange crates id pinned local challenge remote s).0 ≡ ok r
        → (message : SignatureMessage) × (conclude crates pinned local challenge remote message
            ≡ ok r)
    unfolding exchange
    exchange_ok s h =
        let (u, a, h1) =
          and_then_inv (send_value crates.challenge_codec challenge s)
            (λ u s1.
              and_then (receive_value crates.challenge_codec s1)
                λ rc s2. exchange_signatures crates id pinned local challenge remote rc s2)
            r h in
        let s1 = (send_value crates.challenge_codec challenge s).1 in
        let (rc, b, h2) =
          and_then_inv (receive_value crates.challenge_codec s1)
            (λ rc s2. exchange_signatures crates id pinned local challenge remote rc s2) r h1 in
        signatures_ok rc (receive_value crates.challenge_codec s1).1 h2

  -- What a handshake that succeeds promises of the peer: a signature over the own HELLO and the own
  -- challenge, of this call, verifies under the key of the HELLO that is returned, which has the
  -- pinned key where one is given, and the versions and features are negotiated.
  pub handshake_sound :
      (id : Identity) (features : List Text) (pinned : Option PublicIdentity) (session_id : Bytes)
      (challenge : Challenge) (s : Stream) (r : HandshakeResult)
      → (handshake_inner crates id features pinned session_id challenge s).0 ≡ ok r
      → (payload : Bytes) × (message : SignatureMessage) × (challenge_payload crates
            (new_hello id features session_id)
            challenge
          ≡ some payload)
        × (verifies crates r.remote.identity payload message ≡ true)
        × (pin_holds pinned r.remote.identity ≡ true)
        × (negotiate
              (new_hello id features session_id).version
              features
              r.remote.version
              r.remote.features
            ≡ ok r.negotiated)
  unfolding handshake_inner
  handshake_sound id features pinned session_id challenge s r h =
      let local = new_hello id features session_id in
      let (u, a, h1) =
        and_then_inv (send_value crates.hello_codec local s)
          (λ u s1.
            and_then (receive_value crates.hello_codec s1)
              λ remote s2. exchange crates id pinned local challenge remote s2)
          r h in
      let s1 = (send_value crates.hello_codec local s).1 in
      let (remote, b, h2) =
        and_then_inv (receive_value crates.hello_codec s1)
          (λ remote s2. exchange crates id pinned local challenge remote s2) r h1 in
      let (message, h3) =
        exchange_ok id pinned local challenge remote r (receive_value crates.hello_codec s1).1 h2 in
      let (payload, c0, c1, c2, c3) = conclude_ok pinned local challenge remote message r h3 in
      let (e, n) = settle_ok local remote r c3 in (payload, message, c0, rw e c1, rw e c2, rw e n)
