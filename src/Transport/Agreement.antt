-- ===== src/Transport/Agreement.antt =====
-- src/transport/mod.rs: the handshake with a peer whose frames arrive as they should.
use neonet.Base.Text.{Bytes, Text}
use neonet.Base.Results.{ok}
use neonet.Base.{Option, some, ◌++◌, ◌≡◌, List, [], ap, append-nil, refl, sym, ◌∙◌}
use neonet.Identity.{PublicIdentity}
use neonet.Protocol.{
  Hello, Challenge, SignatureMessage, Identity, Crates, new_hello, sign_challenge,
}
use neonet.Transport.{
  and_then, conclude, send_value, receive_value, send_signature, exchange_signatures, exchange,
  handshake_inner, HandshakeResult,
}
use neonet.Transport.Frames.{frame_bytes}
use neonet.Transport.Steps.{Fits, and_then_ok, send-Fits, receive-Fits}

module _ {Key : Type 0} (crates : Crates Key) (id : Identity) (pinned : Option PublicIdentity) where
  -- The exchange with a peer whose frames arrive as they should.
  module _ (local : Hello) (challenge : Challenge) (remote : Hello) (rc : Challenge)
      (mine theirs : SignatureMessage) (rest c d m t : Bytes) (r : HandshakeResult)
      (fc : Fits crates.challenge_codec challenge c) (fd : Fits crates.challenge_codec rc d)
      (signed : sign_challenge crates id remote rc ≡ some mine)
      (fm : Fits crates.signature_codec mine m) (ft : Fits crates.signature_codec theirs t)
      (done : conclude crates pinned local challenge remote theirs ≡ ok r) where
    signatures_pass :
        (out : Bytes)
        → exchange_signatures crates id pinned local challenge remote rc
            (record { inbox = frame_bytes t ++ rest; outbox = out })
          ≡ (ok r, record { inbox = rest; outbox = out ++ frame_bytes m })
    unfolding exchange_signatures send_signature
    signatures_pass out =
        and_then_ok
          (send_signature crates id remote rc
            (record { inbox = frame_bytes t ++ rest; outbox = out }))
          (λ u s1.
            and_then (receive_value crates.signature_codec s1)
              λ message s2. (conclude crates pinned local challenge remote message, s2))
          tt (record { inbox = frame_bytes t ++ rest; outbox = out ++ frame_bytes m })
          (rw (send_signature, signed)
            (send-Fits crates.signature_codec mine m (frame_bytes t ++ rest) out fm))
        ∙ and_then_ok
            (receive_value crates.signature_codec
              (record { inbox = frame_bytes t ++ rest; outbox = out ++ frame_bytes m }))
            (λ message s2. (conclude crates pinned local challenge remote message, s2)) theirs
            (record { inbox = rest; outbox = out ++ frame_bytes m })
            (receive-Fits crates.signature_codec theirs t rest (out ++ frame_bytes m) ft)
        ∙ rw done refl

    exchange_pass :
        (out : Bytes)
        → exchange crates id pinned local challenge remote
            (record { inbox = frame_bytes d ++ (frame_bytes t ++ rest); outbox = out })
          ≡ (ok r, record { inbox = rest; outbox = (out ++ frame_bytes c) ++ frame_bytes m })
    unfolding exchange
    exchange_pass out =
        let after = frame_bytes t ++ rest in
        and_then_ok
          (send_value crates.challenge_codec challenge
            (record { inbox = frame_bytes d ++ after; outbox = out }))
          (λ u s1.
            and_then (receive_value crates.challenge_codec s1)
              λ x s2. exchange_signatures crates id pinned local challenge remote x s2)
          tt (record { inbox = frame_bytes d ++ after; outbox = out ++ frame_bytes c })
          (send-Fits crates.challenge_codec challenge c (frame_bytes d ++ after) out fc)
        ∙ and_then_ok
            (receive_value crates.challenge_codec
              (record { inbox = frame_bytes d ++ after; outbox = out ++ frame_bytes c }))
            (λ x s2. exchange_signatures crates id pinned local challenge remote x s2) rc
            (record { inbox = after; outbox = out ++ frame_bytes c })
            (receive-Fits crates.challenge_codec rc d after (out ++ frame_bytes c) fd)
        ∙ signatures_pass (out ++ frame_bytes c)

  -- The whole handshake with such a peer.
  pub handshake_pass :
      (features : List Text) (session_id : Bytes) (challenge : Challenge) (remote : Hello)
      (rc : Challenge) (mine theirs : SignatureMessage) (a b c d m t : Bytes) (r : HandshakeResult)
      → Fits crates.hello_codec (new_hello id features session_id) a
      → Fits crates.hello_codec remote b
      → Fits crates.challenge_codec challenge c
      → Fits crates.challenge_codec rc d
      → sign_challenge crates id remote rc ≡ some mine
      → Fits crates.signature_codec mine m
      → Fits crates.signature_codec theirs t
      → conclude crates pinned (new_hello id features session_id) challenge remote theirs ≡ ok r
      → handshake_inner crates id features pinned session_id challenge
          (record { inbox = frame_bytes b ++ (frame_bytes d ++ frame_bytes t); outbox = [] })
        ≡ (ok r, record { inbox = []; outbox = (frame_bytes a ++ frame_bytes c) ++ frame_bytes m })
  unfolding handshake_inner
  handshake_pass features session_id challenge remote rc mine theirs a b c d m t r fa fb fc fd
        signed fm ft done =
      let local = new_hello id features session_id in
      let after = frame_bytes d ++ frame_bytes t in
      and_then_ok
        (send_value crates.hello_codec local
          (record { inbox = frame_bytes b ++ after; outbox = [] }))
        (λ u s1.
          and_then (receive_value crates.hello_codec s1)
            λ x s2. exchange crates id pinned local challenge x s2)
        tt (record { inbox = frame_bytes b ++ after; outbox = frame_bytes a })
        (send-Fits crates.hello_codec local a (frame_bytes b ++ after) [] fa)
      ∙ and_then_ok
          (receive_value crates.hello_codec
            (record { inbox = frame_bytes b ++ after; outbox = frame_bytes a }))
          (λ x s2. exchange crates id pinned local challenge x s2) remote
          (record { inbox = after; outbox = frame_bytes a })
          (receive-Fits crates.hello_codec remote b after (frame_bytes a) fb)
      ∙ ap
          (λ xs.
            exchange crates id pinned local challenge remote
              (record { inbox = frame_bytes d ++ xs; outbox = frame_bytes a }))
          (sym (append-nil (frame_bytes t)))
      ∙ exchange_pass local challenge remote rc mine theirs [] c d m t r fc fd signed fm ft done
          (frame_bytes a)
