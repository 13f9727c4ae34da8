-- ===== src/Transport/Peers.antt =====
-- src/transport/mod.rs: two honest peers reach the end of the handshake and agree, and what a peer
-- that sends every frame back obtains.
use neonet.Base.Sets.{contains}
use neonet.Base.Text.{Bytes, Text}
use neonet.Base.Results.{ok}
use neonet.Base.{
  List, Option, [], ap, append_assoc, arith, refl, some, true, ◌++◌, ◌∙◌, ◌≡◌, list_eq, nat_eq,
}
use neonet.Identity.{PublicIdentity}
use neonet.Protocol.{
  Hello, Challenge, SignatureMessage, Identity, Crates, new_hello, sort, common, challenge_payload,
  sign_challenge, verify_challenge, negotiate, Signs,
}
use neonet.Protocol.Negotiation.{settled, contains-common}
use neonet.Transport.{pin_holds, settle, conclude, handshake_inner, HandshakeResult}
use neonet.Transport.Frames.{frame_bytes}
use neonet.Transport.Steps.{Fits}
use neonet.Transport.Agreement.{handshake_pass}

module _ {Key : Type 0} (crates : Crates Key) where
  payload_of :
      (hello : Hello) (challenge : Challenge) (a : Bytes)
      → Fits crates.hello_codec hello a
      → challenge_payload crates hello challenge ≡ some (a ++ challenge.nonce)
  unfolding challenge_payload Fits
  payload_of hello challenge a (e, h) = rw (challenge_payload, e) refl

  abbrev pub signature_of : Identity → Bytes → SignatureMessage
  signature_of id payload = record { signature = id.sign payload }

  signed_by :
      (id : Identity) (hello : Hello) (challenge : Challenge) (a : Bytes)
      → Fits crates.hello_codec hello a
      → sign_challenge crates id hello challenge ≡ some (signature_of id (a ++ challenge.nonce))
  unfolding sign_challenge
  signed_by id hello challenge a f = rw (sign_challenge, payload_of hello challenge a f) refl

  abbrev pub outcome : Identity → List Text → Bytes → List Text → HandshakeResult
  outcome peer features session_id own_features = record {
    remote = new_hello peer features session_id;
    negotiated = settled 1 0 (sort (common own_features features));
  }

  -- What a signature of the peer over the own payload leads to.
  conclude_pass :
      (pinned : Option PublicIdentity) (id peer : Identity) (xs ys : List Text) (sid pid : Bytes)
      (challenge : Challenge) (a : Bytes)
      → Signs crates peer
      → pin_holds pinned peer.public ≡ true
      → Fits crates.hello_codec (new_hello id xs sid) a
      → conclude crates pinned
          (new_hello id xs sid)
          challenge
          (new_hello peer ys pid)
          (signature_of peer (a ++ challenge.nonce))
        ≡ ok (outcome peer ys pid xs)
  unfolding conclude verify_challenge settle negotiate new_hello Signs
  conclude_pass pinned id peer xs ys sid pid challenge a signs pin f =
      rw
        (
          conclude,
          verify_challenge,
          payload_of (new_hello id xs sid) challenge a f,
          signs (a ++ challenge.nonce),
          pin,
        )
        refl

  -- The three frames that a side writes.
  abbrev pub script : Bytes → Bytes → Bytes → Bytes
  script hello challenge signature =
      frame_bytes hello ++ (frame_bytes challenge ++ frame_bytes signature)

  side_pass :
      (pinned : Option PublicIdentity) (id peer : Identity) (xs ys : List Text) (sid pid : Bytes)
      (ch rc : Challenge) (a b c d m t : Bytes)
      → Signs crates peer
      → pin_holds pinned peer.public ≡ true
      → Fits crates.hello_codec (new_hello id xs sid) a
      → Fits crates.hello_codec (new_hello peer ys pid) b
      → Fits crates.challenge_codec ch c
      → Fits crates.challenge_codec rc d
      → Fits crates.signature_codec (signature_of id (b ++ rc.nonce)) m
      → Fits crates.signature_codec (signature_of peer (a ++ ch.nonce)) t
      → handshake_inner crates id xs pinned sid ch (record { inbox = script b d t; outbox = [] })
        ≡ (ok (outcome peer ys pid xs), record { inbox = []; outbox = script a c m })
  side_pass pinned id peer xs ys sid pid ch rc a b c d m t signs pin fa fb fc fd fm ft =
      handshake_pass crates id pinned xs sid ch (new_hello peer ys pid) rc
        (signature_of id (b ++ rc.nonce)) (signature_of peer (a ++ ch.nonce)) a b c d m t
        (outcome peer ys pid xs) fa fb fc fd (signed_by id (new_hello peer ys pid) rc b fb) fm ft
        (conclude_pass pinned id peer xs ys sid pid ch a signs pin fa)
      ∙ ap (λ o. (ok (outcome peer ys pid xs), record { inbox = []; outbox = o }))
          (append_assoc (frame_bytes a) (frame_bytes c) (frame_bytes m))

  -- Two peers that sign with their own keys, whose messages fit into frames and whose pins name each
  -- other, both finish, each on the bytes that the other writes: each returns the other's HELLO, and
  -- they settle on the same version and the same set of features.
  pub handshake_agrees :
      (pin_a pin_b : Option PublicIdentity) (id_a id_b : Identity) (xs ys : List Text)
      (sid_a sid_b : Bytes) (ch_a ch_b : Challenge) (a b c d m t : Bytes) (f : Text)
      → Signs crates id_a
      → Signs crates id_b
      → pin_holds pin_a id_b.public ≡ true
      → pin_holds pin_b id_a.public ≡ true
      → Fits crates.hello_codec (new_hello id_a xs sid_a) a
      → Fits crates.hello_codec (new_hello id_b ys sid_b) b
      → Fits crates.challenge_codec ch_a c
      → Fits crates.challenge_codec ch_b d
      → Fits crates.signature_codec (signature_of id_a (b ++ ch_b.nonce)) m
      → Fits crates.signature_codec (signature_of id_b (a ++ ch_a.nonce)) t
      → (r : HandshakeResult) × (q : HandshakeResult) × (handshake_inner crates id_a xs pin_a sid_a
            ch_a
            (record { inbox = script b d t; outbox = [] })
          ≡ (ok r, record { inbox = []; outbox = script a c m }))
        × (handshake_inner crates id_b ys pin_b sid_b ch_b
              (record { inbox = script a c m; outbox = [] })
            ≡ (ok q, record { inbox = []; outbox = script b d t }))
        × (r.remote ≡ new_hello id_b ys sid_b)
        × (q.remote ≡ new_hello id_a xs sid_a)
        × (r.negotiated.version ≡ q.negotiated.version)
        × (contains f r.negotiated.features ≡ contains f q.negotiated.features)
  handshake_agrees pin_a pin_b id_a id_b xs ys sid_a sid_b ch_a ch_b a b c d m t f sa sb pa pb fa fb
        fc fd fm ft =
      (
        outcome id_b ys sid_b xs,
        outcome id_a xs sid_a ys,
        side_pass pin_a id_a id_b xs ys sid_a sid_b ch_a ch_b a b c d m t sb pa fa fb fc fd fm ft,
        side_pass pin_b id_b id_a ys xs sid_b sid_a ch_b ch_a b a d c t m sa pb fb fa fd fc ft fm,
        refl,
        refl,
        refl,
        ground (arith, contains-common f xs ys, contains-common f ys xs),
      )

  -- A peer that sends every frame back as it came, and holds no key at all, passes as the device's
  -- own identity, where the pin does not rule that identity out.
  pub handshake_echo :
      (pinned : Option PublicIdentity) (id : Identity) (xs : List Text) (sid : Bytes)
      (ch : Challenge) (a c m : Bytes)
      → Signs crates id
      → pin_holds pinned id.public ≡ true
      → Fits crates.hello_codec (new_hello id xs sid) a
      → Fits crates.challenge_codec ch c
      → Fits crates.signature_codec (signature_of id (a ++ ch.nonce)) m
      → (r : HandshakeResult) × (sent : Bytes) × (handshake_inner crates id xs pinned sid ch
            (record { inbox = sent; outbox = [] })
          ≡ (ok r, record { inbox = []; outbox = sent }))
        × (r.remote.identity ≡ id.public)
  unfolding new_hello
  handshake_echo pinned id xs sid ch a c m signs pin fa fc fm = (
    outcome id xs sid xs,
    script a c m,
    side_pass pinned id id xs xs sid sid ch ch a a c c m m signs pin fa fa fc fc fm fm,
    refl,
  )
