-- ===== src/Core/Operators.antt =====
-- src/app/core.rs: which frames change what a core holds.
use neonet.Base.Text.{Bytes}
use neonet.Base.Results.{Result-cases, Io, IoError, err, ok}
use neonet.Base.{
  Bool, arith, inl, inr, list_eq, nat_eq, none, some, true, ℕ, ◌==◌, ◌≡◌, ◌⊎◌, Bool-cases, Option,
  ap, list_beq_iff, refl, sym, ◌∙◌,
}
use neonet.Base.Sets.{contains, add}
use neonet.Base.Maps.{get, get-insert}
use neonet.Base.Codec.{replace_err}
use neonet.Storage.{Home, Crates, revoked_set, revoke_identity, node_is_revoked}
use neonet.Storage.Revocation.{revoke_identity_exact}
use neonet.Identity.{PublicIdentity, fingerprint}
use neonet.Core.Handler.{
  CoreFrame, reconcile_request, reconcile_missing, chunk_data, revoke_broadcast, revoke_ack,
  revoke_refuse, error_frame, CoreHome, revoke_payload, operators, on_chunk, on_revoked, on_revoke,
  handle_core,
}

module _ {Blob : Type 0} (crates : Crates Blob) (hash : Bytes → Bytes) where
  -- A revocation that its sender may order: from an operator, with a valid signature of the
  -- sender over the epoch and the identity revoked.
  abbrev pub IsOrdered : PublicIdentity → PublicIdentity → ℕ → Bytes → CoreHome Blob → Type 0
  IsOrdered sender revoked epoch signature home =
      (contains (fingerprint crates.hex_hash sender) (operators crates hash home) ≡ true)
      × (crates.signing.is_key sender ≡ true)
      × (crates.signing.verify sender (revoke_payload epoch revoked) signature ≡ true)

  revoke_err :
      (disk : Bool) (id j : PublicIdentity) (home : Home Blob) {x : IoError}
      → (revoke_identity crates disk id home).0 ≡ err x
      → node_is_revoked crates j (revoke_identity crates disk id home).1
        ≡ node_is_revoked crates j home
  unfolding revoke_identity node_is_revoked
  revoke_err disk id j home h =
      let set = add (fingerprint crates.hex_hash id) (revoked_set crates home) in
      rw (node_is_revoked, revoked_set, replace_err crates.names disk set home.revocations h) refl

  store-on_chunk :
      (disk : Bool) (k : Bytes) (data_bytes : Option Bytes) (home : CoreHome Blob)
      → (on_chunk crates hash disk k data_bytes home).2.store ≡ home.store
  unfolding on_chunk
  store-on_chunk disk k none home = refl
  store-on_chunk disk k (some b) home = ground arith

  after-on_revoked :
      (epoch : ℕ) (id : PublicIdentity) (home : CoreHome Blob) (r : Io (Unit {0}) × Home Blob)
      → ((on_revoked crates hash epoch id home r).2.store ≡ r.1)
        × ((on_revoked crates hash epoch id home r).2.chunks ≡ home.chunks)
  after-on_revoked epoch id home (ok u, store) = (refl, refl)
  after-on_revoked epoch id home (err e, store) = (refl, refl)

  -- A revocation frame is ordered and carried out, or leaves everything as it is.
  on_revoke-cases :
      (disk : Bool) (sender id : PublicIdentity) (epoch : ℕ) (signature : Bytes)
      (home : CoreHome Blob)
      → ((on_revoke crates hash disk sender id epoch signature home).2 ≡ home)
        ⊎ (IsOrdered sender id epoch signature home
            × ((on_revoke crates hash disk sender id epoch signature home).2.store
                ≡ (revoke_identity crates disk id home.store).1)
            × ((on_revoke crates hash disk sender id epoch signature home).2.chunks ≡ home.chunks))
  unfolding on_revoke
  on_revoke-cases disk sender id epoch signature home =
      let (a, b) = after-on_revoked epoch id home (revoke_identity crates disk id home.store) in
      elim (Bool-cases
        (contains (fingerprint crates.hex_hash sender) (operators crates hash home))) [
          | inr e ↦ inl (rw (on_revoke, e) refl)
          | inl e ↦ elim (Bool-cases (crates.signing.is_key sender)) [
            | inr k ↦ inl (rw (on_revoke, e, k) refl)
            | inl k ↦
                elim (Bool-cases
                  (crates.signing.verify sender (revoke_payload epoch id) signature)) [
                    | inr v ↦ inl (rw (on_revoke, e, k, v) refl)
                    | inl v ↦ inr ((e, k, v), rw (on_revoke, e, k, v) a, rw (on_revoke, e, k, v) b)
                  ]
          ]
        ]

  revoked_by :
      (disk : Bool) (id j : PublicIdentity) (home : Home Blob)
      → node_is_revoked crates j (revoke_identity crates disk id home).1 ≡ true
      → (node_is_revoked crates j home ≡ true)
        ⊎ ((fingerprint crates.hex_hash id == fingerprint crates.hex_hash j) ≡ true)
  revoked_by disk id j home h = elim (Result-cases (revoke_identity crates disk id home).0) [
    | inl (u, e) ↦ ground (arith, revoke_identity_exact crates disk id j home e)
    | inr (x, e) ↦ inl (sym (revoke_err disk id j home e) ∙ h)
  ]

  -- Whoever is revoked at a core after a frame was revoked before it, or has the fingerprint of the
  -- identity that the frame revokes on the signed order of an operator.
  pub handle_core_revokes :
      (disk : Bool) (sender j : PublicIdentity) (frame : CoreFrame) (home : CoreHome Blob)
      → node_is_revoked crates j (handle_core crates hash disk sender frame home).2.store ≡ true
      → (node_is_revoked crates j home.store ≡ true)
        ⊎ ((id : PublicIdentity) × (epoch : ℕ) × (signature : Bytes) × (frame
              ≡ revoke_broadcast id epoch signature)
            × IsOrdered sender id epoch signature home
            × ((fingerprint crates.hex_hash id == fingerprint crates.hex_hash j) ≡ true))
  unfolding handle_core
  handle_core_revokes disk sender j (reconcile_request hs) home h = inl h
  handle_core_revokes disk sender j (reconcile_missing hs) home h = inl h
  handle_core_revokes disk sender j (chunk_data k bytes) home h =
      inl (sym (ap (λ t. node_is_revoked crates j t) (store-on_chunk disk k bytes home)) ∙ h)
  handle_core_revokes disk sender j (revoke_broadcast id epoch signature) home h =
      elim (on_revoke-cases disk sender id epoch signature home) [
        | inl e ↦ inl (sym (ap (λ (t : CoreHome Blob). node_is_revoked crates j t.store) e) ∙ h)
        | inr (o, e, e') ↦
            elim (revoked_by disk id j home.store
              (sym (ap (λ t. node_is_revoked crates j t) e) ∙ h)) [
                | inl before ↦ inl before
                | inr now ↦ inr (id, epoch, signature, refl, o, now)
              ]
      ]
  handle_core_revokes disk sender j (revoke_ack epoch) home h = inl h
  handle_core_revokes disk sender j (revoke_refuse epoch reason) home h = inl h
  handle_core_revokes disk sender j (error_frame message) home h = inl h

  -- Whatever a core holds under a hash after a frame it held before, or it has that hash.
  pub handle_core_chunks :
      (disk : Bool) (sender : PublicIdentity) (frame : CoreFrame) (home : CoreHome Blob)
      (key bytes : Bytes)
      → get key (handle_core crates hash disk sender frame home).2.chunks ≡ some bytes
      → (get key home.chunks ≡ some bytes) ⊎ (hash bytes ≡ key)
  unfolding handle_core on_chunk
  handle_core_chunks disk sender (reconcile_request hs) home key bytes h = inl h
  handle_core_chunks disk sender (reconcile_missing hs) home key bytes h = inl h
  handle_core_chunks disk sender (chunk_data k none) home key bytes h = inl h
  handle_core_chunks disk sender (chunk_data k (some b)) home key bytes h =
      ground (arith, list_beq_iff (hash b) k, list_beq_iff k key, get-insert key k b home.chunks)
  handle_core_chunks disk sender (revoke_broadcast id epoch signature) home key bytes h =
      elim (on_revoke-cases disk sender id epoch signature home) [
        | inl e ↦ inl (sym (ap (λ (t : CoreHome Blob). get key t.chunks) e) ∙ h)
        | inr (o, e, e') ↦ inl (sym (ap (λ t. get key t) e') ∙ h)
      ]
  handle_core_chunks disk sender (revoke_ack epoch) home key bytes h = inl h
  handle_core_chunks disk sender (revoke_refuse epoch reason) home key bytes h = inl h
  handle_core_chunks disk sender (error_frame message) home key bytes h = inl h
