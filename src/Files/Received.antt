-- ===== src/Files/Received.antt =====
-- src/files/mod.rs and src/app/files.rs: what the receiving side has on its disk is what its
-- manifest says.
use neonet.Base.Sets.{contains}
use neonet.Base.Results.{ok, Result, Result-cases, err}
use neonet.Base.Text.{Bytes, Text}
use neonet.Base.{
  Bool, Bool-cases, Option, List, Option-cases, [], all, ap, arith, beq-eq, beq_refl, false,
  get_elem?, inl, inr, list_beq_iff, list_eq, nat_eq, none, refl, some, true, ℕ, ◌++◌, ◌==◌, ◌∷◌,
  ◌≡◌, length, nat_beq, suc, zero, ◌-◌, ◌∙◌, ◌&&◌,
}
use neonet.Base.Maps.{Map, get, get-insert, get-insert_self, insert}
use neonet.Files.{FileManifest, Chunk, FileError, verify_chunk, TransferState}
use neonet.Files.Order.{nodup, nodup-snoc}
use neonet.Files.Places.{spares, write_place-spares, incoming-put_dir_self}
use neonet.Files.Incoming.{
  Place, Transfers, incoming, put_dir, write_output, own_chunk, Incoming, IncomingCrates,
  ReceiveError, load_file, load_received_manifest, load_transfer_state, save_transfer_state,
  resume_for, reconstruct_from_verified, completed, after_saving, record_chunk, store_chunk,
  receive_chunk,
}

module _ (crates : IncomingCrates) (m : FileManifest) where
  -- The chunk of an index is stored, and has the hash that the manifest lists for it.
  unfoldable pub sound : Map ℕ Bytes → ℕ → Bool
  sound chunks i = elim (get i chunks) [
    | none ↦ false
    | some b ↦ elim (get_elem? m.chunks i) [ none ↦ false | some h ↦ crates.hash b == h ]
  ]

  -- Every index that the saved state calls verified has a sound chunk on the disk, and is there
  -- once.
  unfoldable pub is_cached : Incoming → Bool
  unfolding resume_for sound nodup
  is_cached inc =
      let vs = (resume_for crates m inc).verified_chunks in all (sound inc.chunks) vs && nodup vs

  sound-insert :
      (chunks : Map ℕ Bytes) (k i : ℕ) (b : Bytes)
      → get_elem? m.chunks k ≡ some (crates.hash b)
      → sound chunks i ≡ true
      → sound (insert k b chunks) i ≡ true
  unfolding sound
  sound-insert chunks k i b h s = elim (Bool-cases (k == i)) [
    | inl e ↦
        let ki = beq-eq k i e in
        ground (
          arith,
          get-insert i k b chunks,
          e,
          ap (λ n. get_elem? m.chunks n) ki,
          beq_refl (crates.hash b),
        )
    | inr e ↦ ground (arith, get-insert i k b chunks, e)
  ]

  pub sound-insert_self :
      (chunks : Map ℕ Bytes) (k : ℕ) (b : Bytes)
      → get_elem? m.chunks k ≡ some (crates.hash b)
      → sound (insert k b chunks) k ≡ true
  unfolding sound
  sound-insert_self chunks k b h =
      ground (arith, get-insert_self k b chunks, beq_refl (crates.hash b))

  all-insert :
      (chunks : Map ℕ Bytes) (k : ℕ) (b : Bytes) (is : List ℕ)
      → get_elem? m.chunks k ≡ some (crates.hash b)
      → all (sound chunks) is ≡ true
      → all (sound (insert k b chunks)) is ≡ true
  all-insert chunks k b [] h s = refl
  all-insert chunks k b (i ∷ is) h s =
      ground (arith, sound-insert chunks k i b h, all-insert chunks k b is h)

  pub all-snoc :
      (p : ℕ → Bool) (is : List ℕ) (i : ℕ)
      → all p is ≡ true
      → p i ≡ true
      → all p (is ++ i ∷ []) ≡ true
  all-snoc p [] i h s = ground arith
  all-snoc p (j ∷ is) i h s = ground (arith, all-snoc p is i)

  pub verified_hash :
      (c : Chunk)
      → verify_chunk crates.hash m c ≡ ok tt
      → get_elem? m.chunks c.index ≡ some (crates.hash c.bytes)
  unfolding verify_chunk
  verified_hash c h = elim (Option-cases (get_elem? m.chunks c.index)) [
    | inl e ↦ ground (arith, e)
    | inr (x, e) ↦ ground (arith, e, list_beq_iff (crates.hash c.bytes) x)
  ]

  pub is_cached-parts :
      (inc : Incoming)
      → is_cached inc ≡ true
      → (all (sound inc.chunks) (resume_for crates m inc).verified_chunks ≡ true)
        × (nodup (resume_for crates m inc).verified_chunks ≡ true)
  unfolding is_cached
  is_cached-parts inc h = ground arith

  -- Two transfers whose chunks and saved state are the same.
  is_cached-same :
      (a b : Incoming)
      → a.chunks ≡ b.chunks
      → a.state_file ≡ b.state_file
      → is_cached a ≡ is_cached b
  unfolding is_cached load_transfer_state
  is_cached-same a b c s = rw (is_cached, resume_for, load_transfer_state, c, s) refl

  is_cached-saved :
      (state : TransferState) (b : Bytes) (inc : Incoming)
      → crates.state_codec.encode state ≡ some b
      → is_cached (record inc { state_file = some b })
        ≡ (all (sound inc.chunks) state.verified_chunks && nodup state.verified_chunks)
  unfolding is_cached load_transfer_state load_file
  is_cached-saved state b inc h =
      rw (is_cached, resume_for, crates.state_codec.decode-encode state b h) refl

  pub completed-dir :
      (r : Result ReceiveError (Unit {0}) × Option Bytes) (inc : Incoming)
      → (completed crates r inc).1 ≡ inc
  completed-dir (ok u, written) inc = refl
  completed-dir (err e, written) inc = refl

  after_saving-is_cached :
      (disk : ℕ) (own : Option ℕ) (state : TransferState)
      (r : Result FileError (Unit {0}) × Incoming)
      → is_cached r.1 ≡ true
      → is_cached (after_saving crates disk m own state r).1 ≡ true
  unfolding after_saving
  after_saving-is_cached disk own state (err e, inc) h = h
  after_saving-is_cached disk own state (ok u, inc) h =
      elim (Bool-cases (nat_beq (length state.verified_chunks) (length m.chunks))) [
        | inl e ↦
            rw (after_saving, e)
              (ap is_cached
                  (completed-dir (reconstruct_from_verified crates disk m own state inc.chunks) inc)
                ∙ h)
        | inr e ↦ rw (after_saving, e) h
      ]

  save-is_cached :
      (disk : ℕ) (state : TransferState) (inc : Incoming)
      → is_cached inc ≡ true
      → all (sound inc.chunks) state.verified_chunks ≡ true
      → nodup state.verified_chunks ≡ true
      → is_cached (save_transfer_state crates disk state inc).1 ≡ true
  unfolding save_transfer_state
  save-is_cached zero state inc h s n = elim (Option-cases (crates.state_codec.encode state)) [
    | inl e ↦ rw (save_transfer_state, e) h
    | inr (b, e) ↦ rw (save_transfer_state, e) h
  ]
  save-is_cached (suc k) state inc h s n = elim (Option-cases (crates.state_codec.encode state)) [
    | inl e ↦ rw (save_transfer_state, e) h
    | inr (b, e) ↦ rw (save_transfer_state, e) (is_cached-saved state b inc e ∙ ground arith)
  ]

  record_chunk-is_cached :
      (disk : ℕ) (own : Option ℕ) (index : ℕ) (inc : Incoming)
      → is_cached inc ≡ true
      → sound inc.chunks index ≡ true
      → is_cached (record_chunk crates disk m own index (resume_for crates m inc) inc).1 ≡ true
  unfolding record_chunk
  record_chunk-is_cached disk own index inc h s = go (contains index state.verified_chunks) refl
    where
      state : TransferState
      state = resume_for crates m inc

      state' : TransferState
      state' = record state { verified_chunks = state.verified_chunks ++ index ∷ [] }

      parts :
          (all (sound inc.chunks) state.verified_chunks ≡ true)
          × (nodup state.verified_chunks ≡ true)
      parts = is_cached-parts inc h

      go :
          (b : Bool)
          → contains index state.verified_chunks ≡ b
          → is_cached (record_chunk crates disk m own index state inc).1 ≡ true
      go true e = rw (record_chunk, e) h
      go false e =
          rw (record_chunk, e)
            (after_saving-is_cached (disk - 1) own state'
              (save_transfer_state crates disk state' inc)
              (save-is_cached disk state' inc h
                (all-snoc (sound inc.chunks) state.verified_chunks index parts.0 s)
                (nodup-snoc state.verified_chunks index parts.1 e)))

  pub stored-is_cached :
      (c : Chunk) (inc : Incoming)
      → get_elem? m.chunks c.index ≡ some (crates.hash c.bytes)
      → is_cached inc ≡ true
      → is_cached (record inc { chunks = insert c.index c.bytes inc.chunks }) ≡ true
  unfolding is_cached load_transfer_state
  stored-is_cached c inc h s = ground (
    arith,
    is_cached-parts inc s,
    all-insert inc.chunks c.index c.bytes (resume_for crates m inc).verified_chunks h,
  )

  store_chunk-is_cached :
      (disk : ℕ) (own : Option ℕ) (c : Chunk) (inc : Incoming)
      → verify_chunk crates.hash m c ≡ ok tt
      → is_cached inc ≡ true
      → is_cached (store_chunk crates disk m own c inc).1 ≡ true
  unfolding store_chunk
  store_chunk-is_cached zero own c inc v h = h
  store_chunk-is_cached (suc disk) own c inc v h =
      let listed = verified_hash c v in
      record_chunk-is_cached disk own c.index
        (record inc { chunks = insert c.index c.bytes inc.chunks })
        (stored-is_cached c inc listed h) (sound-insert_self inc.chunks c.index c.bytes listed)

  cached-write_output :
      (d : Text) (place : Place) (written : Option Bytes) (home : Transfers)
      → spares d place ≡ true
      → is_cached (incoming d (write_output place written home)) ≡ is_cached (incoming d home)
  unfolding write_output
  cached-write_output d place none home h = refl
  cached-write_output d place (some bytes) home h =
      let (a, b) = write_place-spares d place bytes home h in is_cached-same _ _ a b

  -- Every chunk that arrives for a transfer, sound or not, and whichever file operation fails,
  -- leaves it true of the transfer that an index recorded as verified has its chunk on the disk,
  -- with the hash that the manifest, as it was before, lists for it, and is recorded once: if the path of the output,
  -- which the name in the manifest decides, leads neither to the saved state of the transfer nor to
  -- one of its chunks.
  pub receive_chunk-is_cached :
      (disk : ℕ) (id : Text) (c : Chunk) (home : Transfers)
      → load_received_manifest crates (incoming (crates.dir id) home) ≡ ok m
      → spares (crates.dir id) (crates.output id m.name) ≡ true
      → is_cached (incoming (crates.dir id) home) ≡ true
      → is_cached (incoming (crates.dir id) (receive_chunk crates disk id c home).1) ≡ true
  unfolding receive_chunk
  receive_chunk-is_cached disk id c home l p h =
      let d = crates.dir id in
      let place = crates.output id m.name in
      elim (Result-cases (verify_chunk crates.hash m c)) [
        | inr (x, e) ↦ rw (receive_chunk, l, e) h
        | inl (u, e) ↦
            let r = store_chunk crates disk m (own_chunk d place) c (incoming d home) in
            rw (receive_chunk, l, e)
              (cached-write_output d place r.2 (put_dir d r.1 home) p
                ∙ ap is_cached (incoming-put_dir_self d r.1 home)
                ∙ store_chunk-is_cached disk (own_chunk d place) c (incoming d home) e h)
      ]
