-- ===== src/Files/Assembled.antt =====
-- src/files/mod.rs: what a completed transfer has written.
use neonet.Base.Sets.{contains}
use neonet.Base.Text.{Bytes, Text}
use neonet.Base.Results.{ok, Result, Result-cases, err}
use neonet.Base.Maps.{Map, insert}
use neonet.Base.{
  List, Option, Option-cases, append-nil, none, [], ap, append_assoc, arith, get_elem?, inl, inr,
  length, length-append, list_eq, ltb, map, nat_eq, refl, some, suc, sym, true, ℕ, ◌++◌, ◌∙◌, ◌∷◌,
  ◌≡◌, Bool-cases, all, nat_beq, zero, false, ◌-◌,
}
use mathlib.Core.Path.{subst}
use neonet.Files.{FileManifest, Chunk, FileError, verify_chunk, TransferState, indices_from}
use neonet.Files.Order.{nodup, nodup-snoc, sort_indices-all, get_elem_middle}
use neonet.Files.Received.{
  sound, is_cached, is_cached-parts, sound-insert_self, stored-is_cached, verified_hash, all-snoc,
}
use neonet.Files.Places.{read_place-write_place}
use neonet.Files.Incoming.{
  Place, Transfers, incoming, put_dir, write_output, own_chunk, piece_at, read_place, put_received,
  Incoming, IncomingCrates, ReceiveError, ReceiveStatus, verified, sort_indices, write_pieces,
  sized, load_transfer_state, load_received_manifest, save_transfer_state, resume_for,
  reconstruct_from_verified, completed, after_saving, record_chunk, store_chunk, receive_chunk,
}

abbrev pub concat : List Bytes → Bytes
concat [] = []
concat (p ∷ ps) = p ++ concat ps

-- The entries at the indices from the end of `before` on.
entries_from :
    (before hs : List Bytes)
    → map (get_elem? (before ++ hs)) (indices_from (length before) hs) ≡ map some hs
entries_from before [] = refl
entries_from before (h ∷ hs) =
    let at = get_elem_middle before h hs in
    let next : length (before ++ h ∷ []) ≡ suc (length before) =
      ground (arith, length-append before (h ∷ [])) in
    let rest = entries_from (before ++ h ∷ []) hs in
    let rest' : map (get_elem? (before ++ h ∷ hs)) (indices_from (suc (length before)) hs)
        ≡ map some hs =
      ap (λ n. map (get_elem? (before ++ h ∷ hs)) (indices_from n hs)) (sym next)
      ∙ ap (λ xs. map (get_elem? xs) (indices_from (length (before ++ h ∷ [])) hs))
          (sym (append_assoc before (h ∷ []) hs))
      ∙ rest in
    ap (λ o. o ∷ map (get_elem? (before ++ h ∷ hs)) (indices_from (suc (length before)) hs)) at
    ∙ ap (λ os. some h ∷ os) rest'

get_elem_bound :
    (xs : List Bytes) (i : ℕ) (x : Bytes) → get_elem? xs i ≡ some x → ltb i (length xs) ≡ true
get_elem_bound [] i x h = cc
get_elem_bound (y ∷ ys) zero x h = ground arith
get_elem_bound (y ∷ ys) (suc i) x h = ground (arith, get_elem_bound ys i x h)

some_inj : (xs ys : List Bytes) → map some xs ≡ map some ys → xs ≡ ys
some_inj [] [] h = refl
some_inj [] (y ∷ ys) h = cc
some_inj (x ∷ xs) [] h = cc
some_inj (x ∷ xs) (y ∷ ys) h =
    let a : x ≡ y = ground arith in
    let b : map some xs ≡ map some ys = ground arith in
    ap (λ t. t ∷ xs) a ∙ ap (λ t. y ∷ t) (some_inj xs ys b)

module _ (crates : IncomingCrates) (m : FileManifest) where
  abbrev piece : ℕ → Bytes → Bytes → Chunk
  piece i h b = record { index = i; hash = h; bytes = b }

  -- A piece that is written.
  write_step :
      (own : Option ℕ) (chunks : Map ℕ Bytes) (i : ℕ) (is : List ℕ) (disk : ℕ) (written b h : Bytes)
      → piece_at crates own written chunks i ≡ some b
      → get_elem? m.chunks i ≡ some h
      → verify_chunk crates.hash m (piece i h b) ≡ ok tt
      → write_pieces crates m own chunks (i ∷ is) (suc disk) written
        ≡ write_pieces crates m own chunks is disk (written ++ b)
  unfolding write_pieces
  write_step own chunks i is disk written b h e e' v = rw (write_pieces, e, e', v) refl

  -- The pieces that a run of `write_pieces` that succeeds has written.
  Pieces : Option ℕ → Map ℕ Bytes → List ℕ → ℕ → Bytes → Type 0
  Pieces own chunks is disk written =
      (ps : List Bytes) × ((write_pieces crates m own chunks is disk written).1
        ≡ written ++ concat ps)
      × (map (get_elem? m.chunks) is ≡ map some (map crates.hash ps))

  on_piece :
      (own : Option ℕ) (chunks : Map ℕ Bytes) (i : ℕ) (is : List ℕ) (disk : ℕ) (written b x : Bytes)
      → piece_at crates own written chunks i ≡ some b
      → get_elem? m.chunks i ≡ some x
      → verify_chunk crates.hash m (piece i x b) ≡ ok tt
      → ((d : ℕ) (w : Bytes)
          → (write_pieces crates m own chunks is d w).0 ≡ ok tt
          → Pieces own chunks is d w)
      → (write_pieces crates m own chunks (i ∷ is) disk written).0 ≡ ok tt
      → Pieces own chunks (i ∷ is) disk written
  unfolding write_pieces verify_chunk Pieces
  on_piece own chunks i is zero written b x e e' v deeper h = ground (arith, e, e', v)
  on_piece own chunks i is (suc disk) written b x e e' v deeper h =
      let step = write_step own chunks i is disk written b x e e' v in
      let (ps, p, q) = deeper disk (written ++ b) (sym (ap (λ r. r.0) step) ∙ h) in
      (
        b ∷ ps,
        ap (λ r. r.1) step ∙ p ∙ append_assoc written b (concat ps),
        ap (λ o. o ∷ map (get_elem? m.chunks) is) (verified_hash crates m (piece i x b) v)
            ∙ ap (λ os. some (crates.hash b) ∷ os) q,
      )

  write_pieces-Pieces :
      (own : Option ℕ) (chunks : Map ℕ Bytes) (is : List ℕ) (disk : ℕ) (written : Bytes)
      → (write_pieces crates m own chunks is disk written).0 ≡ ok tt
      → Pieces own chunks is disk written
  unfolding write_pieces verify_chunk Pieces
  write_pieces-Pieces own chunks [] disk written h = ([], sym (append-nil written), refl)
  write_pieces-Pieces own chunks (i ∷ is) disk written h =
      elim (Option-cases (piece_at crates own written chunks i)) [
        | inl e ↦ ground (arith, e)
        | inr (b, e) ↦ elim (Option-cases (get_elem? m.chunks i)) [
          | inl e' ↦ ground (arith, e, e')
          | inr (x, e') ↦ elim (Result-cases (verify_chunk crates.hash m (piece i x b))) [
            | inr (y, v) ↦ ground (arith, e, e', v)
            | inl (u, v) ↦
                on_piece own chunks i is disk written b x e e' v (write_pieces-Pieces own chunks is)
                  h
          ]
        ]
      ]

  below :
      (chunks : Map ℕ Bytes) (i : ℕ)
      → sound crates m chunks i ≡ true
      → ltb i (length m.chunks) ≡ true
  unfolding sound
  below chunks i h = elim (Option-cases (get_elem? m.chunks i)) [
    | inl e ↦ ground (arith, e)
    | inr (x, e) ↦ get_elem_bound m.chunks i x e
  ]

  all_below :
      (chunks : Map ℕ Bytes) (is : List ℕ)
      → all (sound crates m chunks) is ≡ true
      → all (λ i. ltb i (length m.chunks)) is ≡ true
  all_below chunks [] h = refl
  all_below chunks (i ∷ is) h = ground (arith, below chunks i, all_below chunks is)

  -- A file that is pieces with the hashes that the manifest lists, in its order, and has the size
  -- that it names.
  pub IsAssembled : Option Bytes → Type 0
  IsAssembled written =
      (ps : List Bytes) × (written ≡ some (concat ps))
      × (map crates.hash ps ≡ m.chunks)
      × (length (concat ps) ≡ m.total_size)

  completed_inv :
      (r : Result ReceiveError (Unit {0}) × Option Bytes) (inc : Incoming) (s : ReceiveStatus)
      → (completed crates r inc).0 ≡ ok s
      → (r.0 ≡ ok tt) × ((completed crates r inc).2 ≡ r.1)
  completed_inv (ok u, written) inc s h = (refl, refl)
  completed_inv (err e, written) inc s h = cc

  sized_inv :
      (total : ℕ) (p : Result ReceiveError (Unit {0}) × Bytes)
      → sized crates total p ≡ ok tt
      → (p.0 ≡ ok tt) × (length p.1 ≡ total)
  sized_inv total (ok u, bytes) h = ground arith
  sized_inv total (err e, bytes) h = cc

  reconstruct_assembles :
      (disk : ℕ) (own : Option ℕ) (state : TransferState) (chunks : Map ℕ Bytes)
      → all (sound crates m chunks) state.verified_chunks ≡ true
      → nodup state.verified_chunks ≡ true
      → length state.verified_chunks ≡ length m.chunks
      → (reconstruct_from_verified crates disk m own state chunks).0 ≡ ok tt
      → IsAssembled (reconstruct_from_verified crates disk m own state chunks).1
  unfolding reconstruct_from_verified IsAssembled Pieces
  reconstruct_assembles zero own state chunks s n l h = cc
  reconstruct_assembles (suc disk) own state chunks s n l h =
      let vs = state.verified_chunks in
      let (a, b) =
        sized_inv m.total_size (write_pieces crates m own chunks (sort_indices vs) disk []) h in
      let (ps, p, q) = write_pieces-Pieces own chunks (sort_indices vs) disk [] a in
      let order = sort_indices-all vs m.chunks n (all_below chunks vs s) l in
      let hashes =
        sym (entries_from [] m.chunks) ∙ ap (λ is. map (get_elem? m.chunks) is) (sym order) ∙ q in
      (ps, ap some p, sym (some_inj m.chunks (map crates.hash ps) hashes), ap length (sym p) ∙ b)

  after_assembles :
      (disk : ℕ) (own : Option ℕ) (state : TransferState)
      (r : Result FileError (Unit {0}) × Incoming)
      → all (sound crates m r.1.chunks) state.verified_chunks ≡ true
      → nodup state.verified_chunks ≡ true
      → (after_saving crates disk m own state r).0 ≡ ok (verified true)
      → IsAssembled (after_saving crates disk m own state r).2
  unfolding after_saving
  after_assembles disk own state (err e, inc) s n h = cc
  after_assembles disk own state (ok u, inc) s n h =
      elim (Bool-cases (nat_beq (length state.verified_chunks) (length m.chunks))) [
        | inr e ↦ ground (arith, e)
        | inl e ↦
            let r = reconstruct_from_verified crates disk m own state inc.chunks in
            let saved : after_saving crates disk m own state (ok u, inc) ≡ completed crates r inc =
              rw (after_saving, e) refl in
            let (a, b) = completed_inv r inc (verified true) (sym (ap (λ t. t.0) saved) ∙ h) in
            let same = ap (λ t. t.2) saved ∙ b in
            subst IsAssembled (sym same)
              (reconstruct_assembles disk own state inc.chunks s n (ground arith) a)
      ]

  save-chunks :
      (disk : ℕ) (state : TransferState) (inc : Incoming)
      → (save_transfer_state crates disk state inc).1.chunks ≡ inc.chunks
  unfolding save_transfer_state
  save-chunks zero state inc = ground arith
  save-chunks (suc n) state inc = ground arith

  record_assembles :
      (disk : ℕ) (own : Option ℕ) (index : ℕ) (inc : Incoming)
      → is_cached crates m inc ≡ true
      → sound crates m inc.chunks index ≡ true
      → contains index (resume_for crates m inc).verified_chunks ≡ false
      → (record_chunk crates disk m own index (resume_for crates m inc) inc).0 ≡ ok (verified true)
      → IsAssembled (record_chunk crates disk m own index (resume_for crates m inc) inc).2
  unfolding record_chunk
  record_assembles disk own index inc c s new h =
      let state = resume_for crates m inc in
      let vs = state.verified_chunks in
      let state' : TransferState = record state { verified_chunks = vs ++ index ∷ [] } in
      let r = save_transfer_state crates disk state' inc in
      let (a, b) = is_cached-parts crates m inc c in
      let all_sound : all (sound crates m r.1.chunks) (vs ++ index ∷ []) ≡ true =
        ap (λ cs. all (sound crates m cs) (vs ++ index ∷ [])) (save-chunks disk state' inc)
        ∙ all-snoc crates m (sound crates m inc.chunks) vs index a s in
      let saved : record_chunk crates disk m own index state inc
          ≡ after_saving crates (disk - 1) m own state' r =
        rw (record_chunk, new) refl in
      subst IsAssembled (sym (ap (λ t. t.2) saved)) (
        after_assembles (disk - 1) own state' r all_sound (nodup-snoc vs index b new)
          (sym (ap (λ t. t.0) saved) ∙ h))

  store_assembles :
      (disk : ℕ) (own : Option ℕ) (c : Chunk) (inc : Incoming)
      → verify_chunk crates.hash m c ≡ ok tt
      → is_cached crates m inc ≡ true
      → contains c.index (resume_for crates m inc).verified_chunks ≡ false
      → (store_chunk crates disk m own c inc).0 ≡ ok (verified true)
      → IsAssembled (store_chunk crates disk m own c inc).2
  unfolding store_chunk resume_for load_transfer_state
  store_assembles zero own c inc v h new r = cc
  store_assembles (suc disk) own c inc v h new r =
      let listed = verified_hash crates m c v in
      record_assembles disk own c.index (record inc { chunks = insert c.index c.bytes inc.chunks })
        (stored-is_cached crates m c inc listed h)
        (sound-insert_self crates m inc.chunks c.index c.bytes listed) new r

  read-write_output :
      (place : Place) (written : Option Bytes) (home : Transfers)
      → IsAssembled written
      → IsAssembled (read_place place (write_output place written home))
  unfolding write_output IsAssembled
  read-write_output place none home (ps, e, q, r) = cc
  read-write_output place (some bytes) home (ps, e, q, r) =
      (ps, read_place-write_place place bytes home ∙ e, q, r)

  -- The chunk that completes a transfer, which was not recorded before, leaves an output file made
  -- of pieces with exactly the hashes that the manifest lists, in its order, and of the size that
  -- it names, if the saved state is true of the disk before it. The output is whatever file the
  -- path with the name in the manifest leads to, even one of the transfer's own.
  pub receive_chunk_assembles :
      (disk : ℕ) (id : Text) (c : Chunk) (home : Transfers)
      → load_received_manifest crates (incoming (crates.dir id) home) ≡ ok m
      → is_cached crates m (incoming (crates.dir id) home) ≡ true
      → contains c.index (resume_for crates m (incoming (crates.dir id) home)).verified_chunks
        ≡ false
      → (receive_chunk crates disk id c home).0 ≡ ok (verified true)
      → IsAssembled (read_place (crates.output id m.name) (receive_chunk crates disk id c home).1)
  unfolding receive_chunk
  receive_chunk_assembles disk id c home l h new r =
      elim (Result-cases (verify_chunk crates.hash m c)) [
        | inr (x, e) ↦ ground (arith, l, e)
        | inl (u, e) ↦
            let d = crates.dir id in
            let place = crates.output id m.name in
            let own = own_chunk d place in
            let got = store_chunk crates disk m own c (incoming d home) in
            let step : receive_chunk crates disk id c home ≡ put_received crates place d got home =
              rw (receive_chunk, l, e) refl in
            subst (λ t. IsAssembled (read_place place t)) (sym (ap (λ t. t.1) step))
              (read-write_output place got.2 (put_dir d got.1 home) (
                store_assembles disk own c (incoming d home) e h new
                  (sym (ap (λ t. t.0) step) ∙ r)))
      ]
