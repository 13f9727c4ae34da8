-- ===== src/Files/Build.antt =====
-- src/files/mod.rs, `build_manifest`: a file cut into chunks, and put together again. A read of the
-- file fills the buffer unless the file ends, and the file can be opened and read.
use neonet.Base.Text.{Bytes, Text}
use neonet.Base.Results.{Result, Result-cases, err, ok, ◌>>=◌}
use neonet.Base.{
  Bool, List, [], ap, arith, drop, if◌then◌else◌, inl, inr, is_empty, length, list_eq, ltb, map,
  nat_eq, refl, suc, true, zero, ℕ, ◌++◌, ◌+◌, ◌==◌, ◌||◌, ◌∷◌, ◌≡◌, append_assoc, beq_refl,
  get_elem?, length-append, length-drop, some, sym, ◌<◌, ◌∙◌, Bool-cases, nat_beq,
}
use neonet.Files.{
  FileManifest, Chunk, FileError, invalid_index, Signing, no_signature, unsigned_bytes,
  verify_signature, verify_chunk,
}
use neonet.Identity.{PublicIdentity}
use neonet.Files.Order.{get_elem_middle}
use neonet.Files.Resume.{put_chunk, sort_chunks, written, reconstruct}

abbrev pub take : ℕ → Bytes → Bytes
take zero xs = []
take (suc n) [] = []
take (suc n) (x ∷ xs) = x ∷ take n xs

abbrev cut : ℕ → Bytes → Bytes → Chunk
cut index h bytes = record { index = index; hash = h; bytes = bytes }

module _ (hash : Bytes → Bytes) where
  -- The loop over the reads, on fuel. The index is a `u32` whose `checked_add` fails at its end.
  unfoldable pub read_chunks : ℕ → ℕ → ℕ → Bytes → Result FileError (List Chunk)
  read_chunks zero size index bytes = ok []
  read_chunks (suc fuel) size index bytes =
      let piece = take size bytes in
      let rest = read_chunks fuel size (index + 1) (drop size bytes) in
      if is_empty bytes
      then ok []
      else if index == 4294967295
      then err invalid_index
      else rest >>= λ cs. ok (cut index (hash piece) piece ∷ cs)

  unfoldable pub draft : PublicIdentity → Text → ℕ → Bytes → List Chunk → FileManifest
  draft signer name chunk_size bytes chunks = record {
    version = 1;
    name = name;
    total_size = length bytes;
    chunk_size = chunk_size;
    chunks = map (λ (c : Chunk). c.hash) chunks;
    signer = signer;
    signature = no_signature;
  }

  abbrev signed_draft :
      PublicIdentity → (Bytes → Bytes) → Text → ℕ → Bytes → List Chunk → Bytes → FileManifest
  signed_draft signer sign name chunk_size bytes chunks unsigned =
      record (draft signer name chunk_size bytes chunks) { signature = sign unsigned }

  -- `name` is the name of the file without its directory, or `unnamed`. `sign` is the signing with
  -- the identity whose public half is `signer`.
  unfoldable pub build_manifest :
      Signing
      → PublicIdentity
      → (Bytes → Bytes)
      → Text
      → ℕ
      → Bytes
      → Result FileError (FileManifest × List Chunk)
  unfolding read_chunks unsigned_bytes draft
  build_manifest sig signer sign name chunk_size bytes =
      if chunk_size == 0 || ltb 4294967295 chunk_size
      then err invalid_index
      else (read_chunks (suc (length bytes)) chunk_size 0 bytes >>= λ chunks.
          unsigned_bytes sig (draft signer name chunk_size bytes chunks) >>= λ unsigned.
          ok (signed_draft signer sign name chunk_size bytes chunks unsigned, chunks))

  take-drop : (n : ℕ) (xs : Bytes) → take n xs ++ drop n xs ≡ xs
  take-drop zero xs = refl
  take-drop (suc n) [] = refl
  take-drop (suc n) (x ∷ xs) = ap (λ t. x ∷ t) (take-drop n xs)

  -- The first index of a list of chunks, if there is one.
  starts_at : ℕ → List Chunk → Bool
  starts_at i [] = true
  starts_at i (c ∷ cs) = c.index == i

  -- One turn of the loop that succeeds.
  read_chunks_inv :
      (fuel size index : ℕ) (x : ℕ) (bytes : Bytes) (cs : List Chunk)
      → read_chunks (suc fuel) size index (x ∷ bytes) ≡ ok cs
      → (ds : List Chunk) × (cs
          ≡ cut index (hash (take size (x ∷ bytes))) (take size (x ∷ bytes)) ∷ ds)
        × (read_chunks fuel size (index + 1) (drop size (x ∷ bytes)) ≡ ok ds)
  unfolding read_chunks
  read_chunks_inv fuel size index x bytes cs h =
      elim (Result-cases (read_chunks fuel size (index + 1) (drop size (x ∷ bytes)))) [
        | inl (ds, e) ↦ (ds, ground (arith, e), e)
        | inr (y, e) ↦ ground (arith, e)
      ]

  sorted_nil :
      (index : ℕ) (cs : List Chunk) → cs ≡ [] → (sort_chunks cs ≡ cs) × (starts_at index cs ≡ true)
  unfolding sort_chunks starts_at
  sorted_nil index [] h = (refl, refl)
  sorted_nil index (c ∷ cs) h = cc

  put_front :
      (c : Chunk) (ds : List Chunk) → starts_at (c.index + 1) ds ≡ true → put_chunk c ds ≡ c ∷ ds
  unfolding put_chunk starts_at
  put_front c [] h = refl
  put_front c (d ∷ ds) h = ground arith

  -- The chunks come in the order of their indices.
  read_chunks-sorted :
      (fuel size index : ℕ) (bytes : Bytes) (cs : List Chunk)
      → read_chunks fuel size index bytes ≡ ok cs
      → (sort_chunks cs ≡ cs) × (starts_at index cs ≡ true)
  unfolding read_chunks sort_chunks starts_at
  read_chunks-sorted zero size index bytes cs h = sorted_nil index cs (ground arith)
  read_chunks-sorted (suc fuel) size index [] cs h = sorted_nil index cs (ground arith)
  read_chunks-sorted (suc fuel) size index (x ∷ bytes) cs h =
      let c = cut index (hash (take size (x ∷ bytes))) (take size (x ∷ bytes)) in
      let (ds, e, r) = read_chunks_inv fuel size index x bytes cs h in
      let (s, f) = read_chunks-sorted fuel size (index + 1) (drop size (x ∷ bytes)) ds r in
      let sorted = ap (put_chunk c) s ∙ put_front c ds f in
      (ap sort_chunks e ∙ sorted ∙ sym e, ap (starts_at index) e ∙ ground arith)

  accepts_cut :
      (m : FileManifest) (index : ℕ) (piece : Bytes)
      → get_elem? m.chunks index ≡ some (hash piece)
      → verify_chunk hash m (cut index (hash piece) piece) ≡ ok tt
  unfolding verify_chunk
  accepts_cut m index piece h = rw (verify_chunk, h, beq_refl (hash piece)) refl

  -- The chunks of a file pass the check of a manifest that lists their hashes, and are the file.
  written-read_chunks :
      (m : FileManifest) (before : List Bytes) (fuel size index : ℕ) (bytes : Bytes)
      (cs : List Chunk)
      → read_chunks fuel size index bytes ≡ ok cs
      → length bytes < fuel
      → 0 < size
      → length before ≡ index
      → m.chunks ≡ before ++ map (λ (c : Chunk). c.hash) cs
      → written hash m cs ≡ ok bytes
  unfolding read_chunks written
  written-read_chunks m before zero size index bytes cs h l z i e = ground arith
  written-read_chunks m before (suc fuel) size index [] cs h l z i e =
      let nil : cs ≡ [] = ground arith in ap (written hash m) nil
  written-read_chunks m before (suc fuel) size index (x ∷ bytes) cs h l z i e =
      let piece = take size (x ∷ bytes) in
      let rest = drop size (x ∷ bytes) in
      let (ds, f, r) = read_chunks_inv fuel size index x bytes cs h in
      let hashes = map (λ (c : Chunk). c.hash) ds in
      let listed : m.chunks ≡ before ++ hash piece ∷ hashes =
        e ∙ ap (λ ks. before ++ map (λ (c : Chunk). c.hash) ks) f in
      let at =
        ap (get_elem? m.chunks) (sym i)
        ∙ ap (λ ks. get_elem? ks (length before)) listed
        ∙ get_elem_middle before (hash piece) hashes in
      let longer : length (before ++ hash piece ∷ []) ≡ index + 1 =
        ground (arith, length-append before (hash piece ∷ [])) in
      let shorter : length rest < fuel = ground (arith, length-drop size (x ∷ bytes)) in
      let after =
        written-read_chunks m (before ++ hash piece ∷ []) fuel size (index + 1) rest ds r shorter z
          longer (listed ∙ sym (append_assoc before (hash piece ∷ []) hashes)) in
      ap (written hash m) f
      ∙ rw (written, accepts_cut m index piece at, after) (ap ok (take-drop size (x ∷ bytes)))

  ok_inj :
      (r : Result FileError (FileManifest × List Chunk)) (a b : FileManifest × List Chunk)
      → r ≡ ok a
      → r ≡ ok b
      → a ≡ b
  ok_inj r a b h k = ground arith

  build_inv :
      (sig : Signing) (signer : PublicIdentity) (sign : Bytes → Bytes) (name : Text)
      (chunk_size : ℕ) (bytes : Bytes) (m : FileManifest) (cs : List Chunk)
      → build_manifest sig signer sign name chunk_size bytes ≡ ok (m, cs)
      → (0 < chunk_size)
        × (read_chunks (suc (length bytes)) chunk_size 0 bytes ≡ ok cs)
        × (unsigned : Bytes) × (unsigned_bytes sig (draft signer name chunk_size bytes cs)
            ≡ ok unsigned)
        × (m ≡ signed_draft signer sign name chunk_size bytes cs unsigned)
  unfolding build_manifest
  build_inv sig signer sign name chunk_size bytes m cs h =
      elim (Bool-cases (chunk_size == 0 || ltb 4294967295 chunk_size)) [
        | inl e ↦ ground (arith, e)
        | inr e ↦ elim (Result-cases (read_chunks (suc (length bytes)) chunk_size 0 bytes)) [
          | inr (x, r) ↦ ground (arith, e, r)
          | inl (ds, r) ↦
              elim (Result-cases (unsigned_bytes sig (draft signer name chunk_size bytes ds))) [
                | inr (x, u) ↦ ground (arith, e, r, u)
                | inl (unsigned, u) ↦
                    let made : FileManifest =
                      signed_draft signer sign name chunk_size bytes ds unsigned in
                    let step : build_manifest sig signer sign name chunk_size bytes
                        ≡ ok (made, ds) =
                      rw (build_manifest, e, r, u) refl in
                    let same =
                      ok_inj (build_manifest sig signer sign name chunk_size bytes) (made, ds)
                        (m, cs) step h in
                    let eds = ap (λ p. p.1) same in
                    (
                      ground (arith, e),
                      r ∙ ap ok eds,
                      unsigned,
                      ap (λ t. unsigned_bytes sig (draft signer name chunk_size bytes t)) (sym eds)
                          ∙ u,
                      sym (ap (λ p. p.0) same)
                          ∙ ap (λ t. signed_draft signer sign name chunk_size bytes t unsigned) eds,
                    )
              ]
        ]
      ]

  -- A file that `build_manifest` cuts into chunks is what `reconstruct` makes of them.
  pub reconstruct-build_manifest :
      (sig : Signing) (signer : PublicIdentity) (sign : Bytes → Bytes) (name : Text)
      (chunk_size : ℕ) (bytes : Bytes) (m : FileManifest) (cs : List Chunk)
      → build_manifest sig signer sign name chunk_size bytes ≡ ok (m, cs)
      → reconstruct hash m cs ≡ ok bytes
  unfolding reconstruct draft
  reconstruct-build_manifest sig signer sign name chunk_size bytes m cs h =
      let (z, r, unsigned, u, e) = build_inv sig signer sign name chunk_size bytes m cs h in
      let sorted = (read_chunks-sorted (suc (length bytes)) chunk_size 0 bytes cs r).0 in
      let listed = ap (λ (k : FileManifest). k.chunks) e in
      let size = ap (λ (k : FileManifest). k.total_size) e in
      let whole =
        written-read_chunks m [] (suc (length bytes)) chunk_size 0 bytes cs r (omega arith) z refl
          listed in
      let same : nat_beq (length bytes) (length bytes) ≡ true = beq_refl (length bytes) in
      rw (reconstruct, sorted, whole, size, same) refl

  -- The manifest of `build_manifest` bears a signature of its signer.
  pub verify_signature-build_manifest :
      (sig : Signing) (signer : PublicIdentity) (sign : Bytes → Bytes) (name : Text)
      (chunk_size : ℕ) (bytes : Bytes) (m : FileManifest) (cs : List Chunk)
      → sig.is_key signer ≡ true
      → ((b : Bytes) → sig.verify signer b (sign b) ≡ true)
      → build_manifest sig signer sign name chunk_size bytes ≡ ok (m, cs)
      → verify_signature sig m ≡ ok tt
  unfolding verify_signature draft
  verify_signature-build_manifest sig signer sign name chunk_size bytes m cs key signs h =
      let (z, r, unsigned, u, e) = build_inv sig signer sign name chunk_size bytes m cs h in
      ap (verify_signature sig) e ∙ rw (verify_signature, key, u, signs unsigned) refl
