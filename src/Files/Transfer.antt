-- ===== src/Files/Transfer.antt =====
-- src/files/transfer.rs: which chunks of a manifest a transfer marks verified and which lost.
use neonet.Base.{
  Bool-cases, Option-cases, any, get_elem?, list_eq, list_beq_iff, none, some, inl, inr, ℕ, zero,
  suc, ◌+◌, ◌≤◌, ◌<◌, ◌≡◌, refl, Bool, true, false, List, [], ◌∷◌, arith, ◌==◌, nat_eq, nat_beq_iff,
  ◌||◌, ◌&&◌, not, length, min, max, ltb, leb, if◌then◌else◌,
}
use neonet.Base.Results.{Result, ok, err, is_ok}
use neonet.Base.Sets.{contains, contains-append}
use neonet.Base.Text.{Bytes}
use neonet.Files.{
  FileManifest, Chunk, FileError, verify_chunk, TransferState, new_transfer, push_new,
  mark_verified, mark_lost,
}

-- `ChunkSource`
abbrev pub Source : Type 0
Source = ℕ → Result FileError Chunk

abbrev pub take_sources : ℕ → List Source → List Source
take_sources zero sources = []
take_sources (suc n) [] = []
take_sources (suc n) (s ∷ ss) = s ∷ take_sources n ss

module _ (hash : Bytes → Bytes) (manifest : FileManifest) where
  -- `Ok(chunk) if super::verify_chunk(manifest, &chunk).is_ok()`
  abbrev pub accepts : Result FileError Chunk → Bool
  accepts (err e) = false
  accepts (ok chunk) = is_ok (verify_chunk hash manifest chunk)

  -- The loop over the sources, which ends at the first that is accepted; without sources there is
  -- no success.
  unfoldable pub try_sources : List Source → ℕ → Bool
  try_sources [] index = false
  try_sources (s ∷ ss) index = if accepts (s index) then true else try_sources ss index

  -- The loop over the indices: `count` of them are left, from `index` on.
  unfoldable pub transfer_from : ℕ → ℕ → List Source → TransferState → TransferState
  unfolding try_sources mark_verified mark_lost
  transfer_from zero index sources state = state
  transfer_from (suc count) index sources state =
      let state' =
        if try_sources sources index then mark_verified index state else mark_lost index state in
      transfer_from count (suc index) sources state'

  -- `sources.iter().cycle().take(sources.len().min(budget))`, which does not come round again.
  unfoldable pub transfer_manifest : List Source → ℕ → TransferState
  unfolding transfer_from
  transfer_manifest sources retry_budget =
      let budget = max retry_budget 1 in
      let tried = take_sources (min (length sources) budget) sources in
      transfer_from (length manifest.chunks) 0 tried (new_transfer manifest)

module _ (hash : Bytes → Bytes) (manifest : FileManifest) where
  -- A chunk of which both the hash it carries and the hash of its data are what the manifest lists
  -- for its index.
  abbrev pub sound_answer : Result FileError Chunk → Bool
  sound_answer (err e) = false
  sound_answer (ok c) = elim (get_elem? manifest.chunks c.index) [
    | none ↦ false
    | some h ↦ c.hash == h && hash c.bytes == h
  ]

  accepts-sound_answer : (r : Result FileError Chunk) → accepts hash manifest r ≡ sound_answer r
  unfolding verify_chunk
  accepts-sound_answer (err e) = refl
  accepts-sound_answer (ok c) = elim (Option-cases (get_elem? manifest.chunks c.index)) [
    | inl e ↦ ground (arith, e)
    | inr (h, e) ↦
        ground
          (arith, e, list_beq_iff h c.hash, list_beq_iff c.hash h, list_beq_iff (hash c.bytes) h)
  ]

  try_sources-any :
      (sources : List Source) (i : ℕ)
      → try_sources hash manifest sources i ≡ any (λ s. sound_answer (s i)) sources
  unfolding try_sources
  try_sources-any [] i = refl
  try_sources-any (s ∷ ss) i = ground (arith, accepts-sound_answer (s i), try_sources-any ss i)

contains-push_new :
    (i index : ℕ) (v : List ℕ) → contains i (push_new index v) ≡ (contains i v || index == i)
unfolding push_new contains
contains-push_new i index v = ground (arith, contains-append i v (index ∷ []), nat_beq_iff index i)

module _ (hash : Bytes → Bytes) (manifest : FileManifest) where
  -- An index that the loop goes through.
  abbrev within : ℕ → ℕ → ℕ → Bool
  within index count i = leb index i && ltb i (index + count)

  transfer_from_exact :
      (sources : List Source) (count index i : ℕ) (state : TransferState)
      → let state' = transfer_from hash manifest count index sources state in
        let served = try_sources hash manifest sources i in
        (contains i state'.verified_chunks
          ≡ (contains i state.verified_chunks || within index count i && served))
        × (contains i state'.lost_chunks
            ≡ (contains i state.lost_chunks || within index count i && not served))
  unfolding transfer_from mark_verified mark_lost
  transfer_from_exact sources zero index i state = ground arith
  transfer_from_exact sources (suc count) index i state =
      elim (Bool-cases (try_sources hash manifest sources index)) [
        | inl t ↦
            rw (transfer_from, t)
              (ground (
                arith,
                transfer_from_exact sources count (suc index) i (mark_verified index state),
                contains-push_new i index state.verified_chunks,
                nat_beq_iff index i,
              ))
        | inr n ↦
            rw (transfer_from, n)
              (ground (
                arith,
                transfer_from_exact sources count (suc index) i (mark_lost index state),
                contains-push_new i index state.lost_chunks,
                nat_beq_iff index i,
              ))
      ]

  -- After a transfer every chunk of the manifest is verified or lost, and not both: verified
  -- if one of the sources tried answered its index with a chunk whose hash, and the hash of whose
  -- data, are what the manifest lists for the index that the chunk itself bears. Sources are tried from the first, as many as the retry budget says, and at least one.
  pub transfer_manifest_exact :
      (sources : List Source) (retry_budget i : ℕ)
      → let tried = take_sources (min (length sources) (max retry_budget 1)) sources in
        let served = any (λ s. sound_answer hash manifest (s i)) tried in
        let state = transfer_manifest hash manifest sources retry_budget in
        let asked = ltb i (length manifest.chunks) in
        (contains i state.verified_chunks ≡ (asked && served))
        × (contains i state.lost_chunks ≡ (asked && not served))
  unfolding transfer_manifest new_transfer contains
  transfer_manifest_exact sources retry_budget i =
      let tried = take_sources (min (length sources) (max retry_budget 1)) sources in
      ground (
        arith,
        try_sources-any hash manifest tried i,
        transfer_from_exact tried (length manifest.chunks) 0 i (new_transfer manifest),
      )

  first_counts :
      (s : Source) (ss : List Source) (n i : ℕ) (c : Chunk)
      → s i ≡ ok c
      → verify_chunk hash manifest c ≡ ok tt
      → 1 ≤ n
      → any (λ t. sound_answer hash manifest (t i)) (take_sources n (s ∷ ss)) ≡ true
  first_counts s ss zero i c answer sound some_source = absurd (omega arith)
  first_counts s ss (suc n) i c answer sound some_source =
      rw answer (ground (arith, accepts-sound_answer hash manifest (ok c), sound))

  -- A source's answer counts by the chunk's own index, not by the one that was asked for: any chunk
  -- of the file that is sound marks the index asked for as verified.
  pub any_sound_chunk_counts :
      (s : Source) (ss : List Source) (retry_budget i : ℕ) (c : Chunk)
      → i < length manifest.chunks
      → s i ≡ ok c
      → verify_chunk hash manifest c ≡ ok tt
      → contains i (transfer_manifest hash manifest (s ∷ ss) retry_budget).verified_chunks ≡ true
  any_sound_chunk_counts s ss retry_budget i c asked answer sound =
      let (verified, lost) = transfer_manifest_exact (s ∷ ss) retry_budget i in
      rw verified (
        ground (
          arith,
          first_counts s ss (min (length (s ∷ ss)) (max retry_budget 1)) i c answer sound
              (ground arith),
        ))
