-- ===== src/Core/Chunks.antt =====
-- src/core/mod.rs, `ChunkIndex`: what is stored is what its hash says, and never changes.
use neonet.Base.{
  ◌≡◌, ◌↔◌, refl, true, none, some, arith, ◌==◌, list_eq, nat_eq, beq-eq, list_beq_iff,
  if◌then◌else◌, Bool-cases, inl, inr, Option-cases,
}
use neonet.Base.Maps.{get, get-insert, contains_key}
use neonet.Base.Text.{Bytes}
use neonet.Identity.{PublicIdentity}
use neonet.Core.{ChunkIndex, chunk, insert_chunk, or_insert, new_core}

module _ (hash : Bytes → Bytes) where
  -- Every chunk stands under its own hash.
  pub record IsAddressed (index : ChunkIndex) : Type 0 where
    pub at : (key bytes : Bytes) → chunk index key ≡ some bytes → hash bytes ≡ key

  pub new-IsAddressed : (id : PublicIdentity) → IsAddressed (new_core id).chunks
  unfolding new_core chunk get
  new-IsAddressed id = record { at = λ key bytes h. cc }

  chunk-insert :
      (index : ChunkIndex) (key bytes k : Bytes)
      → chunk (record { chunks = or_insert key bytes index.chunks }) k
        ≡ (elim (chunk index k) [ some d ↦ some d | none ↦ if key == k then some bytes else none ])
  unfolding chunk or_insert contains_key
  chunk-insert index key bytes k =
      ground (arith, get-insert k key bytes index.chunks, list_beq_iff key k)

  held_after :
      (key bytes : Bytes) (index : ChunkIndex)
      → IsAddressed index
      → hash bytes ≡ key
      → (d : Bytes) × (chunk (record { chunks = or_insert key bytes index.chunks }) key ≡ some d)
        × (hash d ≡ key)
  held_after key bytes index a e = elim (Option-cases (chunk index key)) [
    | inl empty ↦ (bytes, ground (arith, chunk-insert index key bytes key, list_beq_iff key key), e)
    | inr (d, full) ↦ (d, ground (arith, chunk-insert index key bytes key), a.at key d full)
  ]

  -- Inserting keeps every chunk under its own hash; it succeeds exactly if the data has the given
  -- hash, and then a chunk with that hash is held; and what was held before is held unchanged.
  pub insert_chunk_sound :
      (key bytes : Bytes) (index : ChunkIndex)
      → IsAddressed index
      → let (index', accepted) = insert_chunk hash key bytes index in
        IsAddressed index'
        × ((accepted ≡ true) ↔ (hash bytes ≡ key))
        × (accepted ≡ true → (d : Bytes) × (chunk index' key ≡ some d) × (hash d ≡ key))
        × ((k d : Bytes) → chunk index k ≡ some d → chunk index' k ≡ some d)
  unfolding insert_chunk
  insert_chunk_sound key bytes index a = elim (Bool-cases (hash bytes == key)) [
    | inl e ↦ rw e (
      record {
        at = λ k d h. ground (
          arith,
          chunk-insert index key bytes k,
          a.at k d,
          beq-eq (hash bytes) key e,
          beq-eq key k,
        );
      },
      (λ h. beq-eq (hash bytes) key e, λ h. refl),
      λ h. held_after key bytes index a (beq-eq (hash bytes) key e),
      λ k d h. ground (arith, chunk-insert index key bytes k),
    )
    | inr n ↦
        rw n
          (a, (λ h. cc, λ h. ground (arith, list_beq_iff (hash bytes) key)), (λ h. cc), λ k d h. h)
  ]
