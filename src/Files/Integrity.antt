-- ===== src/Files/Integrity.antt =====
-- src/files/mod.rs: what a chunk that verifies is.
use neonet.Base.{
  ◌≡◌, ◌↔◌, some, arith, get_elem?, Option-cases, inl, inr, list_eq, nat_eq, list_beq_iff,
}
use neonet.Base.Results.{ok}
use neonet.Files.{FileManifest, Chunk, verify_chunk, Bytes}

-- A chunk verifies just if the manifest lists the chunk's hash at the chunk's index, and that is the
-- hash of its bytes.
pub verify_chunk_iff :
    (hash : Bytes → Bytes) (m : FileManifest) (c : Chunk)
    → (verify_chunk hash m c ≡ ok tt)
      ↔ ((get_elem? m.chunks c.index ≡ some c.hash) × (hash c.bytes ≡ c.hash))
unfolding verify_chunk
verify_chunk_iff hash m c = elim (Option-cases (get_elem? m.chunks c.index)) [
  | inl e ↦ rw e (ground arith)
  | inr (h, e) ↦ rw e (ground (arith, list_beq_iff h c.hash, list_beq_iff (hash c.bytes) h))
]
