-- ===== src/Examples/Transfers.antt =====
-- Runs of src/files/mod.rs and src/files/transfer.rs. The hash puts a 0 before the bytes.
use neonet.Base.{any, ◌≡◌, List, [], ◌∷◌, ◌&&◌, not, ltb, length, min, max, nat_eq}
use neonet.Base.Sets.{contains}
use neonet.Base.Results.{ok, err}
use neonet.Base.Text.{Bytes}
use neonet.Files.{FileManifest, Chunk, io}
use neonet.Files.Transfer.{
  Source, take_sources, sound_answer, transfer_manifest, transfer_manifest_exact,
}
use neonet.Examples.Wire.{alice}

abbrev hash : Bytes → Bytes
hash b = 0 ∷ b

abbrev manifest : FileManifest
manifest = record {
  version = 1;
  name = 9 ∷ [];
  total_size = 2;
  chunk_size = 1;
  chunks = (0 ∷ 5 ∷ []) ∷ (0 ∷ 6 ∷ []) ∷ [];
  signer = alice;
  signature = [];
}

abbrev first : Chunk
first = record { index = 0; hash = 0 ∷ 5 ∷ []; bytes = 5 ∷ [] }

abbrev dead : Source
dead i = err io

-- It gives the first chunk whatever it is asked for.
abbrev stubborn : Source
stubborn i = ok first

transfer_manifest_exact_example :
    let sources : List Source = dead ∷ stubborn ∷ [] in
    let tried = take_sources (min (length sources) (max 3 1)) sources in
    let served = any (λ s. sound_answer hash manifest (s 0)) tried in
    let state = transfer_manifest hash manifest sources 3 in
    let asked = ltb 0 (length manifest.chunks) in
    (contains 0 state.verified_chunks ≡ (asked && served))
    × (contains 0 state.lost_chunks ≡ (asked && not served))
transfer_manifest_exact_example = transfer_manifest_exact hash manifest (dead ∷ stubborn ∷ []) 3 0
