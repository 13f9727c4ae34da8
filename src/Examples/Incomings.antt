-- ===== src/Examples/Incomings.antt =====
-- Runs of the receiving side of src/files/mod.rs and of src/app/files.rs. The hash puts a 0 before
-- the bytes, and every signature is good.
use neonet.Base.Text.{Text, codes}
use neonet.Base.Results.{ok}
use neonet.Base.{
  List, list_eq, nat_eq, if◌then◌else◌, ◌==◌, ◌++◌, Option, [], arith, none, refl, some, true, ◌∷◌,
  ◌≡◌, ◌⊎◌,
}
use neonet.Files.{FileManifest, Chunk, TransferState, Signing, verify_manifest}
use neonet.Files.Resume.{reconstruct}
use neonet.Files.Build.{build_manifest, reconstruct-build_manifest}
use neonet.Files.Incoming.{
  Incoming, IncomingCrates, Place, manifest_of, state_of, elsewhere, Transfers, incoming,
  read_place, load_received_manifest, resume_for, receive_chunk,
}
use neonet.Files.Places.{spares}
use neonet.Files.Received.{is_cached, receive_chunk-is_cached}
use neonet.Files.Assembled.{IsAssembled, receive_chunk_assembles}
use neonet.Files.Handler.{announce, chunk_frame, handle_files}
use neonet.Files.Announced.{handle_files_manifests}
use neonet.Examples.Wire.{alice}
use neonet.Examples.Serial.{manifests, states, write_manifest, write_state}

abbrev signing : Signing
signing = record {
  is_key = λ id. true;
  verify = λ id bytes signature. true;
  to_allocvec = λ m. some m.name;
}

-- The file that a name leads to in a directory, which the id names: of the two files with a name of
-- their own, or another.
abbrev output : Text → Text → Place
output id name =
    if name == codes "manifest.json"
    then manifest_of id
    else if name == codes "state.json"
    then state_of id
    else elsewhere (id ++ 47 ∷ name)

abbrev crates : IncomingCrates
crates = record {
  hash = λ b. 0 ∷ b;
  hex_hash = λ b. b;
  signing = signing;
  manifest_codec = manifests;
  state_codec = states;
  dir = λ id. id;
  output = output;
  torn = λ b. [];
}

abbrev manifest : FileManifest
manifest = record {
  version = 1;
  name = 9 ∷ [];
  total_size = 3;
  chunk_size = 2;
  chunks = (0 ∷ 5 ∷ 6 ∷ []) ∷ (0 ∷ 7 ∷ []) ∷ [];
  signer = alice;
  signature = [];
}

abbrev first : Chunk
first = record { index = 0; hash = 0 ∷ 5 ∷ 6 ∷ []; bytes = 5 ∷ 6 ∷ [] }

abbrev halfway : TransferState
halfway = record { manifest = manifest; verified_chunks = 1 ∷ []; lost_chunks = [] }

-- The second chunk has arrived.
abbrev half : Incoming
half = record {
  manifest_file = some (write_manifest manifest);
  state_file = some (write_state halfway);
  chunks = (1, 7 ∷ []) ∷ [];
}

abbrev home : Transfers
home = record { dirs = (4 ∷ [], half) ∷ []; others = [] }

half_loads : load_received_manifest crates (incoming (4 ∷ []) home) ≡ ok manifest
unfolding load_received_manifest incoming neonet.Base.Maps.get
half_loads = refl

half-is_cached : is_cached crates manifest (incoming (4 ∷ []) home) ≡ true
unfolding is_cached incoming neonet.Base.Maps.get neonet.Base.Sets.contains
half-is_cached = refl

receive_chunk-is_cached_example :
    is_cached crates manifest (incoming (4 ∷ []) (receive_chunk crates 2 (4 ∷ []) first home).1)
    ≡ true
unfolding spares
receive_chunk-is_cached_example =
    receive_chunk-is_cached crates manifest 2 (4 ∷ []) first home half_loads refl half-is_cached

receive_chunk_assembles_example :
    IsAssembled crates manifest
      (read_place (elsewhere (4 ∷ 47 ∷ 9 ∷ [])) (receive_chunk crates 5 (4 ∷ []) first home).1)
unfolding neonet.Base.Sets.contains resume_for receive_chunk neonet.Base.Maps.get
    neonet.Base.Maps.insert
receive_chunk_assembles_example =
    receive_chunk_assembles crates manifest 5 (4 ∷ []) first home half_loads half-is_cached refl
      refl

-- The same transfer with a name that leads to its manifest: the chunk writes the file over it.
abbrev hostile : FileManifest
hostile = record manifest { name = codes "manifest.json" }

abbrev hostile_home : Transfers
hostile_home = record {
  dirs = (4 ∷ [], record half { manifest_file = some (write_manifest hostile) }) ∷ [];
  others = [];
}

overwritten :
    (incoming (4 ∷ []) (receive_chunk crates 5 (4 ∷ []) first hostile_home).1).manifest_file
    ≡ some (5 ∷ 6 ∷ 7 ∷ [])
unfolding receive_chunk incoming neonet.Base.Maps.get neonet.Base.Sets.contains
    neonet.Base.Maps.insert
overwritten = refl

handle_files_manifests_example :
    (let after = (handle_files crates 1 (announce (4 ∷ []) manifest (1 ∷ [])) home).2 in
      (incoming (4 ∷ []) after).manifest_file ≡ (incoming (4 ∷ []) home).manifest_file)
    ⊎ ((id : Text) × (m : FileManifest) × (name : Text) × (announce (4 ∷ []) manifest (1 ∷ [])
          ≡ announce id m name)
        × (id ≡ 4 ∷ [])
        × (verify_manifest crates.signing m ≡ ok tt))
    ⊎ ((id : Text) × (c : Chunk) × (m : FileManifest) × (announce (4 ∷ []) manifest (1 ∷ [])
          ≡ chunk_frame id c)
        × (load_received_manifest crates (incoming id home) ≡ ok m)
        × (output id m.name ≡ manifest_of (4 ∷ [])))
handle_files_manifests_example =
    handle_files_manifests crates 1 (announce (4 ∷ []) manifest (1 ∷ [])) home (4 ∷ [])

abbrev second : Chunk
second = record { index = 1; hash = 0 ∷ 7 ∷ []; bytes = 7 ∷ [] }

reconstruct-build_manifest_example :
    reconstruct (λ b. 0 ∷ b) manifest (first ∷ second ∷ []) ≡ ok (5 ∷ 6 ∷ 7 ∷ [])
unfolding build_manifest
reconstruct-build_manifest_example =
    reconstruct-build_manifest (λ b. 0 ∷ b) signing alice (λ b. []) (9 ∷ []) 2 (5 ∷ 6 ∷ 7 ∷ [])
      manifest (first ∷ second ∷ []) refl
