-- ===== src/Examples/Stores.antt =====
-- Runs of src/app/storage.rs.
use neonet.Base.{
  ℕ, ◌≡◌, ◌≤◌, refl, Bool, true, false, Option, none, some, List, [], ◌∷◌, ◌++◌, arith, max, length,
  all, ◌||◌, ◌⊎◌, ◌==◌, list_eq, nat_eq, inl, inr, suc,
}
use neonet.Base.Codec.{plain}
use neonet.Base.Maps.{get}
use neonet.Base.Sets.{contains}
use neonet.Base.Results.{ok}
use neonet.Base.Text.{Bytes, Text}
use neonet.Files.{FileManifest, verify_signature}
use neonet.Identity.{PublicIdentity, fingerprint}
use neonet.Storage.{
  EncryptedChunk, StoredFile, Home, Crates, authorize, fetch_chunks, store_chunks, read_acl,
  node_is_revoked, revoke_identity, take_page, sort_by_index, max_batch_payload,
}
use neonet.Storage.Access.{IsUnreadable, fetch_chunks_guarded, store_chunks_admits}
use neonet.Storage.Pages.{take_page_sound, payload, size_of}
use neonet.Storage.Pull.{pull_chunks, pull_chunks_complete, serve, all_chunks}
use neonet.Examples.Wire.{alice, bob}
use neonet.Examples.Serial.{chunks, manifests, write_chunk, write_manifest}

-- Hashes are the bytes themselves, and every signature is good.
abbrev crates : Crates (List Text)
crates = record {
  hex_hash = λ b. b;
  signing = record {
    is_key = λ id. true;
    verify = λ id bytes signature. true;
    to_allocvec = λ m. some (write_manifest m);
  };
  names = plain;
  chunk = chunks;
  manifest = manifests;
  torn = λ b. some [];
  torn_names = λ b. none;
}

abbrev piece : ℕ → EncryptedChunk
piece n = record { index = n; nonce = n ∷ []; ciphertext = n ∷ n ∷ n ∷ [] }

abbrev manifest : FileManifest
manifest = record {
  version = 1;
  name = 9 ∷ [];
  total_size = 6;
  chunk_size = 3;
  chunks = (10 ∷ []) ∷ (11 ∷ []) ∷ [];
  signer = alice;
  signature = 4 ∷ [];
}

-- A file of alice's with two blobs, out of order, that alice may read; carol is revoked.
abbrev file : StoredFile (List Text)
file = record {
  blobs = (21 ∷ [], write_chunk (piece 1)) ∷ (20 ∷ [], write_chunk (piece 0)) ∷ [];
  manifest = some (write_manifest manifest);
  acl = some ((1 ∷ []) ∷ []);
}

abbrev home : Home (List Text)
home = record { files = (9 ∷ [], file) ∷ []; revocations = some ((3 ∷ []) ∷ []) }

abbrev broken : Home (List Text)
broken = record home { revocations = none }

encodes : (c : EncryptedChunk) → (b : Bytes) × (crates.chunk.encode c ≡ some b)
encodes c = (write_chunk c, refl)

pull_chunks_complete_example :
    pull_chunks (serve crates file) (suc (length (all_chunks crates file)))
    ≡ some (ok (manifest, sort_by_index (all_chunks crates file)))
unfolding neonet.Storage.read_manifest neonet.Storage.held_chunks neonet.Storage.sort_by_index
    neonet.Storage.put_sorted
pull_chunks_complete_example =
    pull_chunks_complete crates file manifest encodes refl refl (omega arith)

fetch_chunks_guarded_example :
    (IsUnreadable crates home
      ⊎ ((b : List Text) × (revoked : List Text) × (home.revocations ≡ some b)
          × (crates.names.decode b ≡ some revoked)
          × (contains (fingerprint crates.hex_hash alice) revoked ≡ false)))
    × ((f : StoredFile (List Text)) × (b : List Text) × (acl : List Text) × (get (9 ∷ []) home.files
          ≡ some f)
        × (f.acl ≡ some b)
        × (crates.names.decode b ≡ some acl)
        × (contains (fingerprint crates.hex_hash alice) acl ≡ true))
unfolding neonet.Storage.fetch_chunks neonet.Storage.authorize neonet.Storage.serve_page
    neonet.Storage.read_manifest neonet.Storage.held_chunks neonet.Storage.sort_by_index
    neonet.Storage.put_sorted neonet.Storage.take_page neonet.Storage.node_is_revoked
    neonet.Storage.read_acl neonet.Base.Maps.get neonet.Base.Sets.contains neonet.Base.Codec.load_or
    fingerprint
fetch_chunks_guarded_example =
    fetch_chunks_guarded crates alice (9 ∷ []) 0 home (some manifest, piece 0 ∷ piece 1 ∷ []) refl

take_page_sound_example :
    (more : List EncryptedChunk) × (rest : List EncryptedChunk) × (piece 0 ∷ [] ≡ piece 0 ∷ more)
    × (piece 0 ∷ piece 1 ∷ [] ≡ piece 0 ∷ [] ++ rest)
    × (payload chunks.encode (piece 0 ∷ []) ≤ max 8 (size_of chunks.encode (piece 0)))
unfolding take_page
take_page_sound_example =
    take_page_sound chunks.encode 8 (piece 0) (piece 1 ∷ []) (piece 0 ∷ []) refl

store_chunks_admits_example :
    let home' = (store_chunks crates bob (9 ∷ []) manifest (piece 3 ∷ []) 20 home).1 in
    (authorize crates bob (9 ∷ []) home' ≡ ok tt)
    × ((reader : PublicIdentity)
        → authorize crates reader (9 ∷ []) home ≡ ok tt
        → authorize crates reader (9 ∷ []) home' ≡ ok tt)
unfolding store_chunks neonet.Storage.node_is_revoked verify_signature contains
    neonet.Base.Codec.load_or fingerprint read_acl get
store_chunks_admits_example =
    store_chunks_admits crates bob (9 ∷ []) manifest (piece 3 ∷ []) 20 home refl
