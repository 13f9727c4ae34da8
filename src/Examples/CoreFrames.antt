-- ===== src/Examples/CoreFrames.antt =====
-- Runs of src/app/core.rs. The hash puts a 0 before the bytes, and every signature is good.
use neonet.Base.Maps.{get}
use neonet.Base.Text.{Bytes, Text}
use neonet.Base.{List, [], list_eq, nat_eq, none, refl, some, true, ℕ, ◌==◌, ◌∷◌, ◌≡◌, ◌⊎◌}
use neonet.Base.Codec.{plain}
use neonet.Identity.{PublicIdentity, fingerprint}
use neonet.Storage.{Crates, Home, node_is_revoked}
use neonet.Core.Handler.{chunk_data, revoke_broadcast, CoreHome, handle_core}
use neonet.Core.Operators.{IsOrdered, handle_core_revokes, handle_core_chunks}
use neonet.Examples.Wire.{alice, bob}
use neonet.Examples.Serial.{chunks, manifests, write_manifest}

abbrev crates : Crates (List Text)
crates = record {
  hex_hash = λ b. b;
  signing = record {
    is_key = λ id. true;
    verify = λ id bytes signature. true;
    to_allocvec = λ m. some (write_manifest m);
  };
  names = plain;
  chunk = chunks;
  manifest = manifests;
  torn = λ b. some [];
  torn_names = λ b. none;
}

abbrev hash : Bytes → Bytes
hash b = 0 ∷ b

-- A core whose operator is alice.
abbrev home : CoreHome (List Text)
home = record {
  chunks = [];
  operators_file = some (alice.public_key ∷ []);
  store = record { files = []; revocations = none };
}

handle_core_revokes_example :
    (node_is_revoked crates bob home.store ≡ true)
    ⊎ ((id : PublicIdentity) × (epoch : ℕ) × (signature : Bytes) × (revoke_broadcast bob 1 []
          ≡ revoke_broadcast id epoch signature)
        × IsOrdered crates hash alice id epoch signature home
        × ((fingerprint crates.hex_hash id == fingerprint crates.hex_hash bob) ≡ true))
unfolding node_is_revoked neonet.Base.Sets.contains neonet.Base.Codec.load_or handle_core
    fingerprint neonet.Storage.revoke_identity neonet.Base.Codec.replace neonet.Base.Sets.add
handle_core_revokes_example =
    handle_core_revokes crates hash true alice bob (revoke_broadcast bob 1 []) home refl

handle_core_chunks_example :
    (get (0 ∷ 5 ∷ []) home.chunks ≡ some (5 ∷ [])) ⊎ (hash (5 ∷ []) ≡ 0 ∷ 5 ∷ [])
unfolding get handle_core neonet.Base.Maps.insert
handle_core_chunks_example =
    handle_core_chunks crates hash true bob (chunk_data (0 ∷ 5 ∷ []) (some (5 ∷ []))) home
      (0 ∷ 5 ∷ []) (5 ∷ []) refl
