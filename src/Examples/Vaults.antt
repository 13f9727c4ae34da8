-- ===== src/Examples/Vaults.antt =====
-- Runs of src/storage/mod.rs. The cipher puts the first byte of the key before the message.
use neonet.Base.{ℕ, ◌≡◌, ◌⊎◌, refl, true, Option, none, some, List, [], ◌∷◌, list_eq, nat_eq}
use neonet.Base.Maps.{get}
use neonet.Base.Results.{ok, err, ◌>>=◌}
use neonet.Base.Text.{Bytes}
use neonet.Files.{Chunk, zeros}
use neonet.Storage.{EncryptedChunk}
use neonet.Storage.Vault.{
  Aead, StorageError, Write, done, torn, CoreBlobStore, KeyDisk, LocalKeyStore, encrypt_chunk,
  decrypt_chunk, put, get_blob, load_or_generate,
}
use neonet.Storage.Vault.Kept.{put_all, stored_chunk_returns}
use neonet.Storage.Vault.KeyFile.{load_or_generate_once}
use neonet.Examples.Serial.{chunks}

abbrev key : Bytes
key = zeros 32

abbrev without_head : Bytes → Option Bytes
without_head [] = none
without_head (b ∷ bs) = some bs

opens :
    (key nonce aad msg sealed : Bytes)
    → some (7 ∷ msg) ≡ some sealed
    → without_head sealed ≡ some msg
opens key nonce aad msg [] h = cc
opens key nonce aad msg (b ∷ bs) h = cc

abbrev aead : Aead
aead = record {
  is_key = λ key. true;
  encrypt = λ key nonce aad msg. some (7 ∷ msg);
  decrypt = λ key nonce aad sealed. without_head sealed;
  decrypt-encrypt = opens;
}

abbrev piece : Chunk
piece = record { index = 2; hash = 5 ∷ 6 ∷ []; bytes = 5 ∷ 6 ∷ [] }

abbrev sealed : ℕ → EncryptedChunk
sealed b = record { index = 2; nonce = 1 ∷ []; ciphertext = 7 ∷ b ∷ 6 ∷ [] }

abbrev empty : CoreBlobStore
empty = record { files = [] }

-- After the put of another chunk, and one that leaves a part of its bytes.
abbrev puts : List (Write × EncryptedChunk)
puts = (done, sealed 4) ∷ (torn (1 ∷ []), sealed 3) ∷ []

stored_chunk_returns_example :
    (get_blob
        (λ b. b)
        chunks
        (7 ∷ 5 ∷ 6 ∷ [])
        (put_all (λ b. b) chunks puts (put (λ b. b) chunks done (sealed 5) empty).1)
      >>= λ blob. decrypt_chunk aead (λ b. b) key blob)
    ≡ ok piece
unfolding encrypt_chunk put
stored_chunk_returns_example =
    stored_chunk_returns (λ b. b) chunks aead (λ b. b) (1 ∷ []) key piece (sealed 5) done
      (7 ∷ 5 ∷ 6 ∷ []) puts empty refl refl refl refl

abbrev store : LocalKeyStore
store = record { path = 1 ∷ []; tmp = 1 ∷ 2 ∷ [] }

abbrev disk : KeyDisk
disk = record { readable = true; made = true; write = done; renamed = true }

load_or_generate_once_example :
    let (out, files) = load_or_generate disk store key [] in
    ((k : Bytes) × (out ≡ ok k)
      × (get store.path files ≡ some k)
      × (load_or_generate disk store [] files ≡ (ok k, files)))
    ⊎ ((e : StorageError) × (out ≡ err e) × (get store.path files ≡ get store.path []))
load_or_generate_once_example = load_or_generate_once store refl disk disk key [] [] refl refl
