-- ===== src/Storage/Vault.antt =====
-- src/storage/mod.rs: the encryption of chunks, the blob store of a core, and the key file. The
-- cipher, the hash and the serialiser are parameters, random bytes are arguments, and so is what
-- the system does on a file operation.
pub mod Kept
pub mod KeyFile
use neonet.Base.{
  ℕ, Bool, true, false, Option, none, some, List, [], ◌∷◌, ◌==◌, ◌≡◌, list_eq, nat_eq,
  if◌then◌else◌, length, nat_beq, not,
}
use neonet.Base.Codec.{Codec}
use neonet.Base.Maps.{Map, get, insert, remove}
use neonet.Base.Results.{Result, ok, err, ◌>>=◌, ◌>>◌, guard, ok_or}
use neonet.Base.Text.{Bytes, Text}
use neonet.Files.{Chunk}
use neonet.Core.Handler.{le_bytes}
use neonet.Storage.{EncryptedChunk}

pub data StorageError : Type 0 where
  crypto io codec : StorageError

-- `XChaCha20Poly1305`: which bytes are a key, and the encryption and decryption of a message under
-- a key, a nonce and associated data. What is encrypted decrypts under the same three.
pub record Aead : Type 0 where
  pub is_key : Bytes → Bool
  pub encrypt : Bytes → Bytes → Bytes → Bytes → Option Bytes
  pub decrypt : Bytes → Bytes → Bytes → Bytes → Option Bytes
  pub decrypt-encrypt :
      (key nonce aad msg sealed : Bytes)
      → encrypt key nonce aad msg ≡ some sealed
      → decrypt key nonce aad sealed ≡ some msg

-- What the system does on `fs::write`: it writes the file, leaves it as it was and reports an
-- error, or reports an error with these bytes in the file.
pub data Write : Type 0 where
  done refused : Write
  torn : Bytes → Write

-- `fs::write`, and whether it succeeds. Files stand under the paths that they are opened by.
unfoldable pub write_file : Write → Text → Bytes → Map Text Bytes → Bool × Map Text Bytes
write_file done path bytes files = (true, insert path bytes files)
write_file refused path bytes files = (false, files)
write_file (torn left) path bytes files = (false, insert path left files)

-- `fs::rename` of a file
unfoldable pub rename : Text → Text → Map Text Bytes → Map Text Bytes
rename from to files = elim (get from files) [
  | none ↦ files
  | some bytes ↦ insert to bytes (remove from files)
]

module _ (aead : Aead) where
  unfoldable pub encrypt_chunk : Bytes → Bytes → Chunk → Result StorageError EncryptedChunk
  encrypt_chunk nonce key chunk =
      guard (aead.is_key key) crypto
      >> (ok_or (aead.encrypt key nonce (le_bytes 4 chunk.index) chunk.bytes) crypto
          >>= λ ciphertext.
              ok (record { index = chunk.index; nonce = nonce; ciphertext = ciphertext }))

  unfoldable pub decrypt_chunk :
      (Bytes → Bytes) → Bytes → EncryptedChunk → Result StorageError Chunk
  decrypt_chunk hash key chunk =
      guard (aead.is_key key) crypto
      >> (ok_or (aead.decrypt key chunk.nonce (le_bytes 4 chunk.index) chunk.ciphertext) crypto
          >>= λ bytes. ok (record { index = chunk.index; hash = hash bytes; bytes = bytes }))

-- `CoreBlobStore`: the files below its root, by their names.
pub record CoreBlobStore : Type 0 where
  pub files : Map Text Bytes

module _ (hex_hash : Bytes → Text) (codec : Codec EncryptedChunk Bytes) where
  unfoldable pub put :
      Write → EncryptedChunk → CoreBlobStore → Result StorageError Text × CoreBlobStore
  unfolding write_file
  put write blob store = elim (codec.encode blob) [
    | none ↦ (err StorageError.codec, store)
    | some bytes ↦
        let id = hex_hash blob.ciphertext in
        let (written, files) = write_file write id bytes store.files in
        (if written then ok id else err io, record { files = files })
  ]

  unfoldable pub get_blob : Text → CoreBlobStore → Result StorageError EncryptedChunk
  get_blob id store =
      ok_or (get id store.files) io >>= λ bytes. ok_or (codec.decode bytes) StorageError.codec

-- What the system does during `load_or_generate`: whether the key file can be read, whether the
-- directory above it is there or can be made, the write of the temporary file, and the rename.
pub record KeyDisk : Type 0 where
  pub readable : Bool
  pub made : Bool
  pub write : Write
  pub renamed : Bool

-- `LocalKeyStore`: the key file, and the path with the extension `tmp`.
pub record LocalKeyStore : Type 0 where
  pub path : Text
  pub tmp : Text

unfoldable pub load_key : Bool → Bytes → Result StorageError Bytes
load_key readable bytes = guard readable io >> (guard (nat_beq (length bytes) 32) codec >> ok bytes)

unfoldable pub save_key :
    KeyDisk → LocalKeyStore → Bytes → Map Text Bytes → Result StorageError Bytes × Map Text Bytes
unfolding write_file rename
save_key disk store key files =
    if not disk.made
    then (err io, files)
    else let (written, files') = write_file disk.write store.tmp key files in
      if not written
      then (err io, files')
      else if disk.renamed
      then (ok key, rename store.tmp store.path files')
      else (err io, files')

unfoldable pub load_or_generate :
    KeyDisk → LocalKeyStore → Bytes → Map Text Bytes → Result StorageError Bytes × Map Text Bytes
unfolding load_key save_key
load_or_generate disk store generated files = elim (get store.path files) [
  | some bytes ↦ (load_key disk.readable bytes, files)
  | none ↦ save_key disk store generated files
]
