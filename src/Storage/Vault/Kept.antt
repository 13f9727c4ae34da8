-- ===== src/Storage/Vault/Kept.antt =====
-- src/storage/mod.rs: what comes of a chunk that is encrypted and put into the store of a core.
use neonet.Base.{
  ◌≡◌, refl, Bool, true, false, some, List, [], ◌∷◌, ◌==◌, list_eq, nat_eq, not, ◌&&◌, arith, inl,
  inr, Option-cases, Bool-cases,
}
use neonet.Base.Codec.{Codec}
use neonet.Base.Maps.{get, get-insert, get-insert_self}
use neonet.Base.Results.{ok, ◌>>=◌}
use neonet.Base.Text.{Bytes, Text}
use neonet.Files.{Chunk}
use neonet.Core.Handler.{le_bytes}
use neonet.Storage.{EncryptedChunk}
use neonet.Storage.Vault.{
  Aead, Write, done, refused, torn, CoreBlobStore, encrypt_chunk, decrypt_chunk, put, get_blob,
  write_file,
}

module _ (aead : Aead) (hash : Bytes → Bytes) where
  pub decrypt-encrypt_chunk :
      (nonce key : Bytes) (c : Chunk) (e : EncryptedChunk)
      → hash c.bytes ≡ c.hash
      → encrypt_chunk aead nonce key c ≡ ok e
      → decrypt_chunk aead hash key e ≡ ok c
  unfolding encrypt_chunk decrypt_chunk
  decrypt-encrypt_chunk nonce key c e s h =
      ground (arith, s, aead.decrypt-encrypt key nonce (le_bytes 4 c.index) c.bytes e.ciphertext)

module _ (hex_hash : Bytes → Text) (codec : Codec EncryptedChunk Bytes) where
  -- The store after a run of `put`, each with what the system does on its write.
  unfoldable pub put_all : List (Write × EncryptedChunk) → CoreBlobStore → CoreBlobStore
  unfolding put
  put_all [] store = store
  put_all ((w, b) ∷ puts) store = put_all puts (put hex_hash codec w b store).1

  abbrev pub all_apart : Text → List (Write × EncryptedChunk) → Bool
  all_apart id [] = true
  all_apart id ((w, b) ∷ puts) = not (hex_hash b.ciphertext == id) && all_apart id puts

  get-write_file :
      (w : Write) (path id : Text) (bytes : Bytes) (store : CoreBlobStore)
      → (path == id) ≡ false
      → get id (write_file w path bytes store.files).1 ≡ get id store.files
  unfolding write_file
  get-write_file done path id bytes store a = ground (arith, get-insert id path bytes store.files)
  get-write_file refused path id bytes store a = refl
  get-write_file (torn left) path id bytes store a =
      ground (arith, get-insert id path left store.files)

  get-put :
      (w : Write) (b : EncryptedChunk) (id : Text) (store : CoreBlobStore)
      → (hex_hash b.ciphertext == id) ≡ false
      → get id (put hex_hash codec w b store).1.files ≡ get id store.files
  unfolding put
  get-put w b id store a = elim (Option-cases (codec.encode b)) [
    | inl e ↦ rw (e, put) refl
    | inr (bytes, e) ↦ rw (e, put) (get-write_file w (hex_hash b.ciphertext) id bytes store a)
  ]

  get-put_all :
      (puts : List (Write × EncryptedChunk)) (id : Text) (store : CoreBlobStore)
      → all_apart id puts ≡ true
      → get id (put_all puts store).files ≡ get id store.files
  unfolding put_all
  get-put_all [] id store a = refl
  get-put_all ((w, b) ∷ puts) id store a = elim (Bool-cases (hex_hash b.ciphertext == id)) [
    | inl e ↦ ground arith
    | inr e ↦
        ground (arith, get-put w b id store e, get-put_all puts id (put hex_hash codec w b store).1)
  ]

  get_blob_lem :
      (id : Text) (bytes : Bytes) (e : EncryptedChunk) (store : CoreBlobStore)
      → get id store.files ≡ some bytes
      → codec.decode bytes ≡ some e
      → get_blob hex_hash codec id store ≡ ok e
  unfolding get_blob
  get_blob_lem id bytes e store g d = rw (g, get_blob) (rw d refl)

  -- A blob that was put is what `get` finds under the id that `put` gave.
  pub get_blob-put :
      (w : Write) (b : EncryptedChunk) (id : Text) (store : CoreBlobStore)
      → (put hex_hash codec w b store).0 ≡ ok id
      → (bytes : Bytes) × (codec.encode b ≡ some bytes)
        × (get id (put hex_hash codec w b store).1.files ≡ some bytes)
  unfolding put write_file
  get_blob-put done b id store h = elim (Option-cases (codec.encode b)) [
    | inl e ↦ ground (arith)
    | inr (bytes, e) ↦ (bytes, e, ground (arith, get-insert_self id bytes store.files))
  ]
  get_blob-put refused b id store h = elim (Option-cases (codec.encode b)) [
    | inl e ↦ ground (arith)
    | inr (bytes, e) ↦ ground (arith)
  ]
  get_blob-put (torn left) b id store h = elim (Option-cases (codec.encode b)) [
    | inl e ↦ ground (arith)
    | inr (bytes, e) ↦ ground (arith)
  ]

  -- A chunk that was encrypted and put into the store of a core is what comes of the blob that
  -- `get` finds under the id that `put` gave, when it is decrypted under the same key, whatever
  -- puts of blobs with other ids the store has seen since, and whichever of them failed. The
  -- chunk's hash is that of its data.
  pub stored_chunk_returns :
      (aead : Aead) (hash : Bytes → Bytes) (nonce key : Bytes) (c : Chunk) (e : EncryptedChunk)
      (w : Write) (id : Text) (puts : List (Write × EncryptedChunk)) (store : CoreBlobStore)
      → hash c.bytes ≡ c.hash
      → encrypt_chunk aead nonce key c ≡ ok e
      → (put hex_hash codec w e store).0 ≡ ok id
      → all_apart id puts ≡ true
      → (get_blob hex_hash codec id (put_all puts (put hex_hash codec w e store).1) >>= λ blob.
          decrypt_chunk aead hash key blob)
        ≡ ok c
  stored_chunk_returns aead hash nonce key c e w id puts store s h p a =
      let (bytes, enc, g) = get_blob-put w e id store p in
      let kept = get-put_all puts id (put hex_hash codec w e store).1 a in
      ground (
        arith,
        get_blob_lem id bytes e (put_all puts (put hex_hash codec w e store).1)
            (ground (arith, kept, g)) (codec.decode-encode e bytes enc),
        decrypt-encrypt_chunk aead hash nonce key c e s h,
      )
