-- ===== src/Storage.antt =====
-- src/app/storage.rs: the blobs that a core keeps for others, who may read them, and how they are
-- moved in batches and pages. The client side is in Storage/Batches and Storage/Pull.
--
-- The files under `blobs/<file_id>` are one record for each file id; `revocations.json` is a file
-- that may be absent. `disk` counts the file operations that still succeed: the first that fails
-- ends the call by `?`. A rename that fails leaves its file as it was; a plain `fs::write` that fails
-- leaves it as it was or cut, as the record of crates says. Reads of files that are there succeed.
pub mod Access
pub mod Revocation
pub mod Pages
pub mod Batches
pub mod Pull
pub mod Handler
pub mod Vault
use neonet.Base.{
  ℕ, zero, suc, ◌+◌, ◌-◌, ◌*◌, Bool, true, false, Option, none, some, List, [], ◌∷◌, ◌++◌, ◌==◌,
  list_eq, nat_eq, not, ◌&&◌, if◌then◌else◌, ltb, leb, length, is_empty, drop,
}
use neonet.Base.Codec.{Codec, load_or, replace}
use neonet.Base.Maps.{Map, get, insert}
use neonet.Base.Sets.{contains, add}
use neonet.Base.Results.{
  Io, IoError, Result, ok, err, ◌>>=◌, ◌>>◌, ok_or, is_ok, io_error, invalid_data,
  permission_denied, other,
}
use neonet.Base.Text.{Bytes, Text}
use neonet.Identity.{PublicIdentity, fingerprint}
use neonet.Files.{FileManifest, Signing, verify_signature}

pub record EncryptedChunk : Type 0 where
  pub index : ℕ
  pub nonce : Bytes
  pub ciphertext : Bytes

-- `blobs/<file_id>`: the blobs by their ids, `manifest.json` and `acl.json`.
pub record StoredFile (Blob : Type 0) : Type 0 where
  pub blobs : Map Text Bytes
  pub manifest : Option Bytes
  pub acl : Option Blob

pub record Home (Blob : Type 0) : Type 0 where
  pub files : Map Text (StoredFile Blob)
  pub revocations : Option Blob

-- What the handlers take from the crates and the system: the hash in hexadecimal, the signature
-- check, the serialisers of sets of fingerprints, chunks and manifests, and what is in a file after
-- a `fs::write` of the given bytes that failed: `none` for what was there before.
pub record Crates (Blob : Type 0) : Type 0 where
  pub hex_hash : Bytes → Text
  pub signing : Signing
  pub names : Codec (List Text) Blob
  pub chunk : Codec EncryptedChunk Bytes
  pub manifest : Codec FileManifest Bytes
  pub torn : Bytes → Option Bytes
  pub torn_names : Blob → Option Blob

abbrev pub no_file : {Blob : Type 0} → StoredFile Blob
no_file = record { blobs = []; manifest = none; acl = none }

abbrev pub left_by {ℓ} : {A : Type ℓ} → Option A → Option A → Option A
left_by none before = before
left_by (some left) before = some left

abbrev pub disk_error : IoError
disk_error = io_error other "disk"

abbrev pub codec_error : IoError
codec_error = io_error invalid_data "codec"

module _ {Blob : Type 0} where
  unfoldable pub stored : Text → Home Blob → StoredFile Blob
  stored file_id home = elim (get file_id home.files) [ none ↦ no_file | some f ↦ f ]

  abbrev pub write_stored : Text → StoredFile Blob → Home Blob → Home Blob
  write_stored file_id f home = record home { files = insert file_id f home.files }

module _ {Blob : Type 0} (crates : Crates Blob) where
  unfoldable pub revoked_set : Home Blob → List Text
  revoked_set home = load_or crates.names [] home.revocations

  unfoldable pub node_is_revoked : PublicIdentity → Home Blob → Bool
  unfolding revoked_set
  node_is_revoked id home = contains (fingerprint crates.hex_hash id) (revoked_set home)

  -- `disk` is whether the write and the rename succeed.
  unfoldable pub revoke_identity : Bool → PublicIdentity → Home Blob → Io (Unit {0}) × Home Blob
  unfolding revoked_set
  revoke_identity disk id home =
      let set = add (fingerprint crates.hex_hash id) (revoked_set home) in
      let (res, file) = replace crates.names disk set home.revocations in
      (res, record home { revocations = file })

  unfoldable pub read_acl : Text → Home Blob → Io (List Text)
  unfolding stored
  read_acl file_id home = elim (stored file_id home).acl [
    | none ↦ ok []
    | some b ↦ ok_or (crates.names.decode b) codec_error
  ]

  -- The loop of `store_chunks`: each chunk is written under the hash of its bytes, by a write and
  -- a rename.
  unfoldable pub write_blobs : List EncryptedChunk → ℕ → Map Text Bytes → Io ℕ × Map Text Bytes
  write_blobs [] disk blobs = (ok disk, blobs)
  write_blobs (c ∷ cs) (suc (suc disk)) blobs = elim (crates.chunk.encode c) [
    | none ↦ (err codec_error, blobs)
    | some bytes ↦ write_blobs cs disk (insert (crates.hex_hash bytes) bytes blobs)
  ]
  write_blobs (c ∷ cs) disk blobs = (err disk_error, blobs)

  save_manifest : Io ℕ → Option Bytes → StoredFile Blob → Io ℕ × StoredFile Blob
  save_manifest (err e) bytes f = (err e, f)
  save_manifest (ok disk) none f = (err codec_error, f)
  save_manifest (ok zero) (some bytes) f =
      (err disk_error, record f { manifest = left_by (crates.torn bytes) f.manifest })
  save_manifest (ok (suc disk)) (some bytes) f = (ok disk, record f { manifest = some bytes })

  -- `write_acl`: the directory, the serialiser, the write.
  write_acl : ℕ → Option Blob → StoredFile Blob → Io (Unit {0}) × StoredFile Blob
  write_acl zero bytes f = (err disk_error, f)
  write_acl (suc disk) none f = (err codec_error, f)
  write_acl (suc zero) (some bytes) f =
      (err disk_error, record f { acl = left_by (crates.torn_names bytes) f.acl })
  write_acl (suc (suc disk)) (some bytes) f = (ok tt, record f { acl = some bytes })

  save_acl : Io ℕ → Io (List Text) → Text → StoredFile Blob → Io (Unit {0}) × StoredFile Blob
  unfolding write_acl
  save_acl (err e) acl name f = (err e, f)
  save_acl (ok disk) (err e) name f = (err e, f)
  save_acl (ok disk) (ok acl) name f = write_acl disk (crates.names.encode (add name acl)) f

  -- `store_chunks` after its checks and the creation of the directory.
  store_all :
      PublicIdentity
      → Text
      → FileManifest
      → List EncryptedChunk
      → ℕ
      → Home Blob
      → Io (Unit {0}) × Home Blob
  unfolding write_blobs save_manifest save_acl
  store_all requester file_id manifest chunks disk home =
      let f = stored file_id home in
      let (written, blobs) = write_blobs chunks disk f.blobs in
      let (saved, f') =
        save_manifest written (crates.manifest.encode manifest) (record f { blobs = blobs }) in
      let (res, f'') =
        save_acl saved (read_acl file_id home) (fingerprint crates.hex_hash requester) f' in
      (res, write_stored file_id f'' home)

  checked_store :
      Bool
      → Bool
      → PublicIdentity
      → Text
      → FileManifest
      → List EncryptedChunk
      → ℕ
      → Home Blob
      → Io (Unit {0}) × Home Blob
  unfolding store_all
  checked_store false revoked requester file_id manifest chunks disk home =
      (err (io_error invalid_data "manifest signature is invalid"), home)
  checked_store true true requester file_id manifest chunks disk home =
      (err (io_error permission_denied "requester is revoked"), home)
  checked_store true false requester file_id manifest chunks zero home = (err disk_error, home)
  checked_store true false requester file_id manifest chunks (suc disk) home =
      store_all requester file_id manifest chunks disk home

  unfoldable pub store_chunks :
      PublicIdentity
      → Text
      → FileManifest
      → List EncryptedChunk
      → ℕ
      → Home Blob
      → Io (Unit {0}) × Home Blob
  unfolding checked_store
  store_chunks requester file_id manifest chunks disk home =
      checked_store (is_ok (verify_signature crates.signing manifest))
        (node_is_revoked requester home) requester file_id manifest chunks disk home

  -- The checks at the start of `fetch_chunks`.
  unfoldable pub authorize : PublicIdentity → Text → Home Blob → Io (Unit {0})
  authorize requester file_id home =
      if node_is_revoked requester home
      then err (io_error permission_denied "requester is revoked")
      else do
        acl ← read_acl file_id home
        if not (contains (fingerprint crates.hex_hash requester) acl)
            then err (io_error permission_denied "not in the reader ACL for this file")
            else ok tt

-- `sort_by_key(|chunk| chunk.index)`, which is stable.
unfoldable pub put_sorted : EncryptedChunk → List EncryptedChunk → List EncryptedChunk
put_sorted c [] = c ∷ []
put_sorted c (d ∷ ds) = if leb c.index d.index then c ∷ d ∷ ds else d ∷ put_sorted c ds

unfoldable pub sort_by_index : List EncryptedChunk → List EncryptedChunk
unfolding put_sorted
sort_by_index [] = []
sort_by_index (c ∷ cs) = put_sorted c (sort_by_index cs)

-- `MAX_BATCH_PAYLOAD`
abbrev pub max_batch_payload : ℕ
max_batch_payload = 900 * 1024

-- The paging loop: `started` is whether the page holds a chunk already, `budget` what is left of
-- the payload. The size of a chunk is that of its bytes.
unfoldable pub take_page :
    (EncryptedChunk → Option Bytes) → Bool → ℕ → List EncryptedChunk → Io (List EncryptedChunk)
take_page encode started budget [] = ok []
take_page encode started budget (c ∷ cs) = do
  bytes ← ok_or (encode c) codec_error
  let size = length bytes
  let rest = take_page encode true (budget - size) cs
  if started && ltb budget size then ok [] else (do page ← rest; ok (c ∷ page))

-- The blobs of a directory that decode; the two other files of it are fields of their own.
unfoldable pub held_chunks : (Bytes → Option EncryptedChunk) → Map Text Bytes → List EncryptedChunk
held_chunks decode [] = []
held_chunks decode ((id, bytes) ∷ rest) =
    let more = held_chunks decode rest in elim (decode bytes) [ none ↦ more | some c ↦ c ∷ more ]

module _ {Blob : Type 0} (crates : Crates Blob) where
  unfoldable pub read_manifest : Option Bytes → Option FileManifest
  read_manifest none = none
  read_manifest (some bytes) = crates.manifest.decode bytes

  -- The rest of `fetch_chunks`, where the directory exists.
  unfoldable pub serve_page : StoredFile Blob → ℕ → Io (Option FileManifest × List EncryptedChunk)
  unfolding take_page held_chunks sort_by_index read_manifest
  serve_page f offset = do
    let held = sort_by_index (held_chunks crates.chunk.decode f.blobs)
    page ← take_page crates.chunk.encode false max_batch_payload (drop offset held)
    ok (read_manifest f.manifest, page)

  unfoldable pub fetch_chunks :
      PublicIdentity → Text → ℕ → Home Blob → Io (Option FileManifest × List EncryptedChunk)
  unfolding authorize serve_page
  fetch_chunks requester file_id offset home = do
    authorize crates requester file_id home
    elim (get file_id home.files) [ none ↦ ok (none, []) | some f ↦ serve_page f offset ]
