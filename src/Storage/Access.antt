-- ===== src/Storage/Access.antt =====
-- src/app/storage.rs: who reads a stored file, and how an identity becomes a reader.
use neonet.Base.{
  ℕ, zero, suc, ◌≡◌, refl, Bool, true, false, Option, none, some, List, [], arith, list_eq, nat_eq,
  inl, inr, beq_refl, ap, ◌⊎◌, Option-cases,
}
use neonet.Base.Codec.{load_or}
use neonet.Base.Maps.{get, get-insert_self}
use neonet.Base.Sets.{contains, add, contains-add}
use neonet.Base.Results.{Io, ok, err, bind_ok, Result-cases, is_ok}
use neonet.Base.Text.{Text}
use neonet.Identity.{PublicIdentity, fingerprint}
use neonet.Files.{FileManifest, verify_signature}
use neonet.Storage.{
  EncryptedChunk, StoredFile, Home, Crates, node_is_revoked, read_acl, authorize, store_chunks,
  fetch_chunks, stored, write_acl, save_acl, save_manifest, checked_store, store_all, write_blobs,
  write_stored,
}

module _ {Blob : Type 0} (crates : Crates Blob) where
  authorize_inv :
      (requester : PublicIdentity) (file_id : Text) (home : Home Blob)
      → authorize crates requester file_id home ≡ ok tt
      → (node_is_revoked crates requester home ≡ false)
        × ((acl : List Text) × (read_acl crates file_id home ≡ ok acl)
            × (contains (fingerprint crates.hex_hash requester) acl ≡ true))
  unfolding authorize
  authorize_inv requester file_id home h = elim (Result-cases (read_acl crates file_id home)) [
    | inl (acl, e) ↦ (ground arith, (acl, e, ground arith))
    | inr (x, e) ↦ absurd (ground arith)
  ]

  -- `revocations.json` cannot be read, or does not parse.
  abbrev pub IsUnreadable : Home Blob → Type 0
  IsUnreadable home =
      (home.revocations ≡ none)
      ⊎ ((b : Blob) × (home.revocations ≡ some b) × (crates.names.decode b ≡ none))

  not_revoked_inv :
      (id : PublicIdentity) (home : Home Blob)
      → node_is_revoked crates id home ≡ false
      → IsUnreadable home
        ⊎ ((b : Blob) × (revoked : List Text) × (home.revocations ≡ some b)
            × (crates.names.decode b ≡ some revoked)
            × (contains (fingerprint crates.hex_hash id) revoked ≡ false))
  unfolding node_is_revoked load_or
  not_revoked_inv id home h = elim (Option-cases home.revocations) [
    | inl e ↦ inl (inl e)
    | inr (b, e) ↦ elim (Option-cases (crates.names.decode b)) [
      | inl d ↦ inl (inr (b, e, d))
      | inr (revoked, d) ↦ inr (b, revoked, e, d, ground (arith, e, d))
    ]
  ]

  listed_inv :
      (name : Text) (file_id : Text) (home : Home Blob) (acl : List Text)
      → read_acl crates file_id home ≡ ok acl
      → contains name acl ≡ true
      → (f : StoredFile Blob) × (b : Blob) × (get file_id home.files ≡ some f)
        × (f.acl ≡ some b)
        × (crates.names.decode b ≡ some acl)
  unfolding read_acl stored contains
  listed_inv name file_id home acl h c = elim (Option-cases (get file_id home.files)) [
    | inl e ↦ absurd (ground (arith, e))
    | inr (f, e) ↦ elim (Option-cases f.acl) [
      | inl a ↦ absurd (ground (arith, e, a))
      | inr (b, a) ↦ elim (Option-cases (crates.names.decode b)) [
        | inl d ↦ absurd (ground (arith, e, a, d))
        | inr (l, d) ↦ (f, b, e, a, ground (arith, e, a, d))
      ]
    ]
  ]

  -- A page of a file is served only if there is a reader list in `acl.json` of that file, which
  -- parses and names the requester's fingerprint, and if `revocations.json` does not name it, or is
  -- missing or does not parse.
  pub fetch_chunks_guarded :
      (requester : PublicIdentity) (file_id : Text) (offset : ℕ) (home : Home Blob)
      (out : Option FileManifest × List EncryptedChunk)
      → fetch_chunks crates requester file_id offset home ≡ ok out
      → let name = fingerprint crates.hex_hash requester in
        (IsUnreadable home
          ⊎ ((b : Blob) × (revoked : List Text) × (home.revocations ≡ some b)
              × (crates.names.decode b ≡ some revoked)
              × (contains name revoked ≡ false)))
        × ((f : StoredFile Blob) × (b : Blob) × (acl : List Text) × (get file_id home.files
              ≡ some f)
            × (f.acl ≡ some b)
            × (crates.names.decode b ≡ some acl)
            × (contains name acl ≡ true))
  unfolding fetch_chunks
  fetch_chunks_guarded requester file_id offset home out h =
      let (u, allowed, rest) = bind_ok (authorize crates requester file_id home) _ h in
      let (free, (acl, readable, member)) =
        authorize_inv requester file_id home (unit_ok u allowed) in
      let (f, b, there, list, parsed) =
        listed_inv (fingerprint crates.hex_hash requester) file_id home acl readable member in
      (not_revoked_inv requester home free, (f, b, acl, there, list, parsed, member))
    where
      unit_ok :
          (u : Unit {0})
          → authorize crates requester file_id home ≡ ok u
          → authorize crates requester file_id home ≡ ok tt
      unit_ok tt e = e

  write_acl_ok :
      (disk : ℕ) (bytes : Option Blob) (f : StoredFile Blob)
      → (write_acl crates disk bytes f).0 ≡ ok tt
      → (b : Blob) × (bytes ≡ some b) × ((write_acl crates disk bytes f).1.acl ≡ some b)
  unfolding write_acl
  write_acl_ok zero bytes f h = cc
  write_acl_ok (suc disk) none f h = cc
  write_acl_ok (suc zero) (some b) f h = cc
  write_acl_ok (suc (suc disk)) (some b) f h = (b, refl, refl)

  save_acl_ok :
      (saved : Io ℕ) (acl : Io (List Text)) (name : Text) (f : StoredFile Blob)
      → (save_acl crates saved acl name f).0 ≡ ok tt
      → (l : List Text) × (b : Blob) × (acl ≡ ok l)
        × (crates.names.encode (add name l) ≡ some b)
        × ((save_acl crates saved acl name f).1.acl ≡ some b)
  unfolding save_acl
  save_acl_ok (err e) acl name f h = cc
  save_acl_ok (ok disk) (err e) name f h = cc
  save_acl_ok (ok disk) (ok l) name f h =
      let (b, encoded, written) = write_acl_ok disk (crates.names.encode (add name l)) f h in
      (l, b, refl, encoded, written)

  read_acl-write :
      (file_id : Text) (f : StoredFile Blob) (home : Home Blob) (l : List Text) (b : Blob)
      → f.acl ≡ some b
      → crates.names.decode b ≡ some l
      → read_acl crates file_id (write_stored file_id f home) ≡ ok l
  unfolding read_acl stored
  read_acl-write file_id f home l b h d = ground (arith, get-insert_self file_id f home.files)

  pub authorize_intro :
      (requester : PublicIdentity) (file_id : Text) (home : Home Blob) (acl : List Text)
      → node_is_revoked crates requester home ≡ false
      → read_acl crates file_id home ≡ ok acl
      → contains (fingerprint crates.hex_hash requester) acl ≡ true
      → authorize crates requester file_id home ≡ ok tt
  unfolding authorize
  authorize_intro requester file_id home acl n r c = ground arith

  node_is_revoked-same :
      (id : PublicIdentity) (home home' : Home Blob)
      → home'.revocations ≡ home.revocations
      → node_is_revoked crates id home' ≡ node_is_revoked crates id home
  unfolding node_is_revoked
  node_is_revoked-same id home home' e =
      ap
        (λ (r : Option Blob). contains (fingerprint crates.hex_hash id) (load_or crates.names [] r))
        e

  -- The readers after a store: those before, and the requester.
  abbrev Admits : PublicIdentity → Text → Home Blob → Home Blob → Type 0
  Admits requester file_id home home' =
      (old : List Text) × (read_acl crates file_id home ≡ ok old)
      × (read_acl crates file_id home' ≡ ok (add (fingerprint crates.hex_hash requester) old))
      × (home'.revocations ≡ home.revocations)

  store_all-Admits :
      (requester : PublicIdentity) (file_id : Text) (manifest : FileManifest)
      (chunks : List EncryptedChunk) (disk : ℕ) (home : Home Blob)
      → (store_all crates requester file_id manifest chunks disk home).0 ≡ ok tt
      → Admits requester file_id home
          (store_all crates requester file_id manifest chunks disk home).1
  unfolding store_all
  store_all-Admits requester file_id manifest chunks disk home h =
      let f = stored file_id home in
      let (written, blobs) = write_blobs crates chunks disk f.blobs in
      let (saved, f') =
        save_manifest crates written (crates.manifest.encode manifest)
          (record f { blobs = blobs }) in
      let name = fingerprint crates.hex_hash requester in
      let (l, b, readable, encoded, kept) =
        save_acl_ok saved (read_acl crates file_id home) name f' h in
      (
        l,
        readable,
        read_acl-write file_id _ home (add name l) b kept
            (crates.names.decode-encode (add name l) b encoded),
        refl,
      )

  checked-Admits :
      (valid revoked : Bool) (requester : PublicIdentity) (file_id : Text) (manifest : FileManifest)
      (chunks : List EncryptedChunk) (disk : ℕ) (home : Home Blob)
      → (checked_store crates valid revoked requester file_id manifest chunks disk home).0 ≡ ok tt
      → (revoked ≡ false)
        × Admits requester file_id home
            (checked_store crates valid revoked requester file_id manifest chunks disk home).1
  unfolding checked_store
  checked-Admits false revoked requester file_id manifest chunks disk home h = cc
  checked-Admits true true requester file_id manifest chunks disk home h = cc
  checked-Admits true false requester file_id manifest chunks zero home h = cc
  checked-Admits true false requester file_id manifest chunks (suc disk) home h =
      (refl, store_all-Admits requester file_id manifest chunks disk home h)

  -- Storing under a file id makes the requester one of its readers, whoever stored there before: a
  -- store that succeeds keeps every reader of the file, and afterwards the requester passes the
  -- checks of `fetch_chunks` for that file.
  pub store_chunks_admits :
      (requester : PublicIdentity) (file_id : Text) (manifest : FileManifest)
      (chunks : List EncryptedChunk) (disk : ℕ) (home : Home Blob)
      → (store_chunks crates requester file_id manifest chunks disk home).0 ≡ ok tt
      → let home' = (store_chunks crates requester file_id manifest chunks disk home).1 in
        (authorize crates requester file_id home' ≡ ok tt)
        × ((reader : PublicIdentity)
            → authorize crates reader file_id home ≡ ok tt
            → authorize crates reader file_id home' ≡ ok tt)
  unfolding store_chunks
  store_chunks_admits requester file_id manifest chunks disk home h =
      let home' = (store_chunks crates requester file_id manifest chunks disk home).1 in
      let name = fingerprint crates.hex_hash requester in
      let (free, (old, before, after, same)) =
        checked-Admits (is_ok (verify_signature crates.signing manifest))
          (node_is_revoked crates requester home) requester file_id manifest chunks disk home h in
      (
        authorize_intro requester file_id home' (add name old)
            (rw (node_is_revoked-same requester home home' same) free) after
            (ground (arith, contains-add name name old, beq_refl name)),
        λ reader may.
            let (free', (old', before', member)) = authorize_inv reader file_id home may in
            let reader_name = fingerprint crates.hex_hash reader in
            let same_list : old ≡ old' = ground (arith, before, before') in
            authorize_intro reader file_id home' (add name old)
              (rw (node_is_revoked-same reader home home' same) free') after
              (ground (arith, contains-add reader_name name old)),
      )
