-- ===== src/Storage/Vault/KeyFile.antt =====
-- src/storage/mod.rs, `LocalKeyStore`: the key is made once, and never half written.
use neonet.Base.{
  ◌≡◌, refl, Bool, true, false, none, some, ◌==◌, list_eq, nat_eq, arith, inl, inr, Option-cases,
  Bool-cases, length, nat_beq, nat_beq_iff, ◌⊎◌,
}
use neonet.Base.Maps.{Map, get, get-insert, insert, get-insert_self, remove}
use neonet.Base.Results.{ok, err}
use neonet.Base.Text.{Bytes, Text}
use neonet.Storage.Vault.{
  StorageError, io, codec, Write, done, refused, torn, KeyDisk, LocalKeyStore, load_key, save_key,
  load_or_generate, write_file, rename,
}

get-rename :
    (from to bytes : Bytes) (files : Map Text Bytes)
    → get to (rename from to (insert from bytes files)) ≡ some bytes
unfolding rename
get-rename from to bytes files =
    rw (get-insert_self from bytes files, rename)
      (get-insert_self to bytes (remove from (insert from bytes files)))

module _ (store : LocalKeyStore) (apart : (store.tmp == store.path) ≡ false) where
  -- The key file afterwards holds the key that is returned, or is as it was.
  abbrev Settled : KeyDisk → Bytes → Map Text Bytes → Type 0
  Settled disk key files =
      let (out, files') = save_key disk store key files in
      ((out ≡ ok key) × (get store.path files' ≡ some key))
      ⊎ ((out ≡ err StorageError.io) × (get store.path files' ≡ get store.path files))

  get-write_tmp :
      (bytes : Bytes) (files : Map Text Bytes)
      → get store.path (insert store.tmp bytes files) ≡ get store.path files
  get-write_tmp bytes files = ground (arith, get-insert store.path store.tmp bytes files)

  save_key-Settled :
      (readable made : Bool) (w : Write) (renamed : Bool) (key : Bytes) (files : Map Text Bytes)
      → Settled
          (record { readable = readable; made = made; write = w; renamed = renamed })
          key
          files
  unfolding save_key write_file
  save_key-Settled r false w b key files = inr (refl, refl)
  save_key-Settled r true refused b key files = inr (refl, refl)
  save_key-Settled r true (torn left) b key files = inr (refl, get-write_tmp left files)
  save_key-Settled r true done false key files = inr (refl, get-write_tmp key files)
  save_key-Settled r true done true key files =
      inl (refl, get-rename store.tmp store.path key files)

  generates :
      (disk : KeyDisk) (fresh : Bytes) (files : Map Text Bytes)
      → get store.path files ≡ none
      → load_or_generate disk store fresh files ≡ save_key disk store fresh files
  unfolding load_or_generate
  generates disk fresh files e = rw (e, load_or_generate) refl

  finds :
      (disk : KeyDisk) (fresh bytes : Bytes) (files : Map Text Bytes)
      → get store.path files ≡ some bytes
      → load_or_generate disk store fresh files ≡ (load_key disk.readable bytes, files)
  unfolding load_or_generate
  finds disk fresh bytes files e = rw (e, load_or_generate) refl

  load_key_ok : (bytes : Bytes) → length bytes ≡ 32 → load_key true bytes ≡ ok bytes
  unfolding load_key
  load_key_ok bytes h = ground (arith, nat_beq_iff (length bytes) 32)

  load_key-cases :
      (readable : Bool) (bytes : Bytes)
      → ((load_key readable bytes ≡ ok bytes) × (length bytes ≡ 32))
        ⊎ ((e : StorageError) × (load_key readable bytes ≡ err e))
  unfolding load_key
  load_key-cases false bytes = inr (io, refl)
  load_key-cases true bytes = elim (Bool-cases (nat_beq (length bytes) 32)) [
    | inl e ↦ inl (ground arith, ground (arith, nat_beq_iff (length bytes) 32))
    | inr e ↦ inr (codec, ground arith)
  ]

  loads :
      (disk : KeyDisk) (fresh key : Bytes) (files : Map Text Bytes)
      → get store.path files ≡ some key
      → disk.readable ≡ true
      → length key ≡ 32
      → load_or_generate disk store fresh files ≡ (ok key, files)
  loads disk fresh key files g r h = ground (arith, finds disk fresh key files g, load_key_ok key h)

  -- Whatever fails on the way, and with a fresh key of 32 bytes: a call that returns a key leaves
  -- it, and it alone, in the key file, where every later call that can read the file finds it
  -- again, whatever key that one would make; and a call that fails leaves the key file as it was,
  -- never half written. The temporary file is not the key file.
  pub load_or_generate_once :
      (disk later : KeyDisk) (fresh other : Bytes) (files : Map Text Bytes)
      → length fresh ≡ 32
      → later.readable ≡ true
      → let (out, files') = load_or_generate disk store fresh files in
        ((key : Bytes) × (out ≡ ok key)
          × (get store.path files' ≡ some key)
          × (load_or_generate later store other files' ≡ (ok key, files')))
        ⊎ ((e : StorageError) × (out ≡ err e) × (get store.path files' ≡ get store.path files))
  load_or_generate_once disk later fresh other files h l =
      elim (Option-cases (get store.path files)) [
        | inl e ↦
            rw (generates disk fresh files e)
              (elim (save_key-Settled disk.readable disk.made disk.write disk.renamed fresh files) [
                | inl (o, g) ↦
                    inl (
                      fresh,
                      o,
                      g,
                      loads later other fresh (save_key disk store fresh files).1 g l h,
                    )
                | inr (o, g) ↦ inr (StorageError.io, o, g)
              ])
        | inr (bytes, e) ↦
            rw (finds disk fresh bytes files e) (elim (load_key-cases disk.readable bytes) [
              | inl (o, w) ↦ inl (bytes, o, e, loads later other bytes files e l w)
              | inr (x, o) ↦ inr (x, o, refl)
            ])
      ]
