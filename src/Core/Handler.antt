-- ===== src/Core/Handler.antt =====
-- src/app/core.rs: the handler of core frames, and the set of operators. The chunks under
-- `blobs/data` are a map by their hash, whose hexadecimal is the file's name.
use neonet.Base.Text.{Bytes, Text}
use neonet.Base.Maps.{Map, contains_key, insert}
use neonet.Base.{
  Bool, List, Option, String, [], if◌then◌else◌, keep, length, list_eq, nat_eq, none, not, some,
  suc, zero, ℕ, ◌%◌, ◌++◌, ◌/◌, ◌==◌, ◌∷◌,
}
use neonet.Base.Results.{Io, err, ok}
use neonet.Base.Sets.{add, contains}
use neonet.Base.Codec.{load_or, replace}
use neonet.Storage.{Home, Crates, revoke_identity, disk_error}
use neonet.Identity.{PublicIdentity, fingerprint}

pub data CoreFrame : Type 0 where
  reconcile_request reconcile_missing : List Bytes → CoreFrame
  chunk_data : Bytes → Option Bytes → CoreFrame
  revoke_broadcast : PublicIdentity → ℕ → Bytes → CoreFrame
  revoke_ack : ℕ → CoreFrame
  revoke_refuse : ℕ → String → CoreFrame
  error_frame : String → CoreFrame

-- What the operator of the node is told.
pub data CoreNotice : Type 0 where
  peer_misses : ℕ → CoreNotice
  chunk_rejected chunk_reconciled chunk_not_supplied : Bytes → CoreNotice
  not_operator revoked_notice : Text → CoreNotice
  acknowledged : ℕ → CoreNotice
  refused : ℕ → String → CoreNotice
  core_error : String → CoreNotice

-- The home directory of a core.
pub record CoreHome (Blob : Type 0) : Type 0 where
  pub chunks : Map Bytes Bytes
  pub operators_file : Option Blob
  pub store : Home Blob

-- `to_le_bytes` of a number of `n` bytes
unfoldable pub le_bytes : ℕ → ℕ → Bytes
le_bytes zero k = []
le_bytes (suc n) k = k % 256 ∷ le_bytes n (k / 256)

unfoldable pub revoke_payload : ℕ → PublicIdentity → Bytes
unfolding le_bytes
revoke_payload epoch revoked = le_bytes 8 epoch ++ revoked.public_key

-- The result of a handler: its notice, the frames sent back, and the files.
abbrev pub CoreOutcome : Type 0 → Type 0
CoreOutcome Blob = Io (Option CoreNotice) × List CoreFrame × CoreHome Blob

module _ {Blob : Type 0} (crates : Crates Blob) (hash : Bytes → Bytes) where
  unfoldable pub operators : CoreHome Blob → List Text
  unfolding load_or
  operators home = load_or crates.names [] home.operators_file

  -- `disk` is whether the file operations go through.
  unfoldable pub set_operator :
      Bool → PublicIdentity → CoreHome Blob → Io (Unit {0}) × CoreHome Blob
  unfolding operators replace
  set_operator disk identity home =
      let set = add (fingerprint crates.hex_hash identity) (operators home) in
      let (res, file) = replace crates.names disk set home.operators_file in
      (res, record home { operators_file = file })

  unfoldable pub on_chunk : Bool → Bytes → Option Bytes → CoreHome Blob → CoreOutcome Blob
  on_chunk disk h none home = (ok (some (chunk_not_supplied h)), [], home)
  on_chunk disk h (some bytes) home =
      if not (hash bytes == h)
      then (ok (some (chunk_rejected h)), [], home)
      else if disk
      then (ok (some (chunk_reconciled h)), [], record home { chunks = insert h bytes home.chunks })
      else (err disk_error, [], home)

  abbrev pub on_revoked :
      ℕ → PublicIdentity → CoreHome Blob → Io (Unit {0}) × Home Blob → CoreOutcome Blob
  on_revoked epoch revoked home (ok u, store) = (
    ok (some (revoked_notice (fingerprint crates.hex_hash revoked))),
    revoke_ack epoch ∷ [],
    record home { store = store },
  )
  on_revoked epoch revoked home (err e, store) = (err e, [], record home { store = store })

  unfoldable pub on_revoke :
      Bool → PublicIdentity → PublicIdentity → ℕ → Bytes → CoreHome Blob → CoreOutcome Blob
  unfolding operators revoke_payload
  on_revoke disk sender revoked epoch signature home =
      if not (contains (fingerprint crates.hex_hash sender) (operators home))
      then (
        ok (some (not_operator (fingerprint crates.hex_hash sender))),
        revoke_refuse epoch "caller is not an operator of this core" ∷ [],
        home,
      )
      else if not (crates.signing.is_key sender)
      then (ok none, revoke_refuse epoch "bad caller key" ∷ [], home)
      else if not (crates.signing.verify sender (revoke_payload epoch revoked) signature)
      then (ok none, revoke_refuse epoch "invalid revocation signature" ∷ [], home)
      else on_revoked epoch revoked home (revoke_identity crates disk revoked home.store)

  unfoldable pub handle_core : Bool → PublicIdentity → CoreFrame → CoreHome Blob → CoreOutcome Blob
  unfolding on_chunk on_revoke
  handle_core disk sender (reconcile_request hashes) home =
      (ok none, reconcile_missing (keep (λ h. not (contains_key h home.chunks)) hashes) ∷ [], home)
  handle_core disk sender (reconcile_missing missing) home =
      (ok (some (peer_misses (length missing))), [], home)
  handle_core disk sender (chunk_data h data_bytes) home = on_chunk disk h data_bytes home
  handle_core disk sender (revoke_broadcast revoked epoch signature) home =
      on_revoke disk sender revoked epoch signature home
  handle_core disk sender (revoke_ack epoch) home = (ok (some (acknowledged epoch)), [], home)
  handle_core disk sender (revoke_refuse epoch reason) home =
      (ok (some (refused epoch reason)), [], home)
  handle_core disk sender (error_frame message) home = (ok (some (core_error message)), [], home)
