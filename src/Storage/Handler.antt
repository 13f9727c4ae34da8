-- ===== src/Storage/Handler.antt =====
-- src/app/storage.rs, `handle`: what a core answers to storage frames, and what it leaves alone.
use neonet.Base.{String, ℕ, Option, none, some, List, [], ◌∷◌, length}
use neonet.Base.Results.{Io, ok, err}
use neonet.Base.Text.{Text}
use neonet.Identity.{PublicIdentity}
use neonet.Files.{FileManifest}
use neonet.Storage.{EncryptedChunk, Home, Crates, store_chunks, fetch_chunks}

pub data StorageFrame : Type 0 where
  store_frame : Text → FileManifest → List EncryptedChunk → StorageFrame
  store_ack : Text → StorageFrame
  fetch_frame : Text → ℕ → StorageFrame
  stored_frame : Text → Option FileManifest → List EncryptedChunk → StorageFrame
  error_frame : String → StorageFrame

-- What the operator is told.
pub data StorageNotice : Type 0 where
  acknowledged : Text → StorageNotice
  holds : ℕ → Text → StorageNotice
  failed : String → StorageNotice

abbrev pub store_reply : Text → Io (Unit {0}) → StorageFrame
store_reply file_id (ok u) = store_ack file_id
store_reply file_id (err e) = error_frame e.text

abbrev pub fetch_reply : Text → Io (Option FileManifest × List EncryptedChunk) → StorageFrame
fetch_reply file_id (ok (manifest, chunks)) = stored_frame file_id manifest chunks
fetch_reply file_id (err e) = error_frame e.text

module _ {Blob : Type 0} (crates : Crates Blob) where
  -- The notice, the frames sent back, and the files; the handler itself does not fail.
  unfoldable pub handle_storage :
      ℕ
      → PublicIdentity
      → StorageFrame
      → Home Blob
      → Option StorageNotice × List StorageFrame × Home Blob
  handle_storage disk sender (store_frame file_id manifest chunks) home =
      let (outcome, home') = store_chunks crates sender file_id manifest chunks disk home in
      (none, store_reply file_id outcome ∷ [], home')
  handle_storage disk sender (fetch_frame file_id offset) home =
      (none, fetch_reply file_id (fetch_chunks crates sender file_id offset home) ∷ [], home)
  handle_storage disk sender (store_ack file_id) home = (some (acknowledged file_id), [], home)
  handle_storage disk sender (stored_frame file_id manifest chunks) home =
      (some (holds (length chunks) file_id), [], home)
  handle_storage disk sender (error_frame message) home = (some (failed message), [], home)
