-- ===== src/Files/Handler.antt =====
-- src/app/files.rs, `handle`: the frames of a file transfer, over the transfers of a device by
-- the directories that their ids lead to.
use neonet.Base.Text.{Text}
use neonet.Base.Results.{Result, err, ok}
use neonet.Base.{List, Option, String, [], false, length, none, some, true, ℕ, ◌∷◌, list_eq, nat_eq}
use neonet.Files.{FileManifest, Chunk, FileError, verify_manifest, TransferState, missing}
use neonet.Files.Incoming.{
  Incoming, IncomingCrates, Transfers, incoming, put_dir, ReceiveStatus, ReceiveError, file_error,
  panicked, verified, needs_resend, write_received_manifest, load_transfer_state, resume_for,
  receive_chunk,
}

pub data FilesFrame : Type 0 where
  announce : Text → FileManifest → Text → FilesFrame
  accept : Text → List ℕ → FilesFrame
  chunk_frame : Text → Chunk → FilesFrame
  reject : Text → ℕ → String → FilesFrame
  complete_frame status_request : Text → FilesFrame
  status : Text → TransferState → FilesFrame
  error_frame : Option Text → ReceiveError → FilesFrame

pub data FilesNotice : Type 0 where
  offered : Text → FileManifest → ℕ → FilesNotice
  asked : Text → List ℕ → FilesNotice
  finished confirmed : Text → FilesNotice
  progress : Text → TransferState → FilesNotice
  failed : ReceiveError → FilesNotice

abbrev pub FilesOutcome : Type 0
FilesOutcome = Option FilesNotice × List FilesFrame × Transfers

module _ (crates : IncomingCrates) where
  unfoldable pub on_written :
      Text → FileManifest → Text → Transfers → Result FileError (Unit {0}) × Incoming → FilesOutcome
  unfolding resume_for put_dir
  on_written id m sender_name home (err e, inc) =
      (none, error_frame (some id) (file_error e) ∷ [], put_dir (crates.dir id) inc home)
  on_written id m sender_name home (ok u, inc) =
      let missing_now = missing (resume_for crates m inc) in
      (
        some (offered sender_name m (length missing_now)),
        accept id missing_now ∷ [],
        put_dir (crates.dir id) inc home,
      )

  unfoldable pub on_announce : ℕ → Text → FileManifest → Text → Transfers → FilesOutcome
  unfolding on_written write_received_manifest incoming verify_manifest
  on_announce disk id m sender_name home = elim (verify_manifest crates.signing m) [
    | err e ↦ (none, error_frame (some id) (file_error e) ∷ [], home)
    | ok u ↦
        on_written id m sender_name home
          (write_received_manifest crates disk m (incoming (crates.dir id) home))
  ]

  -- A panic ends the task without a reply.
  abbrev pub on_received : Text → Result ReceiveError ReceiveStatus × Transfers → FilesOutcome
  on_received id (ok (verified true), home) = (some (finished id), complete_frame id ∷ [], home)
  on_received id (ok (verified false), home) = (none, [], home)
  on_received id (ok (needs_resend index reason), home) = (none, reject id index reason ∷ [], home)
  on_received id (err panicked, home) = (none, [], home)
  on_received id (err (file_error e), home) =
      (none, error_frame (some id) (file_error e) ∷ [], home)

  unfoldable pub handle_files : ℕ → FilesFrame → Transfers → FilesOutcome
  unfolding on_announce receive_chunk incoming load_transfer_state
  handle_files disk (announce id m sender_name) home = on_announce disk id m sender_name home
  handle_files disk (accept id missing_now) home = (some (asked id missing_now), [], home)
  handle_files disk (chunk_frame id chunk) home =
      on_received id (receive_chunk crates disk id chunk home)
  handle_files disk (reject id index reason) home = (none, [], home)
  handle_files disk (complete_frame id) home = (some (confirmed id), [], home)
  handle_files disk (status_request id) home =
      elim (load_transfer_state crates (incoming (crates.dir id) home)) [
        | ok state ↦ (none, status id state ∷ [], home)
        | err e ↦ (none, error_frame (some id) (file_error e) ∷ [], home)
      ]
  handle_files disk (status id state) home = (some (progress id state), [], home)
  handle_files disk (error_frame id e) home = (some (failed e), [], home)
