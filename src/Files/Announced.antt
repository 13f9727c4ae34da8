-- ===== src/Files/Announced.antt =====
-- src/app/files.rs: which frames set the manifest of a transfer.
use neonet.Base.Maps.{insert}
use neonet.Base.Text.{Bytes, Text}
use neonet.Base.Results.{Result, Result-cases, err, ok}
use neonet.Base.{
  Option, none, some, length, nat_beq, [], arith, false, inl, inr, list_eq, nat_eq, refl, suc, true,
  zero, ℕ, ◌++◌, ◌-◌, ◌==◌, ◌∷◌, ◌≡◌, ◌⊎◌, Bool-cases, ap, beq-eq, ◌∙◌,
}
use neonet.Files.{FileManifest, Chunk, FileError, verify_chunk, verify_manifest, TransferState}
use neonet.Base.Sets.{contains}
use neonet.Files.Places.{
  is_manifest_of, is_manifest_of-manifest_of, write_place-manifest_file, part-put_dir,
  incoming-put_dir_other,
}
use neonet.Files.Received.{completed-dir}
use neonet.Files.Incoming.{
  Place, manifest_of, Transfers, incoming, put_dir, write_output, own_chunk, ReceiveError,
  ReceiveStatus, Incoming, IncomingCrates, file_error, panicked, verified, needs_resend,
  write_received_manifest, load_received_manifest, load_transfer_state, save_transfer_state,
  resume_for, reconstruct_from_verified, after_saving, record_chunk, store_chunk, receive_chunk,
}
use neonet.Files.Handler.{
  FilesFrame, announce, accept, chunk_frame, reject, complete_frame, status_request, status,
  error_frame, on_written, on_announce, on_received, handle_files,
}

module _ (crates : IncomingCrates) where
  after_saving-dir :
      (disk : ℕ) (m : FileManifest) (own : Option ℕ) (state : TransferState)
      (r : Result FileError (Unit {0}) × Incoming)
      → (after_saving crates disk m own state r).1 ≡ r.1
  unfolding after_saving
  after_saving-dir disk m own state (err e, inc) = refl
  after_saving-dir disk m own state (ok u, inc) =
      elim (Bool-cases (nat_beq (length state.verified_chunks) (length m.chunks))) [
        | inl e ↦
            rw (after_saving, e)
              (completed-dir crates m (reconstruct_from_verified crates disk m own state inc.chunks)
                inc)
        | inr e ↦ rw (after_saving, e) refl
      ]

  save-manifest_file :
      (disk : ℕ) (state : TransferState) (inc : Incoming)
      → (save_transfer_state crates disk state inc).1.manifest_file ≡ inc.manifest_file
  unfolding save_transfer_state
  save-manifest_file zero state inc = ground arith
  save-manifest_file (suc n) state inc = ground arith

  record_chunk-manifest_file :
      (disk : ℕ) (m : FileManifest) (own : Option ℕ) (index : ℕ) (state : TransferState)
      (inc : Incoming)
      → (record_chunk crates disk m own index state inc).1.manifest_file ≡ inc.manifest_file
  unfolding record_chunk
  record_chunk-manifest_file disk m own index state inc =
      let state' : TransferState = record state {
        verified_chunks = state.verified_chunks ++ index ∷ [];
      } in
      elim (Bool-cases (contains index state.verified_chunks)) [
        | inl e ↦ rw (record_chunk, e) refl
        | inr e ↦
            rw (record_chunk, e)
              (ap (λ (i : Incoming). i.manifest_file)
                  (after_saving-dir (disk - 1) m own state'
                    (save_transfer_state crates disk state' inc))
                ∙ save-manifest_file disk state' inc)
      ]

  store_chunk-manifest_file :
      (disk : ℕ) (m : FileManifest) (own : Option ℕ) (c : Chunk) (inc : Incoming)
      → (store_chunk crates disk m own c inc).1.manifest_file ≡ inc.manifest_file
  unfolding store_chunk
  store_chunk-manifest_file zero m own c inc = refl
  store_chunk-manifest_file (suc n) m own c inc =
      let inc' : Incoming = record inc { chunks = insert c.index c.bytes inc.chunks } in
      record_chunk-manifest_file n m own c.index (resume_for crates m inc') inc'

  write_output-manifest_file :
      (j : Text) (place : Place) (written : Option Bytes) (home : Transfers)
      → is_manifest_of j place ≡ false
      → (incoming j (write_output place written home)).manifest_file
        ≡ (incoming j home).manifest_file
  unfolding write_output
  write_output-manifest_file j place none home h = refl
  write_output-manifest_file j place (some bytes) home h =
      write_place-manifest_file j place bytes home h

  -- A chunk leaves the manifests alone, unless the output of its transfer is one of them.
  receive_chunk-manifest_file :
      (disk : ℕ) (id j : Text) (c : Chunk) (home : Transfers)
      → ((incoming j (receive_chunk crates disk id c home).1).manifest_file
          ≡ (incoming j home).manifest_file)
        ⊎ ((m : FileManifest) × (load_received_manifest crates (incoming (crates.dir id) home)
              ≡ ok m)
            × (crates.output id m.name ≡ manifest_of j))
  unfolding receive_chunk
  receive_chunk-manifest_file disk id j c home =
      let d = crates.dir id in
      elim (Result-cases (load_received_manifest crates (incoming d home))) [
        | inr (e, l) ↦ inl (rw (receive_chunk, l) refl)
        | inl (m, l) ↦ elim (Result-cases (verify_chunk crates.hash m c)) [
          | inr (e, v) ↦ inl (rw (receive_chunk, l, v) refl)
          | inl (u, v) ↦ elim (Bool-cases (is_manifest_of j (crates.output id m.name))) [
            | inl t ↦ inr (m, l, is_manifest_of-manifest_of j (crates.output id m.name) t)
            | inr t ↦
                let place = crates.output id m.name in
                let got = store_chunk crates disk m (own_chunk d place) c (incoming d home) in
                inl (
                  rw (receive_chunk, l, v)
                    (write_output-manifest_file j place got.2 (put_dir d got.1 home) t
                      ∙ part-put_dir (λ (i : Incoming). i.manifest_file) d j got.1 home
                          (store_chunk-manifest_file disk m (own_chunk d place) c
                            (incoming d home))))
          ]
        ]
      ]

  home-on_received :
      (id : Text) (r : Result ReceiveError ReceiveStatus × Transfers)
      → (on_received crates id r).2 ≡ r.1
  home-on_received id (ok (verified true), home) = refl
  home-on_received id (ok (verified false), home) = refl
  home-on_received id (ok (needs_resend i t), home) = refl
  home-on_received id (err panicked, home) = refl
  home-on_received id (err (file_error e), home) = refl

  home-on_written :
      (id : Text) (m : FileManifest) (name : Text) (home : Transfers)
      (r : Result FileError (Unit {0}) × Incoming)
      → (on_written crates id m name home r).2 ≡ put_dir (crates.dir id) r.1 home
  unfolding on_written
  home-on_written id m name home (ok u, inc) = refl
  home-on_written id m name home (err e, inc) = refl

  -- The manifest file of a transfer's directory after a frame is the one from before, unless the
  -- frame announces a manifest, which its named signer has signed and which lists a chunk, under an
  -- id that leads to that directory; or the frame is a chunk of a transfer whose manifest has a name
  -- that makes that very file its output.
  pub handle_files_manifests :
      (disk : ℕ) (frame : FilesFrame) (home : Transfers) (j : Text)
      → ((incoming j (handle_files crates disk frame home).2).manifest_file
          ≡ (incoming j home).manifest_file)
        ⊎ ((id : Text) × (m : FileManifest) × (name : Text) × (frame ≡ announce id m name)
            × (crates.dir id ≡ j)
            × (verify_manifest crates.signing m ≡ ok tt))
        ⊎ ((id : Text) × (c : Chunk) × (m : FileManifest) × (frame ≡ chunk_frame id c)
            × (load_received_manifest crates (incoming (crates.dir id) home) ≡ ok m)
            × (crates.output id m.name ≡ manifest_of j))
  unfolding handle_files on_announce
  handle_files_manifests disk (announce id m name) home j =
      elim (Result-cases (verify_manifest crates.signing m)) [
        | inr (e, v) ↦ inl (rw (handle_files, on_announce, v) refl)
        | inl (u, v) ↦ elim (Bool-cases (crates.dir id == j)) [
          | inl e ↦ inr (inl (id, m, name, refl, beq-eq (crates.dir id) j e, v))
          | inr e ↦
              let d = crates.dir id in
              let w = write_received_manifest crates disk m (incoming d home) in
              inl (
                rw (handle_files, on_announce, v, home-on_written id m name home w)
                  (ap (λ (i : Incoming). i.manifest_file) (incoming-put_dir_other d j w.1 home e)))
        ]
      ]
  handle_files_manifests disk (accept id missing_now) home j = inl refl
  handle_files_manifests disk (chunk_frame id c) home j =
      let r = receive_chunk crates disk id c home in
      elim (receive_chunk-manifest_file disk id j c home) [
        | inl same ↦ inl (rw (home-on_received id r) same)
        | inr (m, l, p) ↦ inr (inr (id, c, m, refl, l, p))
      ]
  handle_files_manifests disk (reject id index reason) home j = inl refl
  handle_files_manifests disk (complete_frame id) home j = inl refl
  handle_files_manifests disk (status_request id) home j =
      elim (Result-cases (load_transfer_state crates (incoming (crates.dir id) home))) [
        | inl (s, e) ↦ inl (rw (handle_files, e) refl)
        | inr (x, e) ↦ inl (rw (handle_files, e) refl)
      ]
  handle_files_manifests disk (status id state) home j = inl refl
  handle_files_manifests disk (error_frame id e) home j = inl refl
