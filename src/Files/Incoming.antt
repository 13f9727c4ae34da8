-- ===== src/Files/Incoming.antt =====
-- src/files/mod.rs: the receiving side of a transfer, over the directories `incoming/<id>` and the
-- file that an output is written to. That file has the path `incoming/<id>` joined with the name in
-- the manifest, which the sender chose: where it leads, and to which directory an id leads, is a
-- parameter. `disk` counts the file operations that still succeed; a write is the writing of a
-- temporary file and its rename, except those to the output, which is opened once and written piece
-- by piece. Reads of files that are there succeed.
use neonet.Base.Sets.{contains}
use neonet.Base.Maps.{Map, get, insert}
use neonet.Base.Text.{Bytes, Text}
use neonet.Base.Results.{Result, err, ok, ok_or}
use neonet.Base.{
  Bool, List, Option, String, [], false, get_elem?, if◌then◌else◌, leb, length, list_eq, nat_beq,
  nat_eq, none, some, suc, true, zero, ℕ, ◌++◌, ◌-◌, ◌∷◌, ◌==◌,
}
use neonet.Base.Codec.{Codec}
use neonet.Files.{
  FileManifest, Chunk, FileError, io, codec, Signing, verify_chunk, TransferState, new_transfer,
  unsigned_bytes,
}

-- A directory `incoming/<id>`: `manifest.json`, `state.json` and the files below `chunks`.
pub record Incoming : Type 0 where
  pub manifest_file : Option Bytes
  pub state_file : Option Bytes
  pub chunks : Map ℕ Bytes

-- Where a path leads: to a file of the directory of a transfer, or to another file.
pub data Place : Type 0 where
  manifest_of state_of : Text → Place
  chunk_of : Text → ℕ → Place
  elsewhere : Text → Place

-- The directories of the transfers, and the other files, by where their paths lead.
pub record Transfers : Type 0 where
  pub dirs : Map Text Incoming
  pub others : Map Text Bytes

-- What the receiving side takes from the crates and the system: the hash, the signature check, the
-- serialisers, the directory that `incoming/<id>` leads to, and the file that it leads to when it is
-- joined with a name, and the part of a piece that a failed write to the output leaves there.
pub record IncomingCrates : Type 0 where
  pub hash : Bytes → Bytes
  pub hex_hash : Bytes → Text
  pub signing : Signing
  pub manifest_codec : Codec FileManifest Bytes
  pub state_codec : Codec TransferState Bytes
  pub dir : Text → Text
  pub output : Text → Text → Place
  pub torn : Bytes → Bytes

-- An error of the source, or the panic of an index out of range.
pub data ReceiveError : Type 0 where
  file_error : FileError → ReceiveError
  panicked : ReceiveError

pub data ReceiveStatus : Type 0 where
  verified : Bool → ReceiveStatus
  needs_resend : ℕ → String → ReceiveStatus

-- The result, the directory of the transfer, and what has been written to the output.
abbrev pub Received : Type 0
Received = Result ReceiveError ReceiveStatus × Incoming × Option Bytes

abbrev pub nothing_yet : Incoming
nothing_yet = record { manifest_file = none; state_file = none; chunks = [] }

unfoldable pub incoming : Text → Transfers → Incoming
incoming d home = elim (get d home.dirs) [ none ↦ nothing_yet | some inc ↦ inc ]

unfoldable pub put_dir : Text → Incoming → Transfers → Transfers
put_dir d inc home = record home { dirs = insert d inc home.dirs }

-- The file at a place.
unfoldable pub read_place : Place → Transfers → Option Bytes
unfolding incoming
read_place (manifest_of d) home = (incoming d home).manifest_file
read_place (state_of d) home = (incoming d home).state_file
read_place (chunk_of d i) home = get i (incoming d home).chunks
read_place (elsewhere p) home = get p home.others

unfoldable pub write_place : Place → Bytes → Transfers → Transfers
unfolding incoming put_dir
write_place (manifest_of d) bytes home =
    put_dir d (record (incoming d home) { manifest_file = some bytes }) home
write_place (state_of d) bytes home =
    put_dir d (record (incoming d home) { state_file = some bytes }) home
write_place (chunk_of d i) bytes home =
    put_dir d (record (incoming d home) { chunks = insert i bytes (incoming d home).chunks }) home
write_place (elsewhere p) bytes home = record home { others = insert p bytes home.others }

unfoldable pub write_output : Place → Option Bytes → Transfers → Transfers
unfolding write_place
write_output place none home = home
write_output place (some bytes) home = write_place place bytes home

-- The index of the chunk of the directory that a place is.
unfoldable pub own_chunk : Text → Place → Option ℕ
own_chunk d (manifest_of e) = none
own_chunk d (state_of e) = none
own_chunk d (chunk_of e i) = if e == d then some i else none
own_chunk d (elsewhere p) = none

-- `fs::read(path)?` and the decoding of what is read
unfoldable pub load_file : {A Blob : Type 0} → Codec A Blob → Option Blob → Result FileError A
load_file c none = err io
load_file c (some b) = ok_or (c.decode b) codec

-- `sort_unstable` on numbers
unfoldable pub put_index : ℕ → List ℕ → List ℕ
put_index i [] = i ∷ []
put_index i (j ∷ js) = let rest = put_index i js in if leb i j then i ∷ j ∷ js else j ∷ rest

unfoldable pub sort_indices : List ℕ → List ℕ
unfolding put_index
sort_indices [] = []
sort_indices (i ∷ is) = put_index i (sort_indices is)

module _ (crates : IncomingCrates) where
  unfoldable pub manifest_id : FileManifest → Option Text
  unfolding unsigned_bytes
  manifest_id m = elim (unsigned_bytes crates.signing m) [
    | err e ↦ none
    | ok bytes ↦ some (crates.hex_hash bytes)
  ]

  unfoldable pub write_received_manifest :
      ℕ → FileManifest → Incoming → Result FileError (Unit {0}) × Incoming
  write_received_manifest disk m inc = elim (crates.manifest_codec.encode m) [
    | none ↦ (err codec, inc)
    | some b ↦ elim disk [
      | zero ↦ (err io, inc)
      | suc n ↦ (ok tt, record inc { manifest_file = some b })
    ]
  ]

  unfoldable pub load_received_manifest : Incoming → Result FileError FileManifest
  unfolding load_file
  load_received_manifest inc = load_file crates.manifest_codec inc.manifest_file

  unfoldable pub load_transfer_state : Incoming → Result FileError TransferState
  unfolding load_file
  load_transfer_state inc = load_file crates.state_codec inc.state_file

  unfoldable pub save_transfer_state :
      ℕ → TransferState → Incoming → Result FileError (Unit {0}) × Incoming
  save_transfer_state disk state inc = elim (crates.state_codec.encode state) [
    | none ↦ (err codec, inc)
    | some b ↦ elim disk [
      | zero ↦ (err io, inc)
      | suc n ↦ (ok tt, record inc { state_file = some b })
    ]
  ]

  unfoldable pub resume_for : FileManifest → Incoming → TransferState
  unfolding load_transfer_state new_transfer
  resume_for m inc = elim (load_transfer_state inc) [ ok state ↦ state | err e ↦ new_transfer m ]

  -- What is read of a chunk's file while the output is written: if it is the output, what has been
  -- written so far.
  unfoldable pub piece_at : Option ℕ → Bytes → Map ℕ Bytes → ℕ → Option Bytes
  piece_at none written chunks i = get i chunks
  piece_at (some k) written chunks i = if k == i then some written else get i chunks

  -- The loop of `reconstruct_from_verified`: its result, and all that has been written.
  unfoldable pub write_pieces :
      FileManifest
      → Option ℕ
      → Map ℕ Bytes
      → List ℕ
      → ℕ
      → Bytes
      → Result ReceiveError (Unit {0}) × Bytes
  unfolding verify_chunk piece_at
  write_pieces m own chunks [] disk written = (ok tt, written)
  write_pieces m own chunks (i ∷ is) disk written = elim (piece_at own written chunks i) [
    | none ↦ (err (file_error io), written)
    | some bytes ↦ elim (get_elem? m.chunks i) [
      | none ↦ (err panicked, written)
      | some h ↦ elim (verify_chunk crates.hash m (record { index = i; hash = h; bytes = bytes })) [
        | err e ↦ (err (file_error e), written)
        | ok u ↦ elim disk [
          | zero ↦ (err (file_error io), written ++ crates.torn bytes)
          | suc n ↦ write_pieces m own chunks is n (written ++ bytes)
        ]
      ]
    ]
  ]

  abbrev pub sized : ℕ → Result ReceiveError (Unit {0}) × Bytes → Result ReceiveError (Unit {0})
  sized total (err e, bytes) = err e
  sized total (ok u, bytes) = if nat_beq (length bytes) total then ok tt else err (file_error io)

  -- Its result, and what is in the output; `own` is the chunk that the output is, if it is one.
  unfoldable pub reconstruct_from_verified :
      ℕ
      → FileManifest
      → Option ℕ
      → TransferState
      → Map ℕ Bytes
      → Result ReceiveError (Unit {0}) × Option Bytes
  unfolding write_pieces sort_indices
  reconstruct_from_verified zero m own state chunks = (err (file_error io), none)
  reconstruct_from_verified (suc n) m own state chunks =
      let pieces = write_pieces m own chunks (sort_indices state.verified_chunks) n [] in
      (sized m.total_size pieces, some pieces.1)

  abbrev pub completed : Result ReceiveError (Unit {0}) × Option Bytes → Incoming → Received
  completed (ok u, written) inc = (ok (verified true), inc, written)
  completed (err e, written) inc = (err e, inc, written)

  -- After the state is saved: the file is put together if nothing is missing.
  unfoldable pub after_saving :
      ℕ
      → FileManifest
      → Option ℕ
      → TransferState
      → Result FileError (Unit {0}) × Incoming
      → Received
  unfolding reconstruct_from_verified
  after_saving disk m own state (err e, inc) = (err (file_error e), inc, none)
  after_saving disk m own state (ok u, inc) =
      if nat_beq (length state.verified_chunks) (length m.chunks)
      then completed (reconstruct_from_verified disk m own state inc.chunks) inc
      else (ok (verified false), inc, none)

  -- After the chunk is stored.
  unfoldable pub record_chunk :
      ℕ → FileManifest → Option ℕ → ℕ → TransferState → Incoming → Received
  unfolding save_transfer_state after_saving
  record_chunk disk m own index state inc =
      if contains index state.verified_chunks
      then (ok (verified (nat_beq (length state.verified_chunks) (length m.chunks))), inc, none)
      else let state' = record state { verified_chunks = state.verified_chunks ++ index ∷ [] } in
        after_saving (disk - 1) m own state' (save_transfer_state disk state' inc)

  unfoldable pub store_chunk : ℕ → FileManifest → Option ℕ → Chunk → Incoming → Received
  unfolding resume_for record_chunk
  store_chunk zero m own chunk inc = (err (file_error io), inc, none)
  store_chunk (suc disk) m own chunk inc =
      let inc' : Incoming = record inc { chunks = insert chunk.index chunk.bytes inc.chunks } in
      record_chunk disk m own chunk.index (resume_for m inc') inc'

  abbrev pub put_received :
      Place → Text → Received → Transfers → Result ReceiveError ReceiveStatus × Transfers
  put_received place d (res, inc, written) home =
      (res, write_output place written (put_dir d inc home))

  unfoldable pub receive_chunk :
      ℕ → Text → Chunk → Transfers → Result ReceiveError ReceiveStatus × Transfers
  unfolding incoming put_dir write_output own_chunk load_received_manifest verify_chunk store_chunk
  receive_chunk disk id chunk home =
      let d = crates.dir id in
      elim (load_received_manifest (incoming d home)) [
        | err e ↦ (err (file_error e), home)
        | ok m ↦ elim (verify_chunk crates.hash m chunk) [
          | err e ↦ (err (file_error e), home)
          | ok u ↦
              let place = crates.output id m.name in
              put_received place d (store_chunk disk m (own_chunk d place) chunk (incoming d home))
                home
        ]
      ]
