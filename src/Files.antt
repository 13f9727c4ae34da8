-- ===== src/Files.antt =====
-- src/files/mod.rs and src/files/transfer.rs: manifests, chunk verification, and transfer state.
-- The hash, the signature check and the serialiser are parameters.
pub mod Transfer
pub mod Integrity
pub mod Resume
pub mod Build
pub mod Incoming
pub mod Handler
pub mod Places
pub mod Received
pub mod Announced
mod Order
pub mod Assembled
use neonet.Base.{
  ℕ, zero, suc, ◌+◌, Bool, true, false, Option, none, some, List, [], ◌∷◌, ◌++◌, ◌==◌, list_eq,
  nat_eq, not, ◌||◌, if◌then◌else◌, get_elem?, length, is_empty, nat_beq, max, min, keep,
}
use neonet.Base.Sets.{contains}
use neonet.Base.Results.{Result, ok, err, ◌>>=◌, ◌>>◌, ok_or, is_ok}
use neonet.Base.Text.{Bytes, Text}
use neonet.Identity.{PublicIdentity}

pub record FileManifest : Type 0 where
  pub version : ℕ
  pub name : Text
  pub total_size : ℕ
  pub chunk_size : ℕ
  pub chunks : List Bytes
  pub signer : PublicIdentity
  pub signature : Bytes

pub record Chunk : Type 0 where
  pub index : ℕ
  pub hash : Bytes
  pub bytes : Bytes

pub data FileError : Type 0 where
  io codec : FileError
  hash_mismatch : ℕ → FileError
  invalid_signature invalid_index : FileError

-- `ed25519_dalek` and `postcard`, as far as manifests need them: whether the bytes of an identity
-- are a key, whether a signature is one of that key over the bytes, and the bytes of a manifest.
pub record Signing : Type 0 where
  pub is_key : PublicIdentity → Bool
  pub verify : PublicIdentity → Bytes → Bytes → Bool
  pub to_allocvec : FileManifest → Option Bytes

abbrev pub zeros : ℕ → Bytes
zeros zero = []
zeros (suc n) = 0 ∷ zeros n

-- `[0; 64]`
unfoldable pub no_signature : Bytes
no_signature = zeros 64

module _ (sig : Signing) where
  unfoldable pub unsigned_bytes : FileManifest → Result FileError Bytes
  unsigned_bytes m = ok_or (sig.to_allocvec (record m { signature = no_signature })) codec

  unfoldable pub verify_signature : FileManifest → Result FileError (Unit {0})
  unfolding unsigned_bytes
  verify_signature m = do
    if sig.is_key m.signer then ok tt else err invalid_signature
    bytes ← unsigned_bytes m
    if sig.verify m.signer bytes m.signature then ok tt else err invalid_signature

  unfoldable pub verify_manifest : FileManifest → Result FileError (Unit {0})
  unfolding verify_signature
  verify_manifest m = do verify_signature m; if is_empty m.chunks then err invalid_index else ok tt

module _ (hash : Bytes → Bytes) where
  unfoldable pub verify_chunk : FileManifest → Chunk → Result FileError (Unit {0})
  verify_chunk m c = do
    expected ← ok_or (get_elem? m.chunks c.index) invalid_index
    if not (expected == c.hash) || not (hash c.bytes == expected)
        then err (hash_mismatch c.index)
        else ok tt

pub record TransferState : Type 0 where
  pub manifest : FileManifest
  pub verified_chunks : List ℕ
  pub lost_chunks : List ℕ

unfoldable pub new_transfer : FileManifest → TransferState
new_transfer m = record { manifest = m; verified_chunks = []; lost_chunks = [] }

-- `if !v.contains(&index) { v.push(index) }`
unfoldable pub push_new : ℕ → List ℕ → List ℕ
push_new index v = if contains index v then v else v ++ index ∷ []

unfoldable pub mark_verified : ℕ → TransferState → TransferState
unfolding push_new
mark_verified index s = record s { verified_chunks = push_new index s.verified_chunks }

unfoldable pub mark_lost : ℕ → TransferState → TransferState
unfolding push_new
mark_lost index s = record s { lost_chunks = push_new index s.lost_chunks }

-- The numbers from `from`, one for each entry: `iter().enumerate()`.
abbrev pub indices_from : ℕ → List Bytes → List ℕ
indices_from from [] = []
indices_from from (h ∷ hs) = from ∷ indices_from (suc from) hs

-- An index is cast to `u32`; a manifest has fewer chunks than that, since chunks are numbered by
-- `u32`.
unfoldable pub missing : TransferState → List ℕ
missing s = keep (λ i. not (contains i s.verified_chunks)) (indices_from 0 s.manifest.chunks)

unfoldable pub complete : TransferState → Bool
complete s = nat_beq (length s.verified_chunks) (length s.manifest.chunks)
