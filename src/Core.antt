-- ===== src/Core.antt =====
-- src/core/mod.rs and src/core/replication.rs: content-addressed chunks, access control,
-- revocation, and the reconciliation plan of two cores. `blake3` is the parameter `hash`.
pub mod Chunks
pub mod Access
pub mod Reconcile
pub mod Handler
pub mod Operators
use neonet.Base.{
  ℕ, ◌+◌, Bool, true, false, Option, none, some, List, [], ◌∷◌, ◌==◌, list_eq, nat_eq, not, ◌||◌,
  keep, if◌then◌else◌,
}
use neonet.Base.Maps.{Map, get, insert, contains_key}
use neonet.Base.Sets.{contains, add}
use neonet.Base.Results.{Io, ok, err, io_error, permission_denied, not_found, ok_or}
use neonet.Base.Text.{Bytes}
use neonet.Identity.{PublicIdentity, identity_eq}

pub record Acl : Type 0 where
  pub readers : List PublicIdentity

unfoldable pub allows : Acl → PublicIdentity → Bool
allows acl identity = contains identity acl.readers

pub record ChunkIndex : Type 0 where
  pub chunks : Map Bytes Bytes

unfoldable pub chunk : ChunkIndex → Bytes → Option Bytes
chunk index hash = get hash index.chunks

-- `entry(hash).or_insert(bytes)`
unfoldable pub or_insert : Bytes → Bytes → Map Bytes Bytes → Map Bytes Bytes
or_insert key bytes chunks = if contains_key key chunks then chunks else insert key bytes chunks

module _ (hash : Bytes → Bytes) where
  unfoldable pub insert_chunk : Bytes → Bytes → ChunkIndex → ChunkIndex × Bool
  unfolding or_insert
  insert_chunk key bytes index =
      if not (hash bytes == key)
      then (index, false)
      else (record { chunks = or_insert key bytes index.chunks }, true)

pub record RevocationState : Type 0 where
  pub revoked : List PublicIdentity
  pub epoch : ℕ

-- The epoch is a `u64`, whose overflow panics; the model counts on.
unfoldable pub revoke : PublicIdentity → RevocationState → RevocationState
revoke id s = record { revoked = add id s.revoked; epoch = s.epoch + 1 }

unfoldable pub is_revoked : PublicIdentity → RevocationState → Bool
is_revoked id s = contains id s.revoked

pub record CoreNode : Type 0 where
  pub identity : PublicIdentity
  pub chunks : ChunkIndex
  pub revocations : RevocationState

unfoldable pub new_core : PublicIdentity → CoreNode
new_core identity = record {
  identity = identity;
  chunks = record { chunks = [] };
  revocations = record { revoked = []; epoch = 0 };
}

unfoldable pub read_chunk : CoreNode → PublicIdentity → Acl → Bytes → Io Bytes
unfolding allows chunk is_revoked
read_chunk node requester acl hash =
    if is_revoked requester node.revocations || not (allows acl requester)
    then err (io_error permission_denied "access denied")
    else ok_or (chunk node.chunks hash) (io_error not_found "chunk not found")

-- `ReconcilePlan::missing`: the hashes of the remote side that are not held here.
unfoldable pub plan : ChunkIndex → List Bytes → List Bytes
unfolding chunk
plan local remote_hashes = keep (λ h. not (contains_key h local.chunks)) remote_hashes
