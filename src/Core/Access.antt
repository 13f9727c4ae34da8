-- ===== src/Core/Access.antt =====
-- src/core/mod.rs, `read_chunk`: who reads what, and revocation.
use neonet.Base.{◌<◌, ◌≡◌, ◌↔◌, true, false, some, arith, ◌==◌, beq_refl, ◌||◌}
use neonet.Base.Results.{ok, err, io_error, permission_denied}
use neonet.Base.Sets.{contains-add, add}
use neonet.Base.Text.{Bytes}
use neonet.Identity.{PublicIdentity, identity_eq}
use neonet.Core.{Acl, allows, CoreNode, chunk, RevocationState, revoke, is_revoked, read_chunk}

-- A read gives data exactly if the requester is not revoked, the list of readers names it, and
-- that data is the chunk held under the hash.
pub read_chunk_iff :
    (node : CoreNode) (requester : PublicIdentity) (acl : Acl) (hash bytes : Bytes)
    → (read_chunk node requester acl hash ≡ ok bytes) ↔ (
        (is_revoked requester node.revocations ≡ false)
        × (allows acl requester ≡ true)
        × (chunk node.chunks hash ≡ some bytes))
unfolding read_chunk
read_chunk_iff node requester acl hash bytes = ground arith

-- Revoking an identity revokes it, takes no other revocation back, and moves the epoch on.
pub revoke_exact :
    (id j : PublicIdentity) (s : RevocationState)
    → (is_revoked j (revoke id s) ≡ (is_revoked j s || id == j)) × (s.epoch < (revoke id s).epoch)
unfolding revoke is_revoked
revoke_exact id j s = (contains-add j id s.revoked, omega arith)

-- Once revoked, an identity is denied every read, whatever the list of readers and whatever is
-- revoked afterwards.
pub revoked_denied :
    (node : CoreNode) (id later : PublicIdentity) (acl : Acl) (hash : Bytes)
    → let s = revoke later (revoke id node.revocations) in
      read_chunk (record node { revocations = s }) id acl hash
      ≡ err (io_error permission_denied "access denied")
unfolding read_chunk is_revoked revoke
revoked_denied node id later acl hash = ground (
  arith,
  contains-add id later (add id node.revocations.revoked),
  contains-add id id node.revocations.revoked,
  beq_refl id,
)
