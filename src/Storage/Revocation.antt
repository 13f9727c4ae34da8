-- ===== src/Storage/Revocation.antt =====
-- src/app/storage.rs: the persisted set of revoked identities.
use neonet.Base.{
  ◌≡◌, refl, Bool, true, false, [], arith, ◌==◌, list_eq, nat_eq, ◌||◌, inl, inr, List,
}
use neonet.Base.Codec.{load_or, load_or-replace}
use neonet.Base.Sets.{contains, add, contains-add}
use neonet.Base.Results.{ok}
use neonet.Base.Text.{Text}
use neonet.Identity.{PublicIdentity, fingerprint}
use neonet.Storage.Access.{authorize_intro, IsUnreadable}
use neonet.Storage.{
  Home, Crates, revoked_set, node_is_revoked, revoke_identity, authorize, read_acl,
}

module _ {Blob : Type 0} (crates : Crates Blob) where
  revoked_set-revoke :
      (disk : Bool) (id : PublicIdentity) (home : Home Blob)
      → (revoke_identity crates disk id home).0 ≡ ok tt
      → revoked_set crates (revoke_identity crates disk id home).1
        ≡ add (fingerprint crates.hex_hash id) (revoked_set crates home)
  unfolding revoke_identity
  revoked_set-revoke disk id home h =
      load_or-replace crates.names disk
        (add (fingerprint crates.hex_hash id) (revoked_set crates home)) [] home.revocations h

  -- A revocation that was written is what later checks read: exactly the identities revoked
  -- before, and those with the fingerprint of the revoked one, are revoked; no stored file changes.
  pub revoke_identity_exact :
      (disk : Bool) (id j : PublicIdentity) (home : Home Blob)
      → (revoke_identity crates disk id home).0 ≡ ok tt
      → let home' = (revoke_identity crates disk id home).1 in
        (node_is_revoked crates j home' ≡ (
          node_is_revoked crates j home
          || fingerprint crates.hex_hash id == fingerprint crates.hex_hash j))
        × (home'.files ≡ home.files)
  unfolding node_is_revoked
  revoke_identity_exact disk id j home h = (
    ground (
      arith,
      revoked_set-revoke disk id home h,
      contains-add (fingerprint crates.hex_hash j) (fingerprint crates.hex_hash id)
          (revoked_set crates home),
    ),
    unfold revoke_identity in refl,
  )

  no_one_revoked :
      (home : Home Blob) (id : PublicIdentity)
      → IsUnreadable crates home
      → node_is_revoked crates id home ≡ false
  unfolding node_is_revoked load_or contains
  no_one_revoked home id (inl gone) = rw gone
  no_one_revoked home id (inr (b, there, bad)) = ground arith

  -- A set of revocations that cannot be read or parsed revokes nobody: every identity that the
  -- reader list of a file names passes the checks, whatever was revoked before.
  pub unreadable_revocations_admit :
      (home : Home Blob) (id : PublicIdentity) (file_id : Text) (acl : List Text)
      → IsUnreadable crates home
      → read_acl crates file_id home ≡ ok acl
      → contains (fingerprint crates.hex_hash id) acl ≡ true
      → (node_is_revoked crates id home ≡ false) × (authorize crates id file_id home ≡ ok tt)
  unreadable_revocations_admit home id file_id acl bad r c =
      let free = no_one_revoked home id bad in
      (free, authorize_intro crates id file_id home acl free r c)
