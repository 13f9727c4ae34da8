-- ===== src/Identity.antt =====
-- src/identity/mod.rs: the public identity of a device. Keys are byte strings.

use neonet.Base.{Bool, true, ◌≡◌, ◌↔◌, Eq, list_eq, nat_eq, ◌==◌, ap, beq-eq, list_beq_iff}
use neonet.Base.Text.{Bytes, Text}

pub record PublicIdentity : Type 0 where
  pub public_key : Bytes

abbrev record_of : Bytes → PublicIdentity
record_of k = record { public_key = k }

abbrev pub identity_beq : PublicIdentity → PublicIdentity → Bool
identity_beq a b = a.public_key == b.public_key

pub identity_beq_iff : (a b : PublicIdentity) → (identity_beq a b ≡ true) ↔ (a ≡ b)
identity_beq_iff a b = (
  λ h. ap (λ (k : Bytes). record_of k) (beq-eq a.public_key b.public_key h),
  λ e. (list_beq_iff a.public_key b.public_key).1 (ap (λ (x : PublicIdentity). x.public_key) e),
)

instance abbrev pub identity_eq : Eq PublicIdentity
identity_eq = record { beq = identity_beq; beq_iff = identity_beq_iff }

-- `fingerprint`, over the hash of the `blake3` crate followed by `to_hex`.
unfoldable pub fingerprint : (Bytes → Text) → PublicIdentity → Text
fingerprint hex_hash id = hex_hash id.public_key
