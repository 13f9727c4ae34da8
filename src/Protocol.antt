-- ===== src/Protocol.antt =====
-- src/protocol/mod.rs: versions, features, and the signed challenge. `postcard` and `ed25519_dalek`
-- are the record Crates; random bytes are arguments.
pub mod Negotiation
use neonet.Base.Sets.{contains}
use neonet.Base.{
  Bool, List, Option, [], false, if◌then◌else◌, keep, list_eq, min, nat_eq, none, not, some, true,
  ℕ, ◌++◌, ◌==◌, ◌∷◌, ◌≡◌,
}
use neonet.Base.Text.{Bytes, Text, text_lt}
use neonet.Base.Results.{Result, err, ok}
use neonet.Base.Codec.{Codec}
use neonet.Identity.{PublicIdentity}

pub record ProtocolVersion : Type 0 where
  pub major : ℕ
  pub minor : ℕ

pub record Hello : Type 0 where
  pub version : ProtocolVersion
  pub features : List Text
  pub identity : PublicIdentity
  pub session_id : Bytes

pub record Challenge : Type 0 where
  pub nonce : Bytes

pub record SignatureMessage : Type 0 where
  pub signature : Bytes

pub record NegotiatedProtocol : Type 0 where
  pub version : ProtocolVersion
  pub features : List Text

pub data ProtocolError : Type 0 where
  major_mismatch : ℕ → ℕ → ProtocolError
  invalid_signature : ProtocolError

-- `Identity`: its public half, and the signing with the secret one.
pub record Identity : Type 0 where
  pub public : PublicIdentity
  pub sign : Bytes → Bytes

pub record Crates (Key : Type 0) : Type 0 where
  pub hello_codec : Codec Hello Bytes
  pub challenge_codec : Codec Challenge Bytes
  pub signature_codec : Codec SignatureMessage Bytes
  pub verifying_key : PublicIdentity → Option Key
  pub verify : Key → Bytes → Bytes → Bool

abbrev pub protocol_version : ProtocolVersion
protocol_version = record { major = 1; minor = 0 }

unfoldable pub new_hello : Identity → List Text → Bytes → Hello
new_hello id features session_id = record {
  version = protocol_version;
  features = features;
  identity = id.public;
  session_id = session_id;
}

-- `Vec::sort` on strings, as an insertion sort.
unfoldable pub sort_in : Text → List Text → List Text
sort_in x [] = x ∷ []
sort_in x (y ∷ ys) = let rest = sort_in x ys in if text_lt y x then y ∷ rest else x ∷ y ∷ ys

unfoldable pub sort : List Text → List Text
unfolding sort_in
sort [] = []
sort (x ∷ xs) = sort_in x (sort xs)

unfoldable pub common : List Text → List Text → List Text
common local_features remote_features = keep (λ f. contains f remote_features) local_features

unfoldable pub negotiate :
    ProtocolVersion
    → List Text
    → ProtocolVersion
    → List Text
    → Result ProtocolError NegotiatedProtocol
unfolding sort common
negotiate local local_features remote remote_features =
    if not (local.major == remote.major)
    then err (major_mismatch local.major remote.major)
    else ok (record {
      version = record { major = local.major; minor = min local.minor remote.minor };
      features = sort (common local_features remote_features);
    })

module _ {Key : Type 0} (crates : Crates Key) where
  -- `none` is the panic of `expect`.
  unfoldable pub challenge_payload : Hello → Challenge → Option Bytes
  challenge_payload hello challenge = elim (crates.hello_codec.encode hello) [
    | none ↦ none
    | some bytes ↦ some (bytes ++ challenge.nonce)
  ]

  unfoldable pub sign_challenge : Identity → Hello → Challenge → Option SignatureMessage
  unfolding challenge_payload
  sign_challenge id hello challenge = elim (challenge_payload hello challenge) [
    | none ↦ none
    | some payload ↦ some (record { signature = id.sign payload })
  ]

  -- The signature of `signer` over a payload.
  unfoldable pub verifies : PublicIdentity → Bytes → SignatureMessage → Bool
  verifies signer payload message = elim (crates.verifying_key signer) [
    | none ↦ false
    | some key ↦ crates.verify key payload message.signature
  ]

  unfoldable pub verify_challenge :
      Hello
      → Challenge
      → PublicIdentity
      → SignatureMessage
      → Option (Result ProtocolError (Unit {0}))
  unfolding challenge_payload verifies
  verify_challenge payload_hello payload_challenge signer message =
      elim (challenge_payload payload_hello payload_challenge) [
        | none ↦ none
        | some payload ↦
            if verifies signer payload message then some (ok tt) else some (err invalid_signature)
      ]

  -- What an identity signs verifies under its public half.
  unfoldable pub Signs : Identity → Type 0
  Signs id =
      (payload : Bytes) → verifies id.public payload (record { signature = id.sign payload }) ≡ true
