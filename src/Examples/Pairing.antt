-- ===== src/Examples/Pairing.antt =====
-- Runs of src/pair.rs and src/app/pair.rs.
use neonet.Base.{
  ℕ, ◌+◌, ◌≡◌, ◌≢◌, ◌≤◌, ◌<◌, refl, Bool, true, false, Option, none, some, List, [], ◌∷◌, arith,
  ◌||◌, ◌==◌, list_eq, nat_eq, ◌⊎◌, inl, inr,
}
use neonet.Base.Codec.{Codec}
use neonet.Base.Results.{ok}
use neonet.Base.Text.{Text}
use neonet.Pair.{
  PairedDevice, PendingToken, Home, Crates, consume_token, pending_token, record_pairing, is_paired,
  redeem, handle,
}
use neonet.Pair.Ledger.{print}
use neonet.Pair.Redeem.{handle_pairs_only}
use neonet.Pair.Token.{consume_token_once}
use neonet.Examples.Wire.{alice}

-- A file holds a token or a ledger.
pub data Blob : Type 0 where
  of_token : PendingToken → Blob
  of_ledger : List PairedDevice → Blob

abbrev to_token : Blob → Option PendingToken
to_token (of_token t) = some t
to_token (of_ledger l) = none

abbrev to_ledger : Blob → Option (List PairedDevice)
to_ledger (of_token t) = none
to_ledger (of_ledger l) = some l

token_law : (a : PendingToken) (b : Blob) → some (of_token a) ≡ some b → to_token b ≡ some a
token_law a b h = ground arith

ledger_law : (a : List PairedDevice) (b : Blob) → some (of_ledger a) ≡ some b → to_ledger b ≡ some a
ledger_law a b h = ground arith

abbrev crates : Crates Blob
crates = record {
  hex_hash = λ b. b;
  token = record { encode = λ a. some (of_token a); decode = to_token; decode-encode = token_law };
  ledger = record {
    encode = λ a. some (of_ledger a);
    decode = to_ledger;
    decode-encode = ledger_law;
  };
}

abbrev token : Text
token = 7 ∷ 7 ∷ []

abbrev pending : PendingToken
pending = record { token = token; expires_at = 220; used = false }

abbrev home : Home Blob
home = record { pending = some (of_token pending); paired = none }

consume_token_once_example :
    let home' = (consume_token crates true 100 token home).1 in
    consume_token crates true 101 token home' ≡ (ok false, home')
unfolding consume_token pending_token neonet.Base.Codec.replace
consume_token_once_example = consume_token_once crates true true 100 101 token token home refl

handle_pairs_only_example :
    (p : PendingToken) × (redeem token ≡ redeem p.token)
    × (pending_token crates home ≡ some p)
    × (p.used ≡ false)
    × (100 < p.expires_at)
    × (print crates alice ≡ print crates alice)
unfolding is_paired neonet.Base.Codec.load_or handle consume_token pending_token
    neonet.Base.Codec.replace record_pairing neonet.Identity.fingerprint
handle_pairs_only_example =
    handle_pairs_only crates true true 100 alice alice (redeem token) home refl refl
