-- ===== src/Pair.antt =====
-- src/pair.rs and src/app/pair.rs: the single-use pairing token, the ledger of paired devices, and
-- the handler of a redemption. `pair.json` and `paired.json` are files that may be absent; `disk`
-- says whether a write to one of them succeeds. The clock is an argument.
pub mod Token
pub mod Ledger
pub mod Redeem
use neonet.Base.{
  String, ℕ, ◌+◌, Bool, true, false, Option, none, some, List, [], ◌∷◌, ◌++◌, ◌==◌, list_eq, nat_eq,
  not, ◌||◌, ltb, leb, any, if◌then◌else◌, min, max,
}
use neonet.Base.Codec.{Codec, load_or, replace}
use neonet.Base.Results.{Io, IoError, ok, err}
use neonet.Base.Text.{Bytes, Text}
use neonet.Identity.{PublicIdentity, fingerprint}

pub record PairedDevice : Type 0 where
  pub fingerprint : Text
  pub public_key : Bytes
  pub paired_at : ℕ

pub record PendingToken : Type 0 where
  pub token : Text
  pub expires_at : ℕ
  pub used : Bool

abbrev pub default_ttl_secs : ℕ
default_ttl_secs = 120

abbrev pub max_ttl_secs : ℕ
max_ttl_secs = 600

-- `pair.json` and `paired.json`
pub record Home (Blob : Type 0) : Type 0 where
  pub pending : Option Blob
  pub paired : Option Blob

-- The serialisers of the two files, and the hash in hexadecimal.
pub record Crates (Blob : Type 0) : Type 0 where
  pub hex_hash : Bytes → Text
  pub token : Codec PendingToken Blob
  pub ledger : Codec (List PairedDevice) Blob

abbrev pub chosen_ttl : Option ℕ → ℕ
chosen_ttl none = default_ttl_secs
chosen_ttl (some ttl) = ttl

-- `.clamp(1, MAX_TTL_SECS)`
unfoldable pub ttl_of : Option ℕ → ℕ
ttl_of ttl_secs = min (max (chosen_ttl ttl_secs) 1) max_ttl_secs

module _ {Blob : Type 0} (crates : Crates Blob) where
  unfoldable pub write_pending : Bool → PendingToken → Home Blob → Io (Unit {0}) × Home Blob
  write_pending disk pending home =
      let (res, file) = replace crates.token disk pending home.pending in
      (res, record home { pending = file })

  -- `issue_token`, with the random token.
  unfoldable pub issue_token : Bool → ℕ → Text → Option ℕ → Home Blob → Io Text × Home Blob
  unfolding write_pending ttl_of
  issue_token disk now token ttl_secs home =
      let pending : PendingToken = record {
        token = token;
        expires_at = now + ttl_of ttl_secs;
        used = false;
      } in
      let (res, home') = write_pending disk pending home in
      (elim res [ ok u ↦ ok token | err e ↦ err e ], home')

  -- The pending token that `pair.json` holds.
  unfoldable pub pending_token : Home Blob → Option PendingToken
  pending_token home = elim home.pending [ none ↦ none | some b ↦ crates.token.decode b ]

  consume_found : Option PendingToken → Bool → ℕ → Text → Home Blob → Io Bool × Home Blob
  unfolding write_pending
  consume_found none disk now token home = (ok false, home)
  consume_found (some p) disk now token home =
      let (res, home') = write_pending disk (record p { used = true }) home in
      if p.used || leb p.expires_at now || not (p.token == token)
      then (ok false, home)
      else (elim res [ ok u ↦ ok true | err e ↦ err e ], home')

  unfoldable pub consume_token : Bool → ℕ → Text → Home Blob → Io Bool × Home Blob
  unfolding consume_found
  consume_token disk now token home = consume_found (pending_token home) disk now token home

  unfoldable pub ledger : Home Blob → List PairedDevice
  ledger home = load_or crates.ledger [] home.paired

  -- `.any(|record| record.fingerprint == identity.fingerprint())`
  abbrev pub names : PublicIdentity → List PairedDevice → Bool
  names id = any (λ d. d.fingerprint == fingerprint crates.hex_hash id)

  unfoldable pub is_paired : PublicIdentity → Home Blob → Bool
  unfolding ledger
  is_paired id home = names id (ledger home)

  unfoldable pub record_pairing : Bool → ℕ → PublicIdentity → Home Blob → Io (Unit {0}) × Home Blob
  unfolding ledger
  record_pairing disk now id home =
      let device : PairedDevice = record {
        fingerprint = fingerprint crates.hex_hash id;
        public_key = id.public_key;
        paired_at = now;
      } in
      let (res, file) = replace crates.ledger disk (ledger home ++ device ∷ []) home.paired in
      if names id (ledger home) then (ok tt, home) else (res, record home { paired = file })

-- `paired_devices`: by the time of pairing, in a stable order.
unfoldable pub put_paired : PairedDevice → List PairedDevice → List PairedDevice
put_paired d [] = d ∷ []
put_paired d (e ∷ es) = if leb d.paired_at e.paired_at then d ∷ e ∷ es else e ∷ put_paired d es

unfoldable pub sort_paired : List PairedDevice → List PairedDevice
unfolding put_paired
sort_paired [] = []
sort_paired (d ∷ ds) = put_paired d (sort_paired ds)

pub data PairFrame : Type 0 where
  redeem : Text → PairFrame
  redeemed : Text → PairFrame
  error : String → PairFrame

-- What the operator is told.
pub data PairNotice : Type 0 where
  paired : Text → PairNotice
  pairing_error : String → PairNotice

-- The result of the handler, the frames sent back, and the files.
abbrev pub Handled : Type 0 → Type 0
Handled Blob = Io (Option PairNotice) × List PairFrame × Home Blob

module _ {Blob : Type 0} (crates : Crates Blob) where
  record_redeemed : Io (Unit {0}) → PublicIdentity → Home Blob → Handled Blob
  record_redeemed (err e) sender home = (err e, [], home)
  record_redeemed (ok u) sender home =
      let name = fingerprint crates.hex_hash sender in
      (ok (some (paired name)), redeemed name ∷ [], home)

  on_consumed : Io Bool → Bool → ℕ → PublicIdentity → Home Blob → Handled Blob
  unfolding record_redeemed
  on_consumed (ok true) disk now sender home =
      let (res, home') = record_pairing crates disk now sender home in
      record_redeemed res sender home'
  on_consumed (ok false) disk now sender home =
      (ok none, error "token is invalid, expired, or already used" ∷ [], home)
  on_consumed (err e) disk now sender home = (ok none, error "could not consume token" ∷ [], home)

  -- `handle`: the two flags are the writes of the token and of the ledger.
  unfoldable pub handle : Bool → Bool → ℕ → PublicIdentity → PairFrame → Home Blob → Handled Blob
  unfolding on_consumed
  handle disk1 disk2 now sender (redeem token) home =
      let (res, home') = consume_token crates disk1 now token home in
      on_consumed res disk2 now sender home'
  handle disk1 disk2 now sender (redeemed name) home = (ok none, [], home)
  handle disk1 disk2 now sender (error message) home = (ok (some (pairing_error message)), [], home)
