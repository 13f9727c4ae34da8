-- ===== src/Rendezvous.antt =====
-- src/app/rendezvous.rs: the directory of live addresses, kept in `rendezvous.json`, and its handler.
-- `disk` says whether the file could be written; the clock is an argument.
pub mod Live
pub mod Signed
use neonet.Base.{
  String, ℕ, ◌+◌, Bool, true, false, Option, none, some, List, [], ◌∷◌, ◌==◌, list_eq, nat_eq, not,
  leb, ltb, min, max, keep, map, is_empty, if◌then◌else◌, ◌*◌,
}
use neonet.Base.Codec.{Codec, load_or, replace}
use neonet.Base.Maps.{Map, get, insert, retain}
use neonet.Base.Results.{Io, IoError, ok, err}
use neonet.Base.Text.{Bytes, Text}
use neonet.Identity.{PublicIdentity, fingerprint}

pub record EndpointRecord : Type 0 where
  pub identity : PublicIdentity
  pub address : Text
  pub last_seen : ℕ
  pub expires_at : ℕ

pub data RendezvousFrame : Type 0 where
  register : Text → ℕ → Bytes → RendezvousFrame
  registered : RendezvousFrame
  lookup : Text → RendezvousFrame
  lookup_result : Text → List EndpointRecord → RendezvousFrame
  list : RendezvousFrame
  list_result : List EndpointRecord → RendezvousFrame
  probe : Text → RendezvousFrame
  probe_result : Text → Bool → RendezvousFrame
  error : String → RendezvousFrame

-- What the operator is told.
pub data Notice : Type 0 where
  registered_notice : Notice
  lookup_notice : Text → List (Text × Text) → Notice
  probe_notice : Text → Bool → Notice
  error_notice : String → Notice

abbrev pub max_ttl : ℕ
max_ttl = 24 * 3600

abbrev pub default_ttl : ℕ
default_ttl = 6 * 3600

-- `(ttl_secs as u64).clamp(60, MAX_TTL)`
unfoldable pub ttl_of : ℕ → ℕ
ttl_of ttl_secs = min (max ttl_secs 60) max_ttl

abbrev pub Records : Type 0
Records = Map Text EndpointRecord

-- The serialiser of the file, the hash in hexadecimal, and the check of a signature: `none` is a
-- key that is not one.
pub record Crates (Blob : Type 0) : Type 0 where
  pub hex_hash : Bytes → Text
  pub records : Codec Records Blob
  pub verify : Bytes → Text → Bytes → Option Bool

unfoldable pub prune : Records → ℕ → Records
prune records now = retain (λ r. ltb now r.expires_at) records

-- `.filter(|(fp, _)| fp == fingerprint).map(|(_, record)| record)`
abbrev pub with_key : Text → Records → List EndpointRecord
with_key name [] = []
with_key name ((k, r) ∷ rs) = let rest = with_key name rs in if k == name then r ∷ rest else rest

abbrev pub values : Records → List EndpointRecord
values [] = []
values ((k, r) ∷ rs) = r ∷ values rs

-- `sort_by_key(|record| record.last_seen)`, which is stable
unfoldable pub put_seen : EndpointRecord → List EndpointRecord → List EndpointRecord
put_seen r [] = r ∷ []
put_seen r (x ∷ xs) =
    let rest = put_seen r xs in if leb r.last_seen x.last_seen then r ∷ x ∷ xs else x ∷ rest

unfoldable pub sort_seen : List EndpointRecord → List EndpointRecord
unfolding put_seen
sort_seen [] = []
sort_seen (r ∷ rs) = put_seen r (sort_seen rs)

abbrev pub Handled : Type 0 → Type 0
Handled Blob = Io (Option Notice) × List RendezvousFrame × Option Blob

module _ {Blob : Type 0} (crates : Crates Blob) where
  abbrev pub print : PublicIdentity → Text
  print = fingerprint crates.hex_hash

  -- `all_records`, on the file `rendezvous.json`
  unfoldable pub all_records : Option Blob → Records
  all_records file = load_or crates.records [] file

  -- `register`
  unfoldable pub enroll :
      Bool → ℕ → PublicIdentity → Text → ℕ → Option Blob → Io (Unit {0}) × Option Blob
  unfolding all_records prune
  enroll disk now identity address ttl_secs file =
      let entry : EndpointRecord = record {
        identity = identity;
        address = address;
        last_seen = now;
        expires_at = now + ttl_of ttl_secs;
      } in
      let records = prune (insert (print identity) entry (all_records file)) now in
      replace crates.records disk records file

  -- `lookup`
  unfoldable pub candidates : ℕ → Text → Option Blob → List EndpointRecord
  unfolding all_records prune
  candidates now name file = with_key name (prune (all_records file) now)

  -- `list`
  unfoldable pub live : ℕ → Option Blob → List EndpointRecord
  unfolding all_records prune sort_seen
  live now file = sort_seen (values (prune (all_records file) now))

  on_enrolled : Io (Unit {0}) × Option Blob → Handled Blob
  on_enrolled (ok u, file) = (ok none, registered ∷ [], file)
  on_enrolled (err e, file) = (err e, [], file)

  on_signature : Option Bool → Bool → ℕ → PublicIdentity → Text → ℕ → Option Blob → Handled Blob
  unfolding on_enrolled
  on_signature none disk now sender address ttl_secs file =
      (ok none, error "bad caller key" ∷ [], file)
  on_signature (some false) disk now sender address ttl_secs file =
      (ok none, error "registration signature invalid" ∷ [], file)
  on_signature (some true) disk now sender address ttl_secs file =
      on_enrolled (enroll disk now sender address ttl_secs file)

  -- `handle`: the result, the frames sent back, and the file.
  unfoldable pub handle : Bool → ℕ → PublicIdentity → RendezvousFrame → Option Blob → Handled Blob
  unfolding on_signature candidates live
  handle disk now sender (register address ttl_secs signature) file =
      on_signature (crates.verify sender.public_key address signature) disk now sender address
        ttl_secs file
  handle disk now sender (lookup name) file =
      (ok none, lookup_result name (candidates now name file) ∷ [], file)
  handle disk now sender list file = (ok none, list_result (live now file) ∷ [], file)
  handle disk now sender (probe name) file =
      (ok none, probe_result name (not (is_empty (candidates now name file))) ∷ [], file)
  handle disk now sender registered file = (ok (some registered_notice), [], file)
  handle disk now sender (list_result records) file = (ok none, [], file)
  handle disk now sender (lookup_result name found) file =
      (ok (some (lookup_notice name (map (λ c. (print c.identity, c.address)) found))), [], file)
  handle disk now sender (probe_result name alive) file =
      (ok (some (probe_notice name alive)), [], file)
  handle disk now sender (error message) file = (ok (some (error_notice message)), [], file)

-- `register_frame_with_ttl`, with the signer of the local identity
abbrev pub register_frame_with_ttl : (Text → Bytes) → Text → ℕ → RendezvousFrame
register_frame_with_ttl sign address ttl_secs = register address ttl_secs (sign address)

abbrev pub register_frame : (Text → Bytes) → Text → RendezvousFrame
register_frame sign address = register_frame_with_ttl sign address default_ttl
