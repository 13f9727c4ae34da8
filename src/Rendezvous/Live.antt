-- ===== src/Rendezvous/Live.antt =====
-- src/app/rendezvous.rs: what a lookup finds after a registration, and that it is live.
use neonet.Base.{
  ℕ, ◌+◌, ◌≤◌, ◌≡◌, refl, true, false, List, [], ◌∷◌, arith, ltb, length, all, keep, ◌==◌, list_eq,
  nat_eq, if◌then◌else◌, ◌&&◌, Bool, Option, list_beq_iff, beq_refl,
}
use neonet.Base.Codec.{load_or-replace, replace_err}
use neonet.Base.Maps.{insert, retain}
use neonet.Base.Results.{ok, IoError, err}
use neonet.Rendezvous.{
  EndpointRecord, Records, Crates, ttl_of, prune, with_key, values, put_seen, sort_seen, print,
  all_records, enroll, candidates, live, Text, PublicIdentity,
}

-- No record has expired.
abbrev pub is_live : ℕ → EndpointRecord → Bool
is_live now r = ltb now r.expires_at

with_key-prune :
    (name : Text) (m : Records) (now : ℕ)
    → with_key name (prune m now) ≡ keep (is_live now) (with_key name m)
unfolding prune retain
with_key-prune name [] now = refl
with_key-prune name ((k, r) ∷ m) now = ground (arith, with_key-prune name m now)

pub with_key-insert_ne :
    (name k : Text) (v : EndpointRecord) (m : Records)
    → (k == name) ≡ false
    → with_key name (insert k v m) ≡ with_key name m
unfolding insert
with_key-insert_ne name k v [] h = ground arith
with_key-insert_ne name k v ((j, r) ∷ m) h =
    ground (arith, with_key-insert_ne name k v m h, list_beq_iff j k)

no_records : (rs : List EndpointRecord) → length rs ≤ 0 → rs ≡ []
no_records [] h = refl
no_records (r ∷ rs) h = absurd (omega arith)

with_key-insert_self :
    (k : Text) (v : EndpointRecord) (m : Records)
    → length (with_key k m) ≤ 1
    → with_key k (insert k v m) ≡ v ∷ []
unfolding insert
with_key-insert_self k v [] h = ground (arith, beq_refl k)
with_key-insert_self k v ((j, r) ∷ m) h =
    ground (arith, beq_refl k, with_key-insert_self k v m, no_records (with_key k m))

keep_later :
    (now now' : ℕ) (rs : List EndpointRecord)
    → now ≤ now'
    → keep (is_live now') (keep (is_live now) rs) ≡ keep (is_live now') rs
keep_later now now' [] h = refl
keep_later now now' (r ∷ rs) h = ground (arith, keep_later now now' rs h)

all-keep : (now : ℕ) (rs : List EndpointRecord) → all (is_live now) (keep (is_live now) rs) ≡ true
all-keep now [] = refl
all-keep now (r ∷ rs) = ground (arith, all-keep now rs)

all-values : (now : ℕ) (m : Records) → all (is_live now) (values (prune m now)) ≡ true
unfolding prune retain
all-values now [] = refl
all-values now ((k, r) ∷ m) = ground (arith, all-values now m)

all-put_seen :
    (now : ℕ) (r : EndpointRecord) (rs : List EndpointRecord)
    → all (is_live now) (put_seen r rs) ≡ (is_live now r && all (is_live now) rs)
unfolding put_seen
all-put_seen now r [] = refl
all-put_seen now r (x ∷ xs) = ground (arith, all-put_seen now r xs)

all-sort_seen :
    (now : ℕ) (rs : List EndpointRecord) → all (is_live now) (sort_seen rs) ≡ all (is_live now) rs
unfolding sort_seen
all-sort_seen now [] = refl
all-sort_seen now (r ∷ rs) = rw (all-put_seen, all-sort_seen now rs) refl

-- The record of a registration.
abbrev pub entry : ℕ → ℕ → PublicIdentity → Text → EndpointRecord
entry now ttl_secs id address = record {
  identity = id;
  address = address;
  last_seen = now;
  expires_at = now + ttl_of ttl_secs;
}

module _ {Blob : Type 0} (crates : Crates Blob) where
  pub candidates-keep :
      (file : Option Blob) (now : ℕ) (name : Text)
      → candidates crates now name file
        ≡ keep (is_live now) (with_key name (all_records crates file))
  unfolding candidates
  candidates-keep file now name = with_key-prune name (all_records crates file) now

  -- Neither a lookup nor the list of all records gives one that has expired.
  pub expired_never_shown :
      (file : Option Blob) (now : ℕ) (name : Text)
      → (all (is_live now) (candidates crates now name file) ≡ true)
        × (all (is_live now) (live crates now file) ≡ true)
  unfolding live
  expired_never_shown file now name =
      (rw candidates-keep (all-keep now _), rw all-sort_seen (all-values now _))

  all_records-enroll :
      (file : Option Blob) (disk : Bool) (now ttl_secs : ℕ) (id : PublicIdentity) (address : Text)
      → (enroll crates disk now id address ttl_secs file).0 ≡ ok tt
      → all_records crates (enroll crates disk now id address ttl_secs file).1
        ≡ prune
            (insert (print crates id) (entry now ttl_secs id address) (all_records crates file))
            now
  unfolding enroll all_records
  all_records-enroll file disk now ttl_secs id address h =
      load_or-replace crates.records disk _ [] file h

  pub enroll_err :
      (file : Option Blob) (disk : Bool) (now ttl_secs : ℕ) (id : PublicIdentity) (address : Text)
      {x : IoError}
      → (enroll crates disk now id address ttl_secs file).0 ≡ err x
      → (enroll crates disk now id address ttl_secs file).1 ≡ file
  unfolding enroll
  enroll_err file disk now ttl_secs id address h = replace_err crates.records disk _ file h

  pub later_candidates :
      (file : Option Blob) (disk : Bool) (now now' ttl_secs : ℕ) (id : PublicIdentity)
      (address name : Text)
      → now ≤ now'
      → (enroll crates disk now id address ttl_secs file).0 ≡ ok tt
      → candidates crates now' name (enroll crates disk now id address ttl_secs file).1
        ≡ keep (is_live now') (
            with_key name
              (insert (print crates id) (entry now ttl_secs id address) (all_records crates file)))
  later_candidates file disk now now' ttl_secs id address name later h =
      rw
        (
          candidates-keep,
          all_records-enroll file disk now ttl_secs id address h,
          with_key-prune,
          keep_later now now' _ later,
        )
        refl

  -- A registration that was written is found under its fingerprint, alone, from then on until its
  -- expiry, and no longer; the table held at most one record of that fingerprint before, as a
  -- `HashMap` does.
  pub enroll_then_candidates :
      (file : Option Blob) (disk : Bool) (now now' ttl_secs : ℕ) (id : PublicIdentity)
      (address : Text)
      → length (with_key (print crates id) (all_records crates file)) ≤ 1
      → now ≤ now'
      → (enroll crates disk now id address ttl_secs file).0 ≡ ok tt
      → candidates crates now' (print crates id) (enroll crates disk now id address ttl_secs file).1
        ≡ (if ltb now' (now + ttl_of ttl_secs) then entry now ttl_secs id address ∷ [] else [])
  enroll_then_candidates file disk now now' ttl_secs id address one later h =
      rw
        (
          later_candidates file disk now now' ttl_secs id address (print crates id) later h,
          with_key-insert_self (print crates id) (entry now ttl_secs id address)
              (all_records crates file) one,
        )
        (ground arith)
