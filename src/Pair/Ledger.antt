-- ===== src/Pair/Ledger.antt =====
-- src/pair.rs: recording a pairing adds that device to the ledger and no other, once.
use neonet.Base.Codec.{load_or, load_or-replace, replace}
use neonet.Base.{
  any-append, list_eq, nat_eq, ℕ, ◌≡◌, refl, Bool, true, false, List, [], ◌∷◌, ◌++◌, arith, ◌||◌,
  ◌==◌, Bool-cases, inl, inr, beq-eq,
}
use neonet.Pair.{
  PairedDevice, Home, Crates, names, ledger, is_paired, record_pairing, PublicIdentity, Text, ok,
  fingerprint, load_or, replace, IoError, err,
}

module _ {Blob : Type 0} (crates : Crates Blob) where
  abbrev pub print : PublicIdentity → Text
  print = fingerprint crates.hex_hash

  names-same :
      (id j : PublicIdentity) (ds : List PairedDevice)
      → print id ≡ print j
      → names crates id ds ≡ names crates j ds
  names-same id j ds e = rw e refl

  names-append :
      (id j : PublicIdentity) (now : ℕ) (ds : List PairedDevice)
      → names crates j (
          ds ++ record { fingerprint = print id; public_key = id.public_key; paired_at = now } ∷ [])
        ≡ (names crates j ds || print id == print j)
  names-append id j now ds = rw any-append (ground arith)

  present :
      (id j : PublicIdentity) (ds : List PairedDevice)
      → names crates id ds ≡ true
      → names crates j ds ≡ (names crates j ds || print id == print j)
  present id j ds h = elim (Bool-cases (print id == print j)) [
    | inl e ↦ rw (e, ← names-same id j ds (beq-eq (print id) (print j) e), h) refl
    | inr n ↦ rw n (ground arith)
  ]

  -- After a pairing that was recorded, the devices that are paired are those that were, and those
  -- with the fingerprint of this one; the pending token is as it was.
  pub record_pairing_exact :
      (disk : Bool) (now : ℕ) (id j : PublicIdentity) (home : Home Blob)
      → (record_pairing crates disk now id home).0 ≡ ok tt
      → let home' = (record_pairing crates disk now id home).1 in
        (is_paired crates j home' ≡ (is_paired crates j home || print id == print j))
        × (home'.pending ≡ home.pending)
  unfolding record_pairing is_paired ledger
  record_pairing_exact disk now id j home h =
      elim (Bool-cases (names crates id (ledger crates home))) [
        | inl e ↦ rw e (present id j (ledger crates home) e, refl)
        | inr n ↦ rw n (written n, refl)
      ]
    where
      device : PairedDevice
      device = record { fingerprint = print id; public_key = id.public_key; paired_at = now }

      written :
          names crates id (ledger crates home) ≡ false
          → names crates j (
              load_or crates.ledger []
                (replace crates.ledger disk (ledger crates home ++ device ∷ []) home.paired).1)
            ≡ (names crates j (ledger crates home) || print id == print j)
      written n =
          rw
            (load_or-replace crates.ledger disk (ledger crates home ++ device ∷ []) [] home.paired
              (ground arith))
            (names-append id j now (ledger crates home))

  -- A device that is paired is not recorded again: nothing is written.
  pub record_pairing_once :
      (disk : Bool) (now : ℕ) (id : PublicIdentity) (home : Home Blob)
      → is_paired crates id home ≡ true
      → record_pairing crates disk now id home ≡ (ok tt, home)
  unfolding record_pairing is_paired
  record_pairing_once disk now id home h = ground arith

  -- A pairing that could not be written changes nothing.
  pub record_pairing_err :
      (disk : Bool) (now : ℕ) (id : PublicIdentity) (home : Home Blob) {x : IoError}
      → (record_pairing crates disk now id home).0 ≡ err x
      → (record_pairing crates disk now id home).1 ≡ home
  unfolding record_pairing replace
  record_pairing_err disk now id home h = ground arith
