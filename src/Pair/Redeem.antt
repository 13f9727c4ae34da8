-- ===== src/Pair/Redeem.antt =====
-- src/app/pair.rs: the handler pairs the sender that presents a good token, and nobody else.
use neonet.Base.{
  ◌==◌, ◌≡◌, ◌<◌, list_eq, nat_eq, ℕ, Bool, true, false, some, arith, refl, Bool-cases, ap, sym,
  inl, beq-eq, inr,
}
use neonet.Pair.Token.{consume_token_sound, paired-consume_token}
use neonet.Pair.Ledger.{print, record_pairing_err, record_pairing_exact}
use neonet.Pair.{
  PendingToken, PairFrame, redeem, handle, Crates, PublicIdentity, Home, is_paired, pending_token,
  record_redeemed, on_consumed, Io, record_pairing, ok, err, consume_token, redeemed, error, ledger,
}

module _ {Blob : Type 0} (crates : Crates Blob) where
  paired_changes :
      (res : Io (Unit {0})) (disk : Bool) (now : ℕ) (sender j : PublicIdentity) (home : Home Blob)
      → (record_pairing crates disk now sender home).0 ≡ res
      → is_paired crates j
          (record_redeemed crates res sender (record_pairing crates disk now sender home).1).2
        ≡ true
      → is_paired crates j home ≡ false
      → print crates sender ≡ print crates j
  unfolding record_redeemed
  paired_changes (ok u) disk now sender j home e after before =
      let (exact, kept) = record_pairing_exact crates disk now sender j home e in
      elim (Bool-cases (print crates sender == print crates j)) [
        | inl same ↦ beq-eq (print crates sender) (print crates j) same
        | inr n ↦ absurd (ground arith)
      ]
  paired_changes (err x) disk now sender j home e after before =
      absurd (ground (arith, record_pairing_err crates disk now sender home e))

  consumed_pairs :
      (res : Io Bool) (disk : Bool) (now : ℕ) (sender j : PublicIdentity) (home : Home Blob)
      → is_paired crates j (on_consumed crates res disk now sender home).2 ≡ true
      → is_paired crates j home ≡ false
      → (res ≡ ok true) × (print crates sender ≡ print crates j)
  unfolding on_consumed
  consumed_pairs (ok true) disk now sender j home after before = (
    refl,
    paired_changes (record_pairing crates disk now sender home).0 disk now sender j home refl after
        before,
  )
  consumed_pairs (ok false) disk now sender j home after before = absurd (ground arith)
  consumed_pairs (err e) disk now sender j home after before = absurd (ground arith)

  -- Whatever frame is handled, whoever sends it, a device that is paired afterwards and was not
  -- before has the sender's fingerprint, and the frame presented the pending token, unused and
  -- before its expiry.
  pub handle_pairs_only :
      (disk1 disk2 : Bool) (now : ℕ) (sender j : PublicIdentity) (frame : PairFrame)
      (home : Home Blob)
      → is_paired crates j (handle crates disk1 disk2 now sender frame home).2 ≡ true
      → is_paired crates j home ≡ false
      → (p : PendingToken) × (frame ≡ redeem p.token)
        × (pending_token crates home ≡ some p)
        × (p.used ≡ false)
        × (now < p.expires_at)
        × (print crates sender ≡ print crates j)
  unfolding handle is_paired ledger
  handle_pairs_only disk1 disk2 now sender j (redeem token) home after before =
      let res = consume_token crates disk1 now token home in
      let (good, same) =
        consumed_pairs res.0 disk2 now sender j res.1 after
          (rw (paired-consume_token crates disk1 now token home) before) in
      let r = consume_token_sound crates disk1 now token home good in
      (r.was, ap redeem (sym r.right), r.pending, r.fresh, r.in_time, same)
  handle_pairs_only disk1 disk2 now sender j (redeemed name) home after before =
      absurd (ground arith)
  handle_pairs_only disk1 disk2 now sender j (error message) home after before =
      absurd (ground arith)
