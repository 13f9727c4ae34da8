-- ===== src/Rendezvous/Signed.antt =====
-- src/app/rendezvous.rs: who can change which record.
use neonet.Base.{
  Bool, Option, [], ◌∷◌, inl, inr, refl, sym, beq-ne, list_eq, nat_eq, some, none, true, false,
  String, ◌≢◌, ℕ, ◌≤◌, ◌≡◌, Option, Bool, ◌≢◌, some, true, none, String, refl, false,
}
use neonet.Base.Results.{Io, ok, err, Result-cases}
use neonet.Rendezvous.{
  on_enrolled, on_signature, register, registered, lookup, lookup_result, list, list_result, probe,
  probe_result, error, Crates, RendezvousFrame, handle, candidates, print, all_records, enroll,
  PublicIdentity, Text, on_enrolled, on_signature, register, Bytes, Io, lookup, ok, lookup_result,
  err, list_result, probe, error, probe_result,
}
use neonet.Rendezvous.Live.{
  candidates-keep, entry, later_candidates, with_key-insert_ne, enroll_err,
}

module _ {Blob : Type 0} (crates : Crates Blob) where
  enrolled_others :
      (file : Option Blob) (disk : Bool) (now now' ttl_secs : ℕ) (id : PublicIdentity)
      (address name : Text)
      → now ≤ now'
      → name ≢ print crates id
      → candidates crates now' name (enroll crates disk now id address ttl_secs file).1
        ≡ candidates crates now' name file
  enrolled_others file disk now now' ttl_secs id address name later other =
      elim (Result-cases (enroll crates disk now id address ttl_secs file).0) [
        | inl (u, h) ↦
            rw
              (
                later_candidates crates file disk now now' ttl_secs id address name later h,
                with_key-insert_ne name (print crates id) (entry now ttl_secs id address)
                    (all_records crates file) (beq-ne (print crates id) name (λ e. other (sym e))),
                candidates-keep,
              )
              refl
        | inr (x, h) ↦ rw (enroll_err crates file disk now ttl_secs id address h) refl
      ]

  file-on_enrolled : (r : Io (Unit {0}) × Option Blob) → (on_enrolled crates r).2 ≡ r.1
  unfolding on_enrolled
  file-on_enrolled (ok u, file) = refl
  file-on_enrolled (err e, file) = refl

  signature_others :
      (valid : Option Bool) (file : Option Blob) (disk : Bool) (now now' ttl_secs : ℕ)
      (id : PublicIdentity) (address name : Text)
      → now ≤ now'
      → name ≢ print crates id
      → candidates crates now' name (on_signature crates valid disk now id address ttl_secs file).2
        ≡ candidates crates now' name file
  unfolding on_signature
  signature_others none file disk now now' ttl_secs id address name later other = refl
  signature_others (some false) file disk now now' ttl_secs id address name later other = refl
  signature_others (some true) file disk now now' ttl_secs id address name later other =
      rw file-on_enrolled (enrolled_others file disk now now' ttl_secs id address name later other)

  -- Whatever frame is handled, whoever sends it, what a later lookup finds under any fingerprint but
  -- the sender's is what it would have found without the frame.
  pub handle_others :
      (file : Option Blob) (disk : Bool) (now now' : ℕ) (sender : PublicIdentity)
      (frame : RendezvousFrame) (name : Text)
      → now ≤ now'
      → name ≢ print crates sender
      → candidates crates now' name (handle crates disk now sender frame file).2
        ≡ candidates crates now' name file
  unfolding handle
  handle_others file disk now now' sender (register address ttl_secs signature) name later other =
      signature_others (crates.verify sender.public_key address signature) file disk now now'
        ttl_secs sender address name later other
  handle_others file disk now now' sender registered name later other = refl
  handle_others file disk now now' sender (lookup n) name later other = refl
  handle_others file disk now now' sender (lookup_result n found) name later other = refl
  handle_others file disk now now' sender list name later other = refl
  handle_others file disk now now' sender (list_result records) name later other = refl
  handle_others file disk now now' sender (probe n) name later other = refl
  handle_others file disk now now' sender (probe_result n alive) name later other = refl
  handle_others file disk now now' sender (error message) name later other = refl

  -- A registration without a good signature of the sender over the address is answered with an
  -- error and leaves the file as it was.
  pub handle_unsigned :
      (file : Option Blob) (disk : Bool) (now ttl_secs : ℕ) (sender : PublicIdentity)
      (address : Text) (signature : Bytes)
      → crates.verify sender.public_key address signature ≢ some true
      → let (res, replies, file') =
          handle crates disk now sender (register address ttl_secs signature) file in
        (res ≡ ok none) × ((text : String) × (replies ≡ error text ∷ [])) × (file' ≡ file)
  unfolding handle
  handle_unsigned file disk now ttl_secs sender address signature bad =
      unsigned (crates.verify sender.public_key address signature) bad
    where
      unsigned :
          (v : Option Bool)
          → v ≢ some true
          → let (res, replies, file') =
              on_signature crates v disk now sender address ttl_secs file in
            (res ≡ ok none) × ((text : String) × (replies ≡ error text ∷ [])) × (file' ≡ file)
      unsigned none b = (refl, ("bad caller key", refl), refl)
      unsigned (some false) b = (refl, ("registration signature invalid", refl), refl)
      unsigned (some true) b = absurd (b refl)
