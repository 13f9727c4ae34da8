-- ===== src/Examples/Directory.antt =====
-- Runs of src/app/rendezvous.rs.
use neonet.Base.{
  ◌==◌, list_eq, nat_eq, ℕ, ◌+◌, ◌≡◌, ◌≢◌, ◌≤◌, refl, Bool, true, false, Option, none, some, List,
  [], ◌∷◌, arith, all, String, ltb, if◌then◌else◌,
}
use neonet.Base.Codec.{plain}
use neonet.Rendezvous.{
  Records, Crates, register, error, handle, candidates, live, enroll, print, ttl_of,
}
use neonet.Rendezvous.Live.{enroll_then_candidates, entry}
use neonet.Rendezvous.Signed.{handle_others}
use neonet.Examples.Wire.{alice, bob}

-- The hash is the key itself, and the good signature is the address.
abbrev crates : Crates Records
crates = record {
  hex_hash = λ b. b;
  records = plain;
  verify = λ key address signature. some (address == signature);
}

-- bob's record, until 500.
abbrev file : Option Records
file = some ((2 ∷ [], entry 100 400 bob (9 ∷ [])) ∷ [])

enroll_then_candidates_example :
    candidates crates 230 (1 ∷ []) (enroll crates true 200 alice (8 ∷ []) 10 file).1
    ≡ (if ltb 230 (200 + ttl_of 10) then entry 200 10 alice (8 ∷ []) ∷ [] else [])
unfolding neonet.Rendezvous.all_records neonet.Base.Codec.load_or neonet.Identity.fingerprint enroll
    neonet.Base.Codec.replace
enroll_then_candidates_example =
    enroll_then_candidates crates file true 200 230 10 alice (8 ∷ []) (omega arith) (omega arith)
      refl

handle_others_example :
    candidates crates 230
      (2 ∷ [])
      (handle crates true 200 alice (register (8 ∷ []) 10 (8 ∷ [])) file).2
    ≡ candidates crates 230 (2 ∷ []) file
unfolding neonet.Identity.fingerprint
handle_others_example =
    handle_others crates file true 200 230 alice (register (8 ∷ []) 10 (8 ∷ [])) (2 ∷ [])
      (omega arith) (λ e. cc)
