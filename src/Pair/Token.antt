-- ===== src/Pair/Token.antt =====
-- src/pair.rs: a pairing token is good once, in its window, and only the last one issued.
use neonet.Base.{
  ℕ, ◌+◌, ◌≤◌, ◌<◌, ◌≡◌, ◌≢◌, refl, Bool, true, false, Option, none, some, arith, ◌==◌, list_eq,
  nat_eq, beq-eq, beq-ne, not, ◌||◌, leb, Option-cases, Bool-cases, inl, inr, ◌⊎◌, beq_refl,
}
use neonet.Base.Codec.{replace}
use neonet.Base.Results.{ok, Result-cases}
use neonet.Base.Text.{Text}
use neonet.Pair.{
  PendingToken, Home, Crates, ttl_of, write_pending, issue_token, pending_token, consume_found,
  consume_token,
}

-- Every token lives from 1 to 600 seconds.
ttl_of_bounds : (ttl : Option ℕ) → (1 ≤ ttl_of ttl) × (ttl_of ttl ≤ 600)
unfolding ttl_of
ttl_of_bounds ttl = ground arith

module _ {Blob : Type 0} (crates : Crates Blob) where
  pending-write :
      (disk : Bool) (p : PendingToken) (home : Home Blob)
      → (write_pending crates disk p home).0 ≡ ok tt
      → pending_token crates (write_pending crates disk p home).1 ≡ some p
  unfolding write_pending pending_token replace
  pending-write disk p home h = elim (Option-cases (crates.token.encode p)) [
    | inl e ↦ absurd (ground arith)
    | inr (b, e) ↦ ground (arith, crates.token.decode-encode p b e)
  ]

  -- What a redeemed token was, and what the file holds afterwards.
  pub record Redeemed (now : ℕ) (token : Text) (home home' : Home Blob) : Type 0 where
    pub was : PendingToken
    pub pending : pending_token crates home ≡ some was
    pub fresh : was.used ≡ false
    pub in_time : now < was.expires_at
    pub right : was.token ≡ token
    pub spent : pending_token crates home' ≡ some (record was { used = true })
    pub ledger : home'.paired ≡ home.paired

  found-Redeemed :
      (o : Option PendingToken) (disk : Bool) (now : ℕ) (token : Text) (home : Home Blob)
      → pending_token crates home ≡ o
      → (consume_found crates o disk now token home).0 ≡ ok true
      → Redeemed now token home (consume_found crates o disk now token home).1
  unfolding consume_found write_pending
  found-Redeemed none disk now token home e h = absurd (ground arith)
  found-Redeemed (some p) disk now token home e h =
      elim (Bool-cases (p.used || leb p.expires_at now || not (p.token == token))) [
        | inl t ↦ absurd (ground arith)
        | inr n ↦
            found_redeemed n
              (elim (Result-cases (write_pending crates disk (record p { used = true }) home).0) [
                | inl (u, w) ↦ w
                | inr (x, w) ↦ absurd (ground arith)
              ])
      ]
    where
      found_redeemed :
          (p.used || leb p.expires_at now || not (p.token == token)) ≡ false
          → (write_pending crates disk (record p { used = true }) home).0 ≡ ok tt
          → Redeemed now token home (consume_found crates (some p) disk now token home).1
      found_redeemed n w = rw n (record {
        was = p;
        pending = e;
        fresh = ground arith;
        in_time = ground arith;
        right = beq-eq p.token token (ground arith);
        spent = pending-write disk (record p { used = true }) home w;
        ledger = refl;
      })

  -- A redemption that succeeds was of the pending token, unused and not expired, and leaves it
  -- used; the ledger is not touched.
  pub consume_token_sound :
      (disk : Bool) (now : ℕ) (token : Text) (home : Home Blob)
      → (consume_token crates disk now token home).0 ≡ ok true
      → Redeemed now token home (consume_token crates disk now token home).1
  unfolding consume_token
  consume_token_sound disk now token home h =
      found-Redeemed (pending_token crates home) disk now token home refl h

  paired-found :
      (o : Option PendingToken) (disk : Bool) (now : ℕ) (token : Text) (home : Home Blob)
      → (consume_found crates o disk now token home).1.paired ≡ home.paired
  unfolding consume_found write_pending
  paired-found none disk now token home = refl
  paired-found (some p) disk now token home = ground arith

  -- Redeeming a token leaves the ledger as it was.
  pub paired-consume_token :
      (disk : Bool) (now : ℕ) (token : Text) (home : Home Blob)
      → (consume_token crates disk now token home).1.paired ≡ home.paired
  unfolding consume_token
  paired-consume_token disk now token home =
      paired-found (pending_token crates home) disk now token home

  spent_refused :
      (p : PendingToken) (disk : Bool) (now : ℕ) (token : Text) (home : Home Blob)
      → pending_token crates home ≡ some (record p { used = true })
      → consume_token crates disk now token home ≡ (ok false, home)
  unfolding consume_token consume_found
  spent_refused p disk now token home e = rw e

  -- A token is redeemed at most once: after a redemption that succeeds, every further one, of any
  -- token at any time, is refused and changes nothing.
  pub consume_token_once :
      (disk disk' : Bool) (now now' : ℕ) (token token' : Text) (home : Home Blob)
      → (consume_token crates disk now token home).0 ≡ ok true
      → let home' = (consume_token crates disk now token home).1 in
        consume_token crates disk' now' token' home' ≡ (ok false, home')
  consume_token_once disk disk' now now' token token' home h =
      let r = consume_token_sound disk now token home h in
      spent_refused r.was disk' now' token' (consume_token crates disk now token home).1 r.spent

  issue_inv :
      (disk : Bool) (now : ℕ) (token t : Text) (ttl : Option ℕ) (home : Home Blob)
      → (issue_token crates disk now token ttl home).0 ≡ ok t
      → (t ≡ token)
        × (pending_token crates (issue_token crates disk now token ttl home).1
            ≡ some (record { token = token; expires_at = now + ttl_of ttl; used = false }))
  unfolding issue_token
  issue_inv disk now token t ttl home h =
      let pending : PendingToken = record {
        token = token;
        expires_at = now + ttl_of ttl;
        used = false;
      } in
      elim (Result-cases (write_pending crates disk pending home).0) [
        | inl (u, w) ↦ (ground arith, pending-write disk pending home w)
        | inr (x, w) ↦ absurd (ground arith)
      ]

  -- Issuing a token replaces the one before: from then on any other token is refused, and so is
  -- the new one from 600 seconds on, with nothing changed.
  pub issue_token_replaces :
      (disk disk' : Bool) (now now' : ℕ) (token t other : Text) (ttl : Option ℕ) (home : Home Blob)
      → (issue_token crates disk now token ttl home).0 ≡ ok t
      → (other ≢ token) ⊎ (now + 600 ≤ now')
      → let home' = (issue_token crates disk now token ttl home).1 in
        consume_token crates disk' now' other home' ≡ (ok false, home')
  unfolding consume_token consume_found
  issue_token_replaces disk disk' now now' token t other ttl home h why =
      rw ((issue_inv disk now token t ttl home h).1)
        (ground (arith, beq-ne token other, ttl_of_bounds ttl))

  -- The token that was issued is redeemed if it is presented before it expires and the file can be
  -- written.
  pub issue_then_consume :
      (disk disk' : Bool) (now now' : ℕ) (token t : Text) (ttl : Option ℕ) (home : Home Blob)
      → (issue_token crates disk now token ttl home).0 ≡ ok t
      → now' < now + ttl_of ttl
      → let home' = (issue_token crates disk now token ttl home).1 in
        let p : PendingToken = record {
          token = token;
          expires_at = now + ttl_of ttl;
          used = true;
        } in
        (write_pending crates disk' p home').0 ≡ ok tt
        → (consume_token crates disk' now' t home').0 ≡ ok true
  unfolding consume_token consume_found
  issue_then_consume disk disk' now now' token t ttl home h early w =
      let (same, e) = issue_inv disk now token t ttl home h in
      rw (e, same) (ground (arith, beq_refl token, w))
