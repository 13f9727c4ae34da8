-- ===== src/Storage/Pages.antt =====
-- src/app/storage.rs, the paging loop of `fetch_chunks`.
use neonet.Base.{
  ℕ, ◌+◌, ◌-◌, ◌≤◌, ◌≡◌, refl, Bool, true, false, Option, none, some, List, [], ◌∷◌, ◌++◌, arith,
  length, max, ◌&&◌, ltb, Option-cases, Bool-cases, inl, inr, ◌⊎◌,
}
use neonet.Base.Results.{ok, Result-cases}
use neonet.Base.Text.{Bytes}
use neonet.Storage.{EncryptedChunk, take_page}

module _ (encode : EncryptedChunk → Option Bytes) where
  pub size_of : EncryptedChunk → ℕ
  size_of c = elim (encode c) [ none ↦ 0 | some bytes ↦ length bytes ]

  pub payload : List EncryptedChunk → ℕ
  payload [] = 0
  payload (c ∷ cs) = size_of c + payload cs

  page_step :
      (started : Bool) (budget : ℕ) (c : EncryptedChunk) (cs page : List EncryptedChunk)
      → take_page encode started budget (c ∷ cs) ≡ ok page
      → ((page ≡ []) × (started ≡ true))
        ⊎ ((more : List EncryptedChunk) × (page ≡ c ∷ more)
            × (take_page encode true (budget - size_of c) cs ≡ ok more)
            × (started ≡ true → size_of c ≤ budget))
  unfolding take_page size_of
  page_step started budget c cs page h = elim (Option-cases (encode c)) [
    | inl e ↦ absurd (ground arith)
    | inr (bytes, e) ↦ elim (Bool-cases (started && ltb budget (length bytes))) [
      | inl stop ↦ inl (ground arith)
      | inr go ↦ elim (Result-cases (take_page encode true (budget - length bytes) cs)) [
        | inl (more, rest) ↦ inr (more, ground arith, ground arith, ground arith)
        | inr (x, bad) ↦ absurd (ground arith)
      ]
    ]
  ]

  no_page :
      (budget : ℕ) (page : List EncryptedChunk)
      → take_page encode true budget [] ≡ ok page
      → page ≡ []
  unfolding take_page
  no_page budget page h = ground arith

  started_page :
      (budget : ℕ) (cs page : List EncryptedChunk)
      → take_page encode true budget cs ≡ ok page
      → ((rest : List EncryptedChunk) × (cs ≡ page ++ rest)) × (payload page ≤ budget)
  unfolding payload
  started_page budget [] page h =
      let e = no_page budget page h in (([], rw e refl), rw e (omega arith))
  started_page budget (c ∷ cs) page h = elim (page_step true budget c cs page h) [
    | inl (empty, t) ↦ ((c ∷ cs, rw empty refl), rw empty (omega arith))
    | inr (more, whole, next, fits) ↦
        let ((rest, split), light) = started_page (budget - size_of c) cs more next in
        ((rest, rw (whole, split) refl), rw whole (omega (arith, fits refl)))
  ]

  -- A page taken from chunks of which there is at least one is a beginning of them, holds the
  -- first, and weighs no more than the budget or the first chunk alone.
  pub take_page_sound :
      (budget : ℕ) (c : EncryptedChunk) (cs page : List EncryptedChunk)
      → take_page encode false budget (c ∷ cs) ≡ ok page
      → (more : List EncryptedChunk) × (rest : List EncryptedChunk) × (page ≡ c ∷ more)
        × (c ∷ cs ≡ page ++ rest)
        × (payload page ≤ max budget (size_of c))
  unfolding payload
  take_page_sound budget c cs page h = elim (page_step false budget c cs page h) [
    | inl (empty, t) ↦ absurd (ground arith)
    | inr (more, whole, next, fits) ↦
        let ((rest, split), light) = started_page (budget - size_of c) cs more next in
        (more, rest, whole, rw (whole, split) refl, rw whole (omega arith))
  ]
