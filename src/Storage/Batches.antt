-- ===== src/Storage/Batches.antt =====
-- src/app/storage.rs, `push_chunks`: the chunks of a file in greedy batches.
use neonet.Base.{
  ◌&&◌, ℕ, ◌+◌, ◌≡◌, refl, Bool, true, false, List, [], ◌∷◌, ◌++◌, arith, length, is_empty, ltb,
  leb, ◌||◌, all, if◌then◌else◌, Bool-cases, inl, inr, append-nil, append_assoc, ap,
}
use neonet.Storage.{EncryptedChunk, max_batch_payload}

-- `batches.last_mut().unwrap().push(..)`, of which there is one.
unfoldable pub push_last : EncryptedChunk → List (List EncryptedChunk) → List (List EncryptedChunk)
push_last c [] = []
push_last c (b ∷ []) = (b ++ c ∷ []) ∷ []
push_last c (b ∷ d ∷ ds) = b ∷ push_last c (d ∷ ds)

module _ (size_of : EncryptedChunk → ℕ) where
  -- The loop over the chunks, with the batches so far and the weight of the last.
  unfoldable pub batch_all :
      List EncryptedChunk → List (List EncryptedChunk) → ℕ → List (List EncryptedChunk)
  unfolding push_last
  batch_all [] batches carried = batches
  batch_all (c ∷ cs) batches carried =
      let full = is_empty batches || ltb max_batch_payload (carried + size_of c) in
      let opened = if full then batches ++ [] ∷ [] else batches in
      let weight = if full then 0 else carried in
      batch_all cs (push_last c opened) (weight + size_of c)

  abbrev pub weight_of : List EncryptedChunk → ℕ
  weight_of [] = 0
  weight_of (c ∷ cs) = size_of c + weight_of cs

  abbrev pub flatten : List (List EncryptedChunk) → List EncryptedChunk
  flatten [] = []
  flatten (b ∷ bs) = b ++ flatten bs

  -- A batch goes into a frame: it is light enough, or a single chunk.
  abbrev pub fits : List EncryptedChunk → Bool
  fits b = leb (weight_of b) max_batch_payload || leb (length b) 1

  push_last-append :
      (c : EncryptedChunk) (bs : List (List EncryptedChunk)) (b : List EncryptedChunk)
      → push_last c (bs ++ b ∷ []) ≡ bs ++ (b ++ c ∷ []) ∷ []
  unfolding push_last
  push_last-append c [] b = refl
  push_last-append c (d ∷ []) b = refl
  push_last-append c (d ∷ e ∷ ds) b = rw (push_last-append c (e ∷ ds) b) refl

  weight_of-append :
      (b : List EncryptedChunk) (c : EncryptedChunk)
      → weight_of (b ++ c ∷ []) ≡ weight_of b + size_of c
  weight_of-append [] c = omega arith
  weight_of-append (d ∷ ds) c = omega (arith, weight_of-append ds c)

  flatten-append :
      (bs : List (List EncryptedChunk)) (b : List EncryptedChunk)
      → flatten (bs ++ b ∷ []) ≡ flatten bs ++ b
  flatten-append [] b = rw append-nil refl
  flatten-append (d ∷ ds) b = rw (flatten-append ds b, append_assoc) refl

  not_empty :
      (bs : List (List EncryptedChunk)) (b : List EncryptedChunk) → is_empty (bs ++ b ∷ []) ≡ false
  not_empty [] b = refl
  not_empty (d ∷ ds) b = refl

  all-append :
      (bs : List (List EncryptedChunk)) (b : List EncryptedChunk)
      → all fits (bs ++ b ∷ []) ≡ (all fits bs && fits b)
  all-append [] b = ground arith
  all-append (d ∷ ds) b = ground (arith, all-append ds b)

  opened :
      (c : EncryptedChunk) (cs : List EncryptedChunk) (bs : List (List EncryptedChunk))
      (b : List EncryptedChunk)
      → ltb max_batch_payload (weight_of b + size_of c) ≡ true
      → batch_all (c ∷ cs) (bs ++ b ∷ []) (weight_of b)
        ≡ batch_all cs ((bs ++ b ∷ []) ++ (c ∷ []) ∷ []) (weight_of (c ∷ []))
  unfolding batch_all
  opened c cs bs b full =
      let light : 0 + size_of c ≡ size_of c + 0 = omega arith in
      rw (full, not_empty bs b, push_last-append c (bs ++ b ∷ []) [])
        (ap (batch_all cs ((bs ++ b ∷ []) ++ (c ∷ []) ∷ [])) light)

  continued :
      (c : EncryptedChunk) (cs : List EncryptedChunk) (bs : List (List EncryptedChunk))
      (b : List EncryptedChunk)
      → ltb max_batch_payload (weight_of b + size_of c) ≡ false
      → batch_all (c ∷ cs) (bs ++ b ∷ []) (weight_of b)
        ≡ batch_all cs (bs ++ (b ++ c ∷ []) ∷ []) (weight_of (b ++ c ∷ []))
  unfolding batch_all
  continued c cs bs b room =
      rw (room, not_empty bs b, push_last-append c bs b, weight_of-append b c) refl

  none_left : (bs : List (List EncryptedChunk)) (weight : ℕ) → batch_all [] bs weight ≡ bs
  unfolding batch_all
  none_left bs weight = refl

  first :
      (c : EncryptedChunk) (cs : List EncryptedChunk)
      → batch_all (c ∷ cs) [] 0 ≡ batch_all cs ([] ++ (c ∷ []) ∷ []) (weight_of (c ∷ []))
  unfolding batch_all push_last
  first c cs =
      let light : 0 + size_of c ≡ size_of c + 0 = omega arith in
      ap (batch_all cs ((c ∷ []) ∷ [])) light

  -- The batches once there is one: the finished ones and the last.
  later_batches :
      (cs : List EncryptedChunk) (bs : List (List EncryptedChunk)) (b : List EncryptedChunk)
      → all fits (bs ++ b ∷ []) ≡ true
      → (flatten (batch_all cs (bs ++ b ∷ []) (weight_of b)) ≡ flatten bs ++ b ++ cs)
        × (all fits (batch_all cs (bs ++ b ∷ []) (weight_of b)) ≡ true)
  later_batches [] bs b h = rw none_left (rw (flatten-append bs b, append-nil) refl, h)
  later_batches (c ∷ cs) bs b h =
      elim (Bool-cases (ltb max_batch_payload (weight_of b + size_of c))) [
        | inl full ↦
            let (flat, good) =
              later_batches cs (bs ++ b ∷ []) (c ∷ [])
                (ground (arith, all-append (bs ++ b ∷ []) (c ∷ []))) in
            rw (opened c cs bs b full) (rw (flat, flatten-append bs b, append_assoc) refl, good)
        | inr room ↦
            let (flat, good) = later_batches cs bs (b ++ c ∷ []) (
              ground (arith, all-append bs b, all-append bs (b ++ c ∷ []), weight_of-append b c)) in
            rw (continued c cs bs b room) (
              rw
                  (
                    flat,
                    append_assoc (flatten bs) (b ++ c ∷ []) cs,
                    append_assoc b (c ∷ []) cs,
                    append_assoc (flatten bs) b (c ∷ cs),
                  )
                  refl,
              good,
            )
      ]

  -- Batching loses, repeats and reorders no chunk, and every batch weighs at most 900 KiB or is a
  -- single chunk.
  pub batch_all_sound :
      (cs : List EncryptedChunk)
      → (flatten (batch_all cs [] 0) ≡ cs) × (all fits (batch_all cs [] 0) ≡ true)
  batch_all_sound [] = rw none_left (refl, refl)
  batch_all_sound (c ∷ cs) = rw (first c cs) (later_batches cs [] (c ∷ []) (ground arith))
