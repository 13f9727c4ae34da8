-- ===== src/Core/Reconcile.antt =====
-- src/core/replication.rs: copying what the plan names leaves nothing to copy.
use neonet.Base.{
  ◌≡◌, refl, true, false, Option, none, some, List, [], ◌∷◌, arith, ◌==◌, list_eq, nat_eq, not,
  Bool-cases, Option-cases, inl, inr, ◌&&◌, list_beq_iff, beq-eq,
}
use neonet.Base.Maps.{contains_key}
use neonet.Base.Sets.{contains}
use neonet.Base.Text.{Bytes}
use neonet.Core.{ChunkIndex, chunk, insert_chunk, plan}
use neonet.Core.Chunks.{IsAddressed, insert_chunk_sound}

held_none :
    (index : ChunkIndex) (h : Bytes) → chunk index h ≡ none → contains_key h index.chunks ≡ false
unfolding chunk contains_key
held_none index h e = ground arith

-- The plan names a hash exactly if the remote side has it and this side does not.
pub contains-plan :
    (local : ChunkIndex) (remote : List Bytes) (h : Bytes)
    → contains h (plan local remote) ≡ (contains h remote && not (contains_key h local.chunks))
unfolding plan contains
contains-plan local [] h = refl
contains-plan local (g ∷ gs) h = ground (arith, contains-plan local gs h, list_beq_iff g h)

module _ (hash : Bytes → Bytes) where
  -- Fetching each hash from a replica and inserting what it gives.
  copy_one : Option Bytes → Bytes → ChunkIndex → ChunkIndex
  copy_one none h local = local
  copy_one (some bytes) h local = (insert_chunk hash h bytes local).0

  pub copy_from : ChunkIndex → List Bytes → ChunkIndex → ChunkIndex
  unfolding copy_one
  copy_from remote [] local = local
  copy_from remote (h ∷ hs) local = copy_from remote hs (copy_one (chunk remote h) h local)

  abbrev Holds : ChunkIndex → Bytes → Type 0
  Holds index h = (d : Bytes) × (chunk index h ≡ some d)

  plan_nil :
      (local : ChunkIndex) (hs : List Bytes)
      → ((h : Bytes) → contains h hs ≡ true → Holds local h)
      → plan local hs ≡ []
  unfolding plan contains contains_key chunk
  plan_nil local [] all = refl
  plan_nil local (h ∷ hs) all =
      let (d, e) = all h (ground (arith, list_beq_iff h h)) in
      let rest = plan_nil local hs (λ k c. all k (ground arith)) in ground arith

  copy_one_keeps :
      (o : Option Bytes) (h : Bytes) (local : ChunkIndex)
      → IsAddressed hash local
      → IsAddressed hash (copy_one o h local)
        × ((k d : Bytes) → chunk local k ≡ some d → chunk (copy_one o h local) k ≡ some d)
  unfolding copy_one
  copy_one_keeps none h local a = (a, λ k d e. e)
  copy_one_keeps (some bytes) h local a =
      let (a', iff, held_now, kept) = insert_chunk_sound hash h bytes local a in (a', kept)

  copy_keeps :
      (remote local : ChunkIndex) (hs : List Bytes)
      → IsAddressed hash local
      → IsAddressed hash (copy_from remote hs local)
        × ((k d : Bytes) → chunk local k ≡ some d → chunk (copy_from remote hs local) k ≡ some d)
  unfolding copy_from
  copy_keeps remote local [] a = (a, λ k d h. h)
  copy_keeps remote local (h ∷ hs) a =
      let (a', kept) = copy_one_keeps (chunk remote h) h local a in
      let (a'', kept') = copy_keeps remote (copy_one (chunk remote h) h local) hs a' in
      (a'', λ k d e. kept' k d (kept k d e))

  copy_one-Holds :
      (remote local : ChunkIndex) (h : Bytes)
      → IsAddressed hash remote
      → IsAddressed hash local
      → Holds remote h
      → Holds (copy_one (chunk remote h) h local) h
  unfolding copy_one
  copy_one-Holds remote local h ar al (bytes, e) =
      let (a', iff, held_now, kept) = insert_chunk_sound hash h bytes local al in
      let (d, stored, right) = held_now (iff.1 (ar.at h bytes e)) in (d, rw (e, copy_one) stored)

  copied :
      (remote local : ChunkIndex) (hs : List Bytes)
      → IsAddressed hash remote
      → IsAddressed hash local
      → ((h : Bytes) → contains h hs ≡ true → Holds remote h)
      → (h : Bytes) → contains h hs ≡ true
      → Holds (copy_from remote hs local) h
  unfolding copy_from contains
  copied remote local [] ar al all h c = cc
  copied remote local (g ∷ gs) ar al all h c =
      let local1 = copy_one (chunk remote g) g local in
      let (a1, kept) = copy_one_keeps (chunk remote g) g local al in
      elim (Bool-cases (g == h)) [
        | inl e ↦
            let (d, stored) =
              copy_one-Holds remote local g ar al (all g (ground (arith, list_beq_iff g g))) in
            let (a2, kept') = copy_keeps remote local1 gs a1 in
            rw (← beq-eq g h e) (d, kept' g d stored)
        | inr n ↦ copied remote local1 gs ar a1 (λ k m. all k (ground arith)) h (ground arith)
      ]

  -- Two cores need no consensus: if a replica holds every hash that it announces, and both sides
  -- keep chunks under their hashes, then after copying the plan's hashes from it every hash that
  -- it announces is held, with data that has that hash; the plan is empty, no chunk is lost, and
  -- every chunk stands under its own hash.
  pub reconcile_complete :
      (remote local : ChunkIndex) (hs : List Bytes)
      → IsAddressed hash remote
      → IsAddressed hash local
      → ((h : Bytes) → contains h hs ≡ true → (d : Bytes) × (chunk remote h ≡ some d))
      → let after = copy_from remote (plan local hs) local in
        ((h : Bytes) → contains h hs ≡ true → (d : Bytes) × (chunk after h ≡ some d) × (hash d ≡ h))
        × (plan after hs ≡ [])
        × IsAddressed hash after
        × ((k d : Bytes) → chunk local k ≡ some d → chunk after k ≡ some d)
  reconcile_complete remote local hs ar al all =
      let (a', kept) = copy_keeps remote local (plan local hs) al in
      (
        λ h c. let (d, e) = reached h c in (d, e, a'.at h d e),
        plan_nil (copy_from remote (plan local hs) local) hs (λ h c. reached h c),
        a',
        kept,
      )
    where
      in_plan : (h : Bytes) → contains h (plan local hs) ≡ true → Holds remote h
      in_plan h c = all h (ground (arith, contains-plan local hs h))

      reached :
          (h : Bytes) → contains h hs ≡ true → Holds (copy_from remote (plan local hs) local) h
      reached h c = elim (Option-cases (chunk local h)) [
        | inr (d, e) ↦ (d, (copy_keeps remote local (plan local hs) al).1 h d e)
        | inl e ↦
            copied remote local (plan local hs) ar al in_plan h
              (ground (arith, contains-plan local hs h, held_none local h e))
      ]
