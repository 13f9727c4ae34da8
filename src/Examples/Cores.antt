-- ===== src/Examples/Cores.antt =====
-- Runs of src/core/mod.rs and src/core/replication.rs. The hash puts a 0 before the bytes.
use neonet.Base.{
  ◌≡◌, ◌↔◌, refl, true, false, none, some, List, [], ◌∷◌, arith, Bool-cases, inl, inr, beq-eq,
  list_eq, nat_eq, ◌==◌, list_beq_iff,
}
use neonet.Base.Sets.{contains}
use neonet.Base.Text.{Bytes}
use neonet.Core.{ChunkIndex, chunk, plan}
use neonet.Core.Chunks.{IsAddressed}
use neonet.Core.Reconcile.{copy_from, reconcile_complete}

abbrev hash : Bytes → Bytes
hash b = 0 ∷ b

abbrev one : ChunkIndex
one = record { chunks = (0 ∷ 5 ∷ [], 5 ∷ []) ∷ [] }

abbrev two : ChunkIndex
two = record { chunks = (0 ∷ 6 ∷ [], 6 ∷ []) ∷ (0 ∷ 5 ∷ [], 5 ∷ []) ∷ [] }

one-IsAddressed : IsAddressed hash one
unfolding chunk neonet.Base.Maps.get
one-IsAddressed = record { at = λ key bytes h. ground (arith, list_beq_iff (0 ∷ 5 ∷ []) key) }

two-IsAddressed : IsAddressed hash two
unfolding chunk neonet.Base.Maps.get
two-IsAddressed = record {
  at = λ key bytes h. ground (arith, list_beq_iff (0 ∷ 5 ∷ []) key, list_beq_iff (0 ∷ 6 ∷ []) key);
}

two_holds :
    (h : Bytes)
    → contains h ((0 ∷ 5 ∷ []) ∷ (0 ∷ 6 ∷ []) ∷ []) ≡ true
    → (d : Bytes) × (chunk two h ≡ some d)
unfolding chunk neonet.Base.Maps.get contains
two_holds h c = elim (Bool-cases ((0 ∷ 5 ∷ []) == h)) [
  | inl e ↦ rw (← beq-eq (0 ∷ 5 ∷ []) h e) (5 ∷ [], refl)
  | inr n ↦ rw (← beq-eq (0 ∷ 6 ∷ []) h (ground arith)) (6 ∷ [], refl)
]

reconcile_complete_example :
    let hs : List Bytes = (0 ∷ 5 ∷ []) ∷ (0 ∷ 6 ∷ []) ∷ [] in
    let after = copy_from hash two (plan one hs) one in
    ((h : Bytes) → contains h hs ≡ true → (d : Bytes) × (chunk after h ≡ some d) × (hash d ≡ h))
    × (plan after hs ≡ [])
    × IsAddressed hash after
    × ((k d : Bytes) → chunk one k ≡ some d → chunk after k ≡ some d)
reconcile_complete_example =
    reconcile_complete hash two one ((0 ∷ 5 ∷ []) ∷ (0 ∷ 6 ∷ []) ∷ []) two-IsAddressed
      one-IsAddressed two_holds
