-- ===== src/Files/Resume.antt =====
-- src/files/mod.rs: the flags of a resumed transfer, and putting a file together from its chunks.
use neonet.Base.{
  ℕ, zero, suc, ◌≡◌, refl, Bool, true, false, List, [], ◌∷◌, ◌++◌, all, leb, length, nat_beq,
  if◌then◌else◌, nat_eq,
}
use neonet.Base.Results.{Result, ok, err, ◌>>=◌, ◌>>◌}
use neonet.Base.Text.{Bytes}
use neonet.Files.{FileManifest, Chunk, FileError, io, verify_chunk}

pub record ResumeState : Type 0 where
  pub verified : List Bool

abbrev pub all_false : List Bytes → List Bool
all_false [] = []
all_false (h ∷ hs) = false ∷ all_false hs

unfoldable pub new_resume : FileManifest → ResumeState
new_resume m = record { verified = all_false m.chunks }

-- `self.verified[index] = true`, where the index is in range
abbrev pub set_true : ℕ → List Bool → List Bool
set_true i [] = []
set_true zero (b ∷ bs) = true ∷ bs
set_true (suc i) (b ∷ bs) = b ∷ set_true i bs

-- `filter_map(|(i, ok)| (!*ok).then_some(i))`, counted from `from`
abbrev pub unset_from : ℕ → List Bool → List ℕ
unset_from from [] = []
unset_from from (b ∷ bs) = let rest = unset_from (suc from) bs in if b then rest else from ∷ rest

unfoldable pub resume_missing : ResumeState → List ℕ
resume_missing s = unset_from 0 s.verified

unfoldable pub resume_complete : ResumeState → Bool
resume_complete s = all (λ b. b) s.verified

-- `sort_by_key(|c| c.index)`, which is stable
unfoldable pub put_chunk : Chunk → List Chunk → List Chunk
put_chunk c [] = c ∷ []
put_chunk c (d ∷ ds) =
    let rest = put_chunk c ds in if leb c.index d.index then c ∷ d ∷ ds else d ∷ rest

unfoldable pub sort_chunks : List Chunk → List Chunk
unfolding put_chunk
sort_chunks [] = []
sort_chunks (c ∷ cs) = put_chunk c (sort_chunks cs)

module _ (hash : Bytes → Bytes) (m : FileManifest) where
  unfoldable pub resume_mark : Chunk → ResumeState → Result FileError ResumeState
  resume_mark c s = do verify_chunk hash m c; ok (record { verified = set_true c.index s.verified })

  -- The writes of `reconstruct`: the bytes of the output file.
  unfoldable pub written : List Chunk → Result FileError Bytes
  written [] = ok []
  written (c ∷ cs) = do verify_chunk hash m c; rest ← written cs; ok (c.bytes ++ rest)

  -- `reconstruct`, where the output file can be created and written
  unfoldable pub reconstruct : List Chunk → Result FileError Bytes
  unfolding written sort_chunks
  reconstruct chunks = do
    bytes ← written (sort_chunks chunks)
    if nat_beq (length bytes) m.total_size then ok bytes else err io

-- Nothing is missing just if all is verified.
no_missing : (from : ℕ) (bs : List Bool) → all (λ b. b) bs ≡ true → unset_from from bs ≡ []
no_missing from [] h = refl
no_missing from (true ∷ bs) h = no_missing (suc from) bs h
no_missing from (false ∷ bs) h = cc

pub complete_misses_none : (s : ResumeState) → resume_complete s ≡ true → resume_missing s ≡ []
unfolding resume_complete resume_missing
complete_misses_none s h = no_missing 0 s.verified h
