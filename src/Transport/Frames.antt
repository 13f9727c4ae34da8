-- ===== src/Transport/Frames.antt =====
-- src/transport/mod.rs: a frame that has been written reads back, whatever follows it.
use neonet.Base.Results.{ok}
use neonet.Base.Text.{Bytes}
use neonet.Base.{
  [], ap, append_assoc, arith, false, length, ltb, refl, some, ℕ, ◌%◌, ◌*◌, ◌++◌, ◌+◌, ◌/◌, ◌<◌,
  ◌∙◌, ◌∷◌, ◌≡◌, ◌≤◌, Bool-cases, inl, inr,
}
use neonet.Transport.{
  Stream, max_frame, be32, read_u32, read_exact, write_frame, read_body, read_frame,
}

-- The bytes of a frame.
abbrev pub frame_bytes : Bytes → Bytes
frame_bytes payload = be32 (length payload) ++ payload

digits :
    (n : ℕ)
    → n < 4294967296
    → n / 16777216 % 256 * 16777216 + n / 65536 % 256 * 65536 + n / 256 % 256 * 256 + n % 256 ≡ n
digits n h = omega arith

read_u32-be32 : (n : ℕ) (rest : Bytes) → n < 4294967296 → read_u32 (be32 n ++ rest) ≡ some (n, rest)
unfolding read_u32 be32
read_u32-be32 n rest h = ap (λ k. some (k, rest)) (digits n h)

read_exact-append : (p rest : Bytes) → read_exact (length p) (p ++ rest) ≡ some (p, rest)
unfolding read_exact
read_exact-append [] rest = refl
read_exact-append (x ∷ p) rest = rw (read_exact, read_exact-append p rest) refl

pub read_frame_bytes :
    (p rest out : Bytes)
    → length p ≤ max_frame
    → read_frame (record { inbox = frame_bytes p ++ rest; outbox = out })
      ≡ (ok p, record { inbox = rest; outbox = out })
unfolding read_frame read_body
read_frame_bytes p rest out h =
    let small : ltb max_frame (length p) ≡ false = ground arith in
    let at : read_u32 (frame_bytes p ++ rest) ≡ some (length p, p ++ rest) =
      ap read_u32 (append_assoc (be32 (length p)) p rest)
      ∙ read_u32-be32 (length p) (p ++ rest) (omega arith) in
    rw (read_frame, at, small, read_exact-append p rest) refl

-- A frame that `write_frame` accepts is read back by `read_frame`, and what follows it in the
-- stream is left there.
pub read_frame-write_frame :
    (p rest out : Bytes) (s : Stream)
    → (write_frame p s).0 ≡ ok tt
    → (f : Bytes) × ((write_frame p s).1.outbox ≡ s.outbox ++ f)
      × (read_frame (record { inbox = f ++ rest; outbox = out })
          ≡ (ok p, record { inbox = rest; outbox = out }))
unfolding write_frame
read_frame-write_frame p rest out s h = elim (Bool-cases (ltb max_frame (length p))) [
  | inl e ↦ ground (arith, e)
  | inr e ↦
      let small : length p ≤ max_frame = ground arith in
      (frame_bytes p, rw (write_frame, e) refl, read_frame_bytes p rest out small)
]
