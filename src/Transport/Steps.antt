-- ===== src/Transport/Steps.antt =====
-- src/transport/mod.rs: the steps of the handshake, one at a time.
use neonet.Base.Text.{Bytes}
use neonet.Base.Results.{err, ok}
use neonet.Base.{ap, arith, false, length, ltb, refl, some, ◌++◌, ◌∙◌, ◌≡◌, ◌≤◌}
use neonet.Base.Codec.{Codec}
use neonet.Transport.{
  Stream, Step, and_then, decoded, max_frame, write_frame, read_frame, send_value, receive_value,
}
use neonet.Transport.Frames.{frame_bytes, read_frame_bytes}

-- A value that goes into a frame as these bytes.
unfoldable pub Fits : {A : Type 0} → Codec A Bytes → A → Bytes → Type 0
Fits c a b = (c.encode a ≡ some b) × (length b ≤ max_frame)

pub and_then_inv :
    {A B : Type 0} (m : Step A) (f : A → Stream → Step B) (b : B)
    → (and_then m f).0 ≡ ok b
    → (a : A) × (m.0 ≡ ok a) × (f a m.1).0 ≡ ok b
and_then_inv (ok a, s) f b h = (a, refl, h)
and_then_inv (err e, s) f b h = cc

pub and_then_ok :
    {A B : Type 0} (m : Step A) (f : A → Stream → Step B) (a : A) (s : Stream)
    → m ≡ (ok a, s)
    → and_then m f ≡ f a s
and_then_ok m f a s h = ap (λ n. and_then n f) h

pub send-Fits :
    {A : Type 0} (c : Codec A Bytes) (a : A) (b inbox out : Bytes)
    → Fits c a b
    → send_value c a (record { inbox = inbox; outbox = out })
      ≡ (ok tt, record { inbox = inbox; outbox = out ++ frame_bytes b })
unfolding send_value write_frame Fits
send-Fits c a b inbox out (e, h) =
    let small : ltb max_frame (length b) ≡ false = ground arith in rw (send_value, e, small) refl

pub receive-Fits :
    {A : Type 0} (c : Codec A Bytes) (a : A) (b rest out : Bytes)
    → Fits c a b
    → receive_value c (record { inbox = frame_bytes b ++ rest; outbox = out })
      ≡ (ok a, record { inbox = rest; outbox = out })
unfolding receive_value Fits
receive-Fits c a b rest out (e, h) =
    and_then_ok (read_frame (record { inbox = frame_bytes b ++ rest; outbox = out }))
      (λ bytes s. (decoded (c.decode bytes), s)) b (record { inbox = rest; outbox = out })
      (read_frame_bytes b rest out h)
    ∙ rw (c.decode-encode a b e) refl
