-- ===== src/Files/Places.antt =====
-- src/files/mod.rs: which files of a transfer the writing of an output touches.
use neonet.Base.Text.{Bytes, Text}
use neonet.Base.Maps.{get, get-insert, insert, get-insert_self}
use neonet.Base.{
  Bool, Bool-cases, arith, beq-eq, ap, inl, inr, list_eq, nat_eq, refl, some, true, false, not,
  ◌==◌, ◌≡◌, ◌∙◌, if◌then◌else◌, beq_refl,
}
use neonet.Files.Incoming.{
  Incoming, Place, manifest_of, state_of, chunk_of, elsewhere, Transfers, incoming, put_dir,
  read_place, write_place,
}

pub incoming-put_dir :
    (e d : Text) (inc : Incoming) (home : Transfers)
    → incoming d (put_dir e inc home) ≡ (if e == d then inc else incoming d home)
unfolding incoming put_dir
incoming-put_dir e d inc home = ground (arith, get-insert d e inc home.dirs)

pub incoming-put_dir_self :
    (d : Text) (inc : Incoming) (home : Transfers) → incoming d (put_dir d inc home) ≡ inc
incoming-put_dir_self d inc home = rw (incoming-put_dir d d inc home, beq_refl d) refl

-- A place that is neither the saved state nor a chunk of the directory.
unfoldable pub spares : Text → Place → Bool
spares d (manifest_of e) = true
spares d (state_of e) = not (e == d)
spares d (chunk_of e i) = not (e == d)
spares d (elsewhere p) = true

-- A change of one directory that keeps a part of it keeps that part of every directory.
pub part-put_dir {ℓ} :
    {A : Type ℓ} (part : Incoming → A) (e d : Text) (inc : Incoming) (home : Transfers)
    → part inc ≡ part (incoming e home)
    → part (incoming d (put_dir e inc home)) ≡ part (incoming d home)
part-put_dir part e d inc home h = elim (Bool-cases (e == d)) [
  | inl t ↦
      rw (incoming-put_dir e d inc home, t) (h ∙ ap (λ x. part (incoming x home)) (beq-eq e d t))
  | inr t ↦ rw (incoming-put_dir e d inc home, t) refl
]

pub incoming-put_dir_other :
    (e d : Text) (inc : Incoming) (home : Transfers)
    → (e == d) ≡ false
    → incoming d (put_dir e inc home) ≡ incoming d home
incoming-put_dir_other e d inc home t = rw (incoming-put_dir e d inc home, t) refl

pub write_place-spares :
    (d : Text) (place : Place) (bytes : Bytes) (home : Transfers)
    → spares d place ≡ true
    → ((incoming d (write_place place bytes home)).chunks ≡ (incoming d home).chunks)
      × ((incoming d (write_place place bytes home)).state_file ≡ (incoming d home).state_file)
unfolding write_place spares
write_place-spares d (manifest_of e) bytes home h = (
  part-put_dir (λ (i : Incoming). i.chunks) e d
      (record (incoming e home) { manifest_file = some bytes }) home refl,
  part-put_dir (λ (i : Incoming). i.state_file) e d
      (record (incoming e home) { manifest_file = some bytes }) home refl,
)
write_place-spares d (state_of e) bytes home h =
    let same = incoming-put_dir_other e d _ home (ground arith) in
    (ap (λ (i : Incoming). i.chunks) same, ap (λ (i : Incoming). i.state_file) same)
write_place-spares d (chunk_of e i) bytes home h =
    let same = incoming-put_dir_other e d _ home (ground arith) in
    (ap (λ (i : Incoming). i.chunks) same, ap (λ (i : Incoming). i.state_file) same)
write_place-spares d (elsewhere p) bytes home h = (refl, refl)

-- The manifest of a directory changes only if the place is that file.
unfoldable pub is_manifest_of : Text → Place → Bool
is_manifest_of d (manifest_of e) = e == d
is_manifest_of d (state_of e) = false
is_manifest_of d (chunk_of e i) = false
is_manifest_of d (elsewhere p) = false

pub is_manifest_of-manifest_of :
    (d : Text) (place : Place) → is_manifest_of d place ≡ true → place ≡ manifest_of d
unfolding is_manifest_of
is_manifest_of-manifest_of d (manifest_of e) h = ap manifest_of (beq-eq e d h)
is_manifest_of-manifest_of d (state_of e) h = cc
is_manifest_of-manifest_of d (chunk_of e i) h = cc
is_manifest_of-manifest_of d (elsewhere p) h = cc

pub write_place-manifest_file :
    (d : Text) (place : Place) (bytes : Bytes) (home : Transfers)
    → is_manifest_of d place ≡ false
    → (incoming d (write_place place bytes home)).manifest_file ≡ (incoming d home).manifest_file
unfolding write_place is_manifest_of
write_place-manifest_file d (manifest_of e) bytes home h =
    ap (λ (i : Incoming). i.manifest_file) (incoming-put_dir_other e d _ home h)
write_place-manifest_file d (state_of e) bytes home h =
    part-put_dir (λ (i : Incoming). i.manifest_file) e d
      (record (incoming e home) { state_file = some bytes }) home refl
write_place-manifest_file d (chunk_of e i) bytes home h =
    part-put_dir (λ (i : Incoming). i.manifest_file) e d
      (record (incoming e home) { chunks = insert i bytes (incoming e home).chunks }) home refl
write_place-manifest_file d (elsewhere p) bytes home h = refl

-- What was written to a place is what is read there.
pub read_place-write_place :
    (place : Place) (bytes : Bytes) (home : Transfers)
    → read_place place (write_place place bytes home) ≡ some bytes
unfolding read_place write_place
read_place-write_place (manifest_of d) bytes home =
    ap (λ (i : Incoming). i.manifest_file) (incoming-put_dir_self d _ home)
read_place-write_place (state_of d) bytes home =
    ap (λ (i : Incoming). i.state_file) (incoming-put_dir_self d _ home)
read_place-write_place (chunk_of d i) bytes home =
    ap (λ (inc : Incoming). get i inc.chunks) (incoming-put_dir_self d _ home)
    ∙ get-insert_self i bytes (incoming d home).chunks
read_place-write_place (elsewhere p) bytes home = get-insert_self p bytes home.others
