-- ===== src/Storage/Pull.antt =====
-- src/app/storage.rs, `pull_chunks`: the client asks for pages until it has every chunk.
use neonet.Base.{
  ℕ, zero, suc, ◌+◌, ◌-◌, ◌≤◌, ◌<◌, ◌≡◌, refl, Bool, true, false, Option, none, some, List, [], ◌∷◌,
  ◌++◌, arith, length, is_empty, drop, ltb, leb, ◌||◌, ◌&&◌, min, ◌%◌, ◌^◌, if◌then◌else◌, nat_beq,
  inl, inr, String, Bool-cases, nat_beq_iff, length-append, append_assoc, append-nil, sym,
}
use neonet.Base.Results.{Io, ok, err, io_error, not_found, invalid_data, permission_denied}
use neonet.Files.{FileManifest}
use neonet.Storage.{
  EncryptedChunk, StoredFile, Crates, sort_by_index, serve_page, take_page, held_chunks,
  read_manifest, max_batch_payload, Bytes,
}
use neonet.Storage.Pages.{take_page_sound}

-- What a reply is: a page, the store's error, or another frame.
pub data FetchReply : Type 0 where
  stored_chunks : Option FileManifest → List EncryptedChunk → FetchReply
  store_error : String → FetchReply
  unexpected : FetchReply

-- `offset.saturating_add(page_len as u32)`
abbrev pub next_offset : ℕ → ℕ → ℕ
next_offset offset page_len = min (offset + page_len % 2 ^ 32) (2 ^ 32 - 1)

abbrev pub expected : Option FileManifest → ℕ
expected none = 0
expected (some m) = length m.chunks

abbrev pub or_first : Option FileManifest → Option FileManifest → Option FileManifest
or_first none page_manifest = page_manifest
or_first (some m) page_manifest = some m

-- The checks after the loop.
abbrev pub collect :
    Option FileManifest → List EncryptedChunk → Io (FileManifest × List EncryptedChunk)
collect none collected = err (io_error not_found "not stored at this core")
collect (some m) collected =
    if nat_beq (length collected) (length m.chunks)
    then ok (m, sort_by_index collected)
    else err (io_error invalid_data "core returned too few or too many chunks")

-- What a turn of the loop comes to: the result, or the state of the next turn.
pub data Turn : Type 0 where
  done : Io (FileManifest × List EncryptedChunk) → Turn
  more : Option FileManifest → List EncryptedChunk → ℕ → Turn

unfoldable pub on_reply : Option FileManifest → List EncryptedChunk → ℕ → Io FetchReply → Turn
on_reply manifest collected offset (err e) = done (err e)
on_reply manifest collected offset (ok (store_error text)) =
    done (err (io_error permission_denied text))
on_reply manifest collected offset (ok unexpected) =
    done (err (io_error invalid_data "unexpected fetch reply"))
on_reply manifest collected offset (ok (stored_chunks page_manifest page)) =
    let manifest' = or_first manifest page_manifest in
    let collected' = collected ++ page in
    if ltb 0 (expected manifest') && leb (expected manifest') (length collected') || is_empty page
    then done (collect manifest' collected')
    else more manifest' collected' (next_offset offset (length page))

-- The loop, on fuel: `none` is a loop that has run out of it. `call` answers a request for the page
-- at an offset.
unfoldable pub pull_pages :
    (ℕ → Io FetchReply)
    → ℕ
    → Option FileManifest
    → List EncryptedChunk
    → ℕ
    → Option (Io (FileManifest × List EncryptedChunk))
unfolding on_reply
pull_pages call zero manifest collected offset = none
pull_pages call (suc fuel) manifest collected offset =
    elim (on_reply manifest collected offset (call offset)) [
      | done r ↦ some r
      | more manifest' collected' offset' ↦ pull_pages call fuel manifest' collected' offset'
    ]

unfoldable pub pull_chunks :
    (ℕ → Io FetchReply) → ℕ → Option (Io (FileManifest × List EncryptedChunk))
unfolding pull_pages
pull_chunks call fuel = pull_pages call fuel none [] 0

module _ (call : ℕ → Io FetchReply) (fuel : ℕ) (manifest : Option FileManifest)
    (collected : List EncryptedChunk) (offset : ℕ) where
  pull_done :
      {r : Io (FileManifest × List EncryptedChunk)}
      → on_reply manifest collected offset (call offset) ≡ done r
      → pull_pages call (suc fuel) manifest collected offset ≡ some r
  unfolding pull_pages
  pull_done e = rw (pull_pages, e) refl

  pull_more :
      {next : Option FileManifest} {got : List EncryptedChunk} {from : ℕ}
      → on_reply manifest collected offset (call offset) ≡ more next got from
      → pull_pages call (suc fuel) manifest collected offset ≡ pull_pages call fuel next got from
  unfolding pull_pages
  pull_more e = rw (pull_pages, e) refl

-- A core's answer, from what it serves.
abbrev pub as_reply : Io (Option FileManifest × List EncryptedChunk) → Io FetchReply
as_reply (err e) = err e
as_reply (ok (manifest, page)) = ok (stored_chunks manifest page)

module _ {Blob : Type 0} (crates : Crates Blob) (f : StoredFile Blob) where
  -- The core's answers, for the file that it keeps.
  abbrev pub serve : ℕ → Io FetchReply
  serve offset = as_reply (serve_page crates f offset)

  -- The chunks of the file, in the order in which they are served.
  abbrev pub all_chunks : List EncryptedChunk
  all_chunks = sort_by_index (held_chunks crates.chunk.decode f.blobs)

module _ {Blob : Type 0} (crates : Crates Blob) (f : StoredFile Blob) (m : FileManifest)
    (encodes : (c : EncryptedChunk) → (b : Bytes) × (crates.chunk.encode c ≡ some b)) where
  page_exists :
      (started : Bool) (budget : ℕ) (cs : List EncryptedChunk)
      → (page : List EncryptedChunk) × (take_page crates.chunk.encode started budget cs ≡ ok page)
  unfolding take_page
  page_exists started budget [] = ([], refl)
  page_exists started budget (c ∷ cs) =
      let (b, e) = encodes c in
      let (page, rest) = page_exists true (budget - length b) cs in
      elim (Bool-cases (started && ltb budget (length b))) [
        | inl stop ↦ ([], rw (e, stop) refl)
        | inr go ↦ (c ∷ page, rw (e, go, rest) refl)
      ]

  drop-all : (got rest : List EncryptedChunk) → drop (length got) (got ++ rest) ≡ rest
  drop-all [] rest = refl
  drop-all (c ∷ cs) rest = drop-all cs rest

  serve-page :
      (got rest page : List EncryptedChunk)
      → (all_chunks crates f) ≡ got ++ rest
      → take_page crates.chunk.encode false max_batch_payload rest ≡ ok page
      → read_manifest crates f.manifest ≡ some m
      → (serve crates f) (length got) ≡ ok (stored_chunks (some m) page)
  unfolding serve_page
  serve-page got rest page e p r = rw (e, drop-all got rest, p, r) refl

  -- A turn that has all chunks ends the loop, and one that has not goes on behind its page.
  last_turn :
      (manifest : Option FileManifest) (got page : List EncryptedChunk)
      → or_first manifest (some m) ≡ some m
      → (all_chunks crates f) ≡ got ++ page
      → length m.chunks ≡ length (all_chunks crates f)
      → (ltb 0 (length m.chunks) || is_empty page) ≡ true
      → on_reply manifest got (length got) (ok (stored_chunks (some m) page))
        ≡ done (ok (m, sort_by_index (all_chunks crates f)))
  unfolding on_reply
  last_turn manifest got page first e same some_left =
      rw (first, ← e) (ground (arith, nat_beq_iff (length (all_chunks crates f)) (length m.chunks)))

  next_turn :
      (manifest : Option FileManifest) (got page : List EncryptedChunk)
      → or_first manifest (some m) ≡ some m
      → length (got ++ page) < length m.chunks
      → length m.chunks < 2 ^ 32
      → is_empty page ≡ false
      → on_reply manifest got (length got) (ok (stored_chunks (some m) page))
        ≡ more (some m) (got ++ page) (length (got ++ page))
  unfolding on_reply
  next_turn manifest got page first few small filled =
      rw first (ground (arith, length-append got page))

  no_chunks : take_page crates.chunk.encode false max_batch_payload [] ≡ ok []
  unfolding take_page
  no_chunks = refl

  split_length :
      (xs ys zs : List EncryptedChunk) → xs ≡ ys ++ zs → length xs ≡ length ys + length zs
  split_length xs ys zs e = rw e (length-append ys zs)

  regroup :
      (xs got rest page left : List EncryptedChunk)
      → xs ≡ got ++ rest
      → rest ≡ page ++ left
      → xs ≡ (got ++ page) ++ left
  regroup xs got rest page left e split = rw (e, split) (sym (append_assoc got page left))

  some_chunk :
      (c : EncryptedChunk) (page others : List EncryptedChunk)
      → page ≡ c ∷ others
      → (is_empty page ≡ false) × (1 ≤ length page)
  some_chunk c page others e = rw e (refl, omega arith)

  -- One page of at least one chunk, and then the rest of the loop.
  pulled_page :
      (fuel : ℕ) (manifest : Option FileManifest) (got rest page left : List EncryptedChunk)
      → (all_chunks crates f) ≡ got ++ rest
      → rest ≡ page ++ left
      → take_page crates.chunk.encode false max_batch_payload rest ≡ ok page
      → is_empty page ≡ false
      → 1 ≤ length page
      → length (all_chunks crates f) < 2 ^ 32
      → length m.chunks ≡ length (all_chunks crates f)
      → read_manifest crates f.manifest ≡ some m
      → or_first manifest (some m) ≡ some m
      → pull_pages (serve crates f) fuel (some m) (got ++ page) (length (got ++ page))
        ≡ some (ok (m, sort_by_index (all_chunks crates f)))
      → pull_pages (serve crates f) (suc fuel) manifest got (length got)
        ≡ some (ok (m, sort_by_index (all_chunks crates f)))
  pulled_page fuel manifest got rest page [] e split p filled one small same r first after =
      let whole : (all_chunks crates f) ≡ got ++ page =
        rw (regroup (all_chunks crates f) got rest page [] e split) (append-nil (got ++ page)) in
      let n = split_length (all_chunks crates f) got page whole in
      pull_done (serve crates f) fuel manifest got (length got) (
        rw (serve-page got rest page e p r)
          (last_turn manifest got page first whole same (ground arith)))
  pulled_page fuel manifest got rest page (d ∷ ds) e split p filled one small same r first after =
      let n =
        split_length (all_chunks crates f) (got ++ page) (d ∷ ds)
          (regroup (all_chunks crates f) got rest page (d ∷ ds) e split) in
      let turn : on_reply manifest got (length got) ((serve crates f) (length got))
          ≡ more (some m) (got ++ page) (length (got ++ page)) =
        rw (serve-page got rest page e p r)
          (next_turn manifest got page first (omega arith) (omega arith) filled) in
      rw (pull_more (serve crates f) fuel manifest got (length got) turn) after

  -- The loop from what was collected so far, on enough fuel.
  pulled_from :
      (fuel : ℕ) (manifest : Option FileManifest) (got rest : List EncryptedChunk)
      → (all_chunks crates f) ≡ got ++ rest
      → length rest < fuel
      → length (all_chunks crates f) < 2 ^ 32
      → length m.chunks ≡ length (all_chunks crates f)
      → read_manifest crates f.manifest ≡ some m
      → or_first manifest (some m) ≡ some m
      → pull_pages (serve crates f) fuel manifest got (length got)
        ≡ some (ok (m, sort_by_index (all_chunks crates f)))
  pulled_from zero manifest got rest e enough small same r first = absurd (omega arith)
  pulled_from (suc fuel) manifest got [] e enough small same r first =
      pull_done (serve crates f) fuel manifest got (length got) (
        rw (serve-page got [] [] e no_chunks r)
          (last_turn manifest got [] first e same (ground arith)))
  pulled_from (suc fuel) manifest got (c ∷ cs) e enough small same r first =
      let (page, p) = page_exists false max_batch_payload (c ∷ cs) in
      let (others, left, whole, split, light) =
        take_page_sound crates.chunk.encode max_batch_payload c cs page p in
      let (filled, one) = some_chunk c page others whole in
      let n = split_length (c ∷ cs) page left split in
      pulled_page fuel manifest got (c ∷ cs) page left e split p filled one small same r first (
        pulled_from fuel (some m) (got ++ page) left
          (regroup (all_chunks crates f) got (c ∷ cs) page left e split) (omega arith) small same r
          refl)

  -- Against a core that serves a file which does not change meanwhile, with its manifest and as
  -- many chunks as that names, fewer than `2 ^ 32`, and where every chunk serialises, the loop ends
  -- within a turn for each chunk and one more, and returns the manifest and exactly the chunks
  -- held, by their indices.
  pub pull_chunks_complete :
      read_manifest crates f.manifest ≡ some m
      → length m.chunks ≡ length (all_chunks crates f)
      → length (all_chunks crates f) < 2 ^ 32
      → pull_chunks (serve crates f) (suc (length (all_chunks crates f)))
        ≡ some (ok (m, sort_by_index (all_chunks crates f)))
  unfolding pull_chunks
  pull_chunks_complete r same small =
      pulled_from (suc (length (all_chunks crates f))) none [] (all_chunks crates f) refl
        (omega arith) small same r refl
