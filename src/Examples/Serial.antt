-- ===== src/Examples/Serial.antt =====
-- Serialisers with their laws: byte strings behind their lengths.
use neonet.Base.{ap, ℕ, zero, suc, ◌≡◌, refl, some, List, [], ◌∷◌, ◌++◌, arith, length, drop}
use neonet.Base.Codec.{Codec}
use neonet.Base.Text.{Bytes}
use neonet.Messaging.{Message, MessagingFrame, message}
use neonet.Files.{FileManifest, TransferState}
use neonet.Storage.{EncryptedChunk}

abbrev pub take : ℕ → Bytes → Bytes
take zero b = []
take (suc n) [] = []
take (suc n) (x ∷ xs) = x ∷ take n xs

pub take-append : (b k : Bytes) → take (length b) (b ++ k) ≡ b
take-append [] k = refl
take-append (x ∷ xs) k = rw (take-append xs k) refl

pub drop-append : (b k : Bytes) → drop (length b) (b ++ k) ≡ k
drop-append [] k = refl
drop-append (x ∷ xs) k = drop-append xs k

abbrev pub put : Bytes → Bytes → Bytes
put b k = length b ∷ b ++ k

abbrev pub first_of : Bytes → Bytes
first_of [] = []
first_of (n ∷ rest) = take n rest

abbrev pub rest_of : Bytes → Bytes
rest_of [] = []
rest_of (n ∷ rest) = drop n rest

abbrev pub head_of : Bytes → ℕ
head_of [] = 0
head_of (n ∷ rest) = n

abbrev pub put_all : List Bytes → Bytes
put_all [] = []
put_all (b ∷ bs) = put b (put_all bs)

abbrev pub get_all : ℕ → Bytes → List Bytes
get_all zero k = []
get_all (suc n) k = first_of k ∷ get_all n (rest_of k)

pub get_all-put_all : (bs : List Bytes) → get_all (length bs) (put_all bs) ≡ bs
get_all-put_all [] = refl
get_all-put_all (b ∷ bs) = rw (take-append, drop-append, get_all-put_all bs) refl

pub total_law {ℓ} :
    {A : Type ℓ} (write : A → Bytes) (read : Bytes → A)
    → ((a : A) → read (write a) ≡ a)
    → (a : A) (b : Bytes) → some (write a) ≡ some b
    → some (read b) ≡ some a
total_law write read law a b h = ground (arith, law a)

abbrev pub total {ℓ} :
    {A : Type ℓ} (write : A → Bytes) (read : Bytes → A)
    → ((a : A) → read (write a) ≡ a)
    → Codec A Bytes
total write read law = record {
  encode = λ a. some (write a);
  decode = λ b. some (read b);
  decode-encode = total_law write read law;
}

abbrev pub write_message : Message → Bytes
write_message m = put m.id (put m.sender.public_key (put m.recipient.public_key m.payload))

abbrev pub read_message : Bytes → Message
read_message b = record {
  id = first_of b;
  sender = record { public_key = first_of (rest_of b) };
  recipient = record { public_key = first_of (rest_of (rest_of b)) };
  payload = rest_of (rest_of (rest_of b));
}

pub read-write_message : (m : Message) → read_message (write_message m) ≡ m
read-write_message m =
    rw (take-append, drop-append, take-append, drop-append, take-append, drop-append) refl

abbrev pub write_frame : MessagingFrame → Bytes
write_frame (message m) = write_message m

pub read-write_frame : (f : MessagingFrame) → message (read_message (write_frame f)) ≡ f
read-write_frame (message m) = ap message (read-write_message m)

abbrev pub frames : Codec MessagingFrame Bytes
frames = total write_frame (λ b. message (read_message b)) read-write_frame

abbrev pub write_chunk : EncryptedChunk → Bytes
write_chunk c = c.index ∷ put c.nonce c.ciphertext

abbrev pub read_chunk : Bytes → EncryptedChunk
read_chunk b = record {
  index = head_of b;
  nonce = first_of (drop 1 b);
  ciphertext = rest_of (drop 1 b);
}

pub read-write_chunk : (c : EncryptedChunk) → read_chunk (write_chunk c) ≡ c
read-write_chunk c = rw (take-append, drop-append) refl

abbrev pub chunks : Codec EncryptedChunk Bytes
chunks = total write_chunk read_chunk read-write_chunk

abbrev pub write_manifest : FileManifest → Bytes
write_manifest m =
    m.version
    ∷ m.total_size
    ∷ m.chunk_size
    ∷ length m.chunks
    ∷ put m.name (put m.signer.public_key (put m.signature (put_all m.chunks)))

abbrev pub read_manifest : Bytes → FileManifest
read_manifest b =
    let text = drop 4 b in
    let behind_name = rest_of text in
    let behind_signer = rest_of behind_name in
    record {
      version = head_of b;
      name = first_of text;
      total_size = head_of (drop 1 b);
      chunk_size = head_of (drop 2 b);
      chunks = get_all (head_of (drop 3 b)) (rest_of behind_signer);
      signer = record { public_key = first_of behind_name };
      signature = first_of behind_signer;
    }

pub read-write_manifest : (m : FileManifest) → read_manifest (write_manifest m) ≡ m
read-write_manifest m =
    rw
      (
        take-append,
        drop-append,
        take-append,
        drop-append,
        take-append,
        drop-append,
        get_all-put_all m.chunks,
      )
      refl

abbrev pub manifests : Codec FileManifest Bytes
manifests = total write_manifest read_manifest read-write_manifest

-- The two lists of indices stand as byte strings of their own.
abbrev pub write_state : TransferState → Bytes
write_state s = put s.verified_chunks (put s.lost_chunks (write_manifest s.manifest))

abbrev pub read_state : Bytes → TransferState
read_state b = record {
  manifest = read_manifest (rest_of (rest_of b));
  verified_chunks = first_of b;
  lost_chunks = first_of (rest_of b);
}

pub read-write_state : (s : TransferState) → read_state (write_state s) ≡ s
read-write_state s =
    rw (take-append, drop-append, take-append, drop-append, read-write_manifest s.manifest) refl

abbrev pub states : Codec TransferState Bytes
states = total write_state read_state read-write_state
