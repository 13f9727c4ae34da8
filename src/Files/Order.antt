-- ===== src/Files/Order.antt =====
-- src/files/mod.rs, `reconstruct_from_verified`: distinct indices below a bound, as many as the
-- bound, are all of them once they are sorted.
use neonet.Base.Sets.{contains}
use neonet.Base.Text.{Bytes}
use neonet.Base.{
  Bool, List, [], all, ap, arith, false, leb, length, list_eq, ltb, nat_eq, not, refl, suc, sym,
  true, ℕ, ◌&&◌, ◌++◌, ◌+◌, ◌<◌, ◌==◌, ◌||◌, ◌∙◌, ◌∷◌, ◌≡◌, ◌≤◌, get_elem?, some,
}
use neonet.Files.{indices_from}
use neonet.Files.Incoming.{put_index, sort_indices}

unfoldable pub nodup : List ℕ → Bool
nodup [] = true
nodup (i ∷ is) = not (contains i is) && nodup is

-- Strictly ascending from `lo` on.
asc : ℕ → List ℕ → Bool
asc lo [] = true
asc lo (i ∷ is) = leb lo i && asc (suc i) is

contains-put_index :
    (k i : ℕ) (js : List ℕ) → contains k (put_index i js) ≡ (i == k || contains k js)
unfolding put_index contains
contains-put_index k i [] = refl
contains-put_index k i (j ∷ js) = ground (arith, contains-put_index k i js)

contains-sort_indices : (k : ℕ) (is : List ℕ) → contains k (sort_indices is) ≡ contains k is
unfolding sort_indices contains
contains-sort_indices k [] = refl
contains-sort_indices k (i ∷ is) =
    ground (arith, contains-put_index k i (sort_indices is), contains-sort_indices k is)

length-put_index : (i : ℕ) (js : List ℕ) → length (put_index i js) ≡ suc (length js)
unfolding put_index
length-put_index i [] = refl
length-put_index i (j ∷ js) = ground (arith, length-put_index i js)

pub length-sort_indices : (is : List ℕ) → length (sort_indices is) ≡ length is
unfolding sort_indices
length-sort_indices [] = refl
length-sort_indices (i ∷ is) =
    ground (arith, length-put_index i (sort_indices is), length-sort_indices is)

all-put_index : (p : ℕ → Bool) (i : ℕ) (js : List ℕ) → all p (put_index i js) ≡ (p i && all p js)
unfolding put_index
all-put_index p i [] = refl
all-put_index p i (j ∷ js) = ground (arith, all-put_index p i js)

pub all-sort_indices : (p : ℕ → Bool) (is : List ℕ) → all p (sort_indices is) ≡ all p is
unfolding sort_indices
all-sort_indices p [] = refl
all-sort_indices p (i ∷ is) =
    ground (arith, all-put_index p i (sort_indices is), all-sort_indices p is)

asc-put_index :
    (lo i : ℕ) (js : List ℕ)
    → asc lo js ≡ true
    → lo ≤ i
    → contains i js ≡ false
    → asc lo (put_index i js) ≡ true
unfolding asc put_index contains
asc-put_index lo i [] a l c = ground arith
asc-put_index lo i (j ∷ js) a l c = ground (arith, asc-put_index (suc j) i js)

asc-sort_indices : (is : List ℕ) → nodup is ≡ true → asc 0 (sort_indices is) ≡ true
unfolding sort_indices nodup asc
asc-sort_indices [] h = refl
asc-sort_indices (i ∷ is) h =
    asc-put_index 0 i (sort_indices is) (asc-sort_indices is (ground arith)) (ground arith)
      (ground (arith, contains-sort_indices i is))

asc_bound :
    (lo hi : ℕ) (is : List ℕ)
    → asc lo is ≡ true
    → all (λ i. ltb i hi) is ≡ true
    → lo ≤ hi
    → lo + length is ≤ hi
unfolding asc
asc_bound lo hi [] a b l = ground arith
asc_bound lo hi (i ∷ is) a b l = ground (arith, asc_bound (suc i) hi is)

asc-all :
    (lo : ℕ) (is : List ℕ) (hs : List Bytes)
    → asc lo is ≡ true
    → all (λ i. ltb i (lo + length hs)) is ≡ true
    → length is ≡ length hs
    → is ≡ indices_from lo hs
unfolding asc
asc-all lo [] [] a b l = refl
asc-all lo [] (h ∷ hs) a b l = ground arith
asc-all lo (i ∷ is) [] a b l = ground arith
asc-all lo (i ∷ is) (h ∷ hs) a b l =
    let hi = lo + suc (length hs) in
    let (x, y) : (asc (suc i) is ≡ true) × (lo ≤ i) = ground arith in
    let (z, w) : (all (λ k. ltb k hi) is ≡ true) × (i < hi) = ground arith in
    let bound = asc_bound (suc i) hi is x z (omega arith) in
    let same : i ≡ lo = ground (arith, bound) in
    let shift : hi ≡ suc lo + length hs = omega arith in
    let rest =
      asc-all (suc lo) is hs (ap (λ k. asc (suc k) is) (sym same) ∙ x)
        (ap (λ n. all (λ k. ltb k n) is) (sym shift) ∙ z) (ground arith) in
    ap (λ k. k ∷ is) same ∙ ap (λ ks. lo ∷ ks) rest

-- Distinct indices of a list, one for each of its entries: sorted, they are all the indices.
pub sort_indices-all :
    (is : List ℕ) (hs : List Bytes)
    → nodup is ≡ true
    → all (λ i. ltb i (length hs)) is ≡ true
    → length is ≡ length hs
    → sort_indices is ≡ indices_from 0 hs
sort_indices-all is hs n b l =
    let plain : 0 + length hs ≡ length hs = omega arith in
    asc-all 0 (sort_indices is) hs (asc-sort_indices is n)
      (ap (λ k. all (λ i. ltb i k) (sort_indices is)) plain
        ∙ all-sort_indices (λ i. ltb i (length hs)) is
        ∙ b)
      (length-sort_indices is ∙ l)

contains-append_one :
    (k i : ℕ) (is : List ℕ) → contains k (is ++ i ∷ []) ≡ (contains k is || i == k)
unfolding contains
contains-append_one k i [] = ground arith
contains-append_one k i (j ∷ is) = ground (arith, contains-append_one k i is)

pub nodup-snoc :
    (is : List ℕ) (i : ℕ) → nodup is ≡ true → contains i is ≡ false → nodup (is ++ i ∷ []) ≡ true
unfolding nodup contains
nodup-snoc [] i n c = refl
nodup-snoc (j ∷ is) i n c = ground (arith, nodup-snoc is i, contains-append_one j i is)

pub get_elem_middle :
    (xs : List Bytes) (h : Bytes) (hs : List Bytes) → get_elem? (xs ++ h ∷ hs) (length xs) ≡ some h
get_elem_middle [] h hs = refl
get_elem_middle (x ∷ xs) h hs = get_elem_middle xs h hs
