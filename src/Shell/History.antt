-- ===== src/Shell/History.antt =====
-- src/shell.rs: `History`. A line is the list of its code points; the file is read and written
-- through the codec of `serde_json`, `none` standing for a file that cannot be read.
use neonet.Base.Text.{Text}
use neonet.Base.Results.{Io}
use neonet.Base.{
  Bool, List, Option, [], arith, drop, if◌then◌else◌, is_empty, last?, leb, length, ltb, none, refl,
  some, suc, ℕ, ◌&&◌, ◌++◌, ◌-◌, ◌==◌, ◌||◌, ◌∷◌, ◌≡◌, Option-cases, inl, inr, list_eq, nat_eq,
  Bool-cases, zero,
}
use neonet.Base.Newest.{newest, newest_all, newest-append, length-newest}
use neonet.Base.Codec.{Codec, load_or, replace}

-- `char::is_whitespace`: the characters of the Unicode property White_Space.
abbrev pub is_whitespace : ℕ → Bool
is_whitespace c =
    leb 9 c && leb c 13
    || c == 32
    || c == 133
    || c == 160
    || c == 5760
    || leb 8192 c && leb c 8202
    || c == 8232
    || c == 8233
    || c == 8239
    || c == 8287
    || c == 12288

-- `str::trim`
unfoldable pub trim_start : Text → Text
trim_start [] = []
trim_start (c ∷ s) = let rest = trim_start s in if is_whitespace c then rest else c ∷ s

unfoldable pub trim_end : Text → Text
trim_end [] = []
trim_end (c ∷ s) = elim (trim_end s) [
  | [] ↦ if is_whitespace c then [] else c ∷ []
  | x ∷ rest ↦ c ∷ x ∷ rest
]

unfoldable pub trim : Text → Text
trim s = trim_end (trim_start s)

pub record History : Type 0 where
  pub entries : List Text

abbrev pub no_history : History
no_history = record { entries = [] }

-- `self.entries.last() != Some(&line)`, then the push of the line
unfoldable pub push_new : List Text → Text → List Text
push_new xs line = elim (last? xs) [
  | none ↦ xs ++ line ∷ []
  | some x ↦ if x == line then xs else xs ++ line ∷ []
]

-- `drain(..excess)` of what is over 50 entries
unfoldable pub drain_excess : List Text → List Text
drain_excess xs = if ltb 50 (length xs) then drop (length xs - 50) xs else xs

unfoldable pub push : History → Text → History
unfolding trim push_new drain_excess
push h line =
    if is_empty (trim line)
    then h
    else record { entries = drain_excess (push_new h.entries (trim line)) }

module _ {ℓ} {Blob : Type ℓ} (c : Codec History Blob) where
  unfoldable pub load_history : Option Blob → History
  unfolding load_or
  load_history file = load_or c no_history file

  unfoldable pub save_history : Bool → History → Option Blob → Io (Unit {0}) × Option Blob
  unfolding replace
  save_history disk h file = replace c disk h file

-- The lines typed at the prompt, one after the other.
unfoldable pub push_all : History → List Text → History
unfolding push
push_all h [] = h
push_all h (l ∷ ls) = push_all (push h l) ls

-- The history that is never cut: every line that is not blank, without its outer whitespace and
-- without the repetition of the line before it.
unfoldable pub full_log : List Text → List Text → List Text
unfolding push_new
full_log xs [] = xs
full_log xs (l ∷ ls) = full_log (if is_empty (trim l) then xs else push_new xs (trim l)) ls

last-newest : (n : ℕ) (xs : List Text) → last? (newest (suc n) xs) ≡ last? xs
unfolding newest
last-newest n [] = refl
last-newest n (x ∷ []) = ground arith
last-newest n (x ∷ y ∷ xs) = ground (arith, last-newest n (y ∷ xs))

drop_nil : (n : ℕ) → drop {A = Text} n [] ≡ []
drop_nil zero = refl
drop_nil (suc n) = refl

drop-newest : (n : ℕ) (xs : List Text) → drop (length xs - n) xs ≡ newest n xs
unfolding newest
drop-newest n [] = drop_nil (0 - n)
drop-newest n (x ∷ xs) = elim (Bool-cases (leb (suc (length xs)) n)) [
  | inl t ↦ let e : suc (length xs) - n ≡ 0 = ground arith in rw (t, e) refl
  | inr f ↦
      let rest = drop-newest n xs in
      let e : suc (length xs) - n ≡ suc (length xs - n) = ground arith in rw (f, e) rest
]

drain-newest : (xs : List Text) → drain_excess xs ≡ newest 50 xs
unfolding drain_excess
drain-newest xs = ground (arith, drop-newest 50 xs, newest_all 50 xs)

push_new-newest :
    (xs : List Text) (l : Text) → newest 50 (push_new (newest 50 xs) l) ≡ newest 50 (push_new xs l)
unfolding push_new
push_new-newest xs l = elim (Option-cases (last? xs)) [
  | inl e ↦ rw (push_new, last-newest 49 xs, e) (newest-append 50 xs (l ∷ []))
  | inr (x, e) ↦
      rw (push_new, last-newest 49 xs, e)
        (ground
          (arith, newest-append 50 xs (l ∷ []), newest_all 50 (newest 50 xs) (length-newest 50 xs)))
]

push_step :
    (h : History) (xs : List Text) (l : Text)
    → h.entries ≡ newest 50 xs
    → (push h l).entries ≡ newest 50 (if is_empty (trim l) then xs else push_new xs (trim l))
unfolding push
push_step h xs l e = elim (Bool-cases (is_empty (trim l))) [
  | inl t ↦ rw (t, e) refl
  | inr f ↦ rw (f, drain-newest (push_new h.entries (trim l)), e) (push_new-newest xs (trim l))
]

-- The entries of the history after any lines typed are the newest 50 of the log that is never cut.
pub push_all-full_log :
    (h : History) (xs : List Text) (ls : List Text)
    → h.entries ≡ newest 50 xs
    → (push_all h ls).entries ≡ newest 50 (full_log xs ls)
unfolding push_all full_log push
push_all-full_log h xs [] e = e
push_all-full_log h xs (l ∷ ls) e = push_all-full_log (push h l) _ ls (push_step h xs l e)
