-- ===== src/Shell/Words.antt =====
-- src/shell.rs: `tokenize`. A line and a word are lists of code points.
use neonet.Base.Text.{Text}
use neonet.Base.{
  Bool, List, Option, [], if◌then◌else◌, is_empty, none, not, some, true, ℕ, ◌&&◌, ◌++◌, ◌==◌, ◌||◌,
  ◌∷◌, ◌≡◌, list_eq, nat_eq, any, any-append, append-nil, append_assoc, arith, false, refl, sym,
}
use neonet.Shell.History.{is_whitespace}

-- The state of the loop: the words that are complete, the word under construction and the quote
-- that is open.
pub record Scan : Type 0 where
  pub words : List Text
  pub current : Text
  pub quote : Option ℕ

-- One turn of the loop over `line.chars()`.
unfoldable pub scan_char : Scan → ℕ → Scan
scan_char s c =
    let more : Scan = record { words = s.words; current = s.current ++ c ∷ []; quote = s.quote } in
    elim s.quote [
      | some q ↦
          if c == q then record { words = s.words; current = s.current; quote = none } else more
      | none ↦
          if c == 39 || c == 34
          then if is_empty s.current
            then record { words = s.words; current = s.current; quote = some c }
            else more
          else if is_whitespace c
          then if is_empty s.current
            then s
            else record { words = s.words ++ s.current ∷ []; current = []; quote = none }
          else more
    ]

unfoldable pub scan : Scan → Text → Scan
unfolding scan_char
scan s [] = s
scan s (c ∷ cs) = scan (scan_char s c) cs

unfoldable pub finish_words : Scan → List Text
finish_words s = if is_empty s.current then s.words else s.words ++ s.current ∷ []

unfoldable pub tokenize : Text → List Text
unfolding scan finish_words
tokenize line = finish_words (scan (record { words = []; current = []; quote = none }) line)

-- A command line of words in double quotes, with a blank after each.
unfoldable pub quoted : List Text → Text
quoted [] = []
quoted (w ∷ ws) = 34 ∷ w ++ 34 ∷ 32 ∷ quoted ws

-- A word that can stand between double quotes.
unfoldable pub is_plain : Text → Bool
is_plain [] = true
is_plain (c ∷ w) = not (c == 34) && is_plain w

scan-plain :
    (w : Text) (ws : List Text) (cur : Text) (rest : Text)
    → is_plain w ≡ true
    → scan (record { words = ws; current = cur; quote = some 34 }) (w ++ rest)
      ≡ scan (record { words = ws; current = cur ++ w; quote = some 34 }) rest
unfolding scan scan_char is_plain
scan-plain [] ws cur rest h = rw (append-nil cur) refl
scan-plain (c ∷ w) ws cur rest h =
    let (n, p) : ((c == 34) ≡ false) × (is_plain w ≡ true) = ground arith in
    rw (scan, scan_char, n, scan-plain w ws (cur ++ c ∷ []) rest p, append_assoc cur (c ∷ []) w)
      refl

-- A quoted word that is not empty, up to the blank after it.
scan-quoted :
    (c : ℕ) (w : Text) (ws : List Text) (rest : Text)
    → is_plain (c ∷ w) ≡ true
    → scan (record { words = ws; current = []; quote = none }) (34 ∷ (c ∷ w) ++ 34 ∷ 32 ∷ rest)
      ≡ scan (record { words = ws ++ (c ∷ w) ∷ []; current = []; quote = none }) rest
unfolding scan scan_char
scan-quoted c w ws rest h = rw (scan-plain (c ∷ w) ws [] (34 ∷ 32 ∷ rest) h) refl

unfoldable pub all_plain : List Text → Bool
unfolding is_plain
all_plain [] = true
all_plain (w ∷ ws) = not (is_empty w) && is_plain w && all_plain ws

scan-quoted_all :
    (ws done : List Text)
    → all_plain ws ≡ true
    → finish_words (scan (record { words = done; current = []; quote = none }) (quoted ws))
      ≡ done ++ ws
unfolding all_plain quoted scan finish_words
scan-quoted_all [] done h = sym (append-nil done)
scan-quoted_all ([] ∷ ws) done h = cc
scan-quoted_all ((c ∷ w) ∷ ws) done h =
    let (p, q) : (is_plain (c ∷ w) ≡ true) × (all_plain ws ≡ true) = ground arith in
    rw (scan-quoted c w done (quoted ws) p, scan-quoted_all ws (done ++ (c ∷ w) ∷ []) q)
      (append_assoc done ((c ∷ w) ∷ []) ws)

-- Words that are not empty and hold no double quote, each between double quotes and followed by a
-- blank, are read back as they are, whatever blanks and single quotes they hold.
pub tokenize-quoted : (ws : List Text) → all_plain ws ≡ true → tokenize (quoted ws) ≡ ws
unfolding tokenize
tokenize-quoted ws h = scan-quoted_all ws [] h

scan_char_no_empty :
    (s : Scan) (c : ℕ) → any is_empty s.words ≡ false → any is_empty (scan_char s c).words ≡ false
unfolding scan_char
scan_char_no_empty s c h = ground (arith, any-append is_empty s.words (s.current ∷ []))

scan_no_empty :
    (s : Scan) (cs : Text) → any is_empty s.words ≡ false → any is_empty (scan s cs).words ≡ false
unfolding scan
scan_no_empty s [] h = h
scan_no_empty s (c ∷ cs) h = scan_no_empty (scan_char s c) cs (scan_char_no_empty s c h)

-- No word of a command line is empty.
pub tokenize_no_empty : (line : Text) → any is_empty (tokenize line) ≡ false
unfolding tokenize finish_words
tokenize_no_empty line =
    let s = scan (record { words = []; current = []; quote = none }) line in
    ground (
      arith,
      any-append is_empty s.words (s.current ∷ []),
      scan_no_empty (record { words = []; current = []; quote = none }) line refl,
    )
