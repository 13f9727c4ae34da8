-- ===== src/Shell/Drive/Paths.antt =====
-- src/shell.rs: the names that `split_path` yields, and the path that `cwd_string` prints.
use neonet.Base.Text.{Text, codes}
use neonet.Base.Results.{ok}
use neonet.Base.{
  Bool, List, [], all, ap, append-nil, append_assoc, arith, false, if◌then◌else◌, is_empty, list_eq,
  nat_eq, none, not, refl, sym, true, ℕ, ◌&&◌, ◌++◌, ◌==◌, ◌||◌, ◌∙◌, ◌∷◌, ◌≡◌, ◌≢◌, some,
  Bool-cases, Option, inl, inr, ◌⊎◌,
}
use neonet.Shell.Drive.{Vfs, Node, dir, file, Dir, node_at, dir_for, as_dir}
use neonet.Shell.Drive.Resolve.{
  pop, to_first, split_slash, step_path, step_all, split_path, join_slash, cwd_string, cd,
  starts_with_slash,
}

unfoldable pub has_slash : Text → Bool
has_slash [] = false
has_slash (c ∷ s) = c == 47 || has_slash s

-- A part of a path that names a child: not empty, not `.` or `..`, and without a slash.
unfoldable pub is_name : Text → Bool
unfolding has_slash
is_name p = not (is_empty p) && not (p == codes ".") && not (p == codes "..") && not (has_slash p)

all-append :
    {A : Type 0} (p : A → Bool) (xs ys : List A) → all p (xs ++ ys) ≡ (all p xs && all p ys)
all-append p [] ys = refl
all-append p (x ∷ xs) ys = ground (arith, all-append p xs ys)

all-pop : {A : Type 0} (p : A → Bool) (xs : List A) → all p xs ≡ true → all p (pop xs) ≡ true
all-pop p [] h = refl
all-pop p (x ∷ []) h = refl
all-pop p (x ∷ y ∷ xs) h = ground (arith, all-pop p (y ∷ xs))

to_first_no_slash :
    (c : ℕ) (ws : List Text)
    → (c == 47) ≡ false
    → all (λ p. not (has_slash p)) ws ≡ true
    → all (λ p. not (has_slash p)) (to_first c ws) ≡ true
unfolding has_slash
to_first_no_slash c [] h e = ground arith
to_first_no_slash c (w ∷ ws) h e = ground arith

split_slash_no_slash : (s : Text) → all (λ p. not (has_slash p)) (split_slash s) ≡ true
unfolding split_slash has_slash
split_slash_no_slash [] = refl
split_slash_no_slash (c ∷ s) =
    ground (arith, split_slash_no_slash s, to_first_no_slash c (split_slash s))

step_path_names_kept :
    (parts : List Text) (p : Text)
    → all is_name parts ≡ true
    → has_slash p ≡ false
    → all is_name (step_path parts p) ≡ true
unfolding step_path is_name
step_path_names_kept parts p h e =
    ground (arith, all-pop is_name parts h, all-append is_name parts (p ∷ []))

step_all_names_kept :
    (parts ps : List Text)
    → all is_name parts ≡ true
    → all (λ p. not (has_slash p)) ps ≡ true
    → all is_name (step_all parts ps) ≡ true
unfolding step_all
step_all_names_kept parts [] h e = h
step_all_names_kept parts (p ∷ ps) h e =
    step_all_names_kept (step_path parts p) ps (step_path_names_kept parts p h (ground arith))
      (ground arith)

-- A path resolves to names of children: `.` and `..` never stay in it, wherever they stand.
pub split_path-all_names :
    (v : Vfs) (path : Text) → all is_name v.cwd ≡ true → all is_name (split_path v path) ≡ true
unfolding split_path
split_path-all_names v path h =
    step_all_names_kept (if starts_with_slash path then [] else v.cwd) (split_slash path)
      (ground arith) (split_slash_no_slash path)

-- A name before a slash, and a name at the end.
split_slash-piece :
    (p rest : Text) → has_slash p ≡ false → split_slash (p ++ 47 ∷ rest) ≡ p ∷ split_slash rest
unfolding split_slash has_slash
split_slash-piece [] rest h = refl
split_slash-piece (c ∷ p) rest h =
    let (a, b) : ((c == 47) ≡ false) × (has_slash p ≡ false) = ground arith in
    rw (split_slash, split_slash-piece p rest b, a) refl

split_slash-last : (p : Text) → has_slash p ≡ false → split_slash p ≡ p ∷ []
unfolding split_slash has_slash
split_slash-last [] h = refl
split_slash-last (c ∷ p) h =
    let (a, b) : ((c == 47) ≡ false) × (has_slash p ≡ false) = ground arith in
    rw (split_slash, split_slash-last p b, a) refl

split_slash-join :
    (p : Text) (ps : List Text)
    → all is_name (p ∷ ps) ≡ true
    → split_slash (join_slash (p ∷ ps)) ≡ p ∷ ps
unfolding join_slash is_name
split_slash-join p [] h = split_slash-last p (ground arith)
split_slash-join p (q ∷ ps) h =
    split_slash-piece p (join_slash (q ∷ ps)) (ground arith)
    ∙ ap (λ t. p ∷ t) (split_slash-join q ps (ground arith))

step_all_names : (parts ps : List Text) → all is_name ps ≡ true → step_all parts ps ≡ parts ++ ps
unfolding step_all step_path is_name
step_all_names parts [] h = sym (append-nil parts)
step_all_names parts (p ∷ ps) h =
    let e : step_path parts p ≡ parts ++ p ∷ [] = ground arith in
    rw (step_all, e)
      (step_all_names (parts ++ p ∷ []) ps (ground arith) ∙ append_assoc parts (p ∷ []) ps)

cwd_resolves :
    (base ps : List Text)
    → all is_name ps ≡ true
    → (let path = if is_empty ps then codes "/" else 47 ∷ join_slash ps in
        step_all (if starts_with_slash path then [] else base) (split_slash path))
      ≡ ps
unfolding step_all step_path split_slash
cwd_resolves base [] h = refl
cwd_resolves base (p ∷ ps) h = rw (split_slash-join p ps h) (step_all_names [] (p ∷ ps) h)

-- The path that `cwd_string` prints resolves to the working directory, from wherever.
pub split_path-cwd_string :
    (v w : Vfs) → all is_name v.cwd ≡ true → split_path w (cwd_string v) ≡ v.cwd
unfolding split_path cwd_string
split_path-cwd_string v w h = cwd_resolves w.cwd v.cwd h

dir_for-node_at :
    (ps : List Text) (d : Dir) → is_empty ps ≡ false → dir_for ps d ≡ as_dir (node_at ps d)
unfolding dir_for
dir_for-node_at [] d h = cc
dir_for-node_at (p ∷ ps) d h = refl

dir_for_root : (d : Dir) → dir_for [] d ≡ some d
unfolding dir_for
dir_for_root d = refl

is_empty_nil : (ps : List Text) → is_empty ps ≡ true → ps ≡ []
is_empty_nil [] h = refl
is_empty_nil (p ∷ ps) h = cc

-- A `cd` that succeeds leaves the tree alone and the working directory at a directory.
pub cd_lem :
    (v : Vfs) (path : Text)
    → (cd v path).0 ≡ ok tt
    → ((cd v path).1.root ≡ v.root)
      × ((cd v path).1.cwd ≡ split_path v path)
      × (dir_for (split_path v path) v.root ≢ none)
unfolding cd
cd_lem v path h = go (Bool-cases (is_empty parts)) (node_at parts v.root) refl
  where
    parts : List Text
    parts = split_path v path

    go :
        ((is_empty parts ≡ true) ⊎ (is_empty parts ≡ false))
        → (o : Option Node) → node_at parts v.root ≡ o
        → ((cd v path).1.root ≡ v.root)
          × ((cd v path).1.cwd ≡ split_path v path)
          × (dir_for (split_path v path) v.root ≢ none)
    go (inl e) o c =
        let nil = is_empty_nil parts e in
        rw (cd, e)
          (refl, sym nil, ground (arith, ap (λ ps. dir_for ps v.root) nil, dir_for_root v.root))
    go (inr e) none c = ground (arith, c, e)
    go (inr e) (some (file f)) c = ground (arith, c, e)
    go (inr e) (some (dir d)) c =
        rw (cd, e, c) (refl, refl, ground (arith, dir_for-node_at parts v.root e, c))
