-- ===== src/Shell/Drive/Writes.antt =====
-- src/shell.rs: `write` and the operations that are made of it.
use neonet.Base.Text.{Text}
use neonet.Base.Results.{err, ok}
use neonet.Base.{
  ◌==◌, if◌then◌else◌, nat_eq, Bool, List, Option, [], arith, false, none, refl, some, true, ◌++◌,
  ◌∷◌, ◌≡◌, ap, ◌∙◌,
}
use neonet.Shell.Drive.{Vfs, File, Node, dir, file, Dir, child_at, node_at, dir_for}
use neonet.Shell.Drive.Resolve.{panicked, parent_and_name, split_path}
use neonet.Shell.Drive.Edits.{Outcome, touch}
use neonet.Shell.Drive.Contents.{append_line, append_at, write, cat, into_file, and_then}
use neonet.Shell.Drive.Laws.{alter_node_snoc, alter_node-none, parent_and_name_parts}
use neonet.Shell.Drive.Effects.{touch_in_ok, edits_at}
use neonet.Shell.Drive.Apart.{split_path-touch, touch_cwd}

-- The text of a file before `write`: that of the file, or none where there is no file yet.
abbrev pub text_before : Option Node → Text
text_before none = []
text_before (some (file f)) = f.content
text_before (some (dir d)) = []

abbrev pub is_dir : Option Node → Bool
is_dir none = false
is_dir (some (file f)) = false
is_dir (some (dir d)) = true

-- A text with a newline at its end, one that it did not have before if it is not empty.
unfoldable pub ended : Text → Text
ended [] = []
ended (c ∷ []) = if c == 10 then c ∷ [] else c ∷ 10 ∷ []
ended (c ∷ d ∷ cs) = c ∷ ended (d ∷ cs)

append_line-ended :
    (content text : Text) → append_line content text ≡ ended content ++ text ++ 10 ∷ []
unfolding append_line ended
append_line-ended [] text = refl
append_line-ended (c ∷ []) text = ground arith
append_line-ended (c ∷ d ∷ cs) text = ground (arith, append_line-ended (d ∷ cs) text)

-- The append at a path where a file stands.
append_at_file :
    (v : Vfs) (ps : List Text) (k text : Text) (f : File)
    → node_at (ps ++ k ∷ []) v.root ≡ some (file f)
    → ((append_at v (ps ++ k ∷ []) text).0 ≡ ok tt)
      × ((append_at v (ps ++ k ∷ []) text).1.cwd ≡ v.cwd)
      × (node_at (ps ++ k ∷ []) (append_at v (ps ++ k ∷ []) text).1.root
          ≡ some (file (record { content = append_line f.content text })))
unfolding append_at into_file
append_at_file v ps k text f h =
    let (r, a, b) =
      alter_node_snoc (into_file text) ps k v.root (file f)
        (file (record { content = append_line f.content text })) h refl in
    ground (arith, a, b)

append_at_dir :
    (v : Vfs) (ps : List Text) (text : Text) (d : Dir)
    → node_at ps v.root ≡ some (dir d)
    → append_at v ps text ≡ (err panicked, v)
unfolding append_at into_file
append_at_dir v ps text d h =
    rw (append_at, alter_node-none (into_file text) ps v.root (dir d) h refl) refl

and_then_ok : (o : Outcome) (f : Vfs → Outcome) → o.0 ≡ ok tt → and_then o f ≡ f o.1
and_then_ok (ok u, v) f h = refl
and_then_ok (err e, v) f h = cc

split_path_cwd : (v w : Vfs) (path : Text) → w.cwd ≡ v.cwd → split_path w path ≡ split_path v path
unfolding split_path
split_path_cwd v w path h = rw h refl

module _ (v : Vfs) (path text : Text) (parent : List Text) (name : Text) (d : Dir)
    (w : parent_and_name v path ≡ ok (parent, name)) (e : dir_for parent v.root ≡ some d) where
  -- The drive between the two steps of `write`.
  touched :
      ((touch v path).0 ≡ ok tt)
      × (split_path (touch v path).1 path ≡ parent ++ name ∷ [])
      × (node_at (parent ++ name ∷ []) (touch v path).1.root
          ≡ some (elim (child_at name d) [ none ↦ file (record { content = [] }) | some n ↦ n ]))
  touched =
      let eq = (edits_at v path parent name w).3 in
      let (a, b) = touch_in_ok v path parent name d e in
      (
        ap (λ o. o.0) eq ∙ a,
        split_path-touch v path ∙ parent_and_name_parts v path parent name w,
        rw eq b,
      )

  -- `write` is the append to what `touch` has left.
  write_step : write v path text ≡ append_at (touch v path).1 (parent ++ name ∷ []) text
  unfolding write
  write_step =
      let (a, b, c) = touched in
      and_then_ok (touch v path) (λ u. append_at u (split_path u path) text) a
      ∙ ap (λ ps. append_at (touch v path).1 ps text) b

  cat_after :
      (f : File)
      → node_at (parent ++ name ∷ []) (touch v path).1.root ≡ some (file f)
      → ((write v path text).0 ≡ ok tt)
        × (cat (write v path text).1 path ≡ ok (ended f.content ++ text ++ 10 ∷ []))
  unfolding cat
  cat_after f h =
      let (a, b, c) = append_at_file (touch v path).1 parent name text f h in
      let parts =
        split_path_cwd v (append_at (touch v path).1 (parent ++ name ∷ []) text).1 path
          (b ∙ touch_cwd v path)
        ∙ parent_and_name_parts v path parent name w in
      rw write_step (a, rw (cat, parts, c) (ap ok (append_line-ended f.content text)))

  -- Where the parent is a directory and no directory stands at the path, `write` succeeds, and
  -- `cat` then shows the text from before, if it is not empty with a newline at its end, then the
  -- text written and a newline.
  pub write-cat :
      is_dir (child_at name d) ≡ false
      → ((write v path text).0 ≡ ok tt)
        × (cat (write v path text).1 path
            ≡ ok (ended (text_before (child_at name d)) ++ text ++ 10 ∷ []))
  write-cat h = go (child_at name d) refl
    where
      go :
          (o : Option Node)
          → child_at name d ≡ o
          → ((write v path text).0 ≡ ok tt)
            × (cat (write v path text).1 path
                ≡ ok (ended (text_before (child_at name d)) ++ text ++ 10 ∷ []))
      go none c = rw c (cat_after (record { content = [] }) (ground (arith, c, touched)))
      go (some (file f)) c = rw c (cat_after f (ground (arith, c, touched)))
      go (some (dir g)) c = ground (arith, c)

  -- Where a directory stands at the path, `write` panics.
  pub write_panics : is_dir (child_at name d) ≡ true → (write v path text).0 ≡ err panicked
  write_panics h = go (child_at name d) refl
    where
      go : (o : Option Node) → child_at name d ≡ o → (write v path text).0 ≡ err panicked
      go none c = ground (arith, c)
      go (some (file f)) c = ground (arith, c)
      go (some (dir g)) c =
          let at : node_at (parent ++ name ∷ []) (touch v path).1.root ≡ some (dir g) =
            ground (arith, c, touched) in
          rw (write_step, append_at_dir (touch v path).1 (parent ++ name ∷ []) text g at) refl
