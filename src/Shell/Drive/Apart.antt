-- ===== src/Shell/Drive/Apart.antt =====
-- src/shell.rs: the edits of the virtual drive leave every path alone that parts from their target.
use neonet.Base.Results.{Result-cases, err, ok}
use neonet.Base.Text.{Text}
use neonet.Base.{
  List, Option-cases, [], arith, false, inl, inr, list_eq, nat_eq, refl, true, ◌++◌, ◌==◌, ◌∷◌, ◌≡◌,
  Option, ap, sym, ◌∙◌,
}
use neonet.Shell.Drive.{
  Vfs, Node, file, Dir, child_at, insert_child, remove_child, node_at, alter_node, alter_dir,
  empty_dir,
}
use neonet.Shell.Drive.Lookup.{diverges, child_at-insert, child_at-remove}
use neonet.Shell.Drive.Resolve.{parent_and_name, split_path}
use neonet.Shell.Drive.Edits.{
  Outcome, change_dir, or_insert_file, mkdir_in, rmdir_in, rm_in, touch_in, mkdir, rmdir, rm, touch,
}
use neonet.Shell.Drive.Contents.{append_at, write, into_file, and_then}
use neonet.Shell.Drive.Laws.{alter_dir_apart, alter_node_apart, parent_and_name_parts}

-- The operations that change one place of the drive.
pub data Edit : Type 0 where
  make_dir remove_dir remove_file touch_file : Text → Edit
  write_line : Text → Text → Edit

unfoldable pub apply : Edit → Vfs → Outcome
unfolding mkdir rmdir rm touch write
apply (make_dir path) v = mkdir v path
apply (remove_dir path) v = rmdir v path
apply (remove_file path) v = rm v path
apply (touch_file path) v = touch v path
apply (write_line path text) v = write v path text

abbrev pub target : Edit → Text
target (make_dir path) = path
target (remove_dir path) = path
target (remove_file path) = path
target (touch_file path) = path
target (write_line path text) = path

insert_law :
    (k : Text) (n : Node) (j : Text) (d : Dir)
    → (k == j) ≡ false
    → child_at j (insert_child k n d) ≡ child_at j d
insert_law k n j d h = ground (arith, child_at-insert j k n d)

remove_law :
    (k j : Text) (d : Dir) → (k == j) ≡ false → child_at j (remove_child k d) ≡ child_at j d
remove_law k j d h = ground (arith, child_at-remove j k d)

or_insert_law :
    (k j : Text) (d : Dir) → (k == j) ≡ false → child_at j (or_insert_file k d) ≡ child_at j d
unfolding or_insert_file
or_insert_law k j d h = ground (arith, insert_law k (file (record { content = [] })) j d h)

change_apart :
    (f : Dir → Dir) (k : Text) (parent : List Text) (v : Vfs) (qs : List Text)
    → ((j : Text) (e : Dir) → (k == j) ≡ false → child_at j (f e) ≡ child_at j e)
    → diverges (parent ++ k ∷ []) qs ≡ true
    → node_at qs (change_dir f parent v).1.root ≡ node_at qs v.root
unfolding change_dir
change_apart f k parent v qs law h = elim (Option-cases (alter_dir f parent v.root)) [
  | inl e ↦ rw (change_dir, e) refl
  | inr (r, e) ↦ rw (change_dir, e) (alter_dir_apart f k parent v.root r qs law e h)
]

module _ (v : Vfs) (path : Text) (parent : List Text) (name : Text) (qs : List Text)
    (h : diverges (parent ++ name ∷ []) qs ≡ true) where
  mkdir_in_apart : node_at qs (mkdir_in v path parent name).1.root ≡ node_at qs v.root
  unfolding mkdir_in
  mkdir_in_apart = ground (
    arith,
    change_apart (insert_child name empty_dir) name parent v qs (insert_law name empty_dir) h,
  )

  rmdir_in_apart : node_at qs (rmdir_in v parent name).1.root ≡ node_at qs v.root
  unfolding rmdir_in
  rmdir_in_apart =
      ground (arith, change_apart (remove_child name) name parent v qs (remove_law name) h)

  rm_in_apart : node_at qs (rm_in v parent name).1.root ≡ node_at qs v.root
  unfolding rm_in
  rm_in_apart =
      ground (arith, change_apart (remove_child name) name parent v qs (remove_law name) h)

  touch_in_apart : node_at qs (touch_in v path parent name).1.root ≡ node_at qs v.root
  unfolding touch_in
  touch_in_apart =
      ground (arith, change_apart (or_insert_file name) name parent v qs (or_insert_law name) h)

-- A target that parts from a path, cut into its parent and its name.
target_apart :
    (v : Vfs) (path : Text) (qs parent : List Text) (name : Text)
    → parent_and_name v path ≡ ok (parent, name)
    → diverges (split_path v path) qs ≡ true
    → diverges (parent ++ name ∷ []) qs ≡ true
target_apart v path qs parent name w h =
    ap (λ t. diverges t qs) (sym (parent_and_name_parts v path parent name w)) ∙ h

touch_apart :
    (v : Vfs) (path : Text) (qs : List Text)
    → diverges (split_path v path) qs ≡ true
    → node_at qs (touch v path).1.root ≡ node_at qs v.root
unfolding touch
touch_apart v path qs h = elim (Result-cases (parent_and_name v path)) [
  | inr (e, w) ↦ rw (touch, w) refl
  | inl ((parent, name), w) ↦
      rw (touch, w) (touch_in_apart v path parent name qs (target_apart v path qs parent name w h))
]

append_at_apart :
    (v : Vfs) (parts : List Text) (text : Text) (qs : List Text)
    → diverges parts qs ≡ true
    → node_at qs (append_at v parts text).1.root ≡ node_at qs v.root
unfolding append_at
append_at_apart v parts text qs h = elim (Option-cases (alter_node (into_file text) parts v.root)) [
  | inl e ↦ rw (append_at, e) refl
  | inr (r, e) ↦ rw (append_at, e) (alter_node_apart (into_file text) parts v.root r qs e h)
]

change_dir_cwd :
    (f : Dir → Dir) (parent : List Text) (v : Vfs) → (change_dir f parent v).1.cwd ≡ v.cwd
unfolding change_dir
change_dir_cwd f parent v = ground arith

touch_in_cwd :
    (v : Vfs) (path : Text) (parent : List Text) (name : Text)
    → (touch_in v path parent name).1.cwd ≡ v.cwd
unfolding touch_in
touch_in_cwd v path parent name = ground (arith, change_dir_cwd (or_insert_file name) parent v)

pub touch_cwd : (v : Vfs) (path : Text) → (touch v path).1.cwd ≡ v.cwd
unfolding touch
touch_cwd v path = elim (Result-cases (parent_and_name v path)) [
  | inr (e, w) ↦ rw (touch, w) refl
  | inl ((parent, name), w) ↦ rw (touch, w) (touch_in_cwd v path parent name)
]

-- `split_path` reads the working directory alone.
pub split_path-touch :
    (v : Vfs) (path : Text) → split_path (touch v path).1 path ≡ split_path v path
unfolding split_path
split_path-touch v path = rw (touch_cwd v path) refl

and_then_apart :
    (o : Outcome) (f : Vfs → Outcome) (qs : List Text) (n : Option Node)
    → node_at qs o.1.root ≡ n
    → node_at qs (f o.1).1.root ≡ node_at qs o.1.root
    → node_at qs (and_then o f).1.root ≡ n
and_then_apart (ok u, w) f qs n h g = g ∙ h
and_then_apart (err e, w) f qs n h g = h

write_apart :
    (v : Vfs) (path text : Text) (qs : List Text)
    → diverges (split_path v path) qs ≡ true
    → node_at qs (write v path text).1.root ≡ node_at qs v.root
unfolding write
write_apart v path text qs h =
    and_then_apart (touch v path) (λ w. append_at w (split_path w path) text) qs (node_at qs v.root)
      (touch_apart v path qs h)
      (append_at_apart (touch v path).1 (split_path (touch v path).1 path) text qs
        (ap (λ t. diverges t qs) (split_path-touch v path) ∙ h))

module _ (v : Vfs) (path : Text) (qs : List Text) (h : diverges (split_path v path) qs ≡ true) where
  mkdir_apart : node_at qs (mkdir v path).1.root ≡ node_at qs v.root
  unfolding mkdir
  mkdir_apart = elim (Result-cases (parent_and_name v path)) [
    | inr (e, w) ↦ rw (mkdir, w) refl
    | inl ((parent, name), w) ↦
        rw (mkdir, w)
          (mkdir_in_apart v path parent name qs (target_apart v path qs parent name w h))
  ]

  rmdir_apart : node_at qs (rmdir v path).1.root ≡ node_at qs v.root
  unfolding rmdir
  rmdir_apart = elim (Result-cases (parent_and_name v path)) [
    | inr (e, w) ↦ rw (rmdir, w) refl
    | inl ((parent, name), w) ↦
        rw (rmdir, w)
          (rmdir_in_apart v path parent name qs (target_apart v path qs parent name w h))
  ]

  rm_apart : node_at qs (rm v path).1.root ≡ node_at qs v.root
  unfolding rm
  rm_apart = elim (Result-cases (parent_and_name v path)) [
    | inr (e, w) ↦ rw (rm, w) refl
    | inl ((parent, name), w) ↦
        rw (rm, w) (rm_in_apart v path parent name qs (target_apart v path qs parent name w h))
  ]

-- `mkdir`, `rmdir`, `rm`, `touch` and `write`, on every branch, leave the node at a path as it was
-- when the path and the target's resolved path part: neither is the beginning of the other.
pub apply_apart :
    (x : Edit) (v : Vfs) (qs : List Text)
    → diverges (split_path v (target x)) qs ≡ true
    → node_at qs (apply x v).1.root ≡ node_at qs v.root
unfolding apply
apply_apart (make_dir path) v qs h = mkdir_apart v path qs h
apply_apart (remove_dir path) v qs h = rmdir_apart v path qs h
apply_apart (remove_file path) v qs h = rm_apart v path qs h
apply_apart (touch_file path) v qs h = touch_apart v path qs h
apply_apart (write_line path text) v qs h = write_apart v path text qs h
