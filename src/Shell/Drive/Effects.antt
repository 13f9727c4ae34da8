-- ===== src/Shell/Drive/Effects.antt =====
-- src/shell.rs: what each edit of the virtual drive does at its target.
use neonet.Base.Results.{ok, err}
use neonet.Base.Text.{Text}
use neonet.Base.{
  List, Option-cases, [], arith, beq_refl, false, inl, inr, none, refl, some, ◌++◌, ◌∷◌, ◌≡◌, ◌≢◌,
  list_eq, nat_eq, last?,
}
use neonet.Shell.Drive.{
  Vfs, Node, file, Dir, child_at, insert_child, remove_child, has_child, node_at, dir_for,
  empty_dir,
}
use neonet.Shell.Drive.Lookup.{child_at-insert, child_at-remove}
use neonet.Shell.Drive.Resolve.{VfsError, panicked, parent_and_name, split_path}
use neonet.Shell.Drive.Edits.{
  change_dir, or_insert_file, holds_children, mkdir_in, rmdir_in, rm_in, touch_in, mkdir, rmdir, rm,
  touch,
}
use neonet.Shell.Drive.Laws.{alter_dir-some, node_at-child}

-- The change of a directory that is there goes through, and shows at the child's path.
change_found :
    (f : Dir → Dir) (parent : List Text) (k : Text) (v : Vfs) (d : Dir)
    → dir_for parent v.root ≡ some d
    → ((change_dir f parent v).0 ≡ ok tt)
      × (node_at (parent ++ k ∷ []) (change_dir f parent v).1.root ≡ child_at k (f d))
unfolding change_dir
change_found f parent k v d h =
    let (r, a, b) = alter_dir-some f parent v.root d h in
    (rw (change_dir, a) refl, rw (change_dir, a) (node_at-child parent k r (f d) b))

child_at-insert_self : (k : Text) (n : Node) (d : Dir) → child_at k (insert_child k n d) ≡ some n
child_at-insert_self k n d = ground (arith, child_at-insert k k n d, beq_refl k)

child_at-remove_self : (k : Text) (d : Dir) → child_at k (remove_child k d) ≡ none
child_at-remove_self k d = ground (arith, child_at-remove k k d, beq_refl k)

module _ (v : Vfs) (path : Text) (parent : List Text) (name : Text) where
  pub mkdir_in_ok :
      (mkdir_in v path parent name).0 ≡ ok tt
      → (node_at (parent ++ name ∷ []) v.root ≡ none)
        × (node_at (parent ++ name ∷ []) (mkdir_in v path parent name).1.root ≡ some empty_dir)
  unfolding mkdir_in has_child
  mkdir_in_ok h = elim (Option-cases (dir_for parent v.root)) [
    | inl e ↦ ground (arith, e)
    | inr (d, e) ↦
        let (a, b) = change_found (insert_child name empty_dir) parent name v d e in
        ground
          (arith, e, b, node_at-child parent name v.root d e, child_at-insert_self name empty_dir d)
  ]

  pub rm_in_ok :
      (rm_in v parent name).0 ≡ ok tt
      → (holds_children (node_at (parent ++ name ∷ []) v.root) ≡ false)
        × (node_at (parent ++ name ∷ []) v.root ≢ none)
        × (node_at (parent ++ name ∷ []) (rm_in v parent name).1.root ≡ none)
  unfolding rm_in has_child
  rm_in_ok h = elim (Option-cases (dir_for parent v.root)) [
    | inl e ↦ ground (arith, e)
    | inr (d, e) ↦
        let (a, b) = change_found (remove_child name) parent name v d e in
        ground (arith, e, b, node_at-child parent name v.root d e, child_at-remove_self name d)
  ]

  pub rmdir_in_ok :
      (rmdir_in v parent name).0 ≡ ok tt
      → (node_at (parent ++ name ∷ []) v.root ≡ some empty_dir)
        × (node_at (parent ++ name ∷ []) (rmdir_in v parent name).1.root ≡ none)
  unfolding rmdir_in
  rmdir_in_ok h = elim (Option-cases (dir_for parent v.root)) [
    | inl e ↦ ground (arith, e)
    | inr (d, e) ↦
        let (a, b) = change_found (remove_child name) parent name v d e in
        ground (arith, e, b, node_at-child parent name v.root d e, child_at-remove_self name d)
  ]

  -- What `touch` leaves at its target.
  pub touch_in_ok :
      (d : Dir)
      → dir_for parent v.root ≡ some d
      → ((touch_in v path parent name).0 ≡ ok tt)
        × (node_at (parent ++ name ∷ []) (touch_in v path parent name).1.root
            ≡ some (elim (child_at name d) [ none ↦ file (record { content = [] }) | some n ↦ n ]))
  unfolding touch_in or_insert_file has_child
  touch_in_ok d e =
      let (a, b) = change_found (or_insert_file name) parent name v d e in
      ground (arith, e, a, b, child_at-insert_self name (file (record { content = [] })) d)

  -- The edits of a directory's children never reach the panic of `unwrap`.
  pub edits_in_never_panic :
      ((mkdir_in v path parent name).0 ≢ err panicked)
      × ((rmdir_in v parent name).0 ≢ err panicked)
      × ((rm_in v parent name).0 ≢ err panicked)
      × ((touch_in v path parent name).0 ≢ err panicked)
  unfolding mkdir_in rmdir_in rm_in touch_in
  edits_in_never_panic = elim (Option-cases (dir_for parent v.root)) [
    | inl e ↦ ground (arith, e)
    | inr (d, e) ↦
        let (a, a') = change_found (insert_child name empty_dir) parent name v d e in
        let (b, b') = change_found (remove_child name) parent name v d e in
        let (c, c') = change_found (or_insert_file name) parent name v d e in
        ground (arith, e, a, b, c)
  ]

-- The operations at the parent and the name that `parent_and_name` gives.
pub edits_at :
    (v : Vfs) (path : Text) (parent : List Text) (name : Text)
    → parent_and_name v path ≡ ok (parent, name)
    → (mkdir v path ≡ mkdir_in v path parent name)
      × (rmdir v path ≡ rmdir_in v parent name)
      × (rm v path ≡ rm_in v parent name)
      × (touch v path ≡ touch_in v path parent name)
unfolding mkdir rmdir rm touch
edits_at v path parent name w =
    (rw (mkdir, w) refl, rw (rmdir, w) refl, rw (rm, w) refl, rw (touch, w) refl)

-- What `parent_and_name` answers for a path that names the root.
pub edits_nowhere :
    (v : Vfs) (path : Text) (e : VfsError)
    → parent_and_name v path ≡ err e
    → (mkdir v path ≡ (err e, v))
      × (rmdir v path ≡ (err e, v))
      × (rm v path ≡ (err e, v))
      × (touch v path ≡ (err e, v))
unfolding mkdir rmdir rm touch
edits_nowhere v path e w =
    (rw (mkdir, w) refl, rw (rmdir, w) refl, rw (rm, w) refl, rw (touch, w) refl)

pub parent_and_name_never_panics : (v : Vfs) (path : Text) → parent_and_name v path ≢ err panicked
unfolding parent_and_name
parent_and_name_never_panics v path h = elim (Option-cases (last? (split_path v path))) [
  | inl e ↦ ground (arith, e)
  | inr (name, e) ↦ ground (arith, e)
]
