-- ===== src/Shell/Drive/Edits.antt =====
-- src/shell.rs: `ls`, `mkdir`, `rmdir`, `rm` and `touch` of `Vfs`. Each returns its result and the
-- drive that it leaves behind.
use neonet.Base.Text.{Text, codes}
use neonet.Base.Results.{Result, err, ok}
use neonet.Base.{Bool, List, Option, [], false, if◌then◌else◌, is_empty, none, not, some, ◌++◌, ◌∷◌}
use neonet.Shell.Drive.{
  Vfs, Node, dir, file, Dir, vacant, child, child_at, insert_child, remove_child, has_child,
  is_vacant, node_at, dir_for, alter_dir, empty_dir,
}
use neonet.Shell.Drive.Resolve.{VfsError, message, panicked, parent_and_name}

abbrev pub Outcome : Type 0
Outcome = Result VfsError (Unit {0}) × Vfs

abbrev pub fails : Vfs → Text → Outcome
fails v text = (err (message text), v)

-- `self.dir_for_mut(&parent).unwrap()` and the change of its children
unfoldable pub change_dir : (Dir → Dir) → List Text → Vfs → Outcome
unfolding alter_dir
change_dir f parent v = elim (alter_dir f parent v.root) [
  | none ↦ (err panicked, v)
  | some r ↦ (ok tt, record { root = r; cwd = v.cwd })
]

-- `Dir::items`
unfoldable pub items : Dir → List (Text × Node)
items vacant = []
items (child k n d) = (k, n) ∷ items d

unfoldable pub ls : Vfs → List (Text × Node)
unfolding items node_at
ls v =
    if is_empty v.cwd
    then items v.root
    else elim (node_at v.cwd v.root) [ some (dir d) ↦ items d | some (file f) ↦ [] | none ↦ [] ]

-- The operations below on the parent's path and the name that `parent_and_name` gives.
unfoldable pub mkdir_in : Vfs → Text → List Text → Text → Outcome
unfolding dir_for has_child change_dir
mkdir_in v path parent name = elim (dir_for parent v.root) [
  | none ↦ fails v (codes "no such directory to hold " ++ path)
  | some d ↦
      if has_child name d
      then fails v (codes "already exists: " ++ name)
      else change_dir (insert_child name empty_dir) parent v
]

unfoldable pub rmdir_in : Vfs → List Text → Text → Outcome
unfolding dir_for child_at change_dir
rmdir_in v parent name = elim (dir_for parent v.root) [
  | none ↦ fails v (codes "not found: " ++ name)
  | some d ↦ elim (child_at name d) [
    | some (dir sub) ↦
        if not (is_vacant sub)
        then fails v (codes "directory not empty: " ++ name)
        else change_dir (remove_child name) parent v
    | some (file f) ↦ fails v (codes "not a directory: " ++ name)
    | none ↦ fails v (codes "not found: " ++ name)
  ]
]

-- `matches!(child, Some(Node::Dir(sub)) if !sub.children.is_empty())`
abbrev pub holds_children : Option Node → Bool
holds_children none = false
holds_children (some (dir sub)) = not (is_vacant sub)
holds_children (some (file f)) = false

unfoldable pub rm_in : Vfs → List Text → Text → Outcome
unfolding dir_for child_at has_child change_dir
rm_in v parent name = elim (dir_for parent v.root) [
  | none ↦ fails v (codes "not found: " ++ name)
  | some d ↦
      if holds_children (child_at name d)
      then fails v (codes "directory not empty: " ++ name)
      else if not (has_child name d)
      then fails v (codes "not found: " ++ name)
      else change_dir (remove_child name) parent v
]

-- `entry(name).or_insert_with(..)` with an empty file
unfoldable pub or_insert_file : Text → Dir → Dir
unfolding has_child insert_child
or_insert_file name d =
    if has_child name d then d else insert_child name (file (record { content = [] })) d

unfoldable pub touch_in : Vfs → Text → List Text → Text → Outcome
unfolding dir_for change_dir or_insert_file
touch_in v path parent name = elim (dir_for parent v.root) [
  | none ↦ fails v (codes "no such directory to hold " ++ path)
  | some d ↦ change_dir (or_insert_file name) parent v
]

unfoldable pub mkdir : Vfs → Text → Outcome
unfolding parent_and_name mkdir_in
mkdir v path = elim (parent_and_name v path) [
  | err e ↦ (err e, v)
  | ok (parent, name) ↦ mkdir_in v path parent name
]

unfoldable pub rmdir : Vfs → Text → Outcome
unfolding parent_and_name rmdir_in
rmdir v path = elim (parent_and_name v path) [
  | err e ↦ (err e, v)
  | ok (parent, name) ↦ rmdir_in v parent name
]

unfoldable pub rm : Vfs → Text → Outcome
unfolding parent_and_name rm_in
rm v path = elim (parent_and_name v path) [
  | err e ↦ (err e, v)
  | ok (parent, name) ↦ rm_in v parent name
]

unfoldable pub touch : Vfs → Text → Outcome
unfolding parent_and_name touch_in
touch v path = elim (parent_and_name v path) [
  | err e ↦ (err e, v)
  | ok (parent, name) ↦ touch_in v path parent name
]
