-- ===== src/Shell/Drive.antt =====
-- src/shell.rs: `Node`, `Dir`, `File` and `Vfs`, and the operations of the virtual drive. A name is
-- the list of its code points. A panic of the source (`unwrap` of `None`, `unreachable!`) is the
-- error `panicked`.
pub mod Lookup
pub mod Resolve
pub mod Edits
pub mod Contents
pub mod Laws
pub mod Apart
mod Effects
pub mod Outcomes
pub mod Writes
pub mod Paths
use neonet.Base.Text.{Text, codes, text_lt}
use neonet.Base.{
  ℕ, Bool, List, Option, if◌then◌else◌, ltb, ◌==◌, ◌≡◌, [], false, none, some, true, ◌∷◌, list_eq,
  nat_eq,
}

pub record File : Type 0 where
  pub content : Text

mutual
  pub data Node : Type 0 where
    dir : Dir → Node
    file : File → Node

  -- `Dir` with its `BTreeMap`: the children in the order of their names.
  pub data Dir : Type 0 where
    vacant : Dir
    child : Text → Node → Dir → Dir

-- `children.get`, `children.insert` and `children.remove`
unfoldable pub child_at : Text → Dir → Option Node
child_at k vacant = none
child_at k (child j n d) = if j == k then some n else child_at k d

unfoldable pub insert_child : Text → Node → Dir → Dir
insert_child k n vacant = child k n vacant
insert_child k n (child j m d) =
    let rest = insert_child k n d in
    if j == k then child k n d else if text_lt k j then child k n (child j m d) else child j m rest

unfoldable pub remove_child : Text → Dir → Dir
remove_child k vacant = vacant
remove_child k (child j m d) =
    let rest = remove_child k d in if j == k then rest else child j m rest

unfoldable pub has_child : Text → Dir → Bool
unfolding child_at
has_child k d = elim (child_at k d) [ none ↦ false | some n ↦ true ]

abbrev pub is_vacant : Dir → Bool
is_vacant vacant = true
is_vacant (child j n d) = false

-- The loop of `Vfs::node_at`.
unfoldable pub descend : Node → List Text → Option Node
descend n [] = some n
descend (dir d) (p ∷ ps) = elim (child_at p d) [ none ↦ none | some m ↦ descend m ps ]
descend (file f) (p ∷ ps) = none

unfoldable pub node_at : List Text → Dir → Option Node
node_at [] d = none
node_at (p ∷ ps) d = elim (child_at p d) [ none ↦ none | some m ↦ descend m ps ]

abbrev pub as_dir : Option Node → Option Dir
as_dir none = none
as_dir (some (dir d)) = some d
as_dir (some (file f)) = none

unfoldable pub dir_for : List Text → Dir → Option Dir
dir_for [] d = some d
dir_for (p ∷ ps) d = as_dir (node_at (p ∷ ps) d)

-- A change through the reference that `Vfs::node_at_mut` returns; `none` where it returns `None`
-- or the change panics.
unfoldable pub alter : (Node → Option Node) → List Text → Node → Option Node
alter f [] n = f n
alter f (p ∷ ps) (file g) = none
alter f (p ∷ ps) (dir d) = elim (child_at p d) [
  | none ↦ none
  | some m ↦ elim (alter f ps m) [ none ↦ none | some n ↦ some (dir (insert_child p n d)) ]
]

unfoldable pub alter_node : (Node → Option Node) → List Text → Dir → Option Dir
alter_node f [] d = none
alter_node f (p ∷ ps) d = as_dir (alter f (p ∷ ps) (dir d))

abbrev pub in_dir : (Dir → Dir) → Node → Option Node
in_dir f (dir d) = some (dir (f d))
in_dir f (file g) = none

-- A change through the reference that `Vfs::dir_for_mut` returns.
unfoldable pub alter_dir : (Dir → Dir) → List Text → Dir → Option Dir
alter_dir f [] d = some (f d)
alter_dir f (p ∷ ps) d = alter_node (in_dir f) (p ∷ ps) d

pub record Vfs : Type 0 where
  pub root : Dir
  pub cwd : List Text

abbrev pub empty_dir : Node
empty_dir = dir vacant

unfoldable pub new_vfs : Vfs
new_vfs =
    let apps =
      insert_child (codes "Games") empty_dir (insert_child (codes "Utilities") empty_dir vacant) in
    record {
      root = insert_child (codes "Apps") (dir apps) (
          insert_child (codes "home") empty_dir (
            insert_child (codes "tmp") empty_dir (
              insert_child (codes "usr") empty_dir (insert_child (codes "bin") empty_dir vacant))));
      cwd = [];
    }
