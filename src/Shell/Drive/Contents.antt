-- ===== src/Shell/Drive/Contents.antt =====
-- src/shell.rs: `cat`, `write`, `copy`, `move_`, `rename` and `grep` of `Vfs`.
use neonet.Base.Text.{Text, codes}
use neonet.Base.Results.{Result, err, ok}
use neonet.Base.{
  Bool, List, Option, [], false, if◌then◌else◌, is_empty, keep, last?, list_eq, map, nat_eq, none,
  not, some, true, ◌&&◌, ◌++◌, ◌==◌, ◌||◌, ◌∷◌,
}
use neonet.Shell.Drive.{
  Vfs, Node, dir, file, Dir, insert_child, remove_child, has_child, node_at, dir_for, alter_node,
}
use neonet.Shell.Drive.Resolve.{VfsError, message, panicked, parent_and_name, split_path}
use neonet.Shell.Drive.Edits.{Outcome, fails, touch, rm, ls, change_dir}

unfoldable pub cat : Vfs → Text → Result VfsError Text
unfolding split_path node_at
cat v path = elim (node_at (split_path v path) v.root) [
  | some (file f) ↦ ok f.content
  | some (dir d) ↦ err (message (codes "is a directory, use 'ls'"))
  | none ↦ err (message (codes "not found: " ++ path))
]

-- The text after `write` has appended a line to it.
unfoldable pub append_line : Text → Text → Text
append_line content text =
    let ended : Bool = elim (last? content) [ none ↦ true | some c ↦ c == 10 ] in
    (if ended then content else content ++ 10 ∷ []) ++ text ++ 10 ∷ []

unfoldable pub into_file : Text → Node → Option Node
unfolding append_line
into_file text (file f) = some (file (record { content = append_line f.content text }))
into_file text (dir d) = none

-- `?` on the result of a step that changes the drive
abbrev pub and_then : Outcome → (Vfs → Outcome) → Outcome
and_then (ok u, v) f = f v
and_then (err e, v) f = (err e, v)

unfoldable pub append_at : Vfs → List Text → Text → Outcome
unfolding alter_node into_file
append_at v parts text = elim (alter_node (into_file text) parts v.root) [
  | none ↦ (err panicked, v)
  | some r ↦ (ok tt, record { root = r; cwd = v.cwd })
]

unfoldable pub write : Vfs → Text → Text → Outcome
unfolding touch append_at split_path
write v path text = and_then (touch v path) (λ w. append_at w (split_path w path) text)

unfoldable pub copy : Vfs → Text → Text → Outcome
unfolding cat write
copy v src dst = elim (cat v src) [ err e ↦ (err e, v) | ok content ↦ write v dst content ]

unfoldable pub move_file : Vfs → Text → Text → Outcome
unfolding cat write rm
move_file v src dst = elim (cat v src) [
  | err e ↦ (err e, v)
  | ok content ↦ and_then (write v dst content) (λ w. rm w src)
]

abbrev pub renamed : Text → Text → Text → Dir → Dir
renamed old_name new_name content d =
    insert_child new_name (file (record { content = content })) (remove_child old_name d)

unfoldable pub rename_in : Vfs → Text → List Text → Text → List Text → Text → Outcome
unfolding dir_for has_child change_dir
rename_in v content parent old_name dparent new_name =
    if not (parent == dparent)
    then fails v (codes "rename stays in the same directory (use copy/move)")
    else elim (dir_for parent v.root) [
      | none ↦ fails v (codes "not found")
      | some d ↦
          if has_child old_name d
          then change_dir (renamed old_name new_name content) parent v
          else fails v (codes "not found")
    ]

unfoldable pub rename : Vfs → Text → Text → Outcome
unfolding cat parent_and_name rename_in
rename v old new = elim (cat v old) [
  | err e ↦ (err e, v)
  | ok content ↦ elim (parent_and_name v old) [
    | err e ↦ (err e, v)
    | ok (parent, old_name) ↦ elim (parent_and_name v new) [
      | err e ↦ (err e, v)
      | ok (dparent, new_name) ↦ rename_in v content parent old_name dparent new_name
    ]
  ]
]

-- `str::lines`: the lines without their ends, and no line after a last newline. A carriage return
-- before the newline goes too.
abbrev pub drop_return : Text → Text
drop_return [] = []
drop_return (c ∷ []) = if c == 13 then [] else c ∷ []
drop_return (c ∷ d ∷ s) = c ∷ drop_return (d ∷ s)

unfoldable pub lines_from : Text → Text → List Text
lines_from cur [] = if is_empty cur then [] else cur ∷ []
lines_from cur (c ∷ s) =
    let ended = lines_from [] s in
    let more = lines_from (cur ++ c ∷ []) s in if c == 10 then drop_return cur ∷ ended else more

-- `line.contains(needle)`
abbrev pub starts_with : Text → Text → Bool
starts_with [] s = true
starts_with (c ∷ t) [] = false
starts_with (c ∷ t) (d ∷ s) = c == d && starts_with t s

unfoldable pub holds : Text → Text → Bool
holds needle [] = is_empty needle
holds needle (c ∷ s) = starts_with needle (c ∷ s) || holds needle s

unfoldable pub grep_file : Text → Text × Node → List (Text × Text)
unfolding holds lines_from
grep_file needle (name, dir d) = []
grep_file needle (name, file f) =
    map (λ line. (name, line)) (keep (holds needle) (lines_from [] f.content))

unfoldable pub grep_items : Text → List (Text × Node) → List (Text × Text)
unfolding grep_file
grep_items needle [] = []
grep_items needle (x ∷ xs) = grep_file needle x ++ grep_items needle xs

unfoldable pub grep : Vfs → Text → List (Text × Text)
unfolding ls grep_items
grep v needle = grep_items needle (ls v)
