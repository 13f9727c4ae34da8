-- ===== src/Shell/Drive/Resolve.antt =====
-- src/shell.rs: `split_path`, `parent_and_name`, `cwd_string` and `cd` of `Vfs`.
use neonet.Base.Text.{Text, codes}
use neonet.Base.Results.{Result, err, ok}
use neonet.Base.{
  Bool, List, [], false, if◌then◌else◌, is_empty, last?, none, some, ℕ, ◌++◌, ◌==◌, ◌||◌, ◌∷◌,
  list_eq, nat_eq,
}
use neonet.Shell.Drive.{Vfs, dir, file, node_at}

-- The errors of the drive: the source's message, or its panic.
pub data VfsError : Type 0 where
  message : Text → VfsError
  panicked : VfsError

-- `Vec::pop`: all but the last element.
abbrev pub pop {ℓ} : {A : Type ℓ} → List A → List A
pop [] = []
pop (x ∷ []) = []
pop (x ∷ y ∷ xs) = x ∷ pop (y ∷ xs)

abbrev pub to_first : ℕ → List Text → List Text
to_first c [] = (c ∷ []) ∷ []
to_first c (w ∷ ws) = (c ∷ w) ∷ ws

-- `path.split('/')`
unfoldable pub split_slash : Text → List Text
split_slash [] = [] ∷ []
split_slash (c ∷ s) = let rest = split_slash s in if c == 47 then [] ∷ rest else to_first c rest

-- One turn of the loop of `split_path`.
unfoldable pub step_path : List Text → Text → List Text
step_path parts piece =
    if is_empty piece || piece == codes "."
    then parts
    else if piece == codes ".."
    then pop parts
    else parts ++ piece ∷ []

unfoldable pub step_all : List Text → List Text → List Text
unfolding step_path
step_all parts [] = parts
step_all parts (p ∷ ps) = step_all (step_path parts p) ps

abbrev pub starts_with_slash : Text → Bool
starts_with_slash [] = false
starts_with_slash (c ∷ s) = c == 47

unfoldable pub split_path : Vfs → Text → List Text
unfolding split_slash step_all
split_path v path = step_all (if starts_with_slash path then [] else v.cwd) (split_slash path)

unfoldable pub parent_and_name : Vfs → Text → Result VfsError (List Text × Text)
unfolding split_path
parent_and_name v path = elim (last? (split_path v path)) [
  | none ↦ err (message (codes "malformed path"))
  | some name ↦ ok (pop (split_path v path), name)
]

unfoldable pub join_slash : List Text → Text
join_slash [] = []
join_slash (p ∷ []) = p
join_slash (p ∷ q ∷ ps) = p ++ 47 ∷ join_slash (q ∷ ps)

unfoldable pub cwd_string : Vfs → Text
unfolding join_slash
cwd_string v = if is_empty v.cwd then codes "/" else 47 ∷ join_slash v.cwd

unfoldable pub cd : Vfs → Text → Result VfsError (Unit {0}) × Vfs
unfolding split_path node_at
cd v path =
    let parts = split_path v path in
    if is_empty parts
    then (ok tt, record { root = v.root; cwd = [] })
    else elim (node_at parts v.root) [
      | some (dir d) ↦ (ok tt, record { root = v.root; cwd = parts })
      | some (file f) ↦ (err (message (codes "is not a directory: " ++ path)), v)
      | none ↦ (err (message (codes "no such directory: " ++ path)), v)
    ]
