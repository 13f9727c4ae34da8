-- ===== src/Burrow.antt =====
-- src/burrow/mod.rs and `safe_relative_path` of src/files/mod.rs: the shared directory, and
-- src/app/burrow.rs, its handler. The file system is a parameter: an absolute path is the list of
-- its components, and an answer `none` is an error of the system.
pub mod Handler
pub mod Inside
pub mod Writes
use neonet.Base.Sets.{contains}
use neonet.Base.Text.{Bytes, Text, codes, text_lt}
use neonet.Base.Results.{
  Io, err, invalid_input, io_error, ok, ok_or, other, permission_denied, ◌>>=◌, ◌>>◌,
}
use neonet.Base.{
  Bool, List, Option, String, [], false, if◌then◌else◌, is_empty, keep, list_eq, nat_eq, not, true,
  ℕ, ◌&&◌, ◌++◌, ◌==◌, ◌||◌, ◌∷◌, none, some, suc, zero,
}
use neonet.Shell.Drive.Resolve.{pop, split_slash}

-- `fs::FileType`, of the file itself and not of what a link points to.
pub data FileType : Type 0 where
  regular directory link special : FileType

pub record Metadata : Type 0 where
  pub file_type : FileType
  pub len : ℕ

-- `canonicalize`, `symlink_metadata`, `read_dir` and `read` of `std::fs`, and `Path::is_dir`.
pub record FileSystem : Type 0 where
  pub canonicalize : List Text → Option (List Text)
  pub symlink_metadata : List Text → Option Metadata
  pub read_dir : List Text → Option (List Text)
  pub read : List Text → Option Bytes
  pub is_dir : List Text → Bool

pub data EntryKind : Type 0 where
  file_entry directory_entry symlink_entry : EntryKind

pub record Entry : Type 0 where
  pub name : Text
  pub kind : EntryKind
  pub size : ℕ

-- What `fork` does to the file system, in its order.
pub data Action : Type 0 where
  create_dir_all : List Text → Action
  copy_file : List Text → List Text → Action

abbrev pub system {ℓ} : {A : Type ℓ} → Option A → Io A
system o = ok_or o (io_error other "system")

abbrev pub denied {ℓ} : {A : Type ℓ} → String → Io A
denied text = err (io_error permission_denied text)

-- `Path::is_absolute` and `Path::components`, without the components `.` and the empty ones, which
-- a join drops.
abbrev pub is_absolute : Text → Bool
is_absolute [] = false
is_absolute (c ∷ s) = c == 47

unfoldable pub components : Text → List Text
unfolding split_slash
components path = keep (λ p. not (is_empty p || p == codes ".")) (split_slash path)

-- `Path::starts_with`
unfoldable pub is_prefix : List Text → List Text → Bool
is_prefix [] ys = true
is_prefix (x ∷ xs) [] = false
is_prefix (x ∷ xs) (y ∷ ys) = x == y && is_prefix xs ys

abbrev pub kind_of : FileType → EntryKind
kind_of link = symlink_entry
kind_of directory = directory_entry
kind_of regular = file_entry
kind_of special = file_entry

-- `sort_by(|a, b| a.name.cmp(&b.name))`, which is stable.
unfoldable pub put_entry : Entry → List Entry → List Entry
put_entry e [] = e ∷ []
put_entry e (d ∷ ds) =
    let rest = put_entry e ds in if text_lt d.name e.name then d ∷ rest else e ∷ d ∷ ds

unfoldable pub sort_entries : List Entry → List Entry
unfolding put_entry
sort_entries [] = []
sort_entries (e ∷ es) = put_entry e (sort_entries es)

module _ (fs : FileSystem) where
  unfoldable pub safe_relative_path : List Text → Text → Io (List Text)
  unfolding components is_prefix
  safe_relative_path share_root relative = do
    root ← system (fs.canonicalize share_root)
    if is_absolute relative then denied "absolute path is not allowed" else ok tt
    if contains (codes "..") (components relative) then denied "path escapes share root" else ok tt
    if is_empty (components relative) then ok root else (do
      parent ← system (fs.canonicalize (root ++ pop (components relative)))
      if is_prefix root parent
          then ok (root ++ components relative)
          else denied "path escapes share root")

  -- `ReadOnlyShare::open`: the canonical root.
  unfoldable pub open_share : List Text → Io (List Text)
  open_share path = do
    root ← system (fs.canonicalize path)
    if fs.is_dir root then ok root else err (io_error invalid_input "share root is not a directory")

  unfoldable pub entries_of : List Text → List Text → Io (List Entry)
  entries_of path [] = ok []
  entries_of path (n ∷ ns) = do
    meta ← system (fs.symlink_metadata (path ++ n ∷ []))
    rest ← entries_of path ns
    ok (record { name = n; kind = kind_of meta.file_type; size = meta.len } ∷ rest)

  unfoldable pub list_share : List Text → Text → Io (List Entry)
  unfolding safe_relative_path entries_of sort_entries
  list_share root relative = do
    path ← safe_relative_path root relative
    names ← system (fs.read_dir path)
    out ← entries_of path names
    ok (sort_entries out)

  abbrev pub is_regular : FileType → Bool
  is_regular regular = true
  is_regular directory = false
  is_regular link = false
  is_regular special = false

  unfoldable pub read_share : List Text → Text → Io Bytes
  unfolding safe_relative_path
  read_share root relative = do
    path ← safe_relative_path root relative
    meta ← system (fs.symlink_metadata path)
    if is_regular meta.file_type then ok tt else denied "only regular files are readable"
    system (fs.read path)

  abbrev pub then_all :
      Io (Unit {0}) × List Action → Io (Unit {0}) × List Action → Io (Unit {0}) × List Action
  then_all (ok u, done) (r, more) = (r, done ++ more)
  then_all (err e, done) next = (err e, done)

  abbrev pub copy_entry :
      (List Text → List Text → Io (Unit {0}) × List Action)
      → FileType
      → List Text
      → List Text
      → Io (Unit {0}) × List Action
  copy_entry deeper directory src dst = deeper src dst
  copy_entry deeper regular src dst = (ok tt, copy_file src dst ∷ [])
  copy_entry deeper link src dst = (denied "unsupported entry in fork", [])
  copy_entry deeper special src dst = (denied "unsupported entry in fork", [])

  -- The loop of `copy_dir`; `deeper` is the recursive call.
  unfoldable pub copy_each :
      (List Text → List Text → Io (Unit {0}) × List Action)
      → List Text
      → List Text
      → List Text
      → Io (Unit {0}) × List Action
  copy_each deeper src dst [] = (ok tt, [])
  copy_each deeper src dst (n ∷ ns) = elim (fs.symlink_metadata (src ++ n ∷ [])) [
    | none ↦ (system none, [])
    | some meta ↦
        then_all (copy_entry deeper meta.file_type (src ++ n ∷ []) (dst ++ n ∷ []))
          (copy_each deeper src dst ns)
  ]

  -- On fuel: directories below that depth are not copied.
  unfoldable pub copy_dir : ℕ → List Text → List Text → Io (Unit {0}) × List Action
  unfolding copy_each
  copy_dir zero src dst = (system none, [])
  copy_dir (suc depth) src dst =
      then_all (ok tt, create_dir_all dst ∷ [])
        (elim (fs.read_dir src) [
          | none ↦ (system none, [])
          | some names ↦ copy_each (copy_dir depth) src dst names
        ])

  abbrev pub fork_as : ℕ → FileType → List Text → List Text → Io (Unit {0}) × List Action
  fork_as depth link src dst = (denied "symlinks cannot be forked", [])
  fork_as depth regular src dst = (ok tt, create_dir_all (pop dst) ∷ copy_file src dst ∷ [])
  fork_as depth directory src dst = copy_dir depth src dst
  fork_as depth special src dst = (err (io_error invalid_input "unsupported file type"), [])

  unfoldable pub fork_share : ℕ → List Text → Text → List Text → Io (Unit {0}) × List Action
  unfolding safe_relative_path copy_dir
  fork_share depth root relative destination = elim (safe_relative_path root relative) [
    | err e ↦ (err e, [])
    | ok source ↦ elim (fs.symlink_metadata source) [
      | none ↦ (system none, [])
      | some meta ↦ fork_as depth meta.file_type source destination
    ]
  ]
