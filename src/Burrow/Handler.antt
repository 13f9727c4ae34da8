-- ===== src/Burrow/Handler.antt =====
-- src/app/burrow.rs: the requests to a shared directory that are answered from it. `home` is the
-- path of the node's home directory.
use neonet.Base.Text.{Bytes, Text, codes}
use neonet.Base.Results.{Io, IoError, err, ok, ◌>>=◌}
use neonet.Base.{
  Bool, List, Option, [], false, if◌then◌else◌, length, none, some, true, ℕ, ◌++◌, ◌∷◌,
}
use neonet.Burrow.{
  FileSystem, Entry, Action, components, is_absolute, open_share, list_share, read_share,
  fork_share,
}

pub data BurrowFrame : Type 0 where
  list_frame : Text → BurrowFrame
  listing : Text → List Entry → BurrowFrame
  read_frame : Text → BurrowFrame
  content : Text → Bytes → BurrowFrame
  fork_frame : Text → BurrowFrame
  fork_result : Text → Bool → Option IoError → BurrowFrame
  error_frame : Option Text → IoError → BurrowFrame

pub data BurrowNotice : Type 0 where
  browsed forked : Text → BurrowNotice
  shown : List Entry → BurrowNotice
  received : Text → ℕ → BurrowNotice
  fork_done : Text → Bool → Option IoError → BurrowNotice
  failed : Option Text → IoError → BurrowNotice

abbrev pub BurrowOutcome : Type 0
BurrowOutcome = Option BurrowNotice × List BurrowFrame × List Action

-- `destination.join(&path)`: an absolute path replaces what it is joined to.
unfoldable pub join_path : List Text → Text → List Text
unfolding components
join_path base path = if is_absolute path then components path else base ++ components path

abbrev pub on_list : Text → Io (List Entry) → BurrowOutcome
on_list path (ok entries) = (some (browsed path), listing path entries ∷ [], [])
on_list path (err e) = (none, error_frame (some path) e ∷ [], [])

abbrev pub on_read : Text → Io Bytes → BurrowOutcome
on_read path (ok bytes) = (none, content path bytes ∷ [], [])
on_read path (err e) = (none, error_frame (some path) e ∷ [], [])

abbrev pub on_fork : Text → Io (Unit {0}) × List Action → BurrowOutcome
on_fork path (ok u, actions) = (some (forked path), fork_result path true none ∷ [], actions)
on_fork path (err e, actions) = (none, fork_result path false (some e) ∷ [], actions)

module _ (fs : FileSystem) (depth : ℕ) (home : List Text) where
  abbrev pub share_root : List Text
  share_root = home ++ codes "share" ∷ []

  abbrev pub fork_root : List Text
  fork_root = home ++ codes "forked" ∷ []

  unfoldable pub share_fork : Text → Io (Unit {0}) × List Action
  unfolding open_share fork_share join_path
  share_fork path = elim (open_share fs share_root) [
    | err e ↦ (err e, [])
    | ok root ↦ fork_share fs depth root path (join_path fork_root path)
  ]

  unfoldable pub handle_burrow : BurrowFrame → BurrowOutcome
  unfolding open_share list_share read_share share_fork
  handle_burrow (list_frame path) =
      on_list path (open_share fs share_root >>= λ root. list_share fs root path)
  handle_burrow (read_frame path) =
      on_read path (open_share fs share_root >>= λ root. read_share fs root path)
  handle_burrow (fork_frame path) = on_fork path (share_fork path)
  handle_burrow (listing path entries) = (some (shown entries), [], [])
  handle_burrow (content path bytes) = (some (received path (length bytes)), [], [])
  handle_burrow (fork_result path success error) = (some (fork_done path success error), [], [])
  handle_burrow (error_frame path e) = (some (failed path e), [], [])
