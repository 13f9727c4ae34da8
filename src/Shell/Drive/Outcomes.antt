-- ===== src/Shell/Drive/Outcomes.antt =====
-- src/shell.rs: what `mkdir`, `rmdir` and `rm` promise at the resolved path of their argument, and
-- that no edit but `write` panics.
use neonet.Base.Text.{Text}
use neonet.Base.Results.{Result-cases, err, ok}
use neonet.Base.{arith, false, inl, inr, none, some, ◌≡◌, ◌≢◌, ap, sym, ◌∙◌}
use neonet.Shell.Drive.{Vfs, node_at, empty_dir}
use neonet.Shell.Drive.Resolve.{panicked, parent_and_name, split_path}
use neonet.Shell.Drive.Edits.{holds_children, mkdir, rmdir, rm, touch}
use neonet.Shell.Drive.Laws.{parent_and_name_parts}
use neonet.Shell.Drive.Effects.{
  mkdir_in_ok, rm_in_ok, rmdir_in_ok, edits_in_never_panic, edits_at, edits_nowhere,
  parent_and_name_never_panics,
}

-- A `mkdir` that succeeds: nothing stood at the path, and an empty directory stands there now.
pub mkdir_lem :
    (v : Vfs) (path : Text)
    → (mkdir v path).0 ≡ ok tt
    → (node_at (split_path v path) v.root ≡ none)
      × (node_at (split_path v path) (mkdir v path).1.root ≡ some empty_dir)
mkdir_lem v path h = elim (Result-cases (parent_and_name v path)) [
  | inr (e, w) ↦ let no = sym (ap (λ o. o.0) (edits_nowhere v path e w).0) ∙ h in ground (arith, no)
  | inl ((parent, name), w) ↦
      let at = parent_and_name_parts v path parent name w in
      let eq = (edits_at v path parent name w).0 in
      let h' = sym (ap (λ o. o.0) eq) ∙ h in rw (at, eq) (mkdir_in_ok v path parent name h')
]

-- An `rm` that succeeds: a file or an empty directory stood at the path, and nothing stands there
-- now.
pub rm_lem :
    (v : Vfs) (path : Text)
    → (rm v path).0 ≡ ok tt
    → (holds_children (node_at (split_path v path) v.root) ≡ false)
      × (node_at (split_path v path) v.root ≢ none)
      × (node_at (split_path v path) (rm v path).1.root ≡ none)
rm_lem v path h = elim (Result-cases (parent_and_name v path)) [
  | inr (e, w) ↦ let no = sym (ap (λ o. o.0) (edits_nowhere v path e w).2) ∙ h in ground (arith, no)
  | inl ((parent, name), w) ↦
      let at = parent_and_name_parts v path parent name w in
      let eq = (edits_at v path parent name w).2 in
      let h' = sym (ap (λ o. o.0) eq) ∙ h in rw (at, eq) (rm_in_ok v path parent name h')
]

-- An `rmdir` that succeeds: an empty directory stood at the path, and nothing stands there now.
pub rmdir_lem :
    (v : Vfs) (path : Text)
    → (rmdir v path).0 ≡ ok tt
    → (node_at (split_path v path) v.root ≡ some empty_dir)
      × (node_at (split_path v path) (rmdir v path).1.root ≡ none)
rmdir_lem v path h = elim (Result-cases (parent_and_name v path)) [
  | inr (e, w) ↦ let no = sym (ap (λ o. o.0) (edits_nowhere v path e w).1) ∙ h in ground (arith, no)
  | inl ((parent, name), w) ↦
      let at = parent_and_name_parts v path parent name w in
      let eq = (edits_at v path parent name w).1 in
      let h' = sym (ap (λ o. o.0) eq) ∙ h in rw (at, eq) (rmdir_in_ok v path parent name h')
]

-- `mkdir`, `rmdir`, `rm` and `touch` never panic: the `unwrap` of the parent directory finds it.
pub edits_never_panic :
    (v : Vfs) (path : Text)
    → ((mkdir v path).0 ≢ err panicked)
      × ((rmdir v path).0 ≢ err panicked)
      × ((rm v path).0 ≢ err panicked)
      × ((touch v path).0 ≢ err panicked)
edits_never_panic v path = elim (Result-cases (parent_and_name v path)) [
  | inr (e, w) ↦
      let (a, b, c, d) = edits_nowhere v path e w in
      let n = parent_and_name_never_panics v path in rw (a, b, c, d) (ground (arith, n, w))
  | inl ((parent, name), w) ↦
      let (a, b, c, d) = edits_at v path parent name w in
      rw (a, b, c, d) (edits_in_never_panic v path parent name)
]
