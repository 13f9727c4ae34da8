-- ===== src/Burrow/Writes.antt =====
-- src/app/burrow.rs: what a request changes on the host.
use neonet.Base.Results.{Io, err, ok, Result-cases, ◌>>=◌}
use neonet.Base.Text.{Text, Bytes, codes}
use neonet.Base.{
  not, ◌&&◌, some, Bool, Bool-cases, List, Option-cases, [], all, ap, arith, false, inl, inr,
  list_eq, nat_eq, refl, suc, true, zero, ℕ, ◌++◌, ◌==◌, ◌||◌, ◌∷◌, ◌≡◌, append-nil, append_assoc,
  beq_refl, is_empty, sym, ◌∙◌,
}
use neonet.Shell.Drive.Resolve.{pop}
use neonet.Burrow.{
  FileSystem, FileType, regular, directory, link, special, Action, create_dir_all, copy_file,
  components, is_absolute, safe_relative_path, then_all, copy_entry, copy_each, copy_dir, fork_as,
  fork_share, open_share, list_share, read_share, Entry,
}
use neonet.Burrow.Handler.{
  BurrowFrame, list_frame, listing, read_frame, content, fork_frame, fork_result, error_frame,
  join_path, on_list, on_read, on_fork, share_root, fork_root, share_fork, handle_burrow,
}
use neonet.Base.Sets.{contains, contains-append}
use neonet.Burrow.Inside.{last-pop}

-- A path that goes from `root` on without the component `..`.
unfoldable pub is_below : List Text → List Text → Bool
unfolding contains
is_below [] ys = not (contains (codes "..") ys)
is_below (x ∷ xs) [] = false
is_below (x ∷ xs) (y ∷ ys) = x == y && is_below xs ys

is_below-append :
    (xs ys zs : List Text)
    → is_below xs ys ≡ true
    → contains (codes "..") zs ≡ false
    → is_below xs (ys ++ zs) ≡ true
unfolding is_below
is_below-append [] ys zs h k = ground (arith, contains-append (codes "..") ys zs)
is_below-append (x ∷ xs) [] zs h k = cc
is_below-append (x ∷ xs) (y ∷ ys) zs h k = ground (arith, is_below-append xs ys zs)

is_below_refl : (xs : List Text) → is_below xs xs ≡ true
unfolding is_below contains
is_below_refl [] = refl
is_below_refl (x ∷ xs) = ground (arith, is_below_refl xs, beq_refl x)

-- The directories that `read_dir` lists hold neither `..` nor `.`, as its documentation says.
abbrev pub ListsNoParent : FileSystem → Type 0
ListsNoParent fs = (p ns : List Text) → fs.read_dir p ≡ some ns → contains (codes "..") ns ≡ false

-- An action whose target lies below `root`, or that makes sure of the directory `base`.
abbrev pub is_within : List Text → List Text → Action → Bool
is_within base root (create_dir_all p) = is_below root p || p == base
is_within base root (copy_file src dst) = is_below root dst

pop-append : (xs : List Text) (y : Text) → pop (xs ++ y ∷ []) ≡ xs
pop-append [] y = refl
pop-append (x ∷ []) y = refl
pop-append (x ∷ z ∷ xs) y = ap (λ t. x ∷ t) (pop-append (z ∷ xs) y)

all-append :
    (p : Action → Bool) (xs ys : List Action)
    → all p xs ≡ true
    → all p ys ≡ true
    → all p (xs ++ ys) ≡ true
all-append p [] ys h k = k
all-append p (x ∷ xs) ys h k = ground (arith, all-append p xs ys)

module _ (fs : FileSystem) (base root : List Text) (lists : ListsNoParent fs) where
  then_all_within :
      (a b : Io (Unit {0}) × List Action)
      → all (is_within base root) a.1 ≡ true
      → all (is_within base root) b.1 ≡ true
      → all (is_within base root) (then_all fs a b).1 ≡ true
  then_all_within (ok u, xs) b h k = all-append (is_within base root) xs b.1 h k
  then_all_within (err e, xs) b h k = h

  copy_each_within :
      (deeper : List Text → List Text → Io (Unit {0}) × List Action) (src dst names : List Text)
      → ((s d : List Text)
          → is_below root d ≡ true
          → all (is_within base root) (deeper s d).1 ≡ true)
      → is_below root dst ≡ true
      → contains (codes "..") names ≡ false
      → all (is_within base root) (copy_each fs deeper src dst names).1 ≡ true
  unfolding copy_each contains
  copy_each_within deeper src dst [] deep h q = refl
  copy_each_within deeper src dst (n ∷ ns) deep h q =
      elim (Option-cases (fs.symlink_metadata (src ++ n ∷ []))) [
        | inl e ↦ rw (copy_each, e) refl
        | inr (meta, e) ↦
            rw (copy_each, e)
              (then_all_within (copy_entry fs deeper meta.file_type (src ++ n ∷ []) (dst ++ n ∷ []))
                (copy_each fs deeper src dst ns) (one meta.file_type)
                (copy_each_within deeper src dst ns deep h (ground arith)))
      ]
    where
      below : is_below root (dst ++ n ∷ []) ≡ true
      below = is_below-append root dst (n ∷ []) h (ground arith)

      one :
          (t : FileType)
          → all (is_within base root) (copy_entry fs deeper t (src ++ n ∷ []) (dst ++ n ∷ [])).1
            ≡ true
      one directory = deep (src ++ n ∷ []) (dst ++ n ∷ []) below
      one regular = ground (arith, below)
      one link = refl
      one special = refl

  copy_dir_within :
      (depth : ℕ) (src dst : List Text)
      → is_below root dst ≡ true
      → all (is_within base root) (copy_dir fs depth src dst).1 ≡ true
  unfolding copy_dir
  copy_dir_within zero src dst h = refl
  copy_dir_within (suc depth) src dst h = elim (Option-cases (fs.read_dir src)) [
    | inl e ↦ rw (copy_dir, e) (ground arith)
    | inr (names, e) ↦
        rw (copy_dir, e)
          (all-append (is_within base root) (create_dir_all dst ∷ [])
            (copy_each fs (copy_dir fs depth) src dst names).1 (ground arith)
            (copy_each_within (copy_dir fs depth) src dst names (copy_dir_within depth) h
              (lists src names e)))
  ]

  fork_as_within :
      (depth : ℕ) (t : FileType) (src dst : List Text)
      → is_below root dst ≡ true
      → (is_below root (pop dst) || pop dst == base) ≡ true
      → all (is_within base root) (fork_as fs depth t src dst).1 ≡ true
  fork_as_within depth link src dst h k = refl
  fork_as_within depth regular src dst h k = ground arith
  fork_as_within depth directory src dst h k = copy_dir_within depth src dst h
  fork_as_within depth special src dst h k = refl

module _ (fs : FileSystem) (depth : ℕ) (home : List Text) (lists : ListsNoParent fs) where
  not_absolute :
      (root : List Text) (relative : Text) (path : List Text)
      → safe_relative_path fs root relative ≡ ok path
      → is_absolute relative ≡ false
  unfolding safe_relative_path
  not_absolute root relative path h = elim (Option-cases (fs.canonicalize root)) [
    | inl c ↦ ground (arith, c)
    | inr (r, c) ↦ elim (Bool-cases (is_absolute relative)) [
      | inl e ↦ ground (arith, c, e)
      | inr e ↦ e
    ]
  ]

  no_parent :
      (root : List Text) (relative : Text) (path : List Text)
      → safe_relative_path fs root relative ≡ ok path
      → contains (codes "..") (components relative) ≡ false
  unfolding safe_relative_path
  no_parent root relative path h = elim (Option-cases (fs.canonicalize root)) [
    | inl c ↦ ground (arith, c)
    | inr (r, c) ↦ elim (Bool-cases (contains (codes "..") (components relative))) [
      | inl e ↦ ground (arith, c, e, not_absolute root relative path h)
      | inr e ↦ e
    ]
  ]

  -- The parent of a destination below `forked`.
  is_empty_nil : (cs : List Text) → is_empty cs ≡ true → cs ≡ []
  is_empty_nil [] h = refl
  is_empty_nil (c ∷ cs) h = cc

  parent_within :
      (cs : List Text)
      → contains (codes "..") cs ≡ false
      → (is_below (fork_root fs depth home) (pop (fork_root fs depth home ++ cs))
          || pop (fork_root fs depth home ++ cs) == home)
        ≡ true
  parent_within cs q = elim (Bool-cases (is_empty cs)) [
    | inl e ↦
        let nil : cs ≡ [] = is_empty_nil cs e in
        let at : pop (fork_root fs depth home ++ cs) ≡ home =
          ap (λ t. pop (fork_root fs depth home ++ t)) nil
          ∙ ap pop (append-nil (fork_root fs depth home))
          ∙ pop-append home (codes "forked") in
        ground (arith, ap (λ t. t == home) at, beq_refl home)
    | inr e ↦
        let (x, split) = last-pop cs e in
        let at : pop (fork_root fs depth home ++ cs) ≡ fork_root fs depth home ++ pop cs =
          ap (λ t. pop (fork_root fs depth home ++ t)) split
          ∙ ap pop (sym (append_assoc (fork_root fs depth home) (pop cs) (x ∷ [])))
          ∙ pop-append (fork_root fs depth home ++ pop cs) x in
        let clean : contains (codes "..") (pop cs) ≡ false = ground (
          arith,
          ap (contains (codes "..")) split,
          contains-append (codes "..") (pop cs) (x ∷ []),
        ) in
        let inside =
          is_below-append (fork_root fs depth home) (fork_root fs depth home) (pop cs)
            (is_below_refl (fork_root fs depth home)) clean in
        ground (arith, ap (is_below (fork_root fs depth home)) at, inside)
  ]

  share_fork_within :
      (path : Text)
      → all (is_within home (fork_root fs depth home)) (share_fork fs depth home path).1 ≡ true
  unfolding share_fork fork_share join_path
  share_fork_within path = elim (Result-cases (open_share fs (share_root fs depth home))) [
    | inr (e, o) ↦ rw (share_fork, o) refl
    | inl (root, o) ↦ elim (Result-cases (safe_relative_path fs root path)) [
      | inr (e, s) ↦ rw (share_fork, o, fork_share, s) refl
      | inl (source, s) ↦ elim (Option-cases (fs.symlink_metadata source)) [
        | inl m ↦ rw (share_fork, o, fork_share, s, m) refl
        | inr (meta, m) ↦
            let below =
              is_below-append (fork_root fs depth home) (fork_root fs depth home) (components path)
                (is_below_refl (fork_root fs depth home)) (no_parent root path source s) in
            rw (share_fork, o, fork_share, s, m, join_path, not_absolute root path source s)
              (fork_as_within fs home (fork_root fs depth home) lists depth meta.file_type source
                (fork_root fs depth home ++ components path) below
                (parent_within (components path) (no_parent root path source s)))
      ]
    ]
  ]

  actions-on_list : (path : Text) (r : Io (List Entry)) → (on_list path r).2 ≡ []
  actions-on_list path (ok entries) = refl
  actions-on_list path (err e) = refl

  actions-on_read : (path : Text) (r : Io Bytes) → (on_read path r).2 ≡ []
  actions-on_read path (ok bytes) = refl
  actions-on_read path (err e) = refl

  actions-on_fork : (path : Text) (r : Io (Unit {0}) × List Action) → (on_fork path r).2 ≡ r.1
  actions-on_fork path (ok u, actions) = refl
  actions-on_fork path (err e, actions) = refl

  -- Whatever a peer asks of a shared directory, the host writes nothing but files and directories
  -- below `forked` in its home directory, under paths that go on from there without `..`, on a
  -- request to fork, and makes sure of that directory's parent. No directory lists `..`.
  pub handle_burrow_writes :
      (frame : BurrowFrame)
      → all (is_within home (fork_root fs depth home)) (handle_burrow fs depth home frame).2 ≡ true
  unfolding handle_burrow
  handle_burrow_writes (list_frame path) =
      let r = open_share fs (share_root fs depth home) >>= λ root. list_share fs root path in
      ap (all (is_within home (fork_root fs depth home))) (actions-on_list path r)
  handle_burrow_writes (read_frame path) =
      let r = open_share fs (share_root fs depth home) >>= λ root. read_share fs root path in
      ap (all (is_within home (fork_root fs depth home))) (actions-on_read path r)
  handle_burrow_writes (fork_frame path) =
      ap (all (is_within home (fork_root fs depth home)))
        (actions-on_fork path (share_fork fs depth home path))
      ∙ share_fork_within path
  handle_burrow_writes (listing path entries) = refl
  handle_burrow_writes (content path bytes) = refl
  handle_burrow_writes (fork_result path success error) = refl
  handle_burrow_writes (error_frame path e) = refl
