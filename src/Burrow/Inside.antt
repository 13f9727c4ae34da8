-- ===== src/Burrow/Inside.antt =====
-- src/burrow/mod.rs: what a shared directory gives away.
use neonet.Base.Text.{Bytes, Text}
use neonet.Base.{
  Bool-cases, List, Option-cases, [], ap, append_assoc, arith, beq_refl, false, inl, inr, is_empty,
  list_eq, nat_eq, refl, some, sym, true, ◌++◌, ◌∙◌, ◌∷◌, ◌≡◌, ◌⊎◌,
}
use neonet.Base.Results.{Result-cases, ok}
use neonet.Shell.Drive.Resolve.{pop}
use neonet.Burrow.{
  FileSystem, Metadata, components, is_prefix, safe_relative_path, is_regular, read_share,
}

pub last-pop : (xs : List Text) → is_empty xs ≡ false → (x : Text) × (xs ≡ pop xs ++ x ∷ [])
last-pop [] h = cc
last-pop (x ∷ []) h = (x, refl)
last-pop (x ∷ y ∷ xs) h = let (z, e) = last-pop (y ∷ xs) refl in (z, ap (λ t. x ∷ t) e)

pub is_prefix_refl : (xs : List Text) → is_prefix xs xs ≡ true
unfolding is_prefix
is_prefix_refl [] = refl
is_prefix_refl (x ∷ xs) = ground (arith, is_prefix_refl xs, beq_refl x)

pub is_prefix-append :
    (xs ys zs : List Text) → is_prefix xs ys ≡ true → is_prefix xs (ys ++ zs) ≡ true
unfolding is_prefix
is_prefix-append [] ys zs h = refl
is_prefix-append (x ∷ xs) [] zs h = cc
is_prefix-append (x ∷ xs) (y ∷ ys) zs h = ground (arith, is_prefix-append xs ys zs)

module _ (fs : FileSystem) where
  -- What `safe_relative_path` has checked of the path that it returns.
  safe_path :
      (root : List Text) (relative : Text) (path : List Text)
      → fs.canonicalize root ≡ some root
      → safe_relative_path fs root relative ≡ ok path
      → (path ≡ root)
        ⊎ ((parent : List Text) × (name : Text) × (fs.canonicalize
                (root ++ pop (components relative))
              ≡ some parent)
            × (is_prefix root parent ≡ true)
            × (path ≡ root ++ pop (components relative) ++ name ∷ []))
  unfolding safe_relative_path
  safe_path root relative path c h = elim (Bool-cases (is_empty (components relative))) [
    | inl e ↦ inl (ground (arith, c, e))
    | inr e ↦
        let (name, split) = last-pop (components relative) e in
        elim (Option-cases (fs.canonicalize (root ++ pop (components relative)))) [
          | inl p ↦ ground (arith, c, e, p)
          | inr (parent, p) ↦ elim (Bool-cases (is_prefix root parent)) [
            | inr x ↦ ground (arith, c, e, p, x)
            | inl x ↦
                let at : path ≡ root ++ components relative = ground (arith, c, e, p, x) in
                inr (
                  parent,
                  name,
                  p,
                  x,
                  at
                      ∙ ap (λ t. root ++ t) split
                      ∙ sym (append_assoc root (pop (components relative)) (name ∷ [])),
                )
          ]
        ]
  ]

  read_inv :
      (root : List Text) (relative : Text) (bytes : Bytes)
      → read_share fs root relative ≡ ok bytes
      → (path : List Text) × (meta : Metadata) × (safe_relative_path fs root relative ≡ ok path)
        × (fs.symlink_metadata path ≡ some meta)
        × (is_regular fs meta.file_type ≡ true)
        × (fs.read path ≡ some bytes)
  unfolding read_share
  read_inv root relative bytes h = elim (Result-cases (safe_relative_path fs root relative)) [
    | inr (e, s) ↦ ground (arith, s)
    | inl (path, s) ↦ elim (Option-cases (fs.symlink_metadata path)) [
      | inl m ↦ ground (arith, s, m)
      | inr (meta, m) ↦ elim (Bool-cases (is_regular fs meta.file_type)) [
        | inr r ↦ ground (arith, s, m, r)
        | inl r ↦ elim (Option-cases (fs.read path)) [
          | inl x ↦ ground (arith, s, m, r, x)
          | inr (b, x) ↦ (path, meta, s, m, r, ground (arith, s, m, r, x))
        ]
      ]
    ]
  ]

  -- What `read` gives away is a file inside of the canonical share: if a file that is no link lies
  -- where its directory lies, under its own name, then whatever links the path goes through, the
  -- path of the file that is read has the root of the share before it once its links are resolved.
  pub read_inside :
      (root : List Text) (relative : Text) (bytes : Bytes)
      → fs.canonicalize root ≡ some root
      → ((p q : List Text) (n : Text) (m : Metadata)
          → fs.canonicalize p ≡ some q
          → fs.symlink_metadata (p ++ n ∷ []) ≡ some m
          → is_regular fs m.file_type ≡ true
          → fs.canonicalize (p ++ n ∷ []) ≡ some (q ++ n ∷ []))
      → read_share fs root relative ≡ ok bytes
      → (path : List Text) × (real : List Text) × (fs.read path ≡ some bytes)
        × (fs.canonicalize path ≡ some real)
        × (is_prefix root real ≡ true)
  read_inside root relative bytes c own h =
      let (path, meta, s, m, r, x) = read_inv root relative bytes h in
      elim (safe_path root relative path c s) [
        | inl e ↦ (path, root, x, ap fs.canonicalize e ∙ c, is_prefix_refl root)
        | inr (parent, name, p, pre, e) ↦
            let m' = sym (ap fs.symlink_metadata e) ∙ m in
            (
              path,
              parent ++ name ∷ [],
              x,
              ap fs.canonicalize e
                  ∙ own (root ++ pop (components relative)) parent name meta p m' r,
              is_prefix-append root parent (name ∷ []) pre,
            )
      ]
