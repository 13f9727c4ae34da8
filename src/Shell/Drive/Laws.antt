-- ===== src/Shell/Drive/Laws.antt =====
-- src/shell.rs: what a change of one directory of the drive does to every path of the drive.
use neonet.Base.Results.{ok}
use neonet.Base.Text.{Text}
use neonet.Base.{
  List, Option, Option-cases, [], ap, arith, false, inl, inr, last?, list_eq, nat_eq, none, refl,
  some, true, ◌++◌, ◌==◌, ◌∷◌, ◌≡◌, ◌∙◌,
}
use neonet.Shell.Drive.{
  Vfs, Node, dir, file, Dir, child_at, insert_child, descend, node_at, dir_for, as_dir, alter,
  alter_node, alter_dir, in_dir,
}
use neonet.Shell.Drive.Lookup.{
  diverges, alter-none, alter_inv, alter-some, alter_apart, alter_apart_child, alter_cons_inv,
  descend_cons, descend_cons_inv,
}
use neonet.Shell.Drive.Resolve.{pop, split_path, parent_and_name}

pub last-pop : (xs : List Text) (x : Text) → last? xs ≡ some x → xs ≡ pop xs ++ x ∷ []
last-pop [] x h = cc
last-pop (y ∷ []) x h = ground arith
last-pop (y ∷ z ∷ xs) x h = ap (λ t. y ∷ t) (last-pop (z ∷ xs) x h)

-- `parent_and_name` cuts the resolved path before its last part.
pub parent_and_name_parts :
    (v : Vfs) (path : Text) (parent : List Text) (name : Text)
    → parent_and_name v path ≡ ok (parent, name)
    → split_path v path ≡ parent ++ name ∷ []
unfolding parent_and_name
parent_and_name_parts v path parent name h = elim (Option-cases (last? (split_path v path))) [
  | inl e ↦ ground (arith, e)
  | inr (x, e) ↦ ground (arith, last-pop (split_path v path) x e)
]

as_dir_inv : (o : Option Node) (d : Dir) → as_dir o ≡ some d → o ≡ some (dir d)
as_dir_inv none d h = cc
as_dir_inv (some (dir e)) d h = ground arith
as_dir_inv (some (file f)) d h = cc

-- The directory `dir_for` finds, as a node below the root.
pub dir_for-descend :
    (ps : List Text) (d e : Dir) → dir_for ps d ≡ some e → descend (dir d) ps ≡ some (dir e)
unfolding dir_for descend node_at
dir_for-descend [] d e h = ground arith
dir_for-descend (p ∷ ps) d e h = as_dir_inv (descend (dir d) (p ∷ ps)) e h

pub descend-append :
    (ps qs : List Text) (n m : Node) → descend n ps ≡ some m → descend n (ps ++ qs) ≡ descend m qs
unfolding descend
descend-append [] qs n m h = ground arith
descend-append (p ∷ ps) qs (file f) m h = cc
descend-append (p ∷ ps) qs (dir d) m h =
    let (x, e, h') = descend_cons_inv p ps d m h in
    descend_cons p (ps ++ qs) d x e ∙ descend-append ps qs x m h'

node_at-snoc :
    (ps : List Text) (k : Text) (d : Dir)
    → node_at (ps ++ k ∷ []) d ≡ descend (dir d) (ps ++ k ∷ [])
unfolding node_at descend
node_at-snoc [] k d = refl
node_at-snoc (p ∷ ps) k d = refl

descend_child : (k : Text) (e : Dir) → descend (dir e) (k ∷ []) ≡ child_at k e
unfolding descend
descend_child k e = elim (Option-cases (child_at k e)) [
  | inl h ↦ rw (descend, h) refl
  | inr (x, h) ↦ rw (descend, h) refl
]

pub node_at-child :
    (ps : List Text) (k : Text) (d e : Dir)
    → dir_for ps d ≡ some e
    → node_at (ps ++ k ∷ []) d ≡ child_at k e
node_at-child ps k d e h =
    node_at-snoc ps k d
    ∙ descend-append ps (k ∷ []) (dir d) (dir e) (dir_for-descend ps d e h)
    ∙ descend_child k e

alter_root :
    (f : Node → Option Node) (p : Text) (ps : List Text) (d : Dir) (n : Node)
    → alter f (p ∷ ps) (dir d) ≡ some n
    → (r : Dir) × (n ≡ dir r)
alter_root f p ps d n h =
    let (m, x, e, e', e'') = alter_cons_inv f p ps d n h in (insert_child p x d, e'')

pub alter_node-some :
    (f : Node → Option Node) (p : Text) (ps : List Text) (d : Dir) (m m' : Node)
    → node_at (p ∷ ps) d ≡ some m
    → f m ≡ some m'
    → (r : Dir) × (alter_node f (p ∷ ps) d ≡ some r) × (node_at (p ∷ ps) r ≡ some m')
unfolding alter_node node_at descend
alter_node-some f p ps d m m' h e =
    let (n, a) = alter-some f (p ∷ ps) (dir d) m m' h e in
    let (r, b) = alter_root f p ps d n a in
    let (y, y', c0, c1, c2) = alter_inv f (p ∷ ps) (dir d) n a in
    let c : descend (dir d) (p ∷ ps) ≡ some m = h in
    (r, rw (a, b) refl, ground (arith, b, c2, c1, c0, c, e))

pub alter_node_snoc :
    (f : Node → Option Node) (ps : List Text) (k : Text) (d : Dir) (m m' : Node)
    → node_at (ps ++ k ∷ []) d ≡ some m
    → f m ≡ some m'
    → (r : Dir) × (alter_node f (ps ++ k ∷ []) d ≡ some r) × (node_at (ps ++ k ∷ []) r ≡ some m')
alter_node_snoc f [] k d m m' h e = alter_node-some f k [] d m m' h e
alter_node_snoc f (p ∷ ps) k d m m' h e = alter_node-some f p (ps ++ k ∷ []) d m m' h e

pub alter_node-none :
    (f : Node → Option Node) (ps : List Text) (d : Dir) (m : Node)
    → node_at ps d ≡ some m
    → f m ≡ none
    → alter_node f ps d ≡ none
unfolding alter_node node_at descend
alter_node-none f [] d m h e = cc
alter_node-none f (p ∷ ps) d m h e = rw (alter-none f (p ∷ ps) (dir d) m h e) refl

-- The change of a directory that is there succeeds.
pub alter_dir-some :
    (f : Dir → Dir) (ps : List Text) (d e : Dir)
    → dir_for ps d ≡ some e
    → (r : Dir) × (alter_dir f ps d ≡ some r) × (dir_for ps r ≡ some (f e))
unfolding alter_dir alter_node dir_for node_at descend
alter_dir-some f [] d e h = (f d, refl, ground arith)
alter_dir-some f (p ∷ ps) d e h =
    let (r, a, b) =
      alter_node-some (in_dir f) p ps d (dir e) (dir (f e)) (dir_for-descend (p ∷ ps) d e h) refl in
    (r, a, rw b refl)

alter_dir-alter :
    (f : Dir → Dir) (ps : List Text) (d r : Dir)
    → alter_dir f ps d ≡ some r
    → alter (in_dir f) ps (dir d) ≡ some (dir r)
unfolding alter_dir alter_node alter
alter_dir-alter f [] d r h = ground arith
alter_dir-alter f (p ∷ ps) d r h = as_dir_inv (alter (in_dir f) (p ∷ ps) (dir d)) r h

diverges_nil : (ps : List Text) → diverges ps [] ≡ false
unfolding diverges
diverges_nil [] = refl
diverges_nil (p ∷ ps) = refl

-- Paths that part from the child's are left alone.
pub alter_dir_apart :
    (f : Dir → Dir) (k : Text) (ps : List Text) (d r : Dir) (qs : List Text)
    → ((j : Text) (e : Dir) → (k == j) ≡ false → child_at j (f e) ≡ child_at j e)
    → alter_dir f ps d ≡ some r
    → diverges (ps ++ k ∷ []) qs ≡ true
    → node_at qs r ≡ node_at qs d
unfolding node_at descend
alter_dir_apart f k ps d r [] law h v = ground (arith, diverges_nil (ps ++ k ∷ []))
alter_dir_apart f k ps d r (q ∷ qs) law h v =
    alter_apart_child f k ps (dir d) (dir r) (q ∷ qs) law (alter_dir-alter f ps d r h) v

pub alter_node_apart :
    (f : Node → Option Node) (ps : List Text) (d r : Dir) (qs : List Text)
    → alter_node f ps d ≡ some r
    → diverges ps qs ≡ true
    → node_at qs r ≡ node_at qs d
unfolding node_at descend alter_node diverges
alter_node_apart f ps d r [] h v = ground (arith, diverges_nil ps)
alter_node_apart f [] d r (q ∷ qs) h v = cc
alter_node_apart f (p ∷ ps) d r (q ∷ qs) h v =
    alter_apart f (p ∷ ps) (dir d) (dir r) (q ∷ qs) (as_dir_inv (alter f (p ∷ ps) (dir d)) r h) v
