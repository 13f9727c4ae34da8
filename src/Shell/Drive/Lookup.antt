-- ===== src/Shell/Drive/Lookup.antt =====
-- src/shell.rs: looking up the children of a directory after an insertion, a removal and a change
-- deep in the tree.
use neonet.Base.Text.{Text}
use neonet.Shell.Drive.{
  Node, dir, file, Dir, vacant, child, child_at, insert_child, remove_child, descend, alter, in_dir,
}
use neonet.Base.{
  list_beq_iff, Bool, List, Option, Option-cases, [], arith, false, if◌then◌else◌, inl, inr,
  list_eq, nat_eq, none, refl, some, true, ◌==◌, ◌∷◌, ◌≡◌, ap, ◌++◌, ◌∙◌, Bool-cases, beq-eq, sym,
}

pub child_at-insert :
    (j k : Text) (n : Node) (d : Dir)
    → child_at j (insert_child k n d) ≡ (if k == j then some n else child_at j d)
unfolding child_at insert_child
child_at-insert j k n vacant = refl
child_at-insert j k n (child i m d) =
    ground (arith, list_beq_iff k j, list_beq_iff i k, list_beq_iff i j, child_at-insert j k n d)

pub child_at-remove :
    (j k : Text) (d : Dir) → child_at j (remove_child k d) ≡ (if k == j then none else child_at j d)
unfolding child_at remove_child
child_at-remove j k vacant = ground arith
child_at-remove j k (child i m d) =
    ground (arith, list_beq_iff k j, list_beq_iff i k, list_beq_iff i j, child_at-remove j k d)

-- Two paths that part: neither is the beginning of the other.
unfoldable pub diverges : List Text → List Text → Bool
diverges [] qs = false
diverges (p ∷ ps) [] = false
diverges (p ∷ ps) (q ∷ qs) = let rest = diverges ps qs in if p == q then rest else true

-- One step down of a change that succeeds.
pub alter_cons_inv :
    (f : Node → Option Node) (p : Text) (ps : List Text) (d : Dir) (n' : Node)
    → alter f (p ∷ ps) (dir d) ≡ some n'
    → (m : Node) × (x : Node) × (child_at p d ≡ some m)
      × (alter f ps m ≡ some x)
      × (n' ≡ dir (insert_child p x d))
unfolding alter
alter_cons_inv f p ps d n' h = elim (Option-cases (child_at p d)) [
  | inl e ↦ cc
  | inr (m, e) ↦ elim (Option-cases (alter f ps m)) [
    | inl e' ↦ cc
    | inr (x, e') ↦ (m, x, e, e', ground arith)
  ]
]

alter_cons :
    (f : Node → Option Node) (p : Text) (ps : List Text) (d : Dir) (m x : Node)
    → child_at p d ≡ some m
    → alter f ps m ≡ some x
    → alter f (p ∷ ps) (dir d) ≡ some (dir (insert_child p x d))
unfolding alter
alter_cons f p ps d m x e e' = rw (alter, e, e') refl

pub descend_cons :
    (p : Text) (ps : List Text) (d : Dir) (m : Node)
    → child_at p d ≡ some m
    → descend (dir d) (p ∷ ps) ≡ descend m ps
unfolding descend
descend_cons p ps d m e = rw (descend, e) refl

pub descend_cons_inv :
    (p : Text) (ps : List Text) (d : Dir) (m : Node)
    → descend (dir d) (p ∷ ps) ≡ some m
    → (n : Node) × (child_at p d ≡ some n) × (descend n ps ≡ some m)
unfolding descend
descend_cons_inv p ps d m h = elim (Option-cases (child_at p d)) [
  | inl e ↦ cc
  | inr (n, e) ↦ (n, e, ground arith)
]

descend_same :
    (q : Text) (qs : List Text) (d d' : Dir)
    → child_at q d ≡ child_at q d'
    → descend (dir d) (q ∷ qs) ≡ descend (dir d') (q ∷ qs)
unfolding descend
descend_same q qs d d' e = rw (descend, e) refl

child_at-insert_self : (k : Text) (n : Node) (d : Dir) → child_at k (insert_child k n d) ≡ some n
child_at-insert_self k n d = ground (arith, child_at-insert k k n d, list_beq_iff k k)

-- Another path after the child `p` has been replaced.
insert_step :
    (p q : Text) (qs : List Text) (d : Dir) (m x n' : Node)
    → child_at p d ≡ some m
    → n' ≡ dir (insert_child p x d)
    → ((p == q) ≡ true → descend x qs ≡ descend m qs)
    → descend n' (q ∷ qs) ≡ descend (dir d) (q ∷ qs)
insert_step p q qs d m x n' e e' h = ap (λ t. descend t (q ∷ qs)) e' ∙ elim (Bool-cases (p == q)) [
  | inl t ↦
      let pq = beq-eq p q t in
      let e0 : child_at q d ≡ some m = ap (λ t. child_at t d) (sym pq) ∙ e in
      let e1 : child_at q (insert_child p x d) ≡ some x =
        ap (λ t. child_at t (insert_child p x d)) (sym pq) ∙ child_at-insert_self p x d in
      descend_cons q qs (insert_child p x d) x e1 ∙ h t ∙ sym (descend_cons q qs d m e0)
  | inr f ↦ descend_same q qs (insert_child p x d) d (ground (arith, child_at-insert q p x d))
]

-- A change that succeeds: what stood at the path, and what stands there now.
pub alter_inv :
    (f : Node → Option Node) (ps : List Text) (n n' : Node)
    → alter f ps n ≡ some n'
    → (m : Node) × (m' : Node) × (descend n ps ≡ some m)
      × (f m ≡ some m')
      × (descend n' ps ≡ some m')
unfolding alter descend
alter_inv f [] n n' h = (n, n', refl, h, refl)
alter_inv f (p ∷ ps) (file g) n' h = cc
alter_inv f (p ∷ ps) (dir d) n' h =
    let (m, x, e, e', e'') = alter_cons_inv f p ps d n' h in
    let (y, y', h0, h1, h2) = alter_inv f ps m x e' in
    let now : child_at p (insert_child p x d) ≡ some x = child_at-insert_self p x d in
    (
      y,
      y',
      descend_cons p ps d m e ∙ h0,
      h1,
      ap (λ t. descend t (p ∷ ps)) e'' ∙ descend_cons p ps (insert_child p x d) x now ∙ h2,
    )

pub alter-some :
    (f : Node → Option Node) (ps : List Text) (n m m' : Node)
    → descend n ps ≡ some m
    → f m ≡ some m'
    → (n' : Node) × (alter f ps n ≡ some n')
unfolding alter descend
alter-some f [] n m m' h e = (m', ground arith)
alter-some f (p ∷ ps) (file g) m m' h e = cc
alter-some f (p ∷ ps) (dir d) m m' h e =
    let (n, e', h') = descend_cons_inv p ps d m h in
    let (x, a) = alter-some f ps n m m' h' e in
    (dir (insert_child p x d), alter_cons f p ps d n x e' a)

-- A change that the node at the path refuses.
pub alter-none :
    (f : Node → Option Node) (ps : List Text) (n m : Node)
    → descend n ps ≡ some m
    → f m ≡ none
    → alter f ps n ≡ none
unfolding alter descend
alter-none f [] n m h e = ground arith
alter-none f (p ∷ ps) (file g) m h e = cc
alter-none f (p ∷ ps) (dir d) m h e =
    let (x, a, b) = descend_cons_inv p ps d m h in rw (alter, a, alter-none f ps x m b e) refl

-- What a change leaves alone: a path that parts from the one that changes.
pub alter_apart :
    (f : Node → Option Node) (ps : List Text) (n n' : Node) (qs : List Text)
    → alter f ps n ≡ some n'
    → diverges ps qs ≡ true
    → descend n' qs ≡ descend n qs
unfolding alter descend diverges
alter_apart f [] n n' qs h v = cc
alter_apart f (p ∷ ps) n n' [] h v = cc
alter_apart f (p ∷ ps) (file g) n' (q ∷ qs) h v = cc
alter_apart f (p ∷ ps) (dir d) n' (q ∷ qs) h v =
    let (m, x, e, e', e'') = alter_cons_inv f p ps d n' h in
    let below = alter_apart f ps m x qs e' in
    insert_step p q qs d m x n' e e'' (λ t. below (ground arith))

-- A change of the child `k` of the directory at `ps` leaves every path alone that parts from
-- the child's.
pub alter_apart_child :
    (g : Dir → Dir) (k : Text) (ps : List Text) (n n' : Node) (qs : List Text)
    → ((j : Text) (d : Dir) → (k == j) ≡ false → child_at j (g d) ≡ child_at j d)
    → alter (in_dir g) ps n ≡ some n'
    → diverges (ps ++ k ∷ []) qs ≡ true
    → descend n' qs ≡ descend n qs
unfolding alter descend diverges
alter_apart_child g k [] (file x) n' qs law h v = cc
alter_apart_child g k [] (dir d) n' [] law h v = cc
alter_apart_child g k [] (dir d) n' (q ∷ qs) law h v =
    let e : n' ≡ dir (g d) = ground arith in
    let f : (k == q) ≡ false = ground arith in
    ap (λ t. descend t (q ∷ qs)) e ∙ descend_same q qs (g d) d (law q d f)
alter_apart_child g k (p ∷ ps) n n' [] law h v = cc
alter_apart_child g k (p ∷ ps) (file x) n' (q ∷ qs) law h v = cc
alter_apart_child g k (p ∷ ps) (dir d) n' (q ∷ qs) law h v =
    let (m, x, e, e', e'') = alter_cons_inv (in_dir g) p ps d n' h in
    let below = alter_apart_child g k ps m x qs law e' in
    insert_step p q qs d m x n' e e'' (λ t. below (ground arith))
