-- ===== src/Examples/Shares.antt =====
-- Runs of src/burrow/mod.rs and src/app/burrow.rs, on a file system without links where every path
-- names a file of one byte.
use neonet.Base.Text.{Text}
use neonet.Base.{arith, List, Option, [], all, ap, none, refl, some, true, ◌++◌, ◌∷◌, ◌≡◌}
use neonet.Burrow.{FileSystem, regular, is_prefix, read_share}
use neonet.Burrow.Handler.{fork_frame, fork_root, handle_burrow}
use neonet.Burrow.Inside.{read_inside}
use neonet.Burrow.Writes.{is_within, ListsNoParent, handle_burrow_writes}

abbrev fs : FileSystem
fs = record {
  canonicalize = λ p. some p;
  symlink_metadata = λ p. some (record { file_type = regular; len = 1 });
  read_dir = λ p. some ((97 ∷ []) ∷ []);
  read = λ p. some (5 ∷ []);
  is_dir = λ p. true;
}

abbrev beside : Text → Option (List Text) → Option (List Text)
beside n none = none
beside n (some p) = some (p ++ n ∷ [])

abbrev root : List Text
root = (104 ∷ []) ∷ (115 ∷ []) ∷ []

lists : ListsNoParent fs
unfolding neonet.Base.Sets.contains
lists p ns h = ground arith

-- `./a`
read_inside_example :
    (path : List Text) × (real : List Text) × (fs.read path ≡ some (5 ∷ []))
    × (fs.canonicalize path ≡ some real)
    × (is_prefix root real ≡ true)
unfolding read_share neonet.Base.Sets.contains
read_inside_example =
    read_inside fs root (46 ∷ 47 ∷ 97 ∷ []) (5 ∷ []) refl (λ p q n m c s r. ap (beside n) c) refl

handle_burrow_writes_example :
    all
      (is_within ((104 ∷ []) ∷ []) (fork_root fs 3 ((104 ∷ []) ∷ [])))
      (handle_burrow fs 3 ((104 ∷ []) ∷ []) (fork_frame (97 ∷ []))).2
    ≡ true
handle_burrow_writes_example =
    handle_burrow_writes fs 3 ((104 ∷ []) ∷ []) lists (fork_frame (97 ∷ []))
