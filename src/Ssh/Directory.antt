-- ===== src/Ssh/Directory.antt =====
-- src/ssh/mod.rs: which device a name or a fingerprint stands for.
use neonet.Base.{
  ◌≡◌, refl, Bool, true, none, some, List, [], ◌∷◌, ◌++◌, list_eq, nat_eq, ◌&&◌, if◌then◌else◌,
  keep, map, Eq, not, false, ◌||◌, ◌==◌, list_beq_iff, find, arith,
}
use neonet.Base.Text.{Bytes, Text}
use neonet.Identity.{identity_eq, fingerprint}
use neonet.Base.Sets.{contains}
use neonet.Ssh.{DeviceRecord, ResolutionDirectory, apart, add, named, resolve}

module _ {ℓ} {K : Type ℓ} ⦃e : Eq K⦄ where
  unfoldable pub distinct : List K → Bool
  unfolding contains
  distinct [] = true
  distinct (x ∷ xs) = not (contains x xs) && distinct xs

  module _ (f : DeviceRecord → K) (p : DeviceRecord → Bool) (r : DeviceRecord) where
    contains_kept :
        (x : K) (ds : List DeviceRecord)
        → contains x (map f ds) ≡ false
        → (f r == x) ≡ false
        → contains x (map f (keep p ds ++ r ∷ [])) ≡ false
    unfolding contains
    contains_kept x [] a b = ground arith
    contains_kept x (d ∷ ds) a b = ground (arith, contains_kept x ds)

    distinct_kept :
        (ds : List DeviceRecord)
        → ((d : DeviceRecord) → p d ≡ true → (f r == f d) ≡ false)
        → distinct (map f ds) ≡ true
        → distinct (map f (keep p ds ++ r ∷ [])) ≡ true
    unfolding distinct contains
    distinct_kept [] a h = refl
    distinct_kept (d ∷ ds) a h = ground (arith, distinct_kept ds a, contains_kept (f d) ds, a d)

-- No two devices of the list have the same identity, and no two have the same alias.
unfoldable pub unique : List DeviceRecord → Bool
unfolding distinct
unique ds =
    distinct (map (λ (d : DeviceRecord). d.identity) ds)
    && distinct (map (λ (d : DeviceRecord). d.alias) ds)

unfoldable pub add_all : List DeviceRecord → ResolutionDirectory → ResolutionDirectory
unfolding add
add_all [] directory = directory
add_all (r ∷ rs) directory = add_all rs (add r directory)

apart_both :
    (r d : DeviceRecord)
    → apart r d ≡ true
    → ((r.identity == d.identity) ≡ false) × ((r.alias == d.alias) ≡ false)
unfolding apart
apart_both r d h = ground (
  arith,
  list_beq_iff r.alias d.alias,
  list_beq_iff d.alias r.alias,
  list_beq_iff d.identity.public_key r.identity.public_key,
  list_beq_iff r.identity.public_key d.identity.public_key,
)

unique-add :
    (r : DeviceRecord) (ds : List DeviceRecord)
    → unique ds ≡ true
    → unique (keep (apart r) ds ++ (r ∷ [])) ≡ true
unfolding unique
unique-add r ds u = ground (
  arith,
  distinct_kept (λ (d : DeviceRecord). d.identity) (apart r) r ds (λ d h. (apart_both r d h).0),
  distinct_kept (λ (d : DeviceRecord). d.alias) (apart r) r ds (λ d h. (apart_both r d h).1),
)

-- Whatever records are added to a directory whose devices differ in identity and alias, its devices
-- still do.
pub unique-add_all :
    (rs : List DeviceRecord) (directory : ResolutionDirectory)
    → unique directory.devices ≡ true
    → unique (add_all rs directory).devices ≡ true
unfolding add_all add
unique-add_all [] directory u = u
unique-add_all (r ∷ rs) directory u =
    unique-add_all rs (add r directory) (unique-add r directory.devices u)

find-keep :
    (p q : DeviceRecord → Bool) (r : DeviceRecord) (ds : List DeviceRecord)
    → find p (keep q ds ++ (r ∷ []))
      ≡ (elim (find (λ d. p d && q d) ds) [ some d ↦ some d | none ↦ if p r then some r else none ])
find-keep p q r [] = refl
find-keep p q r (d ∷ ds) = ground (arith, find-keep p q r ds)

-- After a record is added, a text stands for the first device that has it as its alias or its
-- fingerprint, among those that were listed before with another identity and another alias than the
-- record's; if there is none, for the record, if the text is its alias or its fingerprint; and else
-- for nothing.
pub resolve-add :
    (hex_hash : Bytes → Text) (text : Text) (r : DeviceRecord) (directory : ResolutionDirectory)
    → resolve hex_hash text (add r directory)
      ≡ (elim (find
          (λ d.
            (d.alias == text || hex_hash d.identity.public_key == text)
            && (not (d.identity == r.identity) && not (d.alias == r.alias)))
          directory.devices) [
            | some d ↦ some d
            | none ↦
                if r.alias == text || hex_hash r.identity.public_key == text then some r else none
          ])
unfolding resolve add named apart fingerprint
resolve-add hex_hash text r directory =
    find-keep (named hex_hash text) (apart r) r directory.devices
