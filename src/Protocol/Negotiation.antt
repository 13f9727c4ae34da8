-- ===== src/Protocol/Negotiation.antt =====
-- src/protocol/mod.rs, `negotiate`: what two peers settle on.
use neonet.Base.Results.{ok}
use neonet.Base.Text.{Text}
use neonet.Base.Sets.{contains}
use neonet.Base.{
  Bool, List, [], arith, keep, list_eq, min, nat_eq, refl, ◌&&◌, ◌==◌, ◌||◌, ◌∷◌, ◌≡◌, Bool-cases,
  beq-eq, inl, inr, ℕ, ◌∙◌, ap,
}
use neonet.Protocol.{ProtocolVersion, NegotiatedProtocol, sort_in, sort, common, negotiate}

contains-sort_in :
    (f x : Text) (ys : List Text) → contains f (sort_in x ys) ≡ (x == f || contains f ys)
unfolding sort_in contains
contains-sort_in f x [] = refl
contains-sort_in f x (y ∷ ys) = ground (arith, contains-sort_in f x ys)

contains-sort : (f : Text) (xs : List Text) → contains f (sort xs) ≡ contains f xs
unfolding sort contains
contains-sort f [] = refl
contains-sort f (x ∷ xs) = ground (arith, contains-sort_in f x (sort xs), contains-sort f xs)

contains-keep :
    (p : Text → Bool) (f : Text) (xs : List Text) → contains f (keep p xs) ≡ (contains f xs && p f)
unfolding contains
contains-keep p f [] = refl
contains-keep p f (x ∷ xs) = elim (Bool-cases (x == f)) [
  | inl t ↦ ground (arith, contains-keep p f xs, ap p (beq-eq x f t), t)
  | inr n ↦ ground (arith, contains-keep p f xs, n)
]

pub contains-common :
    (f : Text) (xs ys : List Text)
    → contains f (sort (common xs ys)) ≡ (contains f xs && contains f ys)
unfolding common
contains-common f xs ys = contains-sort f (common xs ys) ∙ contains-keep (λ g. contains g ys) f xs

abbrev pub settled : ℕ → ℕ → List Text → NegotiatedProtocol
settled major minor features = record {
  version = record { major = major; minor = minor };
  features = features;
}

-- Two versions of one major number settle on it and on the smaller minor number, with exactly the
-- features that both sides name; versions of different major numbers are refused.
pub negotiate_exact :
    (local remote : ProtocolVersion) (xs ys : List Text) (n : NegotiatedProtocol) (f : Text)
    → negotiate local xs remote ys ≡ ok n
    → (local.major ≡ remote.major)
      × (n.version ≡ record { major = local.major; minor = min local.minor remote.minor })
      × (contains f n.features ≡ (contains f xs && contains f ys))
unfolding negotiate common
negotiate_exact local remote xs ys n f h = elim (Bool-cases (local.major == remote.major)) [
  | inl t ↦
      let e : n ≡ settled local.major (min local.minor remote.minor) (sort (common xs ys)) =
        ground arith in
      (
        beq-eq local.major remote.major t,
        ap (λ (m : NegotiatedProtocol). m.version) e,
        ap (λ (m : NegotiatedProtocol). contains f m.features) e ∙ contains-common f xs ys,
      )
  | inr t ↦ ground (arith, t)
]

-- Both sides settle on the same version and the same set of features, whichever is the local one.
pub negotiate_agrees :
    (local remote : ProtocolVersion) (xs ys : List Text) (n : NegotiatedProtocol)
    → negotiate local xs remote ys ≡ ok n
    → (m : NegotiatedProtocol) × (negotiate remote ys local xs ≡ ok m)
      × (m.version ≡ n.version)
      × ((f : Text) → contains f m.features ≡ contains f n.features)
unfolding negotiate common
negotiate_agrees local remote xs ys n h =
    let (e, v, z) = negotiate_exact local remote xs ys n [] h in
    let m = settled remote.major (min remote.minor local.minor) (sort (common ys xs)) in
    let ok_m : negotiate remote ys local xs ≡ ok m = ground (arith, e) in
    (
      m,
      ok_m,
      ground (arith, v, e),
      λ f. contains-common f ys xs ∙ ground (arith, (negotiate_exact local remote xs ys n f h).2),
    )
