-- ===== src/Base/Codec.antt =====
-- What the program takes from the crates that it calls: a serialiser, and files written by a
-- temporary file and a rename.
use mathlib.Core.Path.{◌≡◌, sym}
use mathlib.Core.Logic.{inl, inr}
use mathlib.Core.Bool.{Bool, true, false}
use mathlib.Core.Option.{Option, none, some}
use native.Mathlib.Omega.{arith}
use neonet.Base.Tests.{Option-cases}
use neonet.Base.Results.{IoError, Io, ok, err, io_error, invalid_data, other}

-- `serde_json` or `postcard` at the type `A`: what is written reads back.
pub record Codec {ℓ κ} (A : Type ℓ) (Blob : Type κ) : Type (ℓ ⊔ κ) where
  pub encode : A → Option Blob
  pub decode : Blob → Option A
  pub decode-encode : (a : A) (b : Blob) → encode a ≡ some b → decode b ≡ some a

module _ {ℓ κ} {A : Type ℓ} {Blob : Type κ} (c : Codec A Blob) where
  -- `fs::read` followed by `from_slice(..).unwrap_or_default()`. `none` is a file that cannot be
  -- read.
  unfoldable pub load_or : A → Option Blob → A
  load_or default none = default
  load_or default (some b) = elim (c.decode b) [ none ↦ default | some a ↦ a ]

  -- `to_vec`, `fs::write` to a temporary file and `fs::rename`. `disk` is whether the system
  -- carried out the write and the rename; if it did not, the file is as it was.
  unfoldable pub replace : Bool → A → Option Blob → Io (Unit {0}) × Option Blob
  replace disk a file = elim (c.encode a) [
    | none ↦ (err (io_error invalid_data "codec"), file)
    | some b ↦ elim disk [ true ↦ (ok tt, some b) | false ↦ (err (io_error other "disk"), file) ]
  ]

  -- A write that succeeds is what the next read finds.
  pub load_or-replace :
      (disk : Bool) (a d : A) (file : Option Blob)
      → (replace disk a file).0 ≡ ok tt
      → load_or d (replace disk a file).1 ≡ a
  unfolding load_or replace
  load_or-replace disk a d file h = elim (Option-cases (c.encode a)) [
    | inl e ↦ ground arith
    | inr (b, e) ↦ ground (arith, c.decode-encode a b e)
  ]

  -- A write that fails leaves the file as it was.
  pub replace_err :
      (disk : Bool) (a : A) (file : Option Blob) {x : IoError}
      → (replace disk a file).0 ≡ err x
      → (replace disk a file).1 ≡ file
  unfolding replace
  replace_err disk a file h = ground arith

-- A serialiser that keeps the value as it is.
abbrev pub plain {ℓ} : {A : Type ℓ} → Codec A A
plain = record { encode = λ a. some a; decode = λ a. some a; decode-encode = λ a b h. sym h }
