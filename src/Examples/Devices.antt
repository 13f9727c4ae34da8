-- ===== src/Examples/Devices.antt =====
-- Runs of src/ssh/mod.rs. The hash in hexadecimal is the bytes themselves.
use neonet.Base.{◌≡◌, refl, true, some, List, [], ◌∷◌, list_eq, nat_eq}
use neonet.Base.Text.{Text, codes}
use neonet.Identity.{PublicIdentity}
use neonet.Ssh.{DeviceRecord, ResolutionDirectory, add, resolve, empty_directory, connect, devices}
use neonet.Ssh.Directory.{unique, add_all, unique-add_all, resolve-add}
use neonet.Examples.Wire.{alice, bob, carol}

abbrev device : PublicIdentity → Text → DeviceRecord
device id alias = record {
  identity = id;
  alias = alias;
  user = codes "neo";
  resolution = record { host = codes "127.0.0.1"; port = 22; known_hosts = codes "k" };
}

-- Alice's device is renamed, and carol's takes the name of bob's.
abbrev listed : List DeviceRecord
listed =
    device alice (codes "core")
    ∷ device bob (codes "nas")
    ∷ device alice (codes "lab")
    ∷ device carol (codes "nas")
    ∷ []

abbrev directory : ResolutionDirectory
directory = add_all listed empty_directory

unique-add_all_example : unique directory.devices ≡ true
unfolding unique empty_directory
unique-add_all_example = unique-add_all listed empty_directory refl

resolve-add_example :
    resolve (λ b. b) (codes "lab") (add (device bob (codes "nas")) directory)
    ≡ some (device alice (codes "lab"))
unfolding add_all empty_directory neonet.Ssh.named
resolve-add_example = resolve-add (λ b. b) (codes "lab") (device bob (codes "nas")) directory

-- A device whose alias is the fingerprint of another, listed before it, answers for it.
shadowed :
    resolve
      (λ b. b)
      bob.public_key
      (add (device bob (codes "nas")) (add (device carol bob.public_key) empty_directory))
    ≡ some (device carol bob.public_key)
unfolding resolve add empty_directory
shadowed = refl
