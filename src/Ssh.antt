-- ===== src/Ssh.antt =====
-- src/ssh/mod.rs: the directory of devices, and what `connect` runs. Addresses are parsed and
-- programs started by the system, whose part is in the parameters.
pub mod Directory
use neonet.Base.{
  ℕ, Bool, true, false, Option, none, some, List, [], ◌∷◌, ◌++◌, ◌==◌, list_eq, nat_eq, not, ◌&&◌,
  ◌||◌, if◌then◌else◌, keep, leb, length, is_empty, map, all, find,
}
use neonet.Base.Text.{Bytes, Text, codes}
use neonet.Base.Results.{Io, ok, err, ◌>>=◌, ◌>>◌, guard, ok_or, io_error, not_found, invalid_input}
use neonet.Identity.{PublicIdentity, identity_eq, fingerprint}

pub record Resolution : Type 0 where
  pub host : Text
  pub port : ℕ
  pub known_hosts : Text

pub record DeviceRecord : Type 0 where
  pub identity : PublicIdentity
  pub alias : Text
  pub user : Text
  pub resolution : Resolution

pub record ResolutionDirectory : Type 0 where
  pub devices : List DeviceRecord

unfoldable pub apart : DeviceRecord → DeviceRecord → Bool
apart r d = not (d.identity == r.identity) && not (d.alias == r.alias)

unfoldable pub add : DeviceRecord → ResolutionDirectory → ResolutionDirectory
unfolding apart
add r directory = record { devices = keep (apart r) directory.devices ++ (r ∷ []) }

unfoldable pub empty_directory : ResolutionDirectory
empty_directory = record { devices = [] }

module _ (hex_hash : Bytes → Text) where
  unfoldable pub named : Text → DeviceRecord → Bool
  named id_or_alias d = d.alias == id_or_alias || fingerprint hex_hash d.identity == id_or_alias

  unfoldable pub resolve : Text → ResolutionDirectory → Option DeviceRecord
  unfolding named
  resolve id_or_alias directory = find (named id_or_alias) directory.devices

  unfoldable pub devices : ResolutionDirectory → List (Text × Text)
  devices directory =
      map (λ (d : DeviceRecord). (d.alias, fingerprint hex_hash d.identity)) directory.devices

-- `char::is_ascii_alphanumeric`, a dot or a dash
unfoldable pub host_char : ℕ → Bool
host_char c =
    leb 48 c && leb c 57 || leb 65 c && leb c 90 || leb 97 c && leb c 122 || c == 46 || c == 45

-- `ip` is whether the text parses as an `IpAddr`. What `len` counts are bytes: text that is not
-- ASCII, where they are more than the characters, is refused in any case.
unfoldable pub validate_host : (Text → Bool) → Text → Bool
unfolding host_char
validate_host ip host =
    if ip host then true else not (is_empty host) && leb (length host) 253 && all host_char host

-- The arguments of `ssh`. `print` is the decimal form of a port.
unfoldable pub ssh_arguments : (ℕ → Text) → DeviceRecord → List Text → List Text
ssh_arguments print d command =
    (codes "-p"
      ∷ print d.resolution.port
      ∷ codes "-o"
      ∷ (codes "UserKnownHostsFile=" ++ d.resolution.known_hosts)
      ∷ (d.user ++ (codes "@" ++ d.resolution.host))
      ∷ [])
    ++ (if is_empty command then [] else codes "--" ∷ command)

-- The call of `ssh` that `connect` ends with, by its arguments.
unfoldable pub connect :
    (Bytes → Text)
    → (Text → Bool)
    → (ℕ → Text)
    → ResolutionDirectory
    → Text
    → List Text
    → Io (List Text)
unfolding resolve validate_host ssh_arguments
connect hex_hash ip print directory device_id command =
    ok_or (resolve hex_hash device_id directory) (io_error not_found "device not found") >>= λ d.
    guard (validate_host ip d.resolution.host) (io_error invalid_input "invalid SSH host")
    >> ok (ssh_arguments print d command)
