-- ===== src/Desktop/Devices.antt =====
-- crates/desktop/src/devices.rs: the owner's other nodes, and the requests that are relayed to them.
-- JSON, the parsing of a socket address and the connection are parameters.
pub mod Private
pub mod Relay
pub mod Remote
mod Tests
use dot_terminal.Prelude.{
  ℕ, zero, suc, ◌+◌, ◌-◌, ◌*◌, ◌/◌, ◌%◌, Bool, true, false, not, ◌&&◌, ◌||◌, Option, none, some,
  List, [], ◌∷◌, ◌++◌, length, take, drop, all, any, is_empty, leb, ltb, ◌==◌, if◌then◌else◌, Text,
  Bytes, text, utf8, list_eq, starts_with, contains_text, map, get_elem?, is_ascii_alphanumeric,
  is_ascii_digit, is_ascii_lowercase, is_ascii_hexdigit, is_control, Result, ok, err,
}
use mathlib.Core.List.{reverse}
use dot_terminal.Protocol.{Operation, stop}
use dot_terminal.Node.{is_stop}
use dot_terminal.Node.Workspace.{is_whitespace}
use dot_terminal.Node.Invitation.{decimal}
use dot_terminal.Desktop.Vault.{Stored}

pub data IpAddr : Type 0 where
  v4 : ℕ → ℕ → ℕ → ℕ → IpAddr
  v6 : ℕ → IpAddr

pub record SocketAddr : Type 0 where
  pub ip : IpAddr
  pub port : ℕ

unfoldable pub is_loopback : IpAddr → Bool
is_loopback (v4 a b c d) = a == 127
is_loopback (v6 n) = n == 1

-- `b & 0xc0 == 64` of a byte `b` is a test of its two highest bits.
unfoldable pub private_overlay : IpAddr → Bool
unfolding is_loopback
private_overlay (v4 a b c d) = is_loopback (v4 a b c d) || ((a == 100) && (b / 64 % 4 == 1))
private_overlay (v6 n) = is_loopback (v6 n)

pub record Device : Type 0 where
  pub id : Text
  pub name : Text
  pub kind : Text
  pub addr : SocketAddr
  pub capability : Text

pub record FileDevice : Type 0 where
  pub id : Text
  pub name : Text
  pub kind : Text
  pub url : Text
  pub capability : Text

pub record DevicesFile : Type 0 where
  pub schema : Text
  pub devices : List FileDevice

pub data Error : Type 0 where
  malformed unsupported bad_url not_overlay bad_id_or_name bad_kind bad_capability : Error
  not_private : Error
  bad_path unreachable too_large bad_response bad_status chunked : Error

abbrev pub max_devices : ℕ
max_devices = 16

abbrev pub max_response : ℕ
max_response = 2097152

abbrev pub kinds : List Text
kinds = text "laptop" ∷ text "server" ∷ text "phone" ∷ []

unfoldable pub valid_name : Text → Bool
valid_name name = not (is_empty name) && leb (length name) 40 && not (any is_control name)

unfoldable pub valid_id : Text → Bool
valid_id id =
    leb 1 (length (utf8 id))
    && leb (length (utf8 id)) 32
    && not (list_eq id (text "local"))
    && all (λ b. is_ascii_lowercase b || is_ascii_digit b || b == 45) (utf8 id)

unfoldable pub valid_capability : Text → Bool
valid_capability c = (length (utf8 c) == 64) && all is_ascii_hexdigit (utf8 c)

-- `strip_prefix`
abbrev pub strip_prefix : Text → Text → Option Text
strip_prefix [] t = some t
strip_prefix (c ∷ p) [] = none
strip_prefix (c ∷ p) (d ∷ t) = let rest = strip_prefix p t in if c == d then rest else none

-- `trim_end_matches('/')`
unfoldable pub drop_slashes : Text → Text
drop_slashes [] = []
drop_slashes (c ∷ cs) = let rest = drop_slashes cs in if c == 47 then rest else c ∷ cs

abbrev pub trim_slashes : Text → Text
trim_slashes t = reverse (drop_slashes (reverse t))

module _ (parse_addr : Text → Option SocketAddr) where
  abbrev pub address_of : Text → Option SocketAddr
  address_of url = elim (strip_prefix (text "http://") url) [
    | none ↦ none
    | some x ↦ parse_addr (trim_slashes x)
  ]

  abbrev pub device_of : FileDevice → SocketAddr → Device
  device_of d addr = record {
    id = d.id;
    name = d.name;
    kind = d.kind;
    addr = addr;
    capability = d.capability;
  }

  -- One device of the file, after those that were taken.
  unfoldable pub parse_device : List Device → FileDevice → Result Error Device
  parse_device out d = elim (address_of d.url) [
    | none ↦ err bad_url
    | some addr ↦
        if not (private_overlay addr.ip)
        then err not_overlay
        else if not (valid_id d.id) || any (λ x. list_eq x.id d.id) out || not (valid_name d.name)
        then err bad_id_or_name
        else if not (any (list_eq d.kind) kinds)
        then err bad_kind
        else if not (valid_capability d.capability)
        then err bad_capability
        else ok (device_of d addr)
  ]

  unfoldable pub parse_devices : List FileDevice → List Device → Result Error (List Device)
  parse_devices [] out = ok out
  parse_devices (d ∷ ds) out = elim (parse_device out d) [
    | err e ↦ err e
    | ok device ↦ parse_devices ds (out ++ device ∷ [])
  ]

  -- `from_str`: what JSON gives of the file.
  module _ (from_str : Bytes → Option DevicesFile) where
    unfoldable pub parse : Bytes → Result Error (List Device)
    parse content = elim (from_str content) [
      | none ↦ err malformed
      | some file ↦
          if not (list_eq file.schema (text "dot.devices.v1"))
            || ltb max_devices (length file.devices)
          then err unsupported
          else parse_devices file.devices []
    ]

    -- `devices.json`, if there is one.
    unfoldable pub load : Option Stored → Result Error (List Device)
    load none = ok []
    load (some m) =
        if not m.is_file || not m.owned || m.shared then err not_private else parse m.content
