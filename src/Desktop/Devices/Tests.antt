-- ===== src/Desktop/Devices/Tests.antt =====
-- The theorem about relayed requests at a concrete input.
use dot_terminal.Prelude.{
  AtMostOne, ◌≡◌, refl, arith, true, Option, none, some, [], ◌∷◌, Text, Bytes, text, ok,
}
use dot_terminal.Protocol.{Operation}
use dot_terminal.Desktop.Vault.{private_file}
use dot_terminal.Desktop.Devices.{
  SocketAddr, v4, Device, DevicesFile, load, parse, parse_devices, parse_device, private_overlay,
  valid_id, valid_name, valid_capability, drop_slashes,
}
use dot_terminal.Desktop.Devices.Relay.{Network, remote_operation}
use dot_terminal.Desktop.Devices.Private.{IsBytes}
use dot_terminal.Desktop.Devices.Remote.{IsRelayed, remote_operation-Sent}

abbrev overlay : SocketAddr
overlay = record { ip = v4 100 108 136 47; port = 7420 }

abbrev parse_addr : Text → Option SocketAddr
parse_addr t = some overlay

parse_addr-IsBytes : (t : Text) (a : SocketAddr) → parse_addr t ≡ some a → IsBytes a.ip
parse_addr-IsBytes t a e = let same : a ≡ overlay = ground arith in rw same (omega arith)

abbrev capability : Text
capability = text "00112233445566778899aabbccddeeff00112233445566778899aabbccddeeff"

abbrev core : Device
core = record {
  id = text "core";
  name = text "core VPS";
  kind = text "server";
  addr = overlay;
  capability = capability;
}

abbrev from_str : Bytes → Option DevicesFile
from_str bs = some (record {
  schema = text "dot.devices.v1";
  devices =
      record {
        id = text "core";
        name = text "core VPS";
        kind = text "server";
        url = text "http://100.108.136.47:7420/";
        capability = capability;
      }
      ∷ [];
})

loads : load parse_addr from_str (some (private_file [])) ≡ ok (core ∷ [])
unfolding load parse parse_devices parse_device private_overlay valid_id valid_name valid_capability
    drop_slashes
loads = refl

abbrev network : Network
network = record {
  from_utf8 = λ bs. some bs;
  exchange = λ addr bytes. none;
  show_addr = λ addr. text "100.108.136.47:7420";
}

abbrev no_reply : Bytes → Option (Unit {0})
no_reply bs = none

remote_operation-Sent_example :
    AtMostOne
      (IsRelayed network no_reply
        (λ op. some [])
        true
        (core ∷ [])
        (text "core")
        (text "abc")
        Operation.screen)
      (remote_operation network no_reply
        (λ op. some [])
        true
        (core ∷ [])
        (text "core")
        (text "abc")
        Operation.screen).1
remote_operation-Sent_example =
    remote_operation-Sent network no_reply (λ op. some []) parse_addr from_str
      (some (private_file [])) (core ∷ []) true (text "core") (text "abc") Operation.screen
      parse_addr-IsBytes loads
