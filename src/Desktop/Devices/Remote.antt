-- ===== src/Desktop/Devices/Remote.antt =====
-- What is sent to another node for a request of the browser: `remote_operation` of
-- crates/desktop/src/main.rs, over the devices that were loaded.
use dot_terminal.Prelude.{
  All-In, AtMostOne, no_element, one_element, ◌≡◌, inl, inr, refl, ap, ◌∙◌, arith, Bool, true,
  false, ◌&&◌, Option, some, List, [], ◌∷◌, ◌++◌, In, Text, Bytes, text, list_eq, list_eq_iff, ok,
  Bool-cases, Option-cases,
}
use dot_terminal.Protocol.{Operation}
use dot_terminal.Node.{is_stop}
use dot_terminal.Desktop.Vault.{Stored}
use dot_terminal.Desktop.Devices.{SocketAddr, Device, DevicesFile, load}
use dot_terminal.Desktop.Devices.Relay.{
  Network, Sent, head_of, valid_path, call, is_remote_id, find_device, relay, remote_operation,
}
use dot_terminal.Desktop.Devices.Private.{IsPrivate, IsBytes, IsDevice, load-IsDevices}

find_device_lem :
    (id : Text) (ds : List Device) (d : Device) → find_device id ds ≡ some d → In d ds × (d.id ≡ id)
unfolding find_device
find_device_lem id [] d e = absurd (ground arith)
find_device_lem id (x ∷ ds) d e = elim (Bool-cases (list_eq x.id id)) [
  | inl same ↦
      let it : d ≡ x = ground arith in (inl it, ap (λ y. y.id) it ∙ (list_eq_iff x.id id).0 same)
  | inr other ↦ let (among, named) = find_device_lem id ds d (ground arith) in (inr among, named)
]

module _ {Json : Type 0} (n : Network) (from_slice : Bytes → Option Json)
    (to_vec : Operation → Option Bytes) where
  -- A request to a device of the list: to its address, with its capability, and a path that cannot end
  -- a line of the head.
  pub record IsSent (devices : List Device) (device method path : Text) (body : Bytes) (s : Sent)
      : Type 0 where
    pub to : Device
    pub among : In to devices
    pub named : to.id ≡ device
    pub address : s.addr ≡ to.addr
    pub bytes : s.bytes ≡ head_of n to method path body ++ body
    pub safe : valid_path n path ≡ true

  relay-Sent :
      (devices : List Device) (device method path : Text) (body : Bytes)
      → AtMostOne
          (IsSent devices device method path body)
          (relay n from_slice to_vec devices device method path body).1
  unfolding relay call
  relay-Sent devices device method path body = elim (Option-cases (find_device device devices)) [
    | inl bad ↦ no_element (ground arith)
    | inr (d, found) ↦ elim (Bool-cases (valid_path n path)) [
      | inr bad ↦ no_element (ground arith)
      | inl good ↦
          let (among, named) = find_device_lem device devices d found in
          let s : Sent = record { addr = d.addr; bytes = head_of n d method path body ++ body } in
          one_element s (ground arith) (record {
            to = d;
            among = among;
            named = named;
            address = refl;
            bytes = refl;
            safe = good;
          })
    ]
  ]

  -- What stands behind a request that left this node for an operation on a session elsewhere.
  pub record IsRelayed (attach_only : Bool) (devices : List Device) (device id : Text)
      (op : Operation) (s : Sent) : Type 0 where
    pub body : Bytes
    pub encoded : to_vec op ≡ some body
    pub request : IsSent devices device (text "POST") (text "/api/sessions/" ++ id) body s
    pub private : IsPrivate s.addr.ip
    pub allowed : (attach_only && is_stop op) ≡ false
    pub session : is_remote_id id ≡ true

  -- An operation on a session elsewhere sends nothing, or one request: to the device of that id among
  -- the loaded ones, whose address is a loopback address or of 100.64.0.0/10, with the capability of
  -- that device and a path below /api/ with no blank or control character in it. The session then has
  -- an allowed identifier, and an attach-only gateway sends no stop. It is assumed that the octets of
  -- an address that is parsed are below 256.
  pub remote_operation-Sent :
      (parse_addr : Text → Option SocketAddr) (from_str : Bytes → Option DevicesFile)
      (file : Option Stored) (devices : List Device) (attach_only : Bool) (device id : Text)
      (op : Operation)
      → ((t : Text) (a : SocketAddr) → parse_addr t ≡ some a → IsBytes a.ip)
      → load parse_addr from_str file ≡ ok devices
      → AtMostOne
          (IsRelayed attach_only devices device id op)
          (remote_operation n from_slice to_vec attach_only devices device id op).1
  unfolding remote_operation
  remote_operation-Sent parse_addr from_str file devices attach_only device id op bytes loaded =
      elim (Bool-cases (attach_only && is_stop op)) [
        | inl stopping ↦ no_element (ground arith)
        | inr going ↦ elim (Bool-cases (is_remote_id id)) [
          | inr bad ↦ no_element (ground arith)
          | inl good ↦ elim (Option-cases (to_vec op)) [
            | inl bad ↦ no_element (ground arith)
            | inr (body, encoded) ↦
                elim (relay-Sent devices device (text "POST") (text "/api/sessions/" ++ id) body) [
                  | no_element e ↦ no_element (ground arith)
                  | one_element s e r ↦
                      let valid = load-IsDevices parse_addr bytes from_str file devices loaded in
                      let it = All-In IsDevice devices r.to valid.each r.among in
                      one_element s (ground arith) (record {
                        body = body;
                        encoded = encoded;
                        request = r;
                        private = rw r.address it.address;
                        allowed = going;
                        session = good;
                      })
                ]
          ]
        ]
      ]
