-- ===== src/Desktop/Devices/Private.antt =====
-- Where the capability of another node can go: crates/desktop/src/devices.rs, and the requests that
-- crates/desktop/src/main.rs relays.
use dot_terminal.Prelude.{
  ◌+◌, ◌≤◌, ◌<◌, ◌≡◌, ◌≢◌, ◌⊎◌, inl, inr, sym, arith, true, false, Option, none, some, List, [],
  ◌∷◌, ◌++◌, length, any, All, Text, Bytes, text, list_eq, list_eq_iff, length-append, ok,
  Bool-cases, Option-cases, Result-cases, was_ok, was_err, ◌==◌,
}
use dot_terminal.Desktop.Vault.{Stored}
use dot_terminal.Desktop.Devices.{
  IpAddr, v4, v6, SocketAddr, is_loopback, private_overlay, Device, FileDevice, DevicesFile,
  max_devices, kinds, strip_prefix, trim_slashes, valid_name, valid_id, valid_capability,
  address_of, device_of, parse_device, parse_devices, parse, load,
}

-- A loopback address, or one of 100.64.0.0/10.
abbrev pub IsPrivate : IpAddr → Type 0
IsPrivate (v4 a b c d) = (a ≡ 127) ⊎ ((a ≡ 100) × (64 ≤ b) × (b < 128))
IsPrivate (v6 n) = n ≡ 1

abbrev pub IsBytes : IpAddr → Type 0
IsBytes (v4 a b c d) = (a < 256) × (b < 256) × (c < 256) × (d < 256)
IsBytes (v6 n) = Unit {0}

private_overlay_ok : (ip : IpAddr) → IsBytes ip → private_overlay ip ≡ true → IsPrivate ip
unfolding private_overlay is_loopback
private_overlay_ok (v4 a b c d) h e = elim (Bool-cases (a == 127)) [
  | inl yes_loop ↦ inl (ground arith)
  | inr other ↦ inr (ground arith, ground arith, ground arith)
]
private_overlay_ok (v6 n) h e = ground arith

-- A device that the file may name.
pub record IsDevice (d : Device) : Type 0 where
  pub address : IsPrivate d.addr.ip
  pub id : valid_id d.id ≡ true
  pub name : valid_name d.name ≡ true
  pub kind : any (list_eq d.kind) kinds ≡ true
  pub capability : valid_capability d.capability ≡ true

abbrev pub Distinct : List Device → Type 0
Distinct [] = Unit
Distinct (d ∷ ds) = All (λ x. x.id ≢ d.id) ds × Distinct ds

-- The devices are private, few, and no two of one id.
pub record IsDevices (ds : List Device) : Type 0 where
  pub few : length ds ≤ max_devices
  pub distinct : Distinct ds
  pub each : All IsDevice ds

All-snoc :
    (P : Device → Type 0) (ds : List Device) (d : Device) → All P ds → P d → All P (ds ++ d ∷ [])
All-snoc P [] d a p = (p, tt)
All-snoc P (x ∷ ds) d a p = (a.0, All-snoc P ds d a.1 p)

None-any :
    (id : Text) (ds : List Device) → any (λ x. list_eq x.id id) ds ≡ false → All (λ x. x.id ≢ id) ds
None-any id [] e = tt
None-any id (d ∷ ds) e =
    (λ same. ground (arith, list_eq_iff d.id id), None-any id ds (ground arith))

Distinct-snoc :
    (ds : List Device) (d : Device)
    → Distinct ds
    → All (λ x. x.id ≢ d.id) ds
    → Distinct (ds ++ d ∷ [])
Distinct-snoc [] d u new = (tt, tt)
Distinct-snoc (x ∷ ds) d u new =
    (All-snoc (λ y. y.id ≢ x.id) ds d u.0 (λ e. new.0 (sym e)), Distinct-snoc ds d u.1 new.1)

module _ (parse_addr : Text → Option SocketAddr)
    (bytes : (t : Text) (a : SocketAddr) → parse_addr t ≡ some a → IsBytes a.ip) where
  address_of-IsBytes :
      (url : Text) (a : SocketAddr) → address_of parse_addr url ≡ some a → IsBytes a.ip
  address_of-IsBytes url a e = elim (Option-cases (strip_prefix (text "http://") url)) [
    | inl bad ↦ absurd (ground arith)
    | inr (x, there) ↦ bytes (trim_slashes x) a (ground arith)
  ]

  parse_device_ok :
      (out : List Device) (d : FileDevice) (device : Device)
      → parse_device parse_addr out d ≡ ok device
      → IsDevice device × All (λ x. x.id ≢ device.id) out
  unfolding parse_device
  parse_device_ok out d device e = elim (Option-cases (address_of parse_addr d.url)) [
    | inl bad ↦ absurd (ground arith)
    | inr (addr, there) ↦
        let same : device ≡ device_of parse_addr d addr = ground arith in
        let overlay : private_overlay addr.ip ≡ true = ground arith in
        rw same (
          record {
            address = private_overlay_ok addr.ip (address_of-IsBytes d.url addr there) overlay;
            id = ground arith;
            name = ground arith;
            kind = ground arith;
            capability = ground arith;
          },
          None-any d.id out (ground arith),
        )
  ]

  parse_devices-IsDevices :
      (ds : List FileDevice) (out devices : List Device)
      → parse_devices parse_addr ds out ≡ ok devices
      → length out + length ds ≤ max_devices
      → IsDevices out
      → IsDevices devices
  unfolding parse_devices
  parse_devices-IsDevices [] out devices e few h =
      let same : devices ≡ out = ground arith in rw same h
  parse_devices-IsDevices (d ∷ ds) out devices e few h =
      elim (Result-cases (parse_device parse_addr out d)) [
        | was_err x bad ↦ absurd (ground arith)
        | was_ok device good ↦
            let (valid, new) = parse_device_ok out d device good in
            parse_devices-IsDevices ds (out ++ device ∷ []) devices (rw (good, parse_devices) at e)
              (omega (arith, length-append out (device ∷ [])))
              (record {
                few = omega (arith, length-append out (device ∷ []));
                distinct = Distinct-snoc out device h.distinct new;
                each = All-snoc IsDevice out device h.each valid;
              })
      ]

  module _ (from_str : Bytes → Option DevicesFile) where
    no-IsDevices : IsDevices []
    no-IsDevices = record { few = omega arith; distinct = tt; each = tt }

    pub load-IsDevices :
        (file : Option Stored) (devices : List Device)
        → load parse_addr from_str file ≡ ok devices
        → IsDevices devices
    unfolding load parse
    load-IsDevices none devices e = let same : devices ≡ [] = ground arith in rw same no-IsDevices
    load-IsDevices (some m) devices e = elim (Option-cases (from_str m.content)) [
      | inl bad ↦ absurd (ground arith)
      | inr (file, parsed) ↦
          parse_devices-IsDevices file.devices [] devices (ground arith) (ground arith) no-IsDevices
    ]
