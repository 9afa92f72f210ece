-- ===== src/Node/Registry.antt =====
-- The enrolled peers of a node: `registry_lock` and the commands of crates/node/src/main.rs, and
-- `tls_config` of crates/node/src/lib.rs. JSON, rustls and rcgen are parameters.
pub mod Saving
pub mod Kept
pub mod Changes
pub mod Runs
pub mod Sample
mod Tests
use dot_terminal.Prelude.{
  ℕ, Bool, true, false, not, ◌||◌, ◌&&◌, Option, none, some, List, [], ◌∷◌, ◌++◌, length, take, map,
  all, any, keep_if, is_empty, ltb, leb, ◌==◌, if◌then◌else◌, Text, Bytes, utf8, list_eq,
  is_ascii_alphanumeric, Result, ok, err, ◌>>=◌,
}
use dot_terminal.Node.{Peer}
use dot_terminal.Node.StateFile.{
  Codec, Error, Identity, Io, Slot, Stored, bad_identity, bad_name, bad_root, certificate_limit,
  create_failed, directory, encode_failed, load, locked, name_exists, name_of_other_key,
  no_certificate, no_key, no_peers, no_verifier, other_name, peer_limit, private_file, read_to_end,
  save,
}

-- rustls: whether it takes a root, builds the verifier of some roots, and takes the certificate and
-- the key of the node.
pub record Tls : Type 0 where
  pub add : Bytes → Bool
  pub build : List Bytes → Bool
  pub single_cert : Bytes → Bytes → Bool

-- The certificates that a configuration pins.
unfoldable pub tls_config : Tls → Identity → List Peer → Result Error (List Bytes)
tls_config tls identity peers =
    if is_empty peers
    then err no_peers
    else if not (all (λ p. tls.add p.cert) peers)
    then err bad_root
    else if not (tls.build (map (λ p. p.cert) peers))
    then err no_verifier
    else if not (tls.single_cert identity.cert identity.key)
    then err bad_identity
    else ok (map (λ p. p.cert) peers)

-- The directory of a node: `identity.json`, `peers.json` and `device-cert.der`.
pub record Dir : Type 0 where
  pub identity : Slot
  pub peers : Slot
  pub device_cert : Option Stored

unfoldable pub valid_name : Text → Bool
valid_name name =
    not (is_empty (utf8 name))
    && leb (length (utf8 name)) 64
    && all (λ b. is_ascii_alphanumeric b || b == 45) (utf8 name)

-- The options of `Pair` but the path of the certificate.
pub record PairArgs : Type 0 where
  pub name : Text
  pub terminal : Bool
  pub workspace : Bool
  pub clipboard_read : Bool
  pub clipboard_write : Bool

abbrev pub named : Text → Peer → Bool
named name p = list_eq p.name name

abbrev pub certified : Bytes → Peer → Bool
certified cert p = list_eq p.cert cert

abbrev pub without : Text → List Peer → List Peer
without name peers = keep_if (λ p. not (named name p)) peers

module _ (identities : Codec Identity) (registries : Codec (List Peer)) (tls : Tls) where
  -- What a command has decided to store, checked and stored.
  unfoldable pub store : Io → List Peer → Dir → Result Error (Unit {0}) × Dir
  store io peers d =
      let (result, s) = save registries io peers d.peers in (result, record d { peers = s })

  unfoldable pub check_tls : Dir → List Peer → Result Error (List Bytes)
  check_tls d peers = load identities d.identity >>= λ identity. tls_config tls identity peers

  -- The new registry that `Pair` arrives at; `cert` is the content of the file it is given.
  unfoldable pub paired : PairArgs → Option Bytes → List Peer → Result Error (List Peer)
  paired args cert peers = if any (named args.name) peers then err name_exists else elim cert [
    | none ↦ err no_certificate
    | some content ↦
        if ltb 8192 (length (read_to_end 8193 content))
        then err certificate_limit
        else if leb 32 (length peers)
        then err peer_limit
        else ok (
            peers
            ++ record {
              name = args.name;
              cert = read_to_end 8193 content;
              terminal = args.terminal;
              workspace = args.workspace;
              clipboard_read = args.clipboard_read;
              clipboard_write = args.clipboard_write;
            }
              ∷ [])
  ]

  unfoldable pub pair : Io → PairArgs → Option Bytes → Dir → Result Error (Unit {0}) × Dir
  pair io args cert d =
      if not (valid_name args.name)
      then (err bad_name, d)
      else elim (load registries d.peers >>= paired args cert) [
        | err e ↦ (err e, d)
        | ok peers ↦ elim (check_tls d peers) [ err e ↦ (err e, d) | ok config ↦ store io peers d ]
      ]

  unfoldable pub revoke : Io → Text → Dir → Result Error (Unit {0}) × Dir
  revoke io name d = elim (load registries d.peers) [
    | err e ↦ (err e, d)
    | ok peers ↦ store io (without name peers) d
  ]

  -- The new registry of an invitation that was accepted.
  unfoldable pub invited : Peer → List Peer → Result Error (List Peer)
  invited p peers =
      if any (λ q. named p.name q && not (certified p.cert q)) peers
      then err name_of_other_key
      else if any (λ q. certified p.cert q && not (named p.name q)) peers
      then err other_name
      else if leb 32 (length (without p.name peers))
      then err peer_limit
      else ok (without p.name peers ++ p ∷ [])

  -- `identity` is what the invitation was made with.
  unfoldable pub enroll : Io → Identity → Peer → Dir → Result Error (Unit {0}) × Dir
  enroll io identity p d = elim (load registries d.peers >>= invited p) [
    | err e ↦ (err e, d)
    | ok peers ↦ elim (tls_config tls identity peers) [
      | err e ↦ (err e, d)
      | ok config ↦ store io peers d
    ]
  ]

  -- `device-cert.der`, which is created anew.
  unfoldable pub write_cert : Io → Bytes → Dir → Result Error (Unit {0}) × Dir
  write_cert io cert d = elim d.device_cert [
    | some old ↦ (err create_failed, d)
    | none ↦
        if not io.creates
        then (err create_failed, d)
        else if not io.writes
        then (err encode_failed, record d { device_cert = some (private_file io.written) })
        else (ok tt, record d { device_cert = some (private_file cert) })
  ]

  -- The empty registry, unless there is one.
  unfoldable pub start_registry : Io → Dir → Result Error (Unit {0}) × Dir
  start_registry io d = elim d.peers.file [ some m ↦ (ok tt, d) | none ↦ store io [] d ]

  -- What follows the storing of the identity.
  unfoldable pub init_rest : Io → Io → Bytes → Dir → Result Error (Unit {0}) × Dir
  init_rest io io' cert d =
      let (result, d') = start_registry io d in
      elim result [ err e ↦ (err e, d') | ok u ↦ write_cert io' cert d' ]

  -- What the system does for each of the three files, and what is generated, if anything.
  unfoldable pub init : Io → Io → Io → Option Identity → Dir → Result Error (Unit {0}) × Dir
  init io io' io'' generated d = elim d.identity.file [
    | some m ↦ elim (load identities d.identity) [ err e ↦ (err e, d) | ok i ↦ (ok tt, d) ]
    | none ↦ elim generated [
      | none ↦ (err no_key, d)
      | some i ↦
          let (saved, s) = save identities io i d.identity in
          let d' : Dir = record d { identity = s } in
          elim saved [ err e ↦ (err e, d') | ok u ↦ init_rest io' io'' i.cert d' ]
    ]
  ]

  -- The commands that change the registry. `Init`, `Pair` and `Revoke` hold the lock throughout, and
  -- the end of an invitation does; `lock` says whether it was to be had.
  pub data Command : Type 0 where
    init_with : Io → Io → Io → Option Identity → Command
    pair_with : Io → PairArgs → Option Bytes → Command
    revoke_name : Io → Text → Command
    accept_invited : Io → Identity → Peer → Command

  unfoldable pub command : Bool → Command → Dir → Result Error (Unit {0}) × Dir
  command false c d = (err locked, d)
  command true (init_with io io' io'' generated) d = init io io' io'' generated d
  command true (pair_with io args cert) d = pair io args cert d
  command true (revoke_name io name) d = revoke io name d
  command true (accept_invited io identity p) d = enroll io identity p d

  -- The directory after a run of commands; each comes with whether the lock was to be had.
  unfoldable pub commands : List (Bool × Command) → Dir → Dir
  commands [] d = d
  commands ((lock, c) ∷ cs) d = commands cs (command lock c d).1
