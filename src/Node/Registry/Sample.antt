-- ===== src/Node/Registry/Sample.antt =====
-- A registry with one peer, for tests.
use dot_terminal.Prelude.{arith, true, false, none, some, List, [], ◌∷◌, text}
use dot_terminal.Node.{Peer}
use dot_terminal.Node.Registry.{Tls, Dir}
use dot_terminal.Node.StateFile.{Identity, Codec, Io, private_file}
use dot_terminal.Node.Registry.Changes.{Reads}

abbrev pub phone : Peer
phone = record {
  name = text "phone";
  cert = 7 ∷ [];
  terminal = true;
  workspace = false;
  clipboard_read = false;
  clipboard_write = false;
}

-- A codec that writes the empty registry and reads that of the phone too.
abbrev pub registries : Codec (List Peer)
registries = record {
  to_vec = λ ps. elim ps [ [] ↦ some [] | p ∷ rest ↦ none ];
  from_slice = λ bs. elim bs [ [] ↦ some [] | b ∷ rest ↦ some (phone ∷ []) ];
}

pub registries_read : Reads registries
registries_read [] content e = ground arith
registries_read (p ∷ ps) content e = absurd (ground arith)

abbrev pub identities : Codec Identity
identities = record { to_vec = λ i. some i.cert; from_slice = λ bs. none }

abbrev pub tls : Tls
tls = record { add = λ c. true; build = λ cs. true; single_cert = λ c k. true }

abbrev pub works : Io
works = record { creates = true; writes = true; written = []; syncs = true; renames = true }

abbrev pub dir : Dir
dir = record {
  identity = record { file = some (private_file (5 ∷ [])); pending = none };
  peers = record { file = some (private_file (1 ∷ [])); pending = none };
  device_cert = none;
}
