-- ===== src/Node/Registry/Runs.antt =====
-- The registry of enrolled peers over runs of commands: crates/node/src/main.rs.
use dot_terminal.Prelude.{
  ◌≡◌, ◌≢◌, refl, sym, ap, ◌∙◌, arith, Bool, some, List, [], ◌∷◌, Text, ok, err, inl, inr,
  Result-cases, was_ok, was_err,
}
use dot_terminal.Node.{Peer}
use dot_terminal.Node.Registry.{
  Tls, Dir, store, revoke, without, Command, init_with, pair_with, revoke_name, accept_invited,
  command, commands,
}
use dot_terminal.Node.StateFile.{
  Error, create_failed, Stored, Slot, Identity, Codec, Io, load, save,
}
use dot_terminal.Node.Registry.Saving.{stored, uncreated, left, save_lem, load-stored, load-file}
use dot_terminal.Node.Registry.Kept.{
  IsPeer, IsRegistry, IsRegistry-without, paired-IsRegistry, invited-IsRegistry,
}
use dot_terminal.Node.Registry.Changes.{Reads, Proposes, changed, unchanged, command-Changed}

module _ (identities : Codec Identity) (registries : Codec (List Peer)) (tls : Tls) where
  -- What the caller of the end of an invitation has checked of the peer.
  abbrev pub IsChecked : Command identities registries tls → Type 0
  IsChecked (accept_invited io identity p) = IsPeer p
  IsChecked _ = Unit {0}

  -- The registry that is loaded from the directory, if one is, is in order.
  abbrev pub Holds : Slot → Type 0
  Holds s = (peers : List Peer) → load registries s ≡ ok peers → IsRegistry peers

  Proposes-IsRegistry :
      (c : Command identities registries tls) (d : Dir) (new : List Peer)
      → IsChecked c
      → Proposes identities registries tls c d new
      → Holds d.peers
      → IsRegistry new
  Proposes-IsRegistry (init_with io io' io'' generated) d new v p h =
      rw p (record { few = omega arith; distinct = tt; peers_valid = tt })
  Proposes-IsRegistry (pair_with io args cert) d new v (old, loaded, good, made) h =
      paired-IsRegistry identities registries tls args cert old new good made (h old loaded)
  Proposes-IsRegistry (revoke_name io name) d new v (old, loaded, made) h =
      rw made (IsRegistry-without name old (h old loaded))
  Proposes-IsRegistry (accept_invited io identity p) d new v (old, loaded, made) h =
      invited-IsRegistry identities registries tls p old new v made (h old loaded)

  command-Holds :
      (lock : Bool) (c : Command identities registries tls) (d : Dir)
      → Reads registries
      → IsChecked c
      → Holds d.peers
      → Holds (command identities registries tls lock c d).1.peers
  command-Holds lock c d reads v h peers loaded =
      elim (command-Changed identities registries tls lock c d) [
        | changed new content p encoded there free ↦
            let same : peers ≡ new =
              load-stored registries content new peers
                (command identities registries tls lock c d).1.peers (ap (λ s. s.file) there)
                (reads new content encoded) loaded in
            rw same (Proposes-IsRegistry c d new v p h)
        | unchanged file kept ↦ h peers (
            sym (
              load-file registries d.peers (command identities registries tls lock c d).1.peers
                file)
            ∙ loaded)
      ]

  abbrev pub AllChecked : List (Bool × Command identities registries tls) → Type 0
  AllChecked [] = Unit
  AllChecked ((lock, c) ∷ cs) = IsChecked c × AllChecked cs

  -- Over any run of the commands of a node the registry that is loaded, if one is, has at most 32
  -- peers, no two of one name, each with a name of 1 to 64 letters, digits and dashes and a
  -- certificate of at most 8192 bytes; if it was so before, JSON is read as it was written, and the
  -- peers of accepted invitations were checked to have such names and certificates.
  pub commands-IsRegistry :
      (cs : List (Bool × Command identities registries tls)) (d : Dir)
      → Reads registries
      → AllChecked cs
      → ((peers : List Peer) → load registries d.peers ≡ ok peers → IsRegistry peers)
      → (peers : List Peer)
      → load registries (commands identities registries tls cs d).peers ≡ ok peers
      → IsRegistry peers
  unfolding commands
  commands-IsRegistry [] d reads v h = h
  commands-IsRegistry ((lock, c) ∷ cs) d reads v h =
      commands-IsRegistry cs (command identities registries tls lock c d).1 reads v.1
        (command-Holds lock c d reads v.0 h)

  -- After a peer was revoked, with JSON read as it was written, what is loaded has no peer of that
  -- name and every other peer as it was.
  pub revoke_ok :
      (io : Io) (name : Text) (d : Dir) (peers : List Peer)
      → Reads registries
      → (revoke identities registries tls io name d).0 ≡ ok tt
      → load registries (revoke identities registries tls io name d).1.peers ≡ ok peers
      → (old : List Peer) × (load registries d.peers ≡ ok old) × (peers ≡ without name old)
  unfolding revoke store
  revoke_ok io name d peers reads e loaded = elim (Result-cases (load registries d.peers)) [
    | was_err x lost ↦ absurd (ground arith)
    | was_ok old there ↦ (
      old,
      there,
      elim (save_lem registries io (without name old) d.peers) [
        | stored content encoded r file free ↦
            load-stored registries content (without name old) peers
              (save registries io (without name old) d.peers).1 (ap (λ s. s.file) file)
              (reads (without name old) content encoded) (ground arith)
        | uncreated r same ↦ absurd (ground arith)
        | left x m r file free ↦ absurd (ground arith)
      ],
    )
  ]

  command-stuck :
      (lock : Bool) (c : Command identities registries tls) (d : Dir) (m : Stored)
      → d.peers.pending ≡ some m
      → (command identities registries tls lock c d).1.peers ≡ d.peers
  command-stuck lock c d m there = elim (command-Changed identities registries tls lock c d) [
    | changed new content p encoded at free ↦ absurd (ground arith)
    | unchanged file (inl free) ↦ absurd (ground arith)
    | unchanged file (inr same) ↦ same
  ]

  commands-stuck :
      (cs : List (Bool × Command identities registries tls)) (d : Dir) (m : Stored)
      → d.peers.pending ≡ some m
      → (commands identities registries tls cs d).peers ≡ d.peers
  unfolding commands
  commands-stuck [] d m there = refl
  commands-stuck ((lock, c) ∷ cs) d m there =
      let same = command-stuck lock c d m there in
      commands-stuck cs (command identities registries tls lock c d).1 m
        (ap (λ s. s.pending) same ∙ there)
      ∙ same

  revoke-stuck :
      (io : Io) (name : Text) (d : Dir) (m : Stored)
      → d.peers.pending ≡ some m
      → (revoke identities registries tls io name d).0 ≢ ok tt
  unfolding revoke store save
  revoke-stuck io name d m there = λ e. ground arith

  -- Once saving the registry failed after its temporary file was created, no run of commands changes
  -- the registry again, and a revocation after any such run fails.
  pub save_stuck :
      (io io' : Io) (new : List Peer) (name : Text) (d : Dir) (s : Slot) (e : Error)
      (cs : List (Bool × Command identities registries tls))
      → save registries io new d.peers ≡ (err e, s)
      → e ≢ create_failed
      → ((commands identities registries tls cs (record d { peers = s })).peers.file ≡ d.peers.file)
        × ((revoke identities registries tls io' name
              (commands identities registries tls cs (record d { peers = s }))).0
            ≢ ok tt)
  save_stuck io io' new name d s e cs failed created = elim (save_lem registries io new d.peers) [
    | stored content encoded r file free ↦ absurd (ground arith)
    | uncreated r same ↦ absurd (created (ground arith))
    | left x m r file free ↦
        let there : s.pending ≡ some m = ground arith in
        let kept = commands-stuck cs (record d { peers = s }) m there in
        (
          ap (λ t. t.file) kept ∙ ground arith,
          revoke-stuck io' name (commands identities registries tls cs (record d { peers = s })) m
              (ap (λ t. t.pending) kept ∙ there),
        )
  ]
