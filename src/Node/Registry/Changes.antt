-- ===== src/Node/Registry/Changes.antt =====
-- What a command changes in the directory of a node, and what a run of them keeps:
-- crates/node/src/main.rs.
use dot_terminal.Prelude.{
  ◌≡◌, ◌⊎◌, refl, ap, arith, Bool, true, false, Option, none, some, List, [], Bytes, Text, ok,
  Option-cases, Bool-cases, inl, inr, Result-cases, was_ok, was_err, subst,
}
use dot_terminal.Node.{Peer}
use dot_terminal.Node.Registry.{
  Tls, Dir, PairArgs, store, paired, pair, revoke, enroll, invited, init, init_rest, start_registry,
  write_cert, check_tls, tls_config, valid_name, without, Command, init_with, pair_with,
  revoke_name, accept_invited, command,
}
use dot_terminal.Node.StateFile.{Slot, Identity, Codec, Io, private_file, load, save}
use dot_terminal.Node.Registry.Saving.{stored, uncreated, left, save_lem}

-- What `serde_json` gives back of a registry that it wrote.
abbrev pub Reads : {T : Type 0} → Codec T → Type 0
Reads {T} codec =
    (t : T) (content : Bytes) → codec.to_vec t ≡ some content → codec.from_slice content ≡ some t

module _ (identities : Codec Identity) (registries : Codec (List Peer)) (tls : Tls) where
  -- The registry that a command stores, if it stores one.
  abbrev pub Proposes : Command identities registries tls → Dir → List Peer → Type 0
  Proposes (init_with io io' io'' generated) d new = new ≡ []
  Proposes (pair_with io args cert) d new =
      (old : List Peer) × (load registries d.peers ≡ ok old)
      × (valid_name args.name ≡ true)
      × (paired identities registries tls args cert old ≡ ok new)
  Proposes (revoke_name io name) d new =
      (old : List Peer) × (load registries d.peers ≡ ok old) × (new ≡ without name old)
  Proposes (accept_invited io identity p) d new =
      (old : List Peer) × (load registries d.peers ≡ ok old)
      × (invited identities registries tls p old ≡ ok new)

  -- How the registry came out of a command: with the new peers in the file and no temporary file; or
  -- with the file as it was, also if a temporary file is left.
  pub data Changed (P : List Peer → Type 0) (s s' : Slot) : Type 0 where
    changed :
        (new : List Peer) (content : Bytes)
        → P new
        → registries.to_vec new ≡ some content
        → s' ≡ record { file = some (private_file content); pending = none }
        → s.pending ≡ none
        → Changed P s s'
    unchanged : s'.file ≡ s.file → ((s.pending ≡ none) ⊎ (s' ≡ s)) → Changed P s s'

  save-Changed :
      (P : List Peer → Type 0) (io : Io) (new : List Peer) (s : Slot)
      → P new
      → Changed P s (save registries io new s).1
  save-Changed P io new s p = elim (save_lem registries io new s) [
    | stored content e r there free ↦ changed new content p e there free
    | uncreated r same ↦ unchanged (ap (λ t. t.file) same) (inr same)
    | left e m r there free ↦ unchanged (ap (λ t. t.file) there) (inl free)
  ]

  -- The state of the registry given in another way.
  at_slot : (P : List Peer → Type 0) (s : Slot) {t u : Slot} → t ≡ u → Changed P s t → Changed P s u
  at_slot P s e c = subst (Changed P s) e c

  abbrev IsStart : List Peer → Type 0
  IsStart new = new ≡ []

  abbrev same_slot : (P : List Peer → Type 0) (s : Slot) → Changed P s s
  same_slot P s = unchanged refl (inr refl)

  start_registry-Changed :
      (io : Io) (d : Dir)
      → Changed IsStart d.peers (start_registry identities registries tls io d).1.peers
  unfolding start_registry store
  start_registry-Changed io d = elim (Option-cases d.peers.file) [
    | inl empty ↦
        at_slot IsStart d.peers {t = (save registries io [] d.peers).1} (ground arith)
          (save-Changed IsStart io [] d.peers refl)
    | inr (m, there) ↦
        at_slot IsStart d.peers {t = d.peers} (ground arith) (same_slot IsStart d.peers)
  ]

  write_cert-peers :
      (io : Io) (cert : Bytes) (d : Dir)
      → (write_cert identities registries tls io cert d).1.peers ≡ d.peers
  unfolding write_cert
  write_cert-peers io cert d = ground arith

  init_rest-peers :
      (io io' : Io) (cert : Bytes) (d : Dir)
      → (init_rest identities registries tls io io' cert d).1.peers
        ≡ (start_registry identities registries tls io d).1.peers
  unfolding init_rest
  init_rest-peers io io' cert d =
      ground (arith, write_cert-peers io' cert (start_registry identities registries tls io d).1)

  init-Changed :
      (io io' io'' : Io) (generated : Option Identity) (d : Dir)
      → Changed IsStart d.peers (init identities registries tls io io' io'' generated d).1.peers
  unfolding init
  init-Changed io io' io'' generated d = elim (Option-cases d.identity.file) [
    | inr (m, there) ↦
        at_slot IsStart d.peers {t = d.peers} (ground arith) (same_slot IsStart d.peers)
    | inl empty ↦ elim (Option-cases generated) [
      | inl bad ↦ at_slot IsStart d.peers {t = d.peers} (ground arith) (same_slot IsStart d.peers)
      | inr (i, made) ↦
          let s = save identities io i d.identity in
          let d' : Dir = record d { identity = s.1 } in
          elim (Result-cases s.0) [
            | was_err e bad ↦
                at_slot IsStart d.peers {t = d.peers} (ground arith) (same_slot IsStart d.peers)
            | was_ok u good ↦
                at_slot IsStart d.peers
                  {t = (start_registry identities registries tls io' d').1.peers}
                  (ground (arith, init_rest-peers io' io'' i.cert d'))
                  (start_registry-Changed io' d')
          ]
    ]
  ]

  -- What a command that loads the registry, changes it and checks the change comes to.
  store-Changed :
      (P : List Peer → Type 0) (io : Io) (new : List Peer) (d : Dir)
      → P new
      → Changed P d.peers (store identities registries tls io new d).1.peers
  unfolding store
  store-Changed P io new d p = save-Changed P io new d.peers p

  pair-Changed :
      (io : Io) (args : PairArgs) (cert : Option Bytes) (d : Dir)
      → Changed
          (Proposes (pair_with io args cert) d)
          d.peers
          (pair identities registries tls io args cert d).1.peers
  unfolding pair
  pair-Changed io args cert d =
      let P = Proposes (pair_with io args cert) d in
      elim (Bool-cases (valid_name args.name)) [
        | inr bad ↦ at_slot P d.peers {t = d.peers} (ground arith) (same_slot P d.peers)
        | inl good ↦ elim (Result-cases (load registries d.peers)) [
          | was_err e lost ↦ at_slot P d.peers {t = d.peers} (ground arith) (same_slot P d.peers)
          | was_ok old loaded ↦
              elim (Result-cases (paired identities registries tls args cert old)) [
                | was_err e lost ↦
                    at_slot P d.peers {t = d.peers} (ground arith) (same_slot P d.peers)
                | was_ok new made ↦
                    elim (Result-cases (check_tls identities registries tls d new)) [
                      | was_err e lost ↦
                          at_slot P d.peers {t = d.peers} (ground arith) (same_slot P d.peers)
                      | was_ok config fine ↦
                          at_slot P d.peers {t = (store identities registries tls io new d).1.peers}
                            (ground arith) (store-Changed P io new d (old, loaded, good, made))
                    ]
              ]
        ]
      ]

  revoke-Changed :
      (io : Io) (name : Text) (d : Dir)
      → Changed
          (Proposes (revoke_name io name) d)
          d.peers
          (revoke identities registries tls io name d).1.peers
  unfolding revoke
  revoke-Changed io name d =
      let P = Proposes (revoke_name io name) d in
      elim (Result-cases (load registries d.peers)) [
        | was_err e lost ↦ at_slot P d.peers {t = d.peers} (ground arith) (same_slot P d.peers)
        | was_ok old loaded ↦
            at_slot P d.peers
              {t = (store identities registries tls io (without name old) d).1.peers} (ground arith)
              (store-Changed P io (without name old) d (old, loaded, refl))
      ]

  enroll-Changed :
      (io : Io) (identity : Identity) (p : Peer) (d : Dir)
      → Changed
          (Proposes (accept_invited io identity p) d)
          d.peers
          (enroll identities registries tls io identity p d).1.peers
  unfolding enroll
  enroll-Changed io identity p d =
      let P = Proposes (accept_invited io identity p) d in
      elim (Result-cases (load registries d.peers)) [
        | was_err e lost ↦ at_slot P d.peers {t = d.peers} (ground arith) (same_slot P d.peers)
        | was_ok old loaded ↦ elim (Result-cases (invited identities registries tls p old)) [
          | was_err e lost ↦ at_slot P d.peers {t = d.peers} (ground arith) (same_slot P d.peers)
          | was_ok new made ↦ elim (Result-cases (tls_config tls identity new)) [
            | was_err e lost ↦ at_slot P d.peers {t = d.peers} (ground arith) (same_slot P d.peers)
            | was_ok config fine ↦
                at_slot P d.peers {t = (store identities registries tls io new d).1.peers}
                  (ground arith) (store-Changed P io new d (old, loaded, made))
          ]
        ]
      ]

  pub command-Changed :
      (lock : Bool) (c : Command identities registries tls) (d : Dir)
      → Changed (Proposes c d) d.peers (command identities registries tls lock c d).1.peers
  unfolding command
  command-Changed false c d = same_slot (Proposes c d) d.peers
  command-Changed true (init_with io io' io'' generated) d = init-Changed io io' io'' generated d
  command-Changed true (pair_with io args cert) d = pair-Changed io args cert d
  command-Changed true (revoke_name io name) d = revoke-Changed io name d
  command-Changed true (accept_invited io identity p) d = enroll-Changed io identity p d
