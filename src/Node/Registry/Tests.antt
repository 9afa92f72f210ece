-- ===== src/Node/Registry/Tests.antt =====
-- The theorems about the registry at concrete inputs.
use dot_terminal.Prelude.{◌≡◌, ◌≢◌, refl, arith, true, false, some, List, [], ◌∷◌, text, ok}
use dot_terminal.Node.{Peer}
use dot_terminal.Node.Registry.{store, revoke, command, commands, revoke_name, valid_name, Command}
use dot_terminal.Node.StateFile.{encode_failed, Slot, Io, private_file, load, save, read_to_end}
use dot_terminal.Node.Registry.Sample.{
  phone, registries, registries_read, identities, tls, works, dir,
}
use dot_terminal.Node.Registry.Kept.{IsRegistry}
use dot_terminal.Node.Registry.Runs.{commands-IsRegistry, save_stuck}

abbrev disk_full : Io
disk_full = record { creates = true; writes = false; written = []; syncs = true; renames = true }

abbrev revocation : Command identities registries tls
revocation = revoke_name works (text "phone")

phone_IsRegistry : (peers : List Peer) → load registries dir.peers ≡ ok peers → IsRegistry peers
unfolding load read_to_end valid_name
phone_IsRegistry peers e =
    let same : peers ≡ phone ∷ [] = ground arith in
    rw same
      (record { few = omega arith; distinct = (tt, tt); peers_valid = ((refl, omega arith), tt) })

commands-IsRegistry_example : IsRegistry []
unfolding commands command revoke store save load read_to_end
commands-IsRegistry_example =
    commands-IsRegistry identities registries tls ((true, revocation) ∷ []) dir registries_read
      (tt, tt) phone_IsRegistry [] refl

-- What is left when the disk is full.
abbrev half_saved : Slot
half_saved = record { file = some (private_file (1 ∷ [])); pending = some (private_file []) }

save_stuck_example :
    ((commands identities registries tls [] (record dir { peers = half_saved })).peers.file
      ≡ dir.peers.file)
    × ((revoke identities registries tls works
          (text "phone")
          (commands identities registries tls [] (record dir { peers = half_saved }))).0
        ≢ ok tt)
unfolding save
save_stuck_example =
    save_stuck identities registries tls disk_full works [] (text "phone") dir half_saved
      encode_failed [] refl (λ e. cc)
