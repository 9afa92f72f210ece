-- ===== src/Protocol/Tests.antt =====
-- The theorems about the protocol at concrete inputs.
use dot_terminal.Prelude.{◌≡◌, refl, sym, [], ◌∷◌, ◌++◌, Option, some, Bytes, ok}
use dot_terminal.Protocol.Framing.{read_message, write_message, read-write_message}

-- Messages that are their own encoding.
abbrev to_vec : Bytes → Option Bytes
to_vec bs = some bs

abbrev from_slice : Bytes → Option Bytes
from_slice bs = some bs

read-write_message_example :
    read_message to_vec from_slice ((write_message to_vec from_slice [] (7 ∷ 8 ∷ [])).1 ++ 9 ∷ [])
    ≡ (ok (7 ∷ 8 ∷ []), 9 ∷ [])
unfolding write_message
read-write_message_example =
    read-write_message to_vec from_slice (7 ∷ 8 ∷ []) (9 ∷ []) refl (λ content e. sym e)
