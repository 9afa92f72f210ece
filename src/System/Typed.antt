-- ===== src/System/Typed.antt =====
-- What is typed into the program of a session, over runs of the whole system.
use dot_terminal.Prelude.{ℕ, ◌≡◌, In, Bytes}
use dot_terminal.Core.History
use dot_terminal.Protocol.{Operation, Request}
use dot_terminal.Session.Keeper.{Keeper}
use dot_terminal.System.{Posted, System, Parts}
use dot_terminal.System.Justified.{IsJustified}

-- An input into the program.
abbrev pub IsInput : Request → Type 0
IsInput r = (g : ℕ) × (seq : ℕ) × (bs : Bytes) × (r.operation ≡ Operation.input g seq bs)

module _ {E Json : Type 0} (m : Parts E Json) where
  -- An input that was written, and is justified.
  pub record WasTyped (s : System E Json) : Type 0 where
    pub posted : Posted Json
    pub logged : In posted s.log
    pub justified : IsJustified m posted
    pub is_input : IsInput posted.request
