-- ===== src/System/Stopped.antt =====
-- Who stops a session, over runs of the whole system.
use dot_terminal.Prelude.{◌≡◌, false, In}
use dot_terminal.Core.History
use dot_terminal.Protocol.{Operation}
use dot_terminal.Session.Keeper.{Keeper, is_stop}
use dot_terminal.Node as Node
use dot_terminal.System.{Origin, local, device, browser, Posted, System, Parts}
use dot_terminal.System.Justified.{IsJustified}

module _ {E Json : Type 0} (m : Parts E Json) where
  -- Who may stop a session.
  abbrev pub MayStop : Origin Json → Type 0
  MayStop local = Unit {0}
  MayStop (device v registry c) = ⊥
  MayStop (browser h op) = m.app.attach_only ≡ false

  -- A request to stop that was written, by one who may.
  pub record WasStopped (s : System E Json) : Type 0 where
    pub posted : Posted Json
    pub logged : In posted s.log
    pub justified : IsJustified m posted
    pub may_stop : MayStop posted.origin
    pub is_stop : posted.request.operation ≡ Operation.stop
