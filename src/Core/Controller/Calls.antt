-- ===== src/Core/Controller/Calls.antt =====
-- Any call of a `Controller`, as the keeper makes them, and runs of such calls.
use dot_terminal.Prelude.{ℕ, Bool, Option, none, some, List, [], ◌∷◌, Text, Bytes}
use mathlib.Core.Option
use dot_terminal.Core.Controller.{
  Controller, acquire, release, offer_handoff, cancel_handoff, accept_handoff, prepare, written,
}

pub data Call : Type 0 where
  acquires : Bool → Call
  releases : ℕ → Call
  offers : ℕ → Text → ℕ → Call
  cancels : ℕ → Call
  accepts : Text → ℕ → Call
  prepares : ℕ → ℕ → Bytes → Call
  writes : Call

unfoldable pub step : Controller → Call → Option Controller
step c (acquires takeover) = some (acquire c takeover).0
step c (releases g) = some (release c g).0
step c (offers g ticket now) = some (offer_handoff c g ticket now).0
step c (cancels g) = some (cancel_handoff c g).0
step c (accepts ticket now) = some (accept_handoff c ticket now).0
step c (prepares g seq bs) = Option.map (λ r. r.0) (prepare c g seq bs)
step c writes = some (written c)

-- `none` if a call panicked.
unfoldable pub run : Controller → List Call → Option Controller
run c [] = some c
run c (call ∷ calls) = elim (step c call) [ none ↦ none | some c' ↦ run c' calls ]
