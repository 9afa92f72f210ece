-- ===== src/Core/Controller/Tests.antt =====
-- Runs of the controller, and the theorems about it at concrete inputs.
use dot_terminal.Prelude.{ℕ, ◌<◌, ◌≡◌, refl, true, false, [], ◌∷◌, some, Text, text, arith, ok, err}
use dot_terminal.Message.{stale_generation, handoff_unavailable}
use dot_terminal.Core.Controller.{
  Controller, idle, leased, acquire, check, offer_handoff, accept_handoff, release,
}
use dot_terminal.Core.Controller.Calls.{releases, run, step}
use dot_terminal.Core.Controller.Window.{IsWindow}
use dot_terminal.Core.Controller.Answers.{Answers, prepare-Answers}
use dot_terminal.Core.Controller.Fencing.{acquire-run_fences}
use dot_terminal.Core.Controller.Handoff.{accept_handoff_once, offer-accept_handoff}

-- A lease that wrote one input.
abbrev wrote_one : Controller
wrote_one = record (leased idle 1) {
  last_sequence = 1;
  recent = (1, 104 ∷ 105 ∷ []) ∷ [];
  recent_bytes = 2;
}

wrote_one-IsWindow : IsWindow wrote_one ((104 ∷ 105 ∷ []) ∷ []) 0
wrote_one-IsWindow = record {
  in_order = refl;
  past = omega arith;
  window = refl;
  counted = refl;
  few = omega arith;
  small = omega arith;
}

prepare-Answers_example : Answers wrote_one ((104 ∷ 105 ∷ []) ∷ []) 0 1 2 (33 ∷ [])
unfolding check
prepare-Answers_example =
    prepare-Answers wrote_one ((104 ∷ 105 ∷ []) ∷ []) 0 1 wrote_one-IsWindow refl refl (omega arith)
      2 (33 ∷ [])

-- Another client takes over, and writes.
abbrev taken_over : Controller
taken_over = leased wrote_one 2

acquire-run_fences_example : check (record taken_over { active = false }) 1 ≡ err stale_generation
unfolding run step acquire release check
acquire-run_fences_example =
    acquire-run_fences wrote_one true (releases 2 ∷ []) 2 1 refl (omega arith) refl

abbrev ticket : Text
ticket = text "t1"

abbrev offering : Controller
offering = record wrote_one { handoff = some (ticket, 130) }

accept_handoff_once_example :
    (deadline : ℕ) × (offering.handoff ≡ some (ticket, deadline))
    × (129 < deadline)
    × (check (accept_handoff offering ticket 129).0 2 ≡ ok tt)
    × (check (accept_handoff offering ticket 129).0 1 ≡ err stale_generation)
    × ((accept_handoff (accept_handoff offering ticket 129).0 ticket 129).1
        ≡ err handoff_unavailable)
unfolding accept_handoff acquire
accept_handoff_once_example = accept_handoff_once offering ticket 129 2 ticket 129 refl

offer-accept_handoff_example :
    (accept_handoff (offer_handoff wrote_one 1 ticket 10).0 ticket 129).1 ≡ ok 2
unfolding offer_handoff check
offer-accept_handoff_example =
    offer-accept_handoff wrote_one 1 ticket 10 129 refl (omega arith) (omega arith)
