-- ===== src/Session/Tests.antt =====
-- The theorems about a keeper at concrete inputs.
use dot_terminal.Prelude.{ℕ, ◌≡◌, refl, false, [], ◌∷◌, some, text, arith}
use dot_terminal.Core.History.{fresh}
use dot_terminal.Core.History.IsValid.{fresh-IsValid}
use dot_terminal.Core.Controller.{idle, leased, check}
use dot_terminal.Core.Controller.Window.{IsWindow}
use dot_terminal.Core.Presence.{nobody}
use dot_terminal.Session.{State}
use dot_terminal.Session.Sample.{calm}
use dot_terminal.Session.Typing.{Took, input-Took}
use dot_terminal.Session.Subscription.{Turn, turn, Sound, turn_total}

-- A keeper of a running program, under control.
abbrev running : State (ℕ × ℕ)
running = record {
  controller = leased idle 1;
  typed = [];
  grid = (80, 24);
  history = fresh 4096 80 24;
  signal = 0;
  screen = (80, 24);
  exited = false;
  output_closed = false;
  presence = nobody;
  pid = some 42;
  incarnation = text "k1";
}

running-IsWindow : IsWindow (leased idle 1) [] 0
running-IsWindow = record {
  in_order = refl;
  past = omega arith;
  window = refl;
  counted = refl;
  few = omega arith;
  small = omega arith;
}

input-Took_example : Took running calm [] 0 1 1 (104 ∷ 105 ∷ [])
unfolding check
input-Took_example =
    input-Took running calm [] 0 1 1 (104 ∷ 105 ∷ []) running-IsWindow refl refl (omega arith) refl
      refl refl

turn_total_example : (t : Turn) × (turn running 0 ≡ some t) × Sound running 0 t
turn_total_example = turn_total running 0 (fresh-IsValid 4096 80 24 (omega arith)) (omega arith)
