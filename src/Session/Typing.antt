-- ===== src/Session/Typing.antt =====
-- What becomes of an input that a keeper is given: `input` of crates/session/src/main.rs.
use dot_terminal.Prelude.{
  ℕ, suc, ◌<◌, ◌≡◌, ◌≢◌, refl, ◌∙◌, true, false, none, some, List, [], ◌∷◌, ◌++◌, length, Bytes,
  Result, ok, arith, u64_max, get_elem?, ◌-◌,
}
use dot_terminal.Message.{Message, out_of_order}
use dot_terminal.Core.Controller
use dot_terminal.Core.Controller.{Controller, InputDecision}
use dot_terminal.Core.Controller.Window.{IsWindow}
use dot_terminal.Core.Controller.Answers.{taken, known, refused, prepare-Answers}
use dot_terminal.Core.Presence
use dot_terminal.Core.Presence.{Presence}
use dot_terminal.Session.{State, Outside, input, decided, write_input, ack, error}

written-IsWindow :
    (c : Controller) (log : List Bytes) (left : ℕ)
    → IsWindow c log left
    → IsWindow (Controller.written c) log left
unfolding Controller.written
written-IsWindow c log left w = record {
  in_order = w.in_order;
  past = w.past;
  window = w.window;
  counted = w.counted;
  few = w.few;
  small = w.small;
}

module _ {E : Type 0} (s : State E) (o : Outside) (log : List Bytes) (left g seq : ℕ)
    (bs : Bytes) where
  -- What became of an input of the holder of control, of whose lease `log` is what was written.
  pub data Took : Type 0 where
    -- the next one: written whole, once
    wrote :
        (s' : State E) (now : ℕ)
        → seq ≡ suc (length log)
        → input s o g seq bs ≡ some (s', ack false)
        → s'.typed ≡ s.typed ++ bs
        → IsWindow s'.controller (log ++ bs ∷ []) now
        → s'.controller.uncertain ≡ false
        → Took
    -- byte for byte one that was written and is in the window: acknowledged, and nothing is written
    repeated :
        left < seq
        → get_elem? log (seq - 1) ≡ some bs
        → input s o g seq bs ≡ some (s, ack true)
        → Took
    -- neither: refused, and nothing changes
    turned_away :
        seq ≢ suc (length log)
        → (left < seq → get_elem? log (seq - 1) ≢ some bs)
        → input s o g seq bs ≡ some (s, error out_of_order)
        → Took

  input-decided :
      s.exited ≡ false
      → o.writer_free ≡ true
      → {c' : Controller} {d : Result Message InputDecision}
      → Controller.prepare s.controller g seq bs ≡ some (c', d)
      → input s o g seq bs ≡ some (decided s o bs (c', d))
  unfolding input
  input-decided a b e = ground arith

  -- For a lease whose written inputs are log, fewer than 2^64 and all of them reported, an input of
  -- its holder to a running program that takes it is, if it is the next in number, written whole
  -- and once with the window and certainty kept; if the window, which has the inputs past number
  -- left, holds it byte for byte, acknowledged with nothing written; and, only if it is neither,
  -- refused as out of order with nothing changed.
  pub input-Took :
      IsWindow s.controller log left
      → Controller.check s.controller g ≡ ok tt
      → s.controller.uncertain ≡ false
      → length log < u64_max
      → s.exited ≡ false
      → o.writer_free ≡ true
      → o.stops_at ≡ none
      → Took
  unfolding decided write_input Controller.written
  input-Took w held certain room running free through =
      elim (prepare-Answers s.controller log left g w held certain room seq bs) [
        | taken c' now next e w' later ↦
            wrote
              (record s {
                typed = s.typed ++ bs;
                controller = Controller.written c';
                presence = Presence.input s.presence o.now_ms;
              })
              now next (input-decided running free e ∙ ground (arith, through)) refl
              (written-IsWindow c' _ now w') refl
        | known inside same e ↦ repeated inside same (input-decided running free e)
        | refused other new e ↦ turned_away other new (input-decided running free e)
      ]
