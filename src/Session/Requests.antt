-- ===== src/Session/Requests.antt =====
-- `dispatch` of crates/session/src/main.rs: every request but a subscription.
use dot_terminal.Prelude.{
  ℕ, Bool, false, not, ◌||◌, Option, none, some, length, ltb, leb, if◌then◌else◌, Text, Bytes, ok,
  err,
}
use mathlib.Core.Option
use dot_terminal.Message.{invalid_view_id, screen_too_large, screen_limit, external}
use dot_terminal.Core.History
use dot_terminal.Core.History.{History, Chunk, Frame}
use dot_terminal.Core.Controller
use dot_terminal.Core.Controller.{Controller, InputDecision}
use dot_terminal.Core.Presence
use dot_terminal.Core.Presence.{Presence, PresenceSnapshot, ViewInfo}
use dot_terminal.Protocol.{max_frame, Operation, Response, ScreenAnswer}
use dot_terminal.Session.{
  Engine, State, Outside, Answer, ack, error, acked, lease, notify, ended, status_of, read_output,
  read_output_frame, say_hello, acquire_as, release, offer_handoff, input,
}

module _ {E : Type 0} (engine : Engine E) (to_vec : Response → Option Bytes) where
  abbrev pub screen_of : State E → ScreenAnswer
  screen_of s =
      let (cols, rows) = engine.dimensions s.screen in
      let (cursor_col, cursor_row) = engine.cursor s.screen in
      record {
        cols = cols;
        rows = rows;
        lines = engine.lines s.screen;
        cursor_col = cursor_col;
        cursor_row = cursor_row;
        exited = ended s;
      }

  abbrev pub within_frame : Option Bytes → Bool
  within_frame none = false
  within_frame (some b) = leb (length b) max_frame

  unfoldable pub show_screen : State E → Response
  show_screen s =
      let response = Response.screen (screen_of s) in
      if within_frame (to_vec response) then response else error screen_too_large

  -- The grid, the screen and the history change together.
  unfoldable pub resized : State E → ℕ → ℕ → Answer E
  resized s cols rows =
      Option.map
        (λ r. (
          notify (record s {
            grid = (cols, rows);
            screen = engine.resize s.screen cols rows;
            history = r.0;
          }),
          ack false,
        ))
        (History.resize s.history cols rows)

  unfoldable pub resize : State E → Outside → ℕ → ℕ → ℕ → Answer E
  resize s o g cols rows = elim (Controller.check s.controller g) [
    | err e ↦ some (s, error e)
    | ok u ↦
        if ltb 240 cols || ltb 100 rows then some (s, error screen_limit) else elim o.resize_error [
          | some e ↦ some (s, error (external e))
          | none ↦ resized s cols rows
        ]
  ]

  unfoldable pub dispatch : State E → Text → Outside → Operation → Answer E
  dispatch s id o Operation.status = some (s, Response.status (status_of s id))
  dispatch s id o Operation.screen = some (s, show_screen s)
  dispatch s id o (Operation.read after) = some (s, read_output s after)
  dispatch s id o (Operation.read_frame after) =
      Option.map (λ r. (s, r)) (read_output_frame s after)
  dispatch s id o Operation.stop = some (s, ack false)
  dispatch s id o (Operation.hello view label kind) = some (say_hello s o.now_ms view label kind)
  dispatch s id o (Operation.input g seq bs) = input s o g seq bs
  dispatch s id o (Operation.acquire takeover) = some (acquire_as s o.now_ms takeover none)
  dispatch s id o (Operation.acquire_as view takeover) =
      if not (Presence.valid_view_id view)
      then some (s, error invalid_view_id)
      else some (acquire_as s o.now_ms takeover (some view))
  dispatch s id o (Operation.offer_handoff g) = some (offer_handoff s o g)
  dispatch s id o (Operation.accept_handoff ticket) =
      let (c, done) = Controller.accept_handoff s.controller ticket o.clock in
      some (record s { controller = c }, lease done)
  dispatch s id o (Operation.cancel_handoff g) =
      let (c, done) = Controller.cancel_handoff s.controller g in
      some (record s { controller = c }, acked done)
  dispatch s id o (Operation.check_control g) = some (s, acked (Controller.check s.controller g))
  dispatch s id o (Operation.release g) = some (release s g)
  dispatch s id o (Operation.resize g cols rows) = resize s o g cols rows
  dispatch s id o (Operation.subscribe after) = none
