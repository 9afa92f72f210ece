-- ===== src/Session.antt =====
-- crates/session/src/main.rs: the keeper of a terminal session, which answers the requests of its
-- clients over the history, the controller and the presence of crates/core. The terminal engine and
-- the JSON encoder are parameters; what the system does during a request is `Outside`.
pub mod Subscription
pub mod Requests
pub mod Dispatch
pub mod Typing
pub mod Keeper
pub mod Sample
mod Tests
use dot_terminal.Prelude.{
  ℕ, ◌+◌, ◌-◌, ◌<◌, ◌≤◌, Bool, true, false, not, ◌||◌, ◌&&◌, Option, none, some, List, [], ◌∷◌,
  ◌++◌, length, take, is_empty, map, ltb, leb, ◌==◌, if◌then◌else◌, Text, Bytes, Result, ok, err,
}
use mathlib.Core.Option
use dot_terminal.Message.{
  Message, invalid_view_id, screen_too_large, screen_limit, session_exited, earlier_input_pending,
  write_outcome_unknown, external,
}
use dot_terminal.Core.History
use dot_terminal.Core.History.{History, Chunk, Frame}
use dot_terminal.Core.Controller
use dot_terminal.Core.Controller.{Controller, InputDecision}
use dot_terminal.Core.Presence
use dot_terminal.Core.Presence.{Presence, PresenceSnapshot, ViewInfo}
use dot_terminal.Protocol.{
  version, max_frame, Operation, Response, PresenceView, PresenceAnswer, ScreenAnswer, StatusAnswer,
  OutputAnswer, FrameAnswer,
}

-- `dot_terminal_engine::Screen`.
pub record Engine (E : Type 0) : Type 0 where
  pub dimensions : E → ℕ × ℕ
  pub cursor : E → ℕ × ℕ
  pub lines : E → List Text
  pub resize : E → ℕ → ℕ → E
  pub feed : E → Bytes → E

-- `State`, its locks taken away. `typed` is what was written to the program; `grid` is the size of
-- its terminal; `signal` wakes the subscribers.
pub record State (E : Type 0) : Type 0 where
  pub controller : Controller
  pub typed : Bytes
  pub grid : ℕ × ℕ
  pub history : History
  pub signal : ℕ
  pub screen : E
  pub exited : Bool
  pub output_closed : Bool
  pub presence : Presence
  pub pid : Option ℕ
  pub incarnation : Text

-- What one request meets: the clocks, a fresh ticket, whether the writer is free before the deadline,
-- how many bytes the program takes before a write fails (`none`: all, and flushed), and the error of
-- the resize, if any.
pub record Outside : Type 0 where
  pub now_ms : ℕ
  pub clock : ℕ
  pub ticket : Text
  pub writer_free : Bool
  pub stops_at : Option ℕ
  pub resize_error : Option Text

-- A state with the response; `none` is a panic.
abbrev pub Answer : Type 0 → Type 0
Answer E = Option (State E × Response)

abbrev pub read_limit : ℕ
read_limit = 16384

abbrev pub ack : Bool → Response
ack duplicate = Response.ack duplicate

abbrev pub error : Message → Response
error message = Response.error message

-- The response to `Result<(), _>`.
abbrev pub acked : Result Message (Unit {0}) → Response
acked (ok u) = ack false
acked (err e) = error e

abbrev pub lease : Result Message ℕ → Response
lease (ok g) = Response.lease g
lease (err e) = error e

abbrev pub output_of : Chunk → Bool → OutputAnswer
output_of c exited = record {
  start = c.start;
  next = c.next;
  gap = c.gap;
  content = c.content;
  exited = exited;
}

abbrev pub aged : ℕ → ViewInfo → PresenceView
aged now v = record { view = v.view; label = v.label; kind = v.kind; age_ms = now - v.seen_ms }

abbrev pub presence_of : ℕ → PresenceSnapshot → PresenceAnswer
presence_of now snap = record {
  views = map (aged now) snap.views;
  controller = snap.controller;
  controller_known = snap.held;
  controller_idle_ms = snap.controller_idle_ms;
}

module _ {E : Type 0} where
  abbrev pub notify : State E → State E
  notify s = record s { signal = s.signal + 1 }

  abbrev pub ended : State E → Bool
  ended s = s.exited && s.output_closed

  -- `State::frame`
  abbrev pub frame : State E → Frame → Bool → Response
  frame s f exited = Response.frame (record {
    output = output_of f.chunk exited;
    cols = f.geometry.cols;
    rows = f.geometry.rows;
    geometry_epoch = f.geometry.epoch;
    incarnation = s.incarnation;
  })

  abbrev pub status_of : State E → Text → StatusAnswer
  status_of s id = record { version = version; session = id; pid = s.pid; exited = s.exited }

  unfoldable pub read_output : State E → ℕ → Response
  read_output s after = elim (History.read s.history after read_limit) [
    | ok c ↦ Response.output (output_of c (ended s))
    | err e ↦ error e
  ]

  unfoldable pub read_output_frame : State E → ℕ → Option Response
  read_output_frame s after =
      Option.map (λ r. elim r [ ok f ↦ frame s f (ended s) | err e ↦ error e ])
        (History.read_frame s.history after read_limit)

  unfoldable pub say_hello : State E → ℕ → Text → Text → Text → State E × Response
  say_hello s now view label kind =
      let (p, done) = Presence.hello s.presence now view label kind in
      elim done [
        | err e ↦ (record s { presence = p }, error e)
        | ok u ↦
            let (q, snap) = Presence.snapshot p now in
            (record s { presence = q }, Response.presence (presence_of now snap))
      ]

  -- The control that was acquired, noted for the views.
  unfoldable pub acquire_as : State E → ℕ → Bool → Option Text → State E × Response
  acquire_as s now takeover view =
      let (c, done) = Controller.acquire s.controller takeover in
      elim done [
        | err e ↦ (record s { controller = c }, error e)
        | ok g ↦ (
          record s { controller = c; presence = Presence.took s.presence now view },
          Response.lease g,
        )
      ]

  unfoldable pub release : State E → ℕ → State E × Response
  release s g =
      let (c, done) = Controller.release s.controller g in
      elim done [
        | err e ↦ (record s { controller = c }, error e)
        | ok u ↦ (record s { controller = c; presence = Presence.cleared s.presence }, ack false)
      ]

  unfoldable pub offer_handoff : State E → Outside → ℕ → State E × Response
  offer_handoff s o g =
      let (c, done) = Controller.offer_handoff s.controller g o.ticket o.clock in
      (
        record s { controller = c },
        elim done [ ok u ↦ Response.handoff o.ticket 120 | err e ↦ error e ],
      )

  -- `write_all` and `flush`, and what follows them.
  unfoldable pub write_input : State E → Outside → Bytes → State E × Response
  write_input s o bs = elim o.stops_at [
    | none ↦ (
      record s {
        typed = s.typed ++ bs;
        controller = Controller.written s.controller;
        presence = Presence.input s.presence o.now_ms;
      },
      ack false,
    )
    | some n ↦ (record s { typed = s.typed ++ take n bs }, error write_outcome_unknown)
  ]

  unfoldable pub decided :
      State E → Outside → Bytes → Controller × Result Message InputDecision → State E × Response
  decided s o bs (c, err e) = (record s { controller = c }, error e)
  decided s o bs (c, ok InputDecision.duplicate) = (record s { controller = c }, ack true)
  decided s o bs (c, ok InputDecision.write) = write_input (record s { controller = c }) o bs

  unfoldable pub input : State E → Outside → ℕ → ℕ → Bytes → Answer E
  input s o g seq bs =
      if s.exited
      then some (s, error session_exited)
      else if not o.writer_free
      then some (s, error earlier_input_pending)
      else Option.map (decided s o bs) (Controller.prepare s.controller g seq bs)
