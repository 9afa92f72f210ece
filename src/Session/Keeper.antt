-- ===== src/Session/Keeper.antt =====
-- `keeper` of crates/session/src/main.rs: its threads as steps of one state. The thread that reads the
-- terminal, the one that waits for the program, the loop that accepts clients, the thread of each
-- client, and the one that reaps.
pub mod Records
pub mod Reachable
mod Tests
use dot_terminal.Prelude.{
  ℕ, ◌+◌, ◌-◌, ◌<◌, ◌≤◌, ◌≡◌, Bool, true, false, not, ◌||◌, ◌&&◌, Option, none, some, List, [], ◌∷◌,
  length, ltb, leb, ◌==◌, if◌then◌else◌, Text, Bytes, Result, ok, err,
}
use mathlib.Core.Option
use dot_terminal.Message.{Message}
use dot_terminal.Core.History
use dot_terminal.Core.Controller.{idle}
use dot_terminal.Core.Presence.{nobody}
use dot_terminal.Protocol.{Operation, Request, Response, validate}
use dot_terminal.Session.{State, Engine, Outside, notify, ended, error}
use dot_terminal.Session.Requests.{dispatch}
use dot_terminal.Session.Subscription.{turn, sends, closes, fails, Turn, reap, Reaping}

abbrev pub max_clients : ℕ
max_clients = 32

abbrev pub capacity : ℕ
capacity = 1048576

-- The shared state of the threads: `stop`, `clients` and `last_client` beside the state of the session.
pub record Keeper (E : Type 0) : Type 0 where
  pub session : State E
  pub stop : Bool
  pub clients : ℕ
  pub last_client : ℕ

-- How a keeper starts, on a screen, for a program with this id.
unfoldable pub start : {E : Type 0} → E → Option ℕ → Text → Keeper E
start screen pid incarnation = record {
  session = record {
    controller = idle;
    typed = [];
    grid = (80, 24);
    history = History.fresh capacity 80 24;
    signal = 0;
    screen = screen;
    exited = false;
    output_closed = false;
    presence = nobody;
    pid = pid;
    incarnation = incarnation;
  };
  stop = false;
  clients = 0;
  last_client = 0;
}

-- A request as it was read: the text of an error, or the request.
abbrev pub Asked : Type 0
Asked = Result Text Request

abbrev pub is_stop : Operation → Bool
is_stop Operation.stop = true
is_stop _ = false

module _ {E : Type 0} (engine : Engine E) (to_vec : Response → Option Bytes) where
  -- The thread that reads the terminal took some bytes: the screen, then the history, in one section.
  unfoldable pub feed : State E → Bytes → Option (State E)
  feed s bs =
      Option.map (λ h. notify (record s { screen = engine.feed s.screen bs; history = h }))
        (History.append s.history bs)

  abbrev pub close_output : State E → State E
  close_output s = notify (record s { output_closed = true })

  abbrev pub child_exits : State E → State E
  child_exits s = notify (record s { exited = true })

  -- A client connects: the loop leaves, turns the client away, or starts its thread.
  unfoldable pub connect : Keeper E → ℕ → Keeper E
  connect k now =
      if k.stop
      then record k { last_client = now }
      else if leb max_clients k.clients
      then record k { last_client = now }
      else record k { last_client = now; clients = k.clients + 1 }

  -- The response of a client's thread, and whether it asks to stop.
  unfoldable pub respond : State E → Text → Outside → Asked → Option (State E × (Response × Bool))
  respond s id o (err e) = some (s, (error (Message.external e), false))
  respond s id o (ok req) = elim (validate req) [
    | err e ↦ some (s, (error e, false))
    | ok u ↦
        Option.map (λ r. (r.0, (r.1, is_stop req.operation)))
          (dispatch engine to_vec s id o req.operation)
  ]

  -- A client's thread answers and ends.
  unfoldable pub answer_client : Keeper E → Text → Outside → Asked → Option (Keeper E)
  answer_client k id o asked =
      Option.map
        (λ r. record k { session = r.0; stop = k.stop || (r.1).1; clients = k.clients - 1 })
        (respond k.session id o asked)

  abbrev pub leave : Keeper E → Keeper E
  leave k = record k { clients = k.clients - 1 }

  infix 40 ◌⟶◌ ◌⟶*◌
  -- One step of some thread.
  pub data ◌⟶◌ : Keeper E → Keeper E → Type 0 where
    outputs :
        {k : Keeper E} {s : State E} (bs : Bytes)
        → k.session.output_closed ≡ false
        → feed k.session bs ≡ some s
        → k ⟶ record k { session = s }
    closes_output :
        {k : Keeper E}
        → k.session.output_closed ≡ false
        → k ⟶ record k { session = close_output k.session }
    exits : {k : Keeper E} → k ⟶ record k { session = child_exits k.session }
    connects : {k : Keeper E} (now : ℕ) → k ⟶ connect k now
    answers :
        {k k' : Keeper E} (id : Text) (o : Outside) (asked : Asked)
        → 0 < k.clients
        → answer_client k id o asked ≡ some k'
        → k ⟶ k'
    -- a frame of a subscription that carries bytes
    streams :
        {k : Keeper E} (after now next : ℕ) (r : Response)
        → 0 < k.clients
        → turn k.session after ≡ some (sends r next)
        → k ⟶ record k { last_client = now }
    -- a subscription ends, for whatever reason
    unsubscribes : {k : Keeper E} → 0 < k.clients → k ⟶ leave k
    reaps :
        {k : Keeper E} (retention now : ℕ) (socket : Bool)
        → reap k.session retention k.stop now k.last_client socket ≡ Reaping.stops
        → k ⟶ record k { stop = true }

  pub data ◌⟶*◌ : Keeper E → Keeper E → Type 0 where
    here : {k : Keeper E} → k ⟶* k
    goes_on : {k m n : Keeper E} → k ⟶* m → m ⟶ n → k ⟶* n
