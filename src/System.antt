-- ===== src/System.antt =====
-- A session with all that reaches it, put together: a keeper (crates/session/src/main.rs), a node that
-- forwards the requests of devices to it (crates/node/src/main.rs), the registry of that node, and the
-- gateway of the desktop (crates/desktop/src/main.rs). Every request is written to the socket of the
-- keeper first and answered later, in any order, between any steps of the threads of the keeper; the
-- registry may change between the two.
pub mod Justified
pub mod Typed
pub mod Stopped
mod Tests
use dot_terminal.Prelude.{
  ℕ, ◌<◌, ◌≡◌, Bool, true, false, Option, none, some, List, [], ◌∷◌, ◌++◌, map, if◌then◌else◌, Text,
  Bytes, list_eq, ok, err,
}
use dot_terminal.Protocol.{Operation, Request, Response, ServiceRequest}
use dot_terminal.Session.{Engine, Outside}
use dot_terminal.Session.Keeper.{
  Keeper, answer_client, ◌⟶◌, outputs, closes_output, exits, connects, answers, streams,
  unsubscribes, reaps,
}
use dot_terminal.Node.{Peer}
use dot_terminal.Node.Registry.{Tls, Dir, Command, commands}
use dot_terminal.Node.StateFile.{Codec, Slot, Identity}
use dot_terminal.Node.Service.{Call, ask_hub, forward, paste, copy, Services, Connection, serve}
use dot_terminal.Desktop.Gateway.{Head, App, Asked, post_operation}
use dot_terminal.Desktop.Gateway.Reached.{asked_of}

-- Who wrote a request: a program of the owner on this machine, the node for a connection, with the
-- registry as it was then, or the gateway for a request of the browser.
pub data Origin (Json : Type 0) : Type 0 where
  local : Origin Json
  device : (s : Services Json) → Slot → Connection s → Origin Json
  browser : Head → Operation → Origin Json

pub record Posted (Json : Type 0) : Type 0 where
  pub origin : Origin Json
  pub request : Request

-- `waiting`: what was written and not yet answered; `log`: all that was written so far.
pub record System (E Json : Type 0) : Type 0 where
  pub keeper : Keeper E
  pub dir : Dir
  pub waiting : List (Posted Json)
  pub log : List (Posted Json)

-- What the gateway writes to the keeper at a socket.
unfoldable pub asks_at : Text → List Asked → List Request
asks_at socket [] = []
asks_at socket (a ∷ asked) =
    let rest = asks_at socket asked in if list_eq a.path socket then a.request ∷ rest else rest

module _ {Json : Type 0} where
  -- What the calls of a node write to the keeper.
  unfoldable pub forwards : List (Call Json) → List Request
  forwards [] = []
  forwards (forward r ∷ calls) = r ∷ forwards calls
  forwards (ask_hub path body ∷ calls) = forwards calls
  forwards (paste ∷ calls) = forwards calls
  forwards (copy t ∷ calls) = forwards calls

  abbrev pub posted_by : Origin Json → List Request → List (Posted Json)
  posted_by origin rs = map (λ r. record { origin = origin; request = r }) rs

  unfoldable pub post : {E : Type 0} → Origin Json → List Request → System E Json → System E Json
  post origin rs s = record s {
    waiting = s.waiting ++ posted_by origin rs;
    log = s.log ++ posted_by origin rs;
  }

-- What the system is made of. `socket` is the path of the socket of the keeper.
pub record Parts (E Json : Type 0) : Type 0 where
  pub engine : Engine E
  pub to_vec : Response → Option Bytes
  pub identities : Codec Identity
  pub registries : Codec (List Peer)
  pub requests : Codec (ServiceRequest Json)
  pub tls : Tls
  pub app : App
  pub to_value : Response → Option Json
  pub route : Text → Option Text
  pub socket : Text

module _ {E Json : Type 0} (m : Parts E Json) where
  -- Whether a step of the keeper answers a request that could be read.
  unfoldable pub is_answer : {k k' : Keeper E} → ◌⟶◌ m.engine m.to_vec k k' → Bool
  is_answer (answers id o (ok req) one done) = true
  is_answer (answers id o (err e) one done) = false
  is_answer (outputs bs opened fed) = false
  is_answer (closes_output opened) = false
  is_answer exits = false
  is_answer (connects now) = false
  is_answer (streams after now next r one at) = false
  is_answer (unsubscribes one) = false
  is_answer (reaps retention now socket r) = false

  infix 40 ◌⟹◌ ◌⟹*◌
  pub data ◌⟹◌ : System E Json → System E Json → Type 0 where
    -- a thread of the keeper, but for the answer to a request
    works :
        {s : System E Json} {k : Keeper E} (st : ◌⟶◌ m.engine m.to_vec s.keeper k)
        → is_answer st ≡ false
        → s ⟹ record s { keeper = k }
    -- the answer to a request that waits
    replies :
        {s : System E Json} {k : Keeper E} (before after : List (Posted Json)) (p : Posted Json)
        (id : Text) (o : Outside)
        → s.waiting ≡ before ++ p ∷ after
        → 0 < s.keeper.clients
        → answer_client m.engine m.to_vec s.keeper id o (ok p.request) ≡ some k
        → s ⟹ record s { keeper = k; waiting = before ++ after }
    -- the node handles a connection
    serves :
        {s : System E Json} (v : Services Json) (c : Connection v)
        → s
          ⟹ post
              (device v s.dir.peers c)
              (forwards (serve v m.registries m.requests s.dir.peers c).1)
              s
    -- the gateway handles a request of the browser
    visits :
        {s : System E Json} (listeners : Text → Option (Request → Option Response)) (h : Head)
        (op : Operation)
        → s
          ⟹ post
              (browser h op)
              (asks_at m.socket (asked_of (post_operation m.app listeners m.to_value m.route h op)))
              s
    -- a program of the owner writes to the socket
    attaches : {s : System E Json} (r : Request) → s ⟹ post local (r ∷ []) s
    -- the owner changes the registry
    governs :
        {s : System E Json} (cs : List (Bool × Command m.identities m.registries m.tls))
        → s ⟹ record s { dir = commands m.identities m.registries m.tls cs s.dir }

  pub data ◌⟹*◌ : System E Json → System E Json → Type 0 where
    here : {s : System E Json} → s ⟹* s
    goes_on : {s t u : System E Json} → s ⟹* t → t ⟹ u → s ⟹* u

-- A keeper and a registry that nothing was written to yet.
abbrev pub quiet : {E Json : Type 0} → Keeper E → Dir → System E Json
quiet k d = record { keeper = k; dir = d; waiting = []; log = [] }
