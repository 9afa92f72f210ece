-- ===== src/System/Tests.antt =====
-- The theorems about the whole system at concrete runs.
use dot_terminal.Prelude.{ℕ, ◌≡◌, refl, true, false, none, some, [], ◌∷◌, text}
use dot_terminal.Protocol
use dot_terminal.Protocol.{Operation, Request, Response, ServiceRequest, validate, validate_service}
use dot_terminal.Protocol.Framing.{read_message, read_exact}
use dot_terminal.Session.Keeper as Threads
use dot_terminal.Session.Sample.{sized, no_json}
use dot_terminal.Session.Keeper.{Keeper, start, connect}
use dot_terminal.Node.{authorize, granted, is_stop}
use dot_terminal.Node.StateFile.{load, read_to_end}
use dot_terminal.Node.Registry.Sample.{registries, identities, tls, dir}
use dot_terminal.Node.Service.{
  Services, Connection, serve, serve_request, respond, find_peer, granted_service, forward_request,
}
use dot_terminal.System.{System, Parts, local, device, forwards, post, quiet}

-- Every request of a device is this input.
abbrev typing : Request
typing = record { version = 1; operation = Operation.input 1 1 (104 ∷ []) }

abbrev to_stop : Request
to_stop = record { version = 1; operation = Operation.stop }

-- A router that finds nothing.
abbrev parts : Parts (ℕ × ℕ) (Unit {0})
parts = record {
  engine = sized;
  to_vec = no_json;
  identities = identities;
  registries = registries;
  requests = record {
    to_vec = λ r. none;
    from_slice = λ bs. some (ServiceRequest.terminal typing);
  };
  tls = tls;
  app = record {
    attach_only = true;
    token = text "00ff";
    origin = text "http://127.0.0.1:4000";
    dir = text "/state";
  };
  to_value = λ r. some tt;
  route = λ path. none;
  socket = text "/state/k1.sock";
}

abbrev started : Keeper (ℕ × ℕ)
started = start (80, 24) (some 42) (text "k1")

abbrev services : Services (Unit {0})
services = record {
  hub = none;
  socket = some (λ r. none);
  is_macos = false;
  pasted = none;
  copies = λ t. none;
  from_utf8 = λ bs. some bs;
  node_id = text "dot:node:v1:00";
  message = λ f. [];
}

-- The phone, which was granted the terminal.
abbrev connection : Connection services
connection = record { handshakes = true; certificate = some (7 ∷ []); sends = 0 ∷ 0 ∷ 0 ∷ 0 ∷ [] }

abbrev typed_at : System (ℕ × ℕ) (Unit {0})
typed_at =
    post (device services dir.peers connection)
      (forwards (serve services registries parts.requests dir.peers connection).1)
      (quiet started dir)

-- The input of the phone waits.
waits :
    typed_at.waiting
    ≡ record { origin = device services dir.peers connection; request = typing } ∷ []
unfolding post forwards serve serve_request respond find_peer load read_to_end read_message
    read_exact authorize granted validate_service granted_service forward_request validate
    Protocol.bad_operation is_stop
waits = refl

-- A program of the owner asks to stop, and is answered.
abbrev asked : System (ℕ × ℕ) (Unit {0})
asked = record (post local (to_stop ∷ []) (quiet started dir)) {
  keeper = connect sized no_json started 1000;
}

abbrev stopped : Keeper (ℕ × ℕ)
stopped = record started { stop = true; last_client = 1000 }
