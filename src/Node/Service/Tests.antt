-- ===== src/Node/Service/Tests.antt =====
-- The theorems about the services of a node at concrete inputs.
use dot_terminal.Prelude.{
  AtMostOne, ◌≡◌, ◌≢◌, refl, arith, true, none, some, List, [], ◌∷◌, text, ok, All,
}
use dot_terminal.Protocol.{ServiceRequest, ServiceResponse, validate_service}
use dot_terminal.Protocol.Framing.{read_message, read_exact}
use dot_terminal.Node.{Peer, authorize, granted}
use dot_terminal.Node.Registry.{revoke, store, certified, named}
use dot_terminal.Node.StateFile.{Codec, load, save, read_to_end}
use dot_terminal.Node.Registry.Sample.{
  phone, registries, registries_read, identities, tls, works, dir,
}
use dot_terminal.Node.Service.{Services, Connection, serve, serve_request, respond, find_peer}
use dot_terminal.Node.Service.Guarded.{IsEntitled, serve_called, revoke-serve}

abbrev services : Services (Unit {0})
services = record {
  hub = none;
  socket = none;
  is_macos = true;
  pasted = some (104 ∷ 105 ∷ [], true);
  copies = λ t. some true;
  from_utf8 = λ bs. some bs;
  node_id = text "dot:node:v1:00";
  message = λ f. [];
}

-- Requests as frames: the empty frame asks for the clipboard.
abbrev requests : Codec (ServiceRequest (Unit {0}))
requests = record { to_vec = λ r. none; from_slice = λ bs. some ServiceRequest.clipboard_get }

abbrev connection : Connection services
connection = record { handshakes = true; certificate = some (7 ∷ []); sends = 0 ∷ 0 ∷ 0 ∷ 0 ∷ [] }

-- The phone was not granted the clipboard.
refused_clipboard : (serve services registries requests dir.peers connection).1 ≡ []
unfolding serve serve_request respond find_peer load read_to_end read_message read_exact authorize
    granted validate_service
refused_clipboard = refl

serve_called_example :
    AtMostOne
      (IsEntitled services registries requests dir.peers connection)
      (serve services registries requests dir.peers connection).1
serve_called_example = serve_called services registries requests dir.peers connection

only_phone :
    (old : List Peer)
    → load registries dir.peers ≡ ok old
    → All (λ p. certified (7 ∷ []) p ≡ true → named (text "phone") p ≡ true) old
unfolding load read_to_end
only_phone old e = let same : old ≡ phone ∷ [] = ground arith in rw same (λ c. refl, tt)

revoke-serve_example :
    ((serve services registries requests
        (revoke identities registries tls works (text "phone") dir).1.peers
        connection).1
      ≡ [])
    × ((response : ServiceResponse (Unit {0}))
        → (serve services registries requests
            (revoke identities registries tls works (text "phone") dir).1.peers
            connection).0
          ≢ ok response)
unfolding revoke store save load read_to_end
revoke-serve_example =
    revoke-serve services identities registries requests tls works (text "phone") (7 ∷ []) dir
      connection registries_read only_phone refl refl
