-- ===== src/Node/Service.antt =====
-- `serve` of crates/node/src/main.rs, with `clipboard_get`, `clipboard_set` and the admission of a
-- connection: what a request of a connected device comes to, against the registry as it is then. TLS,
-- the hub, the socket of the session and the programs of the clipboard are parameters. The deadline of
-- a connection is left out: a connection that meets it is one that gives no request.
pub mod Guarded
mod Tests
use dot_terminal.Prelude.{
  ℕ, ◌+◌, ◌-◌, Bool, true, false, not, ◌&&◌, Option, none, some, List, [], ◌∷◌, length, take, leb,
  ltb, if◌then◌else◌, Text, Bytes, list_eq, Result, ok, err,
}
use dot_terminal.Protocol.{Request, Response, ServiceRequest, ServiceResponse, max_clipboard}
use dot_terminal.Protocol.Framing.{IoError, read_message}
use dot_terminal.Node.{Peer, Refusal, authorize}
use dot_terminal.Node.Registry.{Tls, certified, tls_config}
use dot_terminal.Node.StateFile.{Codec, Slot, Identity, load, read_to_end}

-- What an error response says.
pub data Failure : Type 0 where
  refused : Refusal → Failure
  no_hub no_socket : Failure
  hub_failed : Text → Failure
  no_clipboard not_run clipboard_limit clipboard_unavailable not_utf8 : Failure

-- Why `serve` ends without a response.
pub data ServeError : Type 0 where
  no_handshake no_identity bad_frame no_registry not_pinned no_session : ServeError

-- What is done for a request outside the node.
pub data Call (Json : Type 0) : Type 0 where
  ask_hub : Text → Option Json → Call Json
  forward : Request → Call Json
  paste : Call Json
  copy : Text → Call Json

-- The services of a node. `hub` and `socket` are there if they are configured. `pasted`: what
-- `pbpaste` prints and whether it succeeds, if it can be run; `copies`: whether `pbcopy` succeeds, if
-- it can be run and takes the text.
-- `answers`: the response of the session, if it gives one.
pub record Services (Json : Type 0) : Type 0 where
  pub hub : Option (Text → Option Json → Result Text (ℕ × Json))
  pub socket : Option (Request → Option Response)
  pub is_macos : Bool
  pub pasted : Option (Bytes × Bool)
  pub copies : Text → Option Bool
  pub from_utf8 : Bytes → Option Text
  pub node_id : Text
  pub message : Failure → Text

-- How the handling of a request ended: the response that was written, if one was.
abbrev pub Served : Type 0 → Type 0
Served Json = Result ServeError (ServiceResponse Json) × List (Call Json)

-- `find(|p| p.cert == cert)`
unfoldable pub find_peer : Bytes → List Peer → Option Peer
find_peer cert [] = none
find_peer cert (p ∷ ps) = if certified cert p then some p else find_peer cert ps

module _ {Json : Type 0} (s : Services Json) where
  -- What was read of the output of `pbpaste`, at most one byte more than the limit.
  unfoldable pub clipboard_get : Result Failure Text
  clipboard_get = if not s.is_macos then err no_clipboard else elim s.pasted [
    | none ↦ err not_run
    | some (bytes, success) ↦
        if ltb max_clipboard (length (read_to_end 65537 bytes))
        then err clipboard_limit
        else if not success
        then err clipboard_unavailable
        else elim (s.from_utf8 (read_to_end 65537 bytes)) [ none ↦ err not_utf8 | some t ↦ ok t ]
  ]

  unfoldable pub clipboard_set : Text → Result Failure (Unit {0})
  clipboard_set t = if not s.is_macos then err no_clipboard else elim (s.copies t) [
    | none ↦ err not_run
    | some success ↦ if success then ok tt else err clipboard_unavailable
  ]

  abbrev pub failed : Failure → ServiceResponse Json
  failed f = ServiceResponse.error (s.message f)

  unfoldable pub ask : Text → Option Json → Served Json
  ask path body = elim s.hub [
    | none ↦ (ok (failed no_hub), [])
    | some call ↦ (
      elim (call path body) [
        | ok (status, answer) ↦ ok (ServiceResponse.workspace status answer)
        | err e ↦ ok (failed (hub_failed e))
      ],
      ask_hub path body ∷ [],
    )
  ]

  unfoldable pub forward_request : Request → Served Json
  forward_request request = elim s.socket [
    | none ↦ (ok (failed no_socket), [])
    | some session ↦ (
      elim (session request) [
        | none ↦ err no_session
        | some response ↦ ok (ServiceResponse.terminal response)
      ],
      forward request ∷ [],
    )
  ]

  -- The branches of `serve` for a request that is authorized.
  unfoldable pub granted_service : ServiceRequest Json → Served Json
  unfolding ask forward_request clipboard_get clipboard_set
  granted_service (ServiceRequest.workspace path body) = ask path body
  granted_service ServiceRequest.identity = (ok (ServiceResponse.identity s.node_id), [])
  granted_service (ServiceRequest.terminal request) = forward_request request
  granted_service ServiceRequest.clipboard_get = (
    elim clipboard_get [ ok t ↦ ok (ServiceResponse.clipboard t) | err e ↦ ok (failed e) ],
    if s.is_macos then paste ∷ [] else [],
  )
  granted_service (ServiceRequest.clipboard_set t) = (
    elim (clipboard_set t) [ ok u ↦ ok ServiceResponse.ack | err e ↦ ok (failed e) ],
    if s.is_macos then copy t ∷ [] else [],
  )

  unfoldable pub respond : Peer → ServiceRequest Json → Served Json
  respond peer request = elim (authorize peer request) [
    | err e ↦ (ok (failed (refused e)), [])
    | ok u ↦ granted_service request
  ]

  -- A connection: whether the handshake ends, the certificate of the client, and what it sends.
  pub record Connection : Type 0 where
    pub handshakes : Bool
    pub certificate : Option Bytes
    pub sends : Bytes

  module _ (registries : Codec (List Peer)) (requests : Codec (ServiceRequest Json)) where
    -- What `serve` does with a request that was read; the registry is loaded for it anew.
    unfoldable pub serve_request : Slot → Bytes → ServiceRequest Json → Served Json
    serve_request registry cert request = elim (load registries registry) [
      | err e ↦ (err no_registry, [])
      | ok peers ↦ elim (find_peer cert peers) [
        | none ↦ (err not_pinned, [])
        | some peer ↦ respond peer request
      ]
    ]

    unfoldable pub serve : Slot → Connection → Served Json
    serve registry c = if not c.handshakes then (err no_handshake, []) else elim c.certificate [
      | none ↦ (err no_identity, [])
      | some cert ↦ elim (read_message requests.to_vec requests.from_slice c.sends).0 [
        | err e ↦ (err bad_frame, [])
        | ok request ↦ serve_request registry cert request
      ]
    ]

-- `fetch_add` and `fetch_sub` on the number of the connections, for one that comes in: it is served
-- under the certificates that the registry pins then, or dropped.
unfoldable pub admit : Codec (List Peer) → Tls → Identity → Slot → ℕ → Option (List Bytes) × ℕ
admit registries tls identity registry count =
    if leb 16 count then (none, count) else elim (load registries registry) [
      | err e ↦ (none, count)
      | ok peers ↦ elim (tls_config tls identity peers) [
        | err e ↦ (none, count)
        | ok config ↦ (some config, count + 1)
      ]
    ]
