-- ===== src/Node/Service/Guarded.antt =====
-- What reaches the services of a node: `serve` of crates/node/src/main.rs.
use dot_terminal.Prelude.{
  AtMostOne, no_element, one_element, ◌≡◌, ◌≢◌, refl, arith, true, none, some, List, [], ◌∷◌, All,
  Bytes, Text, ok, Option-cases, Bool-cases, inl, inr, Result-cases, was_ok, was_err,
}
use dot_terminal.Protocol.{ServiceRequest, ServiceResponse}
use dot_terminal.Protocol.Framing.{read_message}
use dot_terminal.Node.{Peer, authorize, authorize_iff, MayAsk}
use dot_terminal.Node.Registry.{Dir, Tls, certified, named, without, revoke}
use dot_terminal.Node.StateFile.{Codec, Slot, Io, Identity, load}
use dot_terminal.Node.Registry.Changes.{Reads}
use dot_terminal.Node.Registry.Runs.{revoke_ok}
use dot_terminal.Node.Service.{
  Call, ask_hub, forward, paste, copy, Services, find_peer, granted_service, respond, Connection,
  serve_request, serve,
}

-- The call is the one that the request asks for.
abbrev pub Carries : {Json : Type 0} → ServiceRequest Json → Call Json → Type 0
Carries (ServiceRequest.workspace path body) call = call ≡ ask_hub path body
Carries (ServiceRequest.terminal request) call = call ≡ forward request
Carries ServiceRequest.clipboard_get call = call ≡ paste
Carries (ServiceRequest.clipboard_set t) call = call ≡ copy t
Carries ServiceRequest.identity call = ⊥

module _ {Json : Type 0} (s : Services Json) where
  granted_service-Carries :
      (request : ServiceRequest Json) → AtMostOne (Carries request) (granted_service s request).1
  unfolding granted_service
  granted_service-Carries (ServiceRequest.workspace path body) = elim (Option-cases s.hub) [
    | inl lacks ↦ no_element (ground arith)
    | inr (hub, there) ↦ one_element (ask_hub path body) (ground arith) refl
  ]
  granted_service-Carries (ServiceRequest.terminal request) = elim (Option-cases s.socket) [
    | inl lacks ↦ no_element (ground arith)
    | inr (hub, there) ↦ one_element (forward request) (ground arith) refl
  ]
  granted_service-Carries ServiceRequest.identity = no_element refl
  granted_service-Carries ServiceRequest.clipboard_get = elim (Bool-cases s.is_macos) [
    | inl mac ↦ one_element paste (ground arith) refl
    | inr other ↦ no_element (ground arith)
  ]
  granted_service-Carries (ServiceRequest.clipboard_set t) = elim (Bool-cases s.is_macos) [
    | inl mac ↦ one_element (copy t) (ground arith) refl
    | inr other ↦ no_element (ground arith)
  ]

  module _ (registries : Codec (List Peer)) (requests : Codec (ServiceRequest Json)) where
    -- What stands behind a call for a connection.
    pub record IsEntitled (registry : Slot) (c : Connection s) (call : Call Json) : Type 0 where
      pub cert : Bytes
      pub request : ServiceRequest Json
      pub peers : List Peer
      pub peer : Peer
      pub handshake : c.handshakes ≡ true
      pub presented : c.certificate ≡ some cert
      pub sent : (read_message requests.to_vec requests.from_slice c.sends).0 ≡ ok request
      pub loaded : load registries registry ≡ ok peers
      pub found : find_peer cert peers ≡ some peer
      pub granted : MayAsk peer request
      pub carried : Carries request call

    -- The services are called at most once for a connection, and only with what was asked for: after
    -- the handshake, by a client whose certificate a peer has in the registry as it is when the
    -- request was read, the first one that has it, which was granted the service, within the limits of
    -- the protocol and not to stop a session.
    pub serve_called :
        (registry : Slot) (c : Connection s)
        → AtMostOne (IsEntitled registry c) (serve s registries requests registry c).1
    unfolding serve serve_request respond
    serve_called registry c = elim (Bool-cases c.handshakes) [
      | inr bad ↦ no_element (ground arith)
      | inl handshake ↦ elim (Option-cases c.certificate) [
        | inl bad ↦ no_element (ground arith)
        | inr (cert, presented) ↦
            elim (Result-cases (read_message requests.to_vec requests.from_slice c.sends).0) [
              | was_err e bad ↦ no_element (ground arith)
              | was_ok request sent ↦ elim (Result-cases (load registries registry)) [
                | was_err e bad ↦ no_element (ground arith)
                | was_ok peers loaded ↦ elim (Option-cases (find_peer cert peers)) [
                  | inl bad ↦ no_element (ground arith)
                  | inr (peer, found) ↦ elim (Result-cases (authorize peer request)) [
                    | was_err e bad ↦ no_element (ground arith)
                    | was_ok u granted ↦ elim (granted_service-Carries request) [
                      | no_element none_made ↦ no_element (ground arith)
                      | one_element call made carried ↦ one_element call (ground arith) (record {
                        cert = cert;
                        request = request;
                        peers = peers;
                        peer = peer;
                        handshake = handshake;
                        presented = presented;
                        sent = sent;
                        loaded = loaded;
                        found = found;
                        granted = (authorize_iff peer request).0 granted;
                        carried = carried;
                      })
                    ]
                  ]
                ]
              ]
            ]
      ]
    ]

find_peer-without :
    (cert : Bytes) (name : Text) (ps : List Peer)
    → All (λ p. certified cert p ≡ true → named name p ≡ true) ps
    → find_peer cert (without name ps) ≡ none
unfolding find_peer
find_peer-without cert name [] a = refl
find_peer-without cert name (p ∷ ps) a = elim (Bool-cases (named name p)) [
  | inl e ↦ rw e (find_peer-without cert name ps a.1)
  | inr e ↦ elim (Bool-cases (certified cert p)) [
    | inl same ↦ absurd (let h = a.0 same in ground arith)
    | inr other ↦ ground (arith, find_peer-without cert name ps a.1)
  ]
]

module _ {Json : Type 0} (s : Services Json) (identities : Codec Identity)
    (registries : Codec (List Peer)) (requests : Codec (ServiceRequest Json)) (tls : Tls) where
  -- A connection whose certificate only peers of one name had is, on the registry that a successful
  -- revocation of that name left, not served: it gets no response and no service is called, with
  -- JSON read as it was written.
  pub revoke-serve :
      (io : Io) (name : Text) (cert : Bytes) (d : Dir) (c : Connection s)
      → Reads registries
      → ((old : List Peer)
          → load registries d.peers ≡ ok old
          → All (λ p. certified cert p ≡ true → named name p ≡ true) old)
      → (revoke identities registries tls io name d).0 ≡ ok tt
      → c.certificate ≡ some cert
      → ((serve s registries requests (revoke identities registries tls io name d).1.peers c).1
          ≡ [])
        × ((response : ServiceResponse Json)
            → (serve s registries requests (revoke identities registries tls io name d).1.peers c).0
              ≢ ok response)
  unfolding serve serve_request
  revoke-serve io name cert d c reads only revoked presented =
      let after = (revoke identities registries tls io name d).1.peers in
      elim (Result-cases (load registries after)) [
        | was_err e bad ↦ (ground arith, λ response e'. ground arith)
        | was_ok peers loaded ↦
            let (old, was, now) =
              revoke_ok identities registries tls io name d peers reads revoked loaded in
            let lost : find_peer cert peers ≡ none =
              rw now (find_peer-without cert name old (only old was)) in
            (ground arith, λ response e'. ground arith)
      ]
