-- ===== src/Desktop/Gateway/Reached.antt =====
-- What of a request of the browser reaches a keeper: `boundary`, `operation` and `rpc` of
-- crates/desktop/src/main.rs together.
use dot_terminal.Prelude.{
  AtMostOne, no_element, one_element, starts_with, ends_with, ◌≡◌, inl, inr, was_ok, was_err, refl,
  ap, ◌∙◌, arith, true, false, ◌&&◌, Option, none, some, List, [], ◌∷◌, Text, text, ok, ◌++◌, not,
  ◌==◌, Bool-cases, Option-cases, Result-cases,
}
use dot_terminal.Protocol.{Operation, Request, Response, validate}
use dot_terminal.Node.{is_stop}
use dot_terminal.Desktop.Vault.Api.{is_session}
use dot_terminal.Desktop.Devices.{strip_prefix}
use dot_terminal.Desktop.Gateway.{
  Head, App, Passed, forbidden, unauthorized, passed, is_doorbell, session_path, is_subscribe,
  Asked, Answered, not_routed, request_of, is_own, has_token, boundary, rpc, operation,
  post_operation,
}

-- What was written to keepers on the way to an answer.
abbrev pub asked_of : {A : Type 0} → Option (Passed (A × List Asked)) → List Asked
asked_of none = []
asked_of (some forbidden) = []
asked_of (some unauthorized) = []
asked_of (some (passed (answer, asked))) = asked

-- What stands behind a request to the session `id` that was written to a keeper.
pub record IsAsked (app : App) (id : Text) (op : Operation) (a : Asked) : Type 0 where
  pub request : a.request ≡ request_of op
  pub valid : validate (request_of op) ≡ ok tt
  pub session : is_session id ≡ true
  pub socket : session_path app.dir id ≡ some a.path
  pub kept : (app.attach_only && is_stop op) ≡ false
  pub no_stream : is_subscribe op ≡ false

-- What the boundary saw of a request that it let through with the token.
pub record IsTrusted (app : App) (h : Head) : Type 0 where
  pub host : Text
  pub at : strip_prefix (text "http://") app.origin ≡ some host
  pub own : is_own app host h ≡ true
  pub token : has_token app h ≡ true

session_path_lem : (dir id path : Text) → session_path dir id ≡ some path → is_session id ≡ true
unfolding session_path
session_path_lem dir id path e = elim (Bool-cases (is_session id)) [
  | inl good ↦ good
  | inr bad ↦ absurd (ground arith)
]

-- The word that stands in the place of an identifier is none.
doorbell_no_session : (id : Text) → id ≡ text "doorbell" → is_session id ≡ true → ⊥
doorbell_no_session id same e =
    let none_such : is_session (text "doorbell") ≡ false = refl in
    let it : is_session id ≡ false = ap is_session same ∙ none_such in absurd (ground arith)

starts_with-append : (p q t : Text) → starts_with (p ++ q) t ≡ true → starts_with p t ≡ true
starts_with-append [] q t e = refl
starts_with-append (c ∷ p) q [] e = absurd (ground arith)
starts_with-append (c ∷ p) q (d ∷ t) e = elim (Bool-cases (c == d)) [
  | inr bad ↦ absurd (ground arith)
  | inl same ↦ let ih = starts_with-append p q t in ground arith
]

-- What a boundary lets through, or that nothing was asked behind it.
data Judged (app : App) (h : Head) {A : Type 0} (next : A × List Asked) : Type 0 where
  stopped : asked_of (boundary app h next) ≡ [] → Judged app h next
  let_through :
      asked_of (boundary app h next) ≡ next.1
      → (has_token app h ≡ false
          → starts_with (text "/api/") h.path ≡ true
          → ends_with (text "/doorbell") h.path ≡ true)
      → (host : Text) → strip_prefix (text "http://") app.origin ≡ some host
      → is_own app host h ≡ true
      → Judged app h next

boundary-Judged : (app : App) (h : Head) {A : Type 0} (next : A × List Asked) → Judged app h next
unfolding boundary is_doorbell
boundary-Judged app h next = elim (Option-cases (strip_prefix (text "http://") app.origin)) [
  | inl bad ↦ stopped (ground arith)
  | inr (host, at) ↦ elim (Bool-cases (is_own app host h)) [
    | inr bad ↦ stopped (ground arith)
    | inl own ↦ elim (Bool-cases (has_token app h)) [
      | inl token ↦ let_through (ground arith) (λ missing api. absurd (ground arith)) host at own
      | inr without ↦
          elim (Bool-cases (starts_with (text "/api/") h.path && not (is_doorbell h.path))) [
            | inl bad ↦ stopped (ground arith)
            | inr fine ↦ let_through (ground arith) (λ e api. ground arith) host at own
          ]
    ]
  ]
]

module _ (app : App) {Json : Type 0} (connect : Text → Option (Request → Option Response))
    (to_value : Response → Option Json) where
  -- A request that `rpc` wrote.
  pub record IsWritten (id : Text) (op : Operation) (a : Asked) : Type 0 where
    pub request : a.request ≡ request_of op
    pub valid : validate (request_of op) ≡ ok tt
    pub session : is_session id ≡ true
    pub socket : session_path app.dir id ≡ some a.path

  rpc-Asked :
      (id : Text) (op : Operation) → AtMostOne (IsWritten id op) (rpc app connect to_value id op).1
  unfolding rpc
  rpc-Asked id op = elim (Result-cases (validate (request_of op))) [
    | was_err e bad ↦ no_element (ground arith)
    | was_ok u valid ↦ elim (Option-cases (session_path app.dir id)) [
      | inl bad ↦ no_element (ground arith)
      | inr (path, socket) ↦ elim (Option-cases (connect path)) [
        | inl bad ↦ no_element (ground arith)
        | inr (keeper, there) ↦
            one_element (record { path = path; request = request_of op }) (ground arith)
              (record {
                request = refl;
                valid = valid;
                session = session_path_lem app.dir id path socket;
                socket = socket;
              })
      ]
    ]
  ]

  operation-Asked :
      (id : Text) (op : Operation)
      → AtMostOne (IsAsked app id op) (operation app connect to_value id op).1
  unfolding operation
  operation-Asked id op = elim (Bool-cases (app.attach_only && is_stop op)) [
    | inl bad ↦ no_element (ground arith)
    | inr kept ↦ elim (Bool-cases (is_subscribe op)) [
      | inl bad ↦ no_element (ground arith)
      | inr once ↦ elim (rpc-Asked id op) [
        | no_element e ↦ no_element (ground arith)
        | one_element a e w ↦ one_element a (ground arith) (record {
          request = w.request;
          valid = w.valid;
          session = w.session;
          socket = w.socket;
          kept = kept;
          no_stream = once;
        })
      ]
    ]
  ]

  -- A request behind the boundary that was written to a keeper.
  pub record IsReached (route : Text → Option Text) (h : Head) (op : Operation) (a : Asked)
      : Type 0 where
    pub trusted : IsTrusted app h
    pub id : Text
    pub routed : route h.path ≡ some id
    pub asked : IsAsked app id op a

  -- A request of the browser to a session writes nothing to a keeper, or one request: to the socket of
  -- the session whose identifier, of 32 hexadecimal digits, the router found in the path, with the
  -- operation, which is within the limits of the protocol, no subscription, and no stop if the gateway
  -- is attach-only. The request of the browser then had the host and no origin but that of the
  -- gateway, and its token; this holds though the boundary does not ask for the token on a path that
  -- ends as that of a doorbell, if the router finds on such a path, below that of the sessions, only
  -- the identifier `doorbell`.
  pub post_operation-Reached :
      (route : Text → Option Text) (h : Head) (op : Operation)
      → ((path id : Text)
          → route path ≡ some id
          → (starts_with (text "/api/sessions/") path ≡ true)
            × (ends_with (text "/doorbell") path ≡ true → id ≡ text "doorbell"))
      → AtMostOne (IsReached route h op) (asked_of (post_operation app connect to_value route h op))
  unfolding post_operation
  post_operation-Reached route h op routes = elim (Option-cases (route h.path)) [
    | inl bad ↦ elim (boundary-Judged app h {A = Answered Json} (not_routed, [])) [
      | stopped e ↦ no_element (rw bad e)
      | let_through e free host at own ↦ no_element (rw bad e)
    ]
    | inr (id, routed) ↦ elim (boundary-Judged app h (operation app connect to_value id op)) [
      | stopped e ↦ no_element (rw routed e)
      | let_through e free host at own ↦ elim (operation-Asked id op) [
        | no_element nothing ↦ no_element (rw routed (e ∙ nothing))
        | one_element a one i ↦ elim (Bool-cases (has_token app h)) [
          | inr bad ↦
              let (below, only) = routes h.path id routed in
              let api = starts_with-append (text "/api/") (text "sessions/") h.path below in
              absurd (doorbell_no_session id (only (free bad api)) i.session)
          | inl token ↦ one_element a (rw routed (e ∙ one)) (record {
            trusted = record { host = host; at = at; own = own; token = token };
            id = id;
            routed = routed;
            asked = i;
          })
        ]
      ]
    ]
  ]
