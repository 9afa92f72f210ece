-- ===== src/Node/Workspace/Granted.antt =====
-- What stands behind a request that a paired workspace is allowed: `allowed` of
-- crates/node/src/workspace.rs.
use dot_terminal.Prelude.{
  ◌≤◌, ◌≡◌, arith, true, some, List, [], ◌∷◌, length, Text, Bytes, text, list_eq, list_eq_iff, ok,
  Option-cases, Result-cases, was_ok, was_err, Bool-cases, inl, inr,
}
use dot_terminal.Protocol.{Operation, validate, version}
use dot_terminal.Protocol.Accepted.{IsWithinLimits, validate_iff}
use dot_terminal.Node.Workspace.{
  Values, identifier, split, route_of, allowed_label, allowed_operation, allowed_request,
  allowed_route, allowed_session, allowed, is_empty_object, validated,
}

-- An operation that a workspace may ask for, apart from the code: neither a stop nor a subscription,
-- and within the limits of the protocol.
abbrev pub IsPolled : Operation → Type 0
IsPolled Operation.stop = ⊥
IsPolled (Operation.subscribe after) = ⊥
IsPolled op = IsWithinLimits op

module _ {Json : Type 0} (json : Values Json) where
  validated_ok :
      (op : Operation)
      → validated json (validate (record { version = version; operation = op })) ≡ ok tt
      → IsWithinLimits op
  validated_ok op e =
      elim (Result-cases (validate (record { version = version; operation = op }))) [
        | was_err x bad ↦ absurd (ground arith)
        | was_ok u good ↦ ((validate_iff (record { version = version; operation = op })).0 good).1
      ]

  allowed_operation_ok : (op : Operation) → allowed_operation json op ≡ ok tt → IsPolled op
  unfolding allowed_operation
  allowed_operation_ok Operation.stop e = absurd (ground arith)
  allowed_operation_ok (Operation.subscribe after) e = absurd (ground arith)
  allowed_operation_ok Operation.status e = tt
  allowed_operation_ok Operation.screen e = tt
  allowed_operation_ok (Operation.read after) e = tt
  allowed_operation_ok (Operation.read_frame after) e = tt
  allowed_operation_ok (Operation.acquire takeover) e = tt
  allowed_operation_ok (Operation.input g seq bs) e = validated_ok (Operation.input g seq bs) e
  allowed_operation_ok (Operation.resize g cols rows) e =
      validated_ok (Operation.resize g cols rows) e
  allowed_operation_ok (Operation.release g) e = tt
  allowed_operation_ok (Operation.offer_handoff g) e = tt
  allowed_operation_ok (Operation.accept_handoff ticket) e =
      validated_ok (Operation.accept_handoff ticket) e
  allowed_operation_ok (Operation.cancel_handoff g) e = tt
  allowed_operation_ok (Operation.check_control g) e = tt
  allowed_operation_ok (Operation.hello view label kind) e = tt
  allowed_operation_ok (Operation.acquire_as view takeover) e = tt

  -- A request to a session that is let through.
  pub record IsGranted (v : Json) : Type 0 where
    pub bytes : Bytes
    pub operation : Operation
    pub encodes : json.to_vec v ≡ some bytes
    pub small : length bytes ≤ 131072
    pub means : json.from_value v ≡ some operation
    pub polled : IsPolled operation

  allowed_request_ok : (v : Json) → allowed_request json v ≡ ok tt → IsGranted v
  unfolding allowed_request
  allowed_request_ok v e = elim (Option-cases (json.to_vec v)) [
    | inl bad ↦ absurd (ground arith)
    | inr (bytes, encodes) ↦ elim (Option-cases (json.from_value v)) [
      | inl bad ↦ absurd (ground arith)
      | inr (operation, means) ↦ record {
        bytes = bytes;
        operation = operation;
        encodes = encodes;
        small = ground arith;
        means = means;
        polled = allowed_operation_ok operation (ground arith);
      }
    ]
  ]

  -- What a body may be posted to.
  pub data Posted (path : Text) (v : Json) : Type 0 where
    labels : path ≡ text "session-labels" → allowed_label json v ≡ ok tt → Posted path v
    creates : route_of (split path) ≡ some [] → is_empty_object json v ≡ true → Posted path v
    asks :
        (id : Text)
        → route_of (split path) ≡ some (id ∷ [])
        → identifier id ≡ true
        → IsGranted v
        → Posted path v

  allowed_route_ok :
      (path : Text) (route : List Text) (v : Json)
      → route_of (split path) ≡ some route
      → allowed_route json route (some v) ≡ ok tt
      → Posted path v
  unfolding allowed_route
  allowed_route_ok path [] v r e = creates r (ground arith)
  allowed_route_ok path (id ∷ []) v r e = elim (Bool-cases (identifier id)) [
    | inr bad ↦ absurd (ground arith)
    | inl good ↦ asks id r good (allowed_request_ok v (ground arith))
  ]
  allowed_route_ok path (id ∷ more ∷ rest) v r e = absurd (ground arith)

  -- A body that a workspace may post is a label that is allowed, or an empty object that creates a
  -- session, or a request to one session with an allowed identifier, of at most 131072 bytes, that
  -- is an operation within the limits of the protocol and neither stops nor subscribes.
  pub allowed_ok : (path : Text) (v : Json) → allowed json path (some v) ≡ ok tt → Posted path v
  unfolding allowed allowed_session
  allowed_ok path v e = elim (Bool-cases (list_eq path (text "session-labels"))) [
    | inl same ↦ labels ((list_eq_iff path (text "session-labels")).0 same) (ground arith)
    | inr other ↦ elim (Option-cases (route_of (split path))) [
      | inl bad ↦ absurd (ground arith)
      | inr (route, found) ↦ allowed_route_ok path route v found (ground arith)
    ]
  ]
