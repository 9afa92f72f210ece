-- ===== src/Desktop/Gateway.antt =====
-- crates/desktop/src/main.rs: the boundary that every request of the browser passes, the requests to a
-- local session behind it, and the start of a session. The router, the sockets of the keepers, UTF-8
-- and JSON are parameters. The headers that are set on a response are left out.
pub mod Reached
pub mod Views
pub mod Restored
pub mod Taken
mod Tests
use dot_terminal.Prelude.{
  starts_with, ends_with, ℕ, Bool, true, false, not, ◌&&◌, ◌||◌, Option, none, some, List, [], ◌∷◌,
  ◌++◌, if◌then◌else◌, Text, Bytes, text, utf8, list_eq, Result, ok, err,
}
use dot_terminal.Message.{Message}
use dot_terminal.Protocol.{Operation, Request, Response, version, validate}
use dot_terminal.Node.{is_stop}
use dot_terminal.Node.Invitation.{trim}
use dot_terminal.Desktop.Vault.Api.{is_session}
use dot_terminal.Desktop.Devices.{strip_prefix}

-- The head of a request: the header Host as `to_str` gives it, and the bytes of two others.
pub record Head : Type 0 where
  pub host : Option Text
  pub origin : Option Bytes
  pub authorization : Option Bytes
  pub path : Text

pub record App : Type 0 where
  pub attach_only : Bool
  pub token : Text
  pub origin : Text
  pub dir : Text

-- A refusal of the boundary, or what `next` gives.
pub data Passed (R : Type 0) : Type 0 where
  forbidden unauthorized : Passed R
  passed : R → Passed R

unfoldable pub is_doorbell : Text → Bool
is_doorbell path = starts_with (text "/api/sessions/") path && ends_with (text "/doorbell") path

unfoldable pub session_path : Text → Text → Option Text
session_path dir id =
    if not (is_session id) then none else some (dir ++ text "/" ++ id ++ text ".sock")

unfoldable pub is_subscribe : Operation → Bool
is_subscribe (Operation.subscribe after) = true
is_subscribe _ = false

-- Why `rpc` gives no response.
pub data RpcError : Type 0 where
  invalid : Message → RpcError
  invalid_session no_keeper no_response : RpcError

-- A request that was written to the socket at a path.
pub record Asked : Type 0 where
  pub path : Text
  pub request : Request

-- What a request to a session comes to.
pub data Answered (Json : Type 0) : Type 0 where
  answered : Json → Answered Json
  forbidden_stop subscribe_streams failed not_routed : Answered Json

pub data Created : Type 0 where
  created : Text → Created
  forbidden_create create_failed : Created

abbrev pub request_of : Operation → Request
request_of op = record { version = version; operation = op }

module _ (app : App) where
  unfoldable pub is_own : Text → Head → Bool
  is_own host h =
      elim h.host [ none ↦ false | some t ↦ list_eq t host ]
      && elim h.origin [ none ↦ true | some bytes ↦ list_eq bytes (utf8 app.origin) ]

  unfoldable pub has_token : Head → Bool
  has_token h = elim h.authorization [
    | none ↦ false
    | some bytes ↦ list_eq bytes (utf8 (text "Bearer " ++ app.token))
  ]

  -- There is no answer if the origin of the gateway is not of HTTP.
  unfoldable pub boundary : {R : Type 0} → Head → R → Option (Passed R)
  boundary h next = elim (strip_prefix (text "http://") app.origin) [
    | none ↦ none
    | some host ↦
        if not (is_own host h)
        then some forbidden
        else if (starts_with (text "/api/") h.path && not (is_doorbell h.path)) && not (has_token h)
        then some unauthorized
        else some (passed next)
  ]

  -- The output of the session program, if it was run: whether it succeeded, and what it printed.
  unfoldable pub create : (Bytes → Option Text) → Option (Bool × Bytes) → Created
  create from_utf8 output = if app.attach_only then forbidden_create else elim output [
    | none ↦ create_failed
    | some (success, printed) ↦ if not success then create_failed else elim (from_utf8 printed) [
      | none ↦ create_failed
      | some t ↦ if is_session (trim t) then created (trim t) else create_failed
    ]
  ]

  -- The keeper that listens at a path, if one does: its response to a request, if it gives one.
  module _ {Json : Type 0} (connect : Text → Option (Request → Option Response))
      (to_value : Response → Option Json) where
    unfoldable pub rpc : Text → Operation → Result RpcError Response × List Asked
    rpc id op = elim (validate (request_of op)) [
      | err e ↦ (err (invalid e), [])
      | ok u ↦ elim (session_path app.dir id) [
        | none ↦ (err invalid_session, [])
        | some path ↦ elim (connect path) [
          | none ↦ (err no_keeper, [])
          | some keeper ↦ (
            elim (keeper (request_of op)) [ none ↦ err no_response | some r ↦ ok r ],
            record { path = path; request = request_of op } ∷ [],
          )
        ]
      ]
    ]

    abbrev pub answer_of : Result RpcError Response → Answered Json
    answer_of (err e) = failed
    answer_of (ok r) = elim (to_value r) [ none ↦ failed | some v ↦ answered v ]

    unfoldable pub operation : Text → Operation → Answered Json × List Asked
    operation id op =
        if app.attach_only && is_stop op
        then (forbidden_stop, [])
        else if is_subscribe op
        then (subscribe_streams, [])
        else let (result, asked) = rpc id op in (answer_of result, asked)

    -- A request behind the boundary; `route` is the identifier in a path that the router gives to
    -- `operation`.
    unfoldable pub post_operation :
        (Text → Option Text) → Head → Operation → Option (Passed (Answered Json × List Asked))
    post_operation route h op =
        boundary h (elim (route h.path) [ none ↦ (not_routed, []) | some id ↦ operation id op ])
