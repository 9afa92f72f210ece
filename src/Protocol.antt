-- ===== src/Protocol.antt =====
-- crates/protocol/src/lib.rs: the requests and responses of the local control protocol, and the checks
-- on what a peer sends.
pub mod Framing
pub mod Accepted
mod Tests
use dot_terminal.Prelude.{
  ℕ, Bool, true, false, not, ◌||◌, ◌&&◌, Option, List, length, all, any, is_empty, ltb, ◌==◌,
  if◌then◌else◌, Text, Bytes, utf8, is_ascii_hexdigit, is_ascii_alphanumeric, Result, ok, err, [],
  ◌∷◌,
}
use dot_terminal.Message.{
  Message, unsupported_version, invalid_ticket, input_limit, invalid_dimensions, clipboard_limit,
  invalid_invitation, invalid_enrollment,
}

abbrev pub version : ℕ
version = 1

abbrev pub max_frame : ℕ
max_frame = 262144

abbrev pub max_input : ℕ
max_input = 16384

abbrev pub max_clipboard : ℕ
max_clipboard = 65536

pub data Operation : Type 0 where
  status : Operation
  screen : Operation
  read : ℕ → Operation
  read_frame : ℕ → Operation
  acquire : Bool → Operation
  -- generation, sequence, bytes
  input : ℕ → ℕ → Bytes → Operation
  -- generation, columns, rows
  resize : ℕ → ℕ → ℕ → Operation
  release : ℕ → Operation
  offer_handoff : ℕ → Operation
  accept_handoff : Text → Operation
  cancel_handoff : ℕ → Operation
  check_control : ℕ → Operation
  stop : Operation
  -- view, label, kind
  hello : Text → Text → Text → Operation
  subscribe : ℕ → Operation
  -- view, takeover
  acquire_as : Text → Bool → Operation

pub record Request : Type 0 where
  pub version : ℕ
  pub operation : Operation

pub record PresenceView : Type 0 where
  pub view : Text
  pub label : Text
  pub kind : Text
  pub age_ms : ℕ

pub record PresenceAnswer : Type 0 where
  pub views : List PresenceView
  pub controller : Option Text
  pub controller_known : Bool
  pub controller_idle_ms : Option ℕ

pub record ScreenAnswer : Type 0 where
  pub cols : ℕ
  pub rows : ℕ
  pub lines : List Text
  pub cursor_col : ℕ
  pub cursor_row : ℕ
  pub exited : Bool

pub record StatusAnswer : Type 0 where
  pub version : ℕ
  pub session : Text
  pub pid : Option ℕ
  pub exited : Bool

pub record OutputAnswer : Type 0 where
  pub start : ℕ
  pub next : ℕ
  pub gap : Bool
  pub content : Bytes
  pub exited : Bool

pub record FrameAnswer : Type 0 where
  pub output : OutputAnswer
  pub cols : ℕ
  pub rows : ℕ
  pub geometry_epoch : ℕ
  pub incarnation : Text

pub data Response : Type 0 where
  presence : PresenceAnswer → Response
  screen : ScreenAnswer → Response
  status : StatusAnswer → Response
  output : OutputAnswer → Response
  frame : FrameAnswer → Response
  -- ticket, seconds
  handoff : Text → ℕ → Response
  lease : ℕ → Response
  ack : Bool → Response
  error : Message → Response

-- `Json` stands for `serde_json::Value`.
pub data ServiceRequest (Json : Type 0) : Type 0 where
  terminal : Request → ServiceRequest Json
  clipboard_get : ServiceRequest Json
  clipboard_set : Text → ServiceRequest Json
  identity : ServiceRequest Json
  workspace : Text → Option Json → ServiceRequest Json

-- `message` is the text of any error.
pub data ServiceResponse (Json : Type 0) : Type 0 where
  terminal : Response → ServiceResponse Json
  clipboard : Text → ServiceResponse Json
  identity : Text → ServiceResponse Json
  -- status, body
  workspace : ℕ → Json → ServiceResponse Json
  ack : ServiceResponse Json
  error : Text → ServiceResponse Json

pub record PairInvitation : Type 0 where
  pub version : ℕ
  pub host : Text
  pub port : ℕ
  pub service_port : ℕ
  pub certificate : Text
  pub token : Text
  pub expires_at : ℕ
  pub terminal : Bool
  pub clipboard_read : Bool
  pub clipboard_write : Bool

pub record PairJoin : Type 0 where
  pub version : ℕ
  pub token : Text
  pub certificate : Bytes
  pub signature : Bytes

-- 64 hexadecimal digits.
unfoldable pub is_token : Text → Bool
is_token t = length (utf8 t) == 64 && all is_ascii_hexdigit (utf8 t)

unfoldable pub bad_operation : Operation → Option Message
bad_operation (accept_handoff ticket) =
    if not (is_token ticket) then Option.some invalid_ticket else Option.none
bad_operation (input g seq bs) =
    if ltb max_input (length bs) then Option.some input_limit else Option.none
bad_operation (resize g cols rows) =
    if cols == 0 || rows == 0 || ltb 240 cols || ltb 100 rows
    then Option.some invalid_dimensions
    else Option.none
bad_operation _ = Option.none

unfoldable pub validate : Request → Result Message (Unit {0})
unfolding bad_operation
validate req =
    if not (req.version == version)
    then err unsupported_version
    else elim (bad_operation req.operation) [ Option.some e ↦ err e | Option.none ↦ ok tt ]

unfoldable pub validate_service : {Json : Type 0} → ServiceRequest Json → Result Message (Unit {0})
validate_service (terminal request) = validate request
validate_service (clipboard_set t) =
    if ltb max_clipboard (length (utf8 t)) then err clipboard_limit else ok tt
validate_service _ = ok tt

unfoldable pub validate_invitation : PairInvitation → Result Message (Unit {0})
validate_invitation i =
    if not (i.version == 1)
      || is_empty (utf8 i.host)
      || ltb 253 (length (utf8 i.host))
      || not (all (λ b. is_ascii_alphanumeric b || any (◌==◌ b) (46 ∷ 45 ∷ 58 ∷ [])) (utf8 i.host))
      || i.port == 0
      || i.service_port == 0
      || ltb 8192 (length (utf8 i.certificate))
      || not (is_token i.token)
    then err invalid_invitation
    else ok tt

unfoldable pub validate_join : PairJoin → Result Message (Unit {0})
validate_join i =
    if not (i.version == 1)
      || is_empty i.certificate
      || ltb 8192 (length i.certificate)
      || is_empty i.signature
      || ltb 128 (length i.signature)
      || not (is_token i.token)
    then err invalid_enrollment
    else ok tt
