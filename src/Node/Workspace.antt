-- ===== src/Node/Workspace.antt =====
-- crates/node/src/workspace.rs: what a paired workspace may ask of the hub. JSON values are a
-- parameter, with what the code reads of them.
pub mod Granted
use dot_terminal.Prelude.{
  ℕ, ◌≤◌, ◌≡◌, ◌≢◌, ◌↔◌, ◌⊎◌, refl, arith, Bool, true, false, not, ◌&&◌, ◌||◌, Option, none, some,
  List, [], ◌∷◌, length, any, all, is_empty, ltb, leb, ◌==◌, if◌then◌else◌, Text, Bytes, text, utf8,
  list_eq, is_ascii_alphanumeric, is_ascii_hexdigit, is_control, Result, ok, err, Option-cases,
  Result-cases, was_ok, was_err, Bool-cases, inl, inr,
}
use dot_terminal.Message.{Message}
use dot_terminal.Protocol.{Operation, stop, subscribe, validate, version, Request}
use dot_terminal.Protocol.Accepted.{IsWithinLimits, validate_iff}

-- What is read of a JSON value: its fields, its string, its text, and the operation that it is.
pub record Values (Json : Type 0) : Type 0 where
  pub as_object : Json → Option (List (Text × Json))
  pub as_str : Json → Option Text
  pub to_vec : Json → Option Bytes
  pub from_value : Json → Option Operation

pub data Denial : Type 0 where
  no_hub label_object_required invalid_label_fields invalid_label route_not_granted : Denial
  request_required unencodable request_limit unknown_operation : Denial
  stop_not_granted subscription_not_available : Denial
  invalid_operation : Message → Denial

-- `Hub::validate`: whether the address is a loopback address, and the capability.
unfoldable pub valid_hub : Bool → Text → Bool
valid_hub loopback capability =
    loopback && length (utf8 capability) == 64 && all is_ascii_hexdigit (utf8 capability)

unfoldable pub identifier : Text → Bool
identifier s =
    not (is_empty s)
    && leb (length (utf8 s)) 64
    && all (λ b. is_ascii_alphanumeric b || b == 45) (utf8 s)

-- `char::is_whitespace`
abbrev pub is_whitespace : ℕ → Bool
is_whitespace c =
    (leb 9 c && leb c 13)
    || c == 32
    || c == 133
    || c == 160
    || c == 5760
    || (leb 8192 c && leb c 8202)
    || c == 8232
    || c == 8233
    || c == 8239
    || c == 8287
    || c == 12288

-- `path.split('/')`
abbrev pub begin_with : ℕ → List Text → List Text
begin_with c [] = (c ∷ []) ∷ []
begin_with c (p ∷ ps) = (c ∷ p) ∷ ps

unfoldable pub split : Text → List Text
split [] = [] ∷ []
split (c ∷ cs) = let rest = split cs in if c == 47 then [] ∷ rest else begin_with c rest

-- The part of the path that names a session or all of them.
unfoldable pub device_route : List Text → Option (List Text)
device_route (device ∷ sessions ∷ rest) =
    if list_eq sessions (text "sessions") && identifier device then some rest else none
device_route _ = none

unfoldable pub route_of : List Text → Option (List Text)
unfolding device_route
route_of [] = none
route_of (head ∷ rest) =
    if list_eq head (text "sessions")
    then some rest
    else if list_eq head (text "devices")
    then device_route rest
    else none

module _ {Json : Type 0} (json : Values Json) where
  unfoldable pub field : Text → List (Text × Json) → Option Json
  field k [] = none
  field k ((j, v) ∷ o) = if list_eq j k then some v else field k o

  abbrev pub has_field : List (Text × Json) → Text → Bool
  has_field o k = elim (field k o) [ none ↦ false | some v ↦ true ]

  abbrev pub holds : (Text → Bool) → Option Json → Bool
  holds p none = false
  holds p (some v) = elim (json.as_str v) [ none ↦ false | some s ↦ p s ]

  unfoldable pub valid_name : Text → Bool
  valid_name n = not (all is_whitespace n) && leb (length (utf8 n)) 160 && not (any is_control n)

  unfoldable pub allowed_label : Json → Result Denial (Unit {0})
  allowed_label v = elim (json.as_object v) [
    | none ↦ err label_object_required
    | some o ↦
        if not (length o == 3)
          || not (all (has_field o) (text "device" ∷ text "id" ∷ text "name" ∷ []))
        then err invalid_label_fields
        else if not (all (λ k. holds identifier (field k o)) (text "device" ∷ text "id" ∷ []))
            || not (holds valid_name (field (text "name") o))
        then err invalid_label
        else ok tt
  ]

  abbrev pub validated : Result Message (Unit {0}) → Result Denial (Unit {0})
  validated (ok u) = ok tt
  validated (err e) = err (invalid_operation e)

  unfoldable pub allowed_operation : Operation → Result Denial (Unit {0})
  allowed_operation stop = err stop_not_granted
  allowed_operation (subscribe after) = err subscription_not_available
  allowed_operation operation =
      validated (validate (record { version = version; operation = operation }))

  -- The request to one session.
  unfoldable pub allowed_request : Json → Result Denial (Unit {0})
  unfolding allowed_operation
  allowed_request v = elim (json.to_vec v) [
    | none ↦ err unencodable
    | some bytes ↦
        if ltb 131072 (length bytes) then err request_limit else elim (json.from_value v) [
          | none ↦ err unknown_operation
          | some operation ↦ allowed_operation operation
        ]
  ]

  abbrev pub is_empty_object : Json → Bool
  is_empty_object v = elim (json.as_object v) [ none ↦ false | some o ↦ is_empty o ]

  unfoldable pub allowed_route : List Text → Option Json → Result Denial (Unit {0})
  allowed_route [] none = ok tt
  allowed_route [] (some v) = if is_empty_object v then ok tt else err route_not_granted
  allowed_route (id ∷ []) body =
      if identifier id
      then elim body [ none ↦ err request_required | some v ↦ allowed_request v ]
      else err route_not_granted
  allowed_route (id ∷ more ∷ rest) body = err route_not_granted

  unfoldable pub allowed_session : Text → Option Json → Result Denial (Unit {0})
  allowed_session path body = elim (route_of (split path)) [
    | none ↦ err route_not_granted
    | some route ↦ allowed_route route body
  ]

  abbrev pub is_none : Option Json → Bool
  is_none none = true
  is_none (some v) = false

  unfoldable pub allowed : Text → Option Json → Result Denial (Unit {0})
  allowed path body =
      if list_eq path (text "devices") && is_none body
      then ok tt
      else if list_eq path (text "session-labels")
      then elim body [ none ↦ ok tt | some v ↦ allowed_label v ]
      else allowed_session path body
