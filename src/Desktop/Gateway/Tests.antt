-- ===== src/Desktop/Gateway/Tests.antt =====
-- The theorems about the gateway at concrete inputs.
use dot_terminal.Prelude.{
  ◌⊎◌, AtMostOne, starts_with, ends_with, ◌≡◌, refl, arith, inl, inr, ap, ◌∙◌, true, false, Bool,
  Option, none, some, List, [], ◌∷◌, All, length, ◌≤◌, ℕ, if◌then◌else◌, list_eq, list_eq_iff,
  Bool-cases, Text, Bytes, text, utf8, ok,
}
use dot_terminal.Protocol.{Operation, Request, Response, validate}
use dot_terminal.Node.{is_stop}
use dot_terminal.Desktop.Vault.{private_file}
use dot_terminal.Desktop.AgentLog.Api.{is_private_file}
use dot_terminal.Desktop.Gateway.{
  Head, App, is_doorbell, is_own, has_token, is_subscribe, session_path, boundary, rpc, operation,
  post_operation,
}
use dot_terminal.Desktop.Gateway.Reached.{IsReached, asked_of, post_operation-Reached}
use dot_terminal.Desktop.Gateway.Views.{
  UiState, fresh_state, ui_state_valid, ViewFiles, Disk, ViewCodec, is_action, ui_state_get,
  view_actions, ViewRequest, get_state, set_state, publish, view_run,
}
use dot_terminal.Desktop.Gateway.Restored.{IsReadBack, read_back, last_state, view_run-last_state}
use dot_terminal.Desktop.Gateway.Taken.{IsAction, none_left, view_actions-Taken}

abbrev app : App
app = record {
  attach_only = true;
  token = text "00ff";
  origin = text "http://127.0.0.1:4000";
  dir = text "/state";
}

abbrev session : Text
session = text "00112233445566778899aabbccddeeff"

abbrev session_url : Text
session_url = text "/api/sessions/00112233445566778899aabbccddeeff"

-- The request of the page.
abbrev head : Head
head = record {
  host = some (text "127.0.0.1:4000");
  origin = none;
  authorization = some (utf8 (text "Bearer 00ff"));
  path = session_url;
}

abbrev route : Text → Option Text
route path = if list_eq path session_url then some session else none

route_lem :
    (path id : Text)
    → route path ≡ some id
    → (starts_with (text "/api/sessions/") path ≡ true)
      × (ends_with (text "/doorbell") path ≡ true → id ≡ text "doorbell")
route_lem path id e = elim (Bool-cases (list_eq path session_url)) [
  | inr bad ↦ absurd (ground arith)
  | inl same ↦
      let it = (list_eq_iff path session_url).0 same in
      let no_suffix : ends_with (text "/doorbell") session_url ≡ false = refl in
      (
        ap (starts_with (text "/api/sessions/")) it,
        λ ends.
            let no_end = ap (ends_with (text "/doorbell")) it ∙ no_suffix in absurd (ground arith),
      )
]

abbrev keeper : Text → Option (Request → Option Response)
keeper path = some (λ request. some (Response.ack false))

abbrev to_value : Response → Option (Unit {0})
to_value r = some tt

post_operation-Reached_example :
    AtMostOne
      (IsReached app keeper to_value route head Operation.screen)
      (asked_of (post_operation app keeper to_value route head Operation.screen))
post_operation-Reached_example =
    post_operation-Reached app keeper to_value route head Operation.screen route_lem

-- One request is written.
reached : length (asked_of (post_operation app keeper to_value route head Operation.screen)) ≡ 1
unfolding post_operation boundary is_own is_doorbell has_token operation is_stop is_subscribe rpc
    validate session_path
reached = refl

abbrev opened : Bool → UiState
opened b = record fresh_state { activity_open = b }

-- A codec of the states that say nothing but whether the activity is open.
abbrev encode : Option Text → Option Text → Bool → Option ℕ → List (Text × Text) → Option Bytes
encode none none b none [] = some (if b then 49 ∷ [] else [])
encode _ _ _ _ _ = none

abbrev decode : Text → Option UiState
decode [] = some (opened false)
decode (b ∷ bs) = some (opened true)

abbrev codec : ViewCodec (Unit {0})
codec = record {
  from_utf8 = λ bytes. some bytes;
  state_from_str = decode;
  state_to_vec = λ s. encode s.last_session s.last_device s.activity_open s.activity_width s.typing;
  from_slice = λ bytes. some tt;
  schema = λ v. some (text "dot.view-snapshot.v1");
  strings_from_str = λ t. some (t ∷ []);
}

codec_lem :
    (session device : Option Text) (b : Bool) (width : Option ℕ) (typing : List (Text × Text))
    (bytes : Bytes)
    → encode session device b width typing ≡ some bytes
    → IsReadBack codec
        (record {
          last_session = session;
          last_device = device;
          activity_open = b;
          activity_width = width;
          typing = typing;
        })
        bytes
codec_lem none none true none [] bytes e =
    let it : bytes ≡ 49 ∷ [] = ground arith in read_back bytes refl (rw it refl)
codec_lem none none false none [] bytes e =
    let it : bytes ≡ [] = ground arith in read_back bytes refl (rw it refl)
codec_lem none none b none (x ∷ xs) bytes e = absurd (ground arith)
codec_lem none none b (some w) typing bytes e = absurd (ground arith)
codec_lem none (some d) b width typing bytes e = absurd (ground arith)
codec_lem (some s) device b width typing bytes e = absurd (ground arith)

abbrev works : Disk
works = record { reads = true; writes = true; renames = true; removes = true }

abbrev full : Disk
full = record { reads = true; writes = false; renames = true; removes = true }

-- A state is kept, another cannot be written, and a snapshot is published.
abbrev visits : List (Disk × ViewRequest)
visits =
    (works, set_state (opened true))
    ∷ (full, set_state (opened false))
    ∷ (works, publish [])
    ∷ (works, get_state)
    ∷ []

abbrev left : ViewFiles
left = record {
  ui_state = none;
  snapshot = none;
  actions = some (private_file (text "open:activity"));
}

view_run-last_state_example :
    ui_state_get codec works (view_run codec visits left)
    ≡ last_state codec visits (ui_state_get codec works left)
view_run-last_state_example =
    view_run-last_state codec
      (λ s bytes e.
        codec_lem s.last_session s.last_device s.activity_open s.activity_width s.typing bytes e)
      works refl visits left

-- The state that was kept.
restored : last_state codec visits fresh_state ≡ opened true
unfolding ui_state_valid
restored = refl

view_actions-Taken_example :
    All IsAction (text "open:activity" ∷ [])
    × (length (text "open:activity" ∷ []) ≤ 16)
    × ((works.removes ≡ false)
        ⊎ ((none_left visits ≡ false)
            ⊎ ((view_actions codec works
                  (view_run codec visits (view_actions codec works left).1)).0
                ≡ ok [])))
unfolding view_actions is_action is_private_file
view_actions-Taken_example =
    view_actions-Taken codec works works left visits {xs = text "open:activity" ∷ []} refl
