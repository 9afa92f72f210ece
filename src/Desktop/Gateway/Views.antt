-- ===== src/Desktop/Gateway/Views.antt =====
-- What a view leaves in the state directory and takes from it: `ui_state_get`, `ui_state_set`,
-- `view_snapshot` and `view_actions` of crates/desktop/src/main.rs. UTF-8 and JSON are parameters. The
-- temporary files are left out: what a failed request leaves in one, the next request overwrites.
use dot_terminal.Prelude.{
  ℕ, Bool, true, false, not, ◌&&◌, ◌||◌, Option, none, some, List, [], ◌∷◌, length, take, all, any,
  keep_if, is_empty, leb, ltb, ◌==◌, if◌then◌else◌, Text, Bytes, text, utf8, list_eq,
  is_ascii_alphanumeric, Result, ok, err,
}
use dot_terminal.Desktop.Vault.{Stored}
use dot_terminal.Desktop.AgentLog.Api.{is_private_file}

pub record UiState : Type 0 where
  pub last_session : Option Text
  pub last_device : Option Text
  pub activity_open : Bool
  pub activity_width : Option ℕ
  pub typing : List (Text × Text)

-- `UiState::default`
abbrev pub fresh_state : UiState
fresh_state = record {
  last_session = none;
  last_device = none;
  activity_open = false;
  activity_width = none;
  typing = [];
}

unfoldable pub valid_view_id : Text → ℕ → Bool
valid_view_id t max =
    not (is_empty t)
    && leb (length (utf8 t)) max
    && all (λ b. is_ascii_alphanumeric b || b == 45) (utf8 t)

-- The closure `id`.
abbrev pub valid_id : Option Text → ℕ → Bool
valid_id none max = true
valid_id (some t) max = valid_view_id t max

abbrev pub valid_width : Option ℕ → Bool
valid_width none = true
valid_width (some w) = leb 200 w && leb w 1200

abbrev pub view_kinds : List Text
view_kinds = text "app" ∷ text "browser" ∷ text "phone" ∷ []

abbrev pub valid_typing : Text × Text → Bool
valid_typing (id, kind) = valid_view_id id 64 && any (λ k. list_eq k kind) view_kinds

unfoldable pub ui_state_valid : UiState → Bool
ui_state_valid s =
    valid_id s.last_session 64
    && valid_id s.last_device 32
    && valid_width s.activity_width
    && leb (length s.typing) 64
    && all valid_typing s.typing

-- The files of the state directory.
pub record ViewFiles : Type 0 where
  pub ui_state : Option Bytes
  pub snapshot : Option Bytes
  pub actions : Option Stored

-- Whether a file that is there can be read, a temporary file written and renamed, a file removed.
pub record Disk : Type 0 where
  pub reads : Bool
  pub writes : Bool
  pub renames : Bool
  pub removes : Bool

pub data ViewError : Type 0 where
  failed invalid_state snapshot_limit invalid_snapshot unsupported_snapshot not_private : ViewError

-- What serde_json makes of what the views send; `schema` is the text in the field `schema`.
pub record ViewCodec (Json : Type 0) : Type 0 where
  pub from_utf8 : Bytes → Option Text
  pub state_from_str : Text → Option UiState
  pub state_to_vec : UiState → Option Bytes
  pub from_slice : Bytes → Option Json
  pub schema : Json → Option Text
  pub strings_from_str : Text → Option (List Text)

abbrev pub max_snapshot : ℕ
max_snapshot = 262144

unfoldable pub is_action : Text → Bool
is_action a =
    leb (length (utf8 a)) 80
    && all (λ b. is_ascii_alphanumeric b || b == 58 || b == 45 || b == 95) (utf8 a)

module _ {Json : Type 0} (c : ViewCodec Json) (disk : Disk) where
  -- `from_str(..).ok().filter(ui_state_valid).unwrap_or_default()`
  abbrev pub state_of : Option UiState → UiState
  state_of none = fresh_state
  state_of (some s) = if ui_state_valid s then s else fresh_state

  unfoldable pub ui_state_get : ViewFiles → UiState
  ui_state_get f = if not disk.reads then fresh_state else elim f.ui_state [
    | none ↦ fresh_state
    | some bytes ↦ elim (c.from_utf8 bytes) [
      | none ↦ fresh_state
      | some t ↦ state_of (c.state_from_str t)
    ]
  ]

  -- Whether a file is replaced.
  abbrev pub replaces : Bool
  replaces = disk.writes && disk.renames

  unfoldable pub ui_state_set : UiState → ViewFiles → Result ViewError (Unit {0}) × ViewFiles
  ui_state_set s f =
      if not (ui_state_valid s) then (err invalid_state, f) else elim (c.state_to_vec s) [
        | none ↦ (err failed, f)
        | some bytes ↦
            if not replaces then (err failed, f) else (ok tt, record f { ui_state = some bytes })
      ]

  abbrev pub has_schema : Json → Bool
  has_schema v = elim (c.schema v) [
    | none ↦ false
    | some t ↦ list_eq t (text "dot.view-snapshot.v1")
  ]

  unfoldable pub view_snapshot : Bytes → ViewFiles → Result ViewError (Unit {0}) × ViewFiles
  view_snapshot body f =
      if ltb max_snapshot (length body) then (err snapshot_limit, f) else elim (c.from_slice body) [
        | none ↦ (err invalid_snapshot, f)
        | some v ↦
            if not (has_schema v)
            then (err unsupported_snapshot, f)
            else if not replaces
            then (err failed, f)
            else (ok tt, record f { snapshot = some body })
      ]

  -- `from_str(..).unwrap_or_default()`, with what is kept of it.
  abbrev pub actions_of : Option (List Text) → List Text
  actions_of none = []
  actions_of (some actions) = take 16 (keep_if is_action actions)

  unfoldable pub view_actions : ViewFiles → Result ViewError (List Text) × ViewFiles
  view_actions f = elim f.actions [
    | none ↦ (ok [], f)
    | some m ↦
        if not (is_private_file m)
        then (err not_private, f)
        else if not disk.reads
        then (err failed, f)
        else elim (c.from_utf8 m.content) [
          | none ↦ (err failed, f)
          | some t ↦ (
            ok (actions_of (c.strings_from_str t)),
            if disk.removes then record f { actions = none } else f,
          )
        ]
  ]

-- A request of a view; `leave` is a file of actions that is left for it.
pub data ViewRequest : Type 0 where
  get_state take_actions : ViewRequest
  set_state : UiState → ViewRequest
  publish : Bytes → ViewRequest
  leave : Stored → ViewRequest

unfoldable pub view_step :
    {Json : Type 0} → ViewCodec Json → Disk × ViewRequest → ViewFiles → ViewFiles
view_step c (disk, get_state) f = f
view_step c (disk, take_actions) f = (view_actions c disk f).1
view_step c (disk, set_state s) f = (ui_state_set c disk s f).1
view_step c (disk, publish body) f = (view_snapshot c disk body f).1
view_step c (disk, leave m) f = record f { actions = some m }

unfoldable pub view_run :
    {Json : Type 0} → ViewCodec Json → List (Disk × ViewRequest) → ViewFiles → ViewFiles
view_run c [] f = f
view_run c (r ∷ rs) f = view_run c rs (view_step c r f)
