-- ===== src/Desktop/AgentLog.antt =====
-- crates/desktop/src/agent_log.rs: what an agent did in a session, as metadata of its log. JSON, UTF-8
-- and SHA-256 are parameters; a file is its bytes, with what `metadata` says of it.
pub mod Contained
pub mod Reading
pub mod Polling
pub mod Api
mod Tests
use dot_terminal.Prelude.{
  ℕ, zero, suc, ◌+◌, ◌-◌, min, Bool, true, false, not, ◌&&◌, ◌||◌, Option, none, some, List, [],
  ◌∷◌, ◌++◌, length, take, drop, all, any, keep_if, is_empty, leb, ltb, ◌==◌, if◌then◌else◌, Text,
  Bytes, text, utf8, list_eq, starts_with, contains_text, is_ascii_alphanumeric, Result, ok, err,
}
use dot_terminal.Node.Invitation.{hex_encode}

abbrev pub max_scan : ℕ
max_scan = 8388608

abbrev pub max_events : ℕ
max_events = 2000

abbrev pub one_of : Text → List Text → Bool
one_of t names = any (list_eq t) names

-- The arms that list names, each with its category.
abbrev pub category_names : List (List Text × Text)
category_names =
    (text "Bash" ∷ text "BashOutput" ∷ text "KillShell" ∷ [], text "shell")
    ∷ (
      text "Read"
          ∷ text "Edit"
          ∷ text "Write"
          ∷ text "Glob"
          ∷ text "Grep"
          ∷ text "NotebookEdit"
          ∷ text "MultiEdit"
          ∷ [],
      text "files",
    )
    ∷ (text "WebFetch" ∷ text "WebSearch" ∷ [], text "browser")
    ∷ (text "Agent" ∷ text "Task" ∷ text "Workflow" ∷ text "SendMessage" ∷ [], text "agent")
    ∷ (
      text "TodoWrite" ∷ text "TaskCreate" ∷ text "TaskUpdate" ∷ text "TaskList" ∷ [],
      text "tasks",
    )
    ∷ []

unfoldable pub first_arm : List (List Text × Text) → Text → Text → Text
first_arm [] t otherwise = otherwise
first_arm ((names, kind) ∷ arms) t otherwise =
    let rest = first_arm arms t otherwise in if one_of t names then kind else rest

unfoldable pub category : Text → Text
unfolding first_arm
category t = first_arm category_names t (
    if starts_with (text "mcp__claude-in-chrome") t
    then text "browser"
    else if contains_text (text "oracle") t
    then text "oracle"
    else text "other")

-- Letters, digits, and `_.:-`.
abbrev pub is_name_char : ℕ → Bool
is_name_char c = is_ascii_alphanumeric c || any (◌==◌ c) (95 ∷ 46 ∷ 58 ∷ 45 ∷ [])

unfoldable pub tool_name : Text → Text
tool_name raw = take 48 (keep_if is_name_char raw)

unfoldable pub id_ok : Text → Bool
id_ok id =
    not (is_empty id)
    && leb (length (utf8 id)) 80
    && all (λ b. is_ascii_alphanumeric b || b == 95 || b == 45) (utf8 id)

-- `serde_json::Value`, as far as it is read; a field that is not there is null.
pub record Values (Json : Type 0) : Type 0 where
  pub from_str : Text → Option Json
  pub field : Json → Text → Json
  pub as_str : Json → Option Text
  pub as_u64 : Json → Option ℕ
  pub as_array : Json → Option (List Json)
  pub is_true : Json → Bool
  pub to_string : Json → Text
  pub from_utf8 : Bytes → Option Text
  pub sha256 : Bytes → Bytes

-- The events, with the time of each.
pub data Event : Type 0 where
  -- before, after, duration
  compact : Text → Option ℕ → Option ℕ → Option ℕ → Event
  input : Text → Event
  -- id, tool, category, fingerprint
  tool_start : Text → Text → Text → Text → Text → Event
  -- id, error
  tool_end : Text → Text → Bool → Event

-- The events of an item of the content, or that the user typed.
pub record Item : Type 0 where
  pub events : List Event
  pub typed : Bool

abbrev pub no_item : Item
no_item = record { events = []; typed = false }

abbrev pub or_empty {ℓ} : {A : Type ℓ} → Option (List A) → List A
or_empty none = []
or_empty (some l) = l

abbrev pub input_if : Text → Bool → List Event
input_if at typed = if typed then input at ∷ [] else []

module _ {Json : Type 0} (json : Values Json) where
  abbrev pub get_str : Json → Text → Option Text
  get_str v k = json.as_str (json.field v k)

  abbrev pub says : Json → Text → Text → Bool
  says v k t = elim (get_str v k) [ none ↦ false | some s ↦ list_eq s t ]

  unfoldable pub fingerprint : Text → Json → Text
  fingerprint name sent =
      hex_encode (take 6 (json.sha256 (utf8 name ++ utf8 (json.to_string sent))))

  unfoldable pub reduce_use : Text → Json → Item
  reduce_use at item = elim (get_str item (text "id")) [
    | none ↦ no_item
    | some id ↦ elim (get_str item (text "name")) [
      | none ↦ no_item
      | some name ↦ if not (id_ok id) then no_item else record {
        events =
            tool_start at id (tool_name name) (category name)
              (fingerprint name (json.field item (text "input")))
            ∷ [];
        typed = false;
      }
    ]
  ]

  unfoldable pub reduce_result : Text → Json → Item
  reduce_result at item = elim (get_str item (text "tool_use_id")) [
    | none ↦ no_item
    | some id ↦ if not (id_ok id) then no_item else record {
      events = tool_end at id (json.is_true (json.field item (text "is_error"))) ∷ [];
      typed = false;
    }
  ]

  -- `role`, and whether the record is no meta message.
  unfoldable pub reduce_item : Text → Text → Bool → Json → Item
  reduce_item at role plain item =
      if says item (text "type") (text "tool_use") && list_eq role (text "assistant")
      then reduce_use at item
      else if says item (text "type") (text "tool_result") && list_eq role (text "user")
      then reduce_result at item
      else if says item (text "type") (text "text") && list_eq role (text "user") && plain
      then record { events = []; typed = true }
      else no_item

  unfoldable pub reduce_items : Text → Text → Bool → List Json → Item
  reduce_items at role plain [] = no_item
  reduce_items at role plain (i ∷ is) =
      let first = reduce_item at role plain i in
      let rest = reduce_items at role plain is in
      record { events = first.events ++ rest.events; typed = first.typed || rest.typed }

  abbrev pub has_str : Json → Bool
  has_str v = elim (json.as_str v) [ none ↦ false | some s ↦ true ]

  -- The events of a message.
  unfoldable pub reduce_message : Text → Json → List Event
  reduce_message at r =
      let message = json.field r (text "message") in
      let role = or_empty (get_str message (text "role")) in
      let content = json.field message (text "content") in
      let plain = not (json.is_true (json.field r (text "isMeta"))) in
      if list_eq role (text "user") && has_str content && plain
      then input at ∷ []
      else let items = reduce_items at role plain (or_empty (json.as_array content)) in
        items.events ++ input_if at items.typed

  unfoldable pub compaction : Text → Json → Event
  compaction at r =
      let m = json.field r (text "compactMetadata") in
      compact at (json.as_u64 (json.field m (text "preTokens")))
        (json.as_u64 (json.field m (text "postTokens")))
        (json.as_u64 (json.field m (text "durationMs")))

  unfoldable pub reduce_record : Json → List Event
  reduce_record r = elim (get_str r (text "timestamp")) [
    | none ↦ []
    | some at ↦
        if ltb 40 (length (utf8 at))
        then []
        else if says r (text "subtype") (text "compact_boundary")
        then compaction at r ∷ []
        else reduce_message at r
  ]

  -- `reduce`: what is added to the events.
  unfoldable pub reduce : Text → List Event
  reduce line = elim (json.from_str line) [ none ↦ [] | some r ↦ reduce_record r ]

  -- A line of the file, if it is UTF-8.
  unfoldable pub reduce_line : Bytes → List Event
  reduce_line line = elim (json.from_utf8 line) [ none ↦ [] | some t ↦ reduce t ]

-- `read_until(b'\n')`: the bytes up to the first newline with it, or all, and the rest.
unfoldable pub read_until : Bytes → Bytes × Bytes
read_until [] = ([], [])
read_until (b ∷ bs) =
    let (line, rest) = read_until bs in if b == 10 then (b ∷ [], bs) else (b ∷ line, rest)

abbrev pub ends_line : Bytes → Bool
ends_line [] = false
ends_line (b ∷ []) = b == 10
ends_line (b ∷ c ∷ bs) = ends_line (c ∷ bs)

unfoldable pub tail_start : Bytes → ℕ → ℕ
tail_start content tail =
    if leb (length content) tail
    then 0
    else let from = length content - tail in
      min (from + length (read_until (drop from content)).0) (length content)

module _ {Json : Type 0} (json : Values Json) where
  -- The loop of `read` over what is left of the file, with the bytes that were consumed.
  unfoldable pub scan : ℕ → Bytes → List Event → ℕ → List Event × ℕ
  scan zero rest events consumed = (events, consumed)
  scan (suc fuel) rest events consumed =
      let (line, more) = read_until rest in
      let next = scan fuel more (events ++ reduce_line json line) (consumed + length line) in
      if ltb consumed max_scan && ltb (length events) max_events && ends_line line
      then next
      else (events, consumed)

  -- Events, the next position, and the size.
  unfoldable pub read : Bytes → ℕ → List Event × ℕ × ℕ
  read content after =
      let start = min after (length content) in
      let (events, consumed) = scan (length content + 1) (drop start content) [] 0 in
      (events, start + consumed, length content)
