-- ===== src/Desktop/AgentLog/Api.antt =====
-- `bound` of crates/desktop/src/agent_log.rs and `agent_events` of crates/desktop/src/main.rs: a log is
-- read only if the owner bound it to the session.
use dot_terminal.Prelude.{
  ℕ, ◌≡◌, ◌⊎◌, inl, inr, arith, min, Bool, true, false, not, ◌&&◌, ◌||◌, Option, none, some, List,
  ltb, ◌==◌, if◌then◌else◌, Text, Bytes, text, list_eq, Result, ok, err, Bool-cases, Option-cases,
  Result-cases, was_ok, was_err,
}
use dot_terminal.Desktop.Table.{get}
use dot_terminal.Desktop.Vault.{Stored}
use dot_terminal.Desktop.Vault.Api.{is_session, is_absolute}
use dot_terminal.Desktop.AgentLog.{Values, Event, read, tail_start}

pub record Binding : Type 0 where
  pub kind : Text
  pub path : Text

-- `File`
pub record Bindings : Type 0 where
  pub schema : Text
  pub sessions : List (Text × Binding)

pub data BindingError : Type 0 where
  not_private malformed unsupported_file unsupported_binding no_log not_owned : BindingError

-- `private_file`
unfoldable pub is_private_file : Stored → Bool
is_private_file m = m.is_file && m.owned && not m.shared

-- `agents.json`, if there is one; `metadata` and the content of a path.
module _ (from_str : Bytes → Option Bindings) (log_at : Text → Option Stored) where
  unfoldable pub bound_path : Binding → Result BindingError (Option Text)
  bound_path b =
      if not (list_eq b.kind (text "claude-jsonl")) || not (is_absolute b.path)
      then err unsupported_binding
      else elim (log_at b.path) [
        | none ↦ err no_log
        | some m ↦ if not m.is_file || not m.owned then err not_owned else ok (some b.path)
      ]

  unfoldable pub bound : Option Stored → Text → Result BindingError (Option Text)
  unfolding is_private_file
  bound agents session = elim agents [
    | none ↦ ok none
    | some m ↦ if not (is_private_file m) then err not_private else elim (from_str m.content) [
      | none ↦ err malformed
      | some file ↦
          if not (list_eq file.schema (text "dot.agents.v1"))
          then err unsupported_file
          else elim (get session file.sessions) [ none ↦ ok none | some b ↦ bound_path b ]
    ]
  ]

  -- Why there are no events; or the events, the next position and the size.
  pub data EventsReply : Type 0 where
    failed unbound : EventsReply
    events_from : Text → List Event → ℕ → ℕ → EventsReply

  -- Where a view starts to read.
  abbrev pub start_of : Bytes → ℕ → ℕ → ℕ
  start_of content after tail =
      if (after == 0) && ltb 0 tail then tail_start content (min tail 67108864) else after

  module _ {Json : Type 0} (json : Values Json) where
    -- The path stands in the reply to tell which log was read.
    unfoldable pub read_log : Text → ℕ → ℕ → EventsReply
    read_log path after tail = elim (log_at path) [
      | none ↦ failed
      | some m ↦
          let (events, next, size) = read json m.content (start_of m.content after tail) in
          events_from path events next size
    ]

    unfoldable pub agent_events : Option Stored → Text → ℕ → ℕ → EventsReply
    agent_events agents session after tail =
        if not (is_session session) then failed else elim (bound agents session) [
          | err e ↦ failed
          | ok found ↦ elim found [ none ↦ unbound | some path ↦ read_log path after tail ]
        ]

    -- What stands behind a log that was read: a private file of the owner binds it to the session, and it
    -- is a file of the owner.
    pub record IsBound (agents : Option Stored) (session path : Text) : Type 0 where
      pub file : Stored
      pub bindings : Bindings
      pub binding : Binding
      pub log : Stored
      pub there : agents ≡ some file
      pub private : (file.is_file ≡ true) × (file.owned ≡ true) × (file.shared ≡ false)
      pub parsed : from_str file.content ≡ some bindings
      pub named : get session bindings.sessions ≡ some binding
      pub is_path : binding.path ≡ path
      pub absolute : is_absolute path ≡ true
      pub is_log : log_at path ≡ some log
      pub owned : (log.is_file ≡ true) × (log.owned ≡ true)

    bound_path_ok :
        (b : Binding) (path : Text)
        → bound_path b ≡ ok (some path)
        → (log : Stored) × (b.path ≡ path)
          × (is_absolute path ≡ true)
          × (log_at path ≡ some log)
          × ((log.is_file ≡ true) × (log.owned ≡ true))
    unfolding bound_path
    bound_path_ok b path e = elim (Option-cases (log_at b.path)) [
      | inl bad ↦ absurd (ground arith)
      | inr (m, there) ↦
          let same : b.path ≡ path = ground arith in
          (m, same, rw (← same) (ground arith), rw (← same) there, (ground arith, ground arith))
    ]

    bound_ok :
        (agents : Option Stored) (session path : Text)
        → bound agents session ≡ ok (some path)
        → IsBound agents session path
    unfolding bound
    bound_ok agents session path e = elim (Option-cases agents) [
      | inl bad ↦ absurd (ground arith)
      | inr (m, there) ↦ elim (Option-cases (from_str m.content)) [
        | inl bad ↦ absurd (ground arith)
        | inr (file, parsed) ↦ elim (Option-cases (get session file.sessions)) [
          | inl bad ↦ absurd (ground arith)
          | inr (b, named) ↦
              let (log, is_path, absolute, is_log, owned) = bound_path_ok b path (ground arith) in
              record {
                file = m;
                bindings = file;
                binding = b;
                log = log;
                there = there;
                private = (ground arith, ground arith, ground arith);
                parsed = parsed;
                named = named;
                is_path = is_path;
                absolute = absolute;
                is_log = is_log;
                owned = owned;
              }
        ]
      ]
    ]

    -- What `agent_events` answers, of the log that it read, if any.
    pub data Answered (agents : Option Stored) (session : Text) : EventsReply → Type 0 where
      nothing : {r : EventsReply} → (r ≡ failed) ⊎ (r ≡ unbound) → Answered agents session r
      from_log :
          {r : EventsReply} (path : Text) (events : List Event) (next size : ℕ)
          → r ≡ events_from path events next size
          → IsBound agents session path
          → Answered agents session r

    -- A view is given events only of a log that a private file of the owner binds to the session asked
    -- for, by an absolute path to a file of the owner; else it is told of a failure or that no log is bound.
    pub agent_events-Answered :
        (agents : Option Stored) (session : Text) (after tail : ℕ)
        → Answered agents session (agent_events agents session after tail)
    unfolding agent_events read_log
    agent_events-Answered agents session after tail = elim (Bool-cases (is_session session)) [
      | inr bad ↦ nothing (inl (ground arith))
      | inl good ↦ elim (Result-cases (bound agents session)) [
        | was_err e bad ↦ nothing (inl (ground arith))
        | was_ok found e ↦ elim (Option-cases found) [
          | inl missing ↦ nothing (inr (ground arith))
          | inr (path, is_it) ↦
              let b = bound_ok agents session path (ground arith) in
              let r = read json b.log.content (start_of b.log.content after tail) in
              from_log path r.0 r.1 r.2 (let l = b.is_log in ground arith) b
        ]
      ]
    ]
