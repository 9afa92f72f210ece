-- ===== src/Authority/Journal/Tests.antt =====
-- The theorems about the journal at concrete inputs.
use dot_terminal.Prelude.{
  ℕ, zero, suc, ◌<◌, ◌≡◌, refl, true, [], ◌∷◌, Option, some, none, arith, ok, err,
}
use dot_terminal.Authority.Types.{not_pending, Outcome, Permit, spent, Tip, Event, Line, Library}
use dot_terminal.Authority.Table.{lookup, insert}
use dot_terminal.Authority.Anchor.{memory_anchor, memory_advance}
use dot_terminal.Authority.Verify.{
  verify, encode, valid_text, grant_message, request_message, is_refused,
}
use dot_terminal.Authority.Journal.{
  Journal, blank, scan, apply, apply_event, apply_reserve, apply_outcome, is_pending, next_seq,
  next_prev, line_message, record_hash,
}
use dot_terminal.Authority.Journal.Operations.{
  finish_now, outcome_line, event_of, working, World, append, reserve_line, reserve_now, permit_of,
  is_spent, is_used_up, authorize, reserve, locked, catch_up, read_file, check_anchor, tolerate,
  reaches, make_record, persist, settle,
}
use dot_terminal.Authority.Journal.Replay.{Replays, scan_fuel}
use dot_terminal.Authority.Journal.Durable.{append-Replays}
use dot_terminal.Authority.Journal.Outcomes.{
  HasGrants, blank-HasGrants, apply-HasGrants, finish_now_once,
}
use dot_terminal.Authority.Journal.Budget.{Authorized, authorize_ok, reserve_now_once}
use dot_terminal.Authority.Journal.Sample.{
  start, grant, asked, policy, key, v, the_record, event_number, same_line, to_json, library_of,
  small_library, small_library-IsSound,
}

scan_nothing : (f : ℕ) → 0 < f → scan small_library f [] blank ≡ (ok tt, blank)
unfolding scan
scan_nothing zero p = absurd (omega arith)
scan_nothing (suc f) p = refl

start-Replays : Replays small_library start
start-Replays = record { scanned = scan_nothing; caught_up = refl }

abbrev first_line : Line
first_line = reserve_line small_library memory_anchor v

append-Replays_example :
    Replays small_library (append small_library memory_anchor working true first_line start).1
unfolding append make_record line_message record_hash encode persist settle apply apply_event
    apply_reserve memory_anchor memory_advance tolerate next_seq next_prev to_json same_line
    event_number lookup
append-Replays_example =
    append-Replays small_library memory_anchor small_library-IsSound working true first_line start
      start-Replays refl

-- The first use was granted.
abbrev granted : World (Option Tip)
granted = (reserve_now small_library memory_anchor working v start).1

reserve_now_once_example :
    reserve_now small_library memory_anchor working v granted ≡ (err spent, granted)
unfolding reserve_now is_spent is_used_up append make_record line_message record_hash encode persist
    settle apply apply_event apply_reserve memory_anchor memory_advance tolerate next_seq next_prev
    to_json same_line event_number lookup
reserve_now_once_example =
    reserve_now_once small_library memory_anchor working working v start
      {p = permit_of small_library memory_anchor v} {w' = granted} refl

authorize_ok_example :
    Authorized small_library memory_anchor working grant key asked key [] policy
      (permit_of small_library memory_anchor v)
      start
      (authorize small_library memory_anchor working grant key asked key [] policy start).1
unfolding authorize verify is_refused valid_text grant_message request_message locked reserve
    catch_up read_file scan check_anchor reaches reserve_now is_spent is_used_up append make_record
    line_message record_hash encode persist settle apply apply_event apply_reserve memory_anchor
    memory_advance tolerate next_seq next_prev to_json same_line event_number lookup
authorize_ok_example =
    authorize_ok small_library memory_anchor working grant key asked key [] policy start
      {p = permit_of small_library memory_anchor v} refl

scan_fuel_example :
    scan small_library 3 (0 ∷ 0 ∷ []) blank ≡ scan small_library 9 (0 ∷ 0 ∷ []) blank
scan_fuel_example = scan_fuel small_library 3 9 (0 ∷ 0 ∷ []) blank (omega arith) (omega arith)

-- A journal with one pending use.
abbrev pending : Journal
pending = record {
  read_to = 0;
  tip = none;
  grants = (1 ∷ [], (2 ∷ [], 1)) ∷ [];
  ops = ((1 ∷ [], 3 ∷ []), (2 ∷ [], Event.reserve)) ∷ [];
}

abbrev at_pending : World (Option Tip)
at_pending = record { file = []; anchor = none; journal = pending }

-- The first reservation on an empty journal, but for its place in the file.
pending-HasGrants : HasGrants pending
unfolding apply apply_event apply_reserve lookup insert
pending-HasGrants = apply-HasGrants blank the_record.line blank-HasGrants

abbrev permit : Permit
permit = record { grant = 1 ∷ []; nonce = 3 ∷ []; request_hash = 2 ∷ [] }

-- The library of the record of the outcome.
abbrev outcome_library : Library
outcome_library =
    library_of (record the_record {
      line = record the_record.line { event = Event.succeeded; max_uses = 0 };
    })

-- The outcome was recorded.
abbrev finished : World (Option Tip)
finished = record {
  file = 0 ∷ 0 ∷ 0 ∷ 1 ∷ 9 ∷ [];
  anchor = some (record { seq = 1; hash = 2 ∷ [] });
  journal = record {
    read_to = 5;
    tip = some (record { seq = 1; hash = 2 ∷ [] });
    grants = (1 ∷ [], (2 ∷ [], 1)) ∷ [];
    ops = ((1 ∷ [], 3 ∷ []), (2 ∷ [], Event.succeeded)) ∷ [];
  };
}

finish_now_once_example :
    finish_now outcome_library memory_anchor working permit Outcome.failed finished
    ≡ some (err not_pending, finished)
unfolding finish_now outcome_line event_of append make_record line_message record_hash encode
    persist settle apply apply_event apply_reserve apply_outcome is_pending memory_anchor
    memory_advance tolerate next_seq next_prev to_json same_line event_number lookup insert
finish_now_once_example =
    finish_now_once outcome_library memory_anchor working working permit Outcome.succeeded
      Outcome.failed at_pending {w' = finished} refl
