-- ===== src/Node/Bridge/Tests.antt =====
-- The theorems about the bridge at concrete inputs.
use dot_terminal.Prelude.{
  ℕ, ◌+◌, ◌≡◌, refl, ◌∷◌, [], Option, some, none, Text, Bytes, text, Result, ok, err,
}
use dot_terminal.Authority.Types.{Tip}
use dot_terminal.Authority.Anchor.{memory_anchor, memory_advance}
use dot_terminal.Authority.Table.{lookup, insert}
use dot_terminal.Authority.Verify.{
  encode, verify, is_refused, valid_text, grant_message, request_message,
}
use dot_terminal.Authority.Journal.{
  next_seq, next_prev, is_pending, apply, apply_event, apply_reserve, line_message, record_hash,
  scan,
}
use dot_terminal.Authority.Journal.Operations.{
  working, authorize, finish, finish_now, outcome_line, event_of, locked, reserve, catch_up,
  read_file, check_anchor, reaches, reserve_now, is_spent, is_used_up, append, make_record, persist,
  settle, tolerate,
}
use dot_terminal.Authority.Journal.Outcomes.{HasGrants, blank-HasGrants}
use dot_terminal.Authority.Journal.Sample.{
  to_json, same_line, event_number, small_library, key, grant, asked, start,
}
use dot_terminal.Node.Bridge.{
  Need, Presented, Upstream, Refused, Trust, Bridge, Moment, call, call_needed, call_control, spend,
  action, answer, outcome_of, policy_at,
}
use dot_terminal.Node.Bridge.Guarded.{Handled, call-Handled, call_total, call-hush}

-- An upstream that counts its calls, and one that fails with a text.
abbrev counting : Upstream ℕ
counting u resource body = (ok (1 ∷ []), u + 1)

abbrev failing : Text → Upstream ℕ
failing said u resource body = (err said, u + 1)

abbrev trust : Trust
trust = record { owner_key = key; audience = text "node"; policy_epoch = 1; revoked = [] }

abbrev bridge : Bridge (Option Tip) ℕ
bridge = record { journal = start; upstream = 0 }

abbrev moment : Moment
moment = record { now = 50; reserving = working; finishing = working }

abbrev presented : Presented
presented = record {
  grant = grant;
  owner_signature = key;
  request = asked;
  subject_signature = key;
}

-- The bridge after the operation.
abbrev after : Bridge (Option Tip) ℕ
after =
    elim (call small_library memory_anchor counting trust bridge moment (some presented)
      Need.control []) [ none ↦ bridge | some x ↦ x.1 ]

call-Handled_example :
    Handled small_library memory_anchor counting trust bridge moment
      (some presented)
      Need.control
      []
      (ok (1 ∷ []))
      after
unfolding call call_needed call_control spend action answer outcome_of policy_at finish finish_now
    outcome_line event_of authorize verify is_refused valid_text grant_message request_message
    locked reserve catch_up read_file scan check_anchor reaches reserve_now is_spent is_used_up
    append make_record line_message record_hash encode persist settle apply apply_event
    apply_reserve is_pending memory_anchor memory_advance tolerate next_seq next_prev to_json
    same_line event_number lookup insert
call-Handled_example =
    call-Handled small_library memory_anchor counting trust bridge moment (some presented)
      Need.control [] {r = ok (1 ∷ [])} {b' = after} refl

call_total_example :
    (r : Result Refused Bytes) × (b' : Bridge (Option Tip) ℕ) × (call small_library memory_anchor
        counting trust bridge moment
        (some presented)
        Need.control
        []
      ≡ some (r, b'))
    × HasGrants b'.journal.journal
call_total_example =
    call_total small_library memory_anchor counting trust bridge moment (some presented)
      Need.control [] blank-HasGrants

call-hush_example :
    call small_library memory_anchor
      (failing (text "a"))
      trust
      bridge
      moment
      (some presented)
      Need.control
      []
    ≡ call small_library memory_anchor
        (failing (text "b"))
        trust
        bridge
        moment
        (some presented)
        Need.control
        []
call-hush_example =
    call-hush small_library memory_anchor (failing (text "a")) (failing (text "b")) trust
      (λ u resource body. refl) bridge moment (some presented) Need.control []
