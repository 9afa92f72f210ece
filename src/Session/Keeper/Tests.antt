-- ===== src/Session/Keeper/Tests.antt =====
-- The theorems about the steps of a keeper at concrete inputs.
use dot_terminal.Prelude.{ℕ, ◌≡◌, refl, ◌∷◌, [], true, some, none, text, arith, ok}
use dot_terminal.Protocol
use dot_terminal.Protocol.{Operation, Request, validate}
use dot_terminal.Core.History.{append}
use dot_terminal.Core.History.Runs.{output}
use dot_terminal.Session.Dispatch.{resizes}
use dot_terminal.Session.Keeper.Records.{reshaped, heard, all_heard}
use dot_terminal.Session.Requests.{dispatch}
use dot_terminal.Session.Sample.{sized, no_json, calm}
use dot_terminal.Session.Keeper.{
  Keeper, start, connect, feed, respond, answer_client, here, goes_on, connects, outputs, answers,
}
use dot_terminal.Session.Keeper.Reachable.{IsSane, reach-IsSane}

-- A program that has just started, and one client at it.
abbrev started : Keeper (ℕ × ℕ)
started = start (80, 24) (some 42) (text "k1")

abbrev served : Keeper (ℕ × ℕ)
unfolding start connect
served = connect sized no_json started 1000

-- It wrote two bytes.
abbrev printed : Keeper (ℕ × ℕ)
unfolding start connect feed
printed = record served {
  session = elim (feed sized no_json served.session (104 ∷ 105 ∷ [])) [
    | none ↦ served.session
    | some s ↦ s
  ];
}

abbrev to_stop : Request
to_stop = record { version = 1; operation = Operation.stop }

abbrev asks : Keeper (ℕ × ℕ)
asks = record printed { stop = true; clients = 0 }

asks_answered : answer_client sized no_json printed (text "s1") calm (ok to_stop) ≡ some asks
unfolding answer_client respond validate Protocol.bad_operation dispatch start connect feed append
asks_answered = refl

reach-IsSane_example : IsSane asks (output (104 ∷ 105 ∷ []) ∷ [])
unfolding connect start feed append all_heard heard reshaped resizes validate
reach-IsSane_example =
    reach-IsSane sized no_json (80, 24) (some 42) (text "k1")
      (goes_on (goes_on (goes_on here (connects 1000)) (outputs (104 ∷ 105 ∷ []) refl refl))
        (answers (text "s1") calm (ok to_stop) (omega arith) asks_answered))
