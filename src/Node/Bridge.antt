-- ===== src/Node/Bridge.antt =====
-- crates/node/src/bridge.rs: the grant check in front of the upstream that the node holds the
-- credential of. The upstream is a parameter, with its own state.
pub mod Guarded
mod Tests
use dot_terminal.Prelude.{
  ℕ, Bool, true, false, not, Option, none, some, List, if◌then◌else◌, Text, Bytes, text, list_eq,
  Result, ok, err, is_ok,
}
use mathlib.Core.Option
use dot_terminal.Authority.Types.{Error, Digest, Grant, Request, Policy, Outcome, Permit, Library}
use dot_terminal.Authority.Anchor.{TipAnchor}
use dot_terminal.Authority.Verify.{verify}
use dot_terminal.Authority.Journal.Operations.{Io, World, authorize, finish}

pub data Need : Type 0 where
  observe control : Need

-- `Need::action`
unfoldable pub action : Need → Text
action Need.observe = text "observe"
action Need.control = text "control"

pub record Presented : Type 0 where
  pub grant : Grant
  pub owner_signature : Bytes
  pub request : Request
  pub subject_signature : Bytes

-- The trait `Upstream`: an answer, or a text that may say anything.
abbrev pub Upstream : Type 0 → Type 0
Upstream U = U → Text → Bytes → Result Text Bytes × U

pub data Refused : Type 0 where
  no_grant denied spent unavailable upstream : Refused

-- `clock` is the time that the clock gives at the call.
pub record Trust : Type 0 where
  pub owner_key : Digest
  pub audience : Text
  pub policy_epoch : ℕ
  pub revoked : List Digest

-- The bridge without what never changes.
pub record Bridge (S U : Type 0) : Type 0 where
  pub journal : World S
  pub upstream : U

unfoldable pub refusal : Error → Refused
refusal Error.denied = Refused.denied
refusal Error.spent = Refused.spent
refusal _ = Refused.unavailable

unfoldable pub policy_at : Trust → ℕ → Policy
policy_at trust now = record {
  owner_key = trust.owner_key;
  audience = trust.audience;
  epoch = trust.policy_epoch;
  now = now;
  revoked = trust.revoked;
}

-- `map_err(|_| Refused::Upstream)`
unfoldable pub answer : Result Text Bytes → Result Refused Bytes
answer (ok bytes) = ok bytes
answer (err e) = err Refused.upstream

unfoldable pub outcome_of : Result Text Bytes → Outcome
outcome_of (ok bytes) = Outcome.succeeded
outcome_of (err e) = Outcome.unknown

-- What the system does while a use is reserved, and while its outcome is recorded.
pub record Moment : Type 0 where
  pub now : ℕ
  pub reserving : Io
  pub finishing : Io

module _ {S U : Type 0} (l : Library) (a : TipAnchor S) (ask : Upstream U) (trust : Trust) where
  -- The upstream is asked.
  abbrev pub forward : Bridge S U → Text → Bytes → Result Text Bytes × Bridge S U
  forward b resource body =
      let (result, u) = ask b.upstream resource body in (result, record b { upstream = u })

  unfoldable pub call_observe :
      Bridge S U → ℕ → Presented → Bytes → Result Refused Bytes × Bridge S U
  call_observe b now p body =
      elim (verify l p.grant p.owner_signature p.request p.subject_signature body
        (policy_at trust now)) [
          | err e ↦ (err (refusal e), b)
          | ok v ↦ let (result, b') = forward b p.request.resource body in (answer result, b')
        ]

  -- What follows a permit; `none` if `finish` panics.
  unfoldable pub spend :
      Bridge S U → Io → Permit → Text → Bytes → Option (Result Refused Bytes × Bridge S U)
  spend b io permit resource body =
      let (result, b') = forward b resource body in
      Option.map (λ done. (answer result, record b' { journal = done.1 }))
        (finish l a io permit (outcome_of result) b'.journal)

  unfoldable pub call_control :
      Bridge S U → Moment → Presented → Bytes → Option (Result Refused Bytes × Bridge S U)
  call_control b at p body =
      let (authorized, w) =
        authorize l a at.reserving p.grant p.owner_signature p.request p.subject_signature body
          (policy_at trust at.now) b.journal in
      let b' : Bridge S U = record b { journal = w } in
      elim authorized [
        | err e ↦ some (err (refusal e), b')
        | ok permit ↦ spend b' at.finishing permit p.request.resource body
      ]

  unfoldable pub call_needed :
      Bridge S U → Moment → Presented → Need → Bytes → Option (Result Refused Bytes × Bridge S U)
  call_needed b at p Need.observe body = some (call_observe b at.now p body)
  call_needed b at p Need.control body = call_control b at p body

  unfoldable pub call :
      Bridge S U
      → Moment
      → Option Presented
      → Need
      → Bytes
      → Option (Result Refused Bytes × Bridge S U)
  call b at presented need body = elim presented [
    | none ↦ some (err Refused.no_grant, b)
    | some p ↦
        if not (list_eq p.request.action (action need))
        then some (err Refused.denied, b)
        else call_needed b at p need body
  ]
