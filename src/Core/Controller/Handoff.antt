-- ===== src/Core/Controller/Handoff.antt =====
-- The one-time handoff of control.
use dot_terminal.Prelude.{
  ℕ, ◌+◌, ◌≤◌, ◌<◌, ◌≡◌, inl, inr, false, none, some, arith, Text, Bytes, ltb, if◌then◌else◌, ok,
  err, list_eq_iff, Option-cases, u64_max,
}
use mathlib.Core.Option
use dot_terminal.Message.{handoff_expired, handoff_unavailable, stale_generation, outcome_unknown}
use dot_terminal.Core.Controller.{
  Controller, acquire, check, release, offer_handoff, cancel_handoff, accept_handoff, prepare,
  accept_input, written, write,
}
use dot_terminal.Core.Controller.Calls.{
  Call, acquires, releases, offers, cancels, accepts, prepares, writes, step,
}

-- If a handoff is accepted, the ticket was the one on offer and in time, the acceptor has control
-- under the generation returned, whoever had control before is refused as stale, and in the state
-- that it leaves no ticket is accepted.
pub accept_handoff_once :
    (c : Controller) (ticket : Text) (now g : ℕ) (again : Text) (later : ℕ)
    → (accept_handoff c ticket now).1 ≡ ok g
    → (deadline : ℕ) × (c.handoff ≡ some (ticket, deadline))
      × (now < deadline)
      × (check (accept_handoff c ticket now).0 g ≡ ok tt)
      × (check (accept_handoff c ticket now).0 c.generation ≡ err stale_generation)
      × ((accept_handoff (accept_handoff c ticket now).0 again later).1 ≡ err handoff_unavailable)
unfolding accept_handoff acquire check
accept_handoff_once c ticket now g again later e = elim (Option-cases c.handoff) [
  | inl shut ↦ absurd (ground arith)
  | inr ((expected, deadline), on_offer) ↦ (
    deadline,
    ground (arith, list_eq_iff ticket expected),
    ground arith,
    ground arith,
    ground arith,
    ground arith,
  )
]

-- An offer that its holder made can be accepted with its ticket for 120 seconds, which returns the
-- next generation, and is refused as expired from then on, while neither the clock nor the
-- generation reaches its bound.
pub offer-accept_handoff :
    (c : Controller) (g : ℕ) (ticket : Text) (now later : ℕ)
    → (offer_handoff c g ticket now).1 ≡ ok tt
    → now + 120 ≤ u64_max
    → c.generation < u64_max
    → (accept_handoff (offer_handoff c g ticket now).0 ticket later).1
      ≡ (if ltb later (now + 120) then ok (c.generation + 1) else err handoff_expired)
unfolding offer_handoff accept_handoff acquire check
offer-accept_handoff c g ticket now later e b room = ground (arith, list_eq_iff ticket ticket)

-- Control is on offer only while somebody holds it.
abbrev pub IsHeldOffer : Controller → Type 0
IsHeldOffer c = (c.active ≡ false) → c.handoff ≡ none

prepare-IsHeldOffer :
    (c : Controller) (g seq : ℕ) (bs : Bytes) {c' : Controller}
    → IsHeldOffer c
    → Option.map (λ r. r.0) (prepare c g seq bs) ≡ some c'
    → IsHeldOffer c'
unfolding prepare accept_input
prepare-IsHeldOffer c g seq bs h e = ground (arith)

-- Every call keeps it so.
pub step-IsHeldOffer :
    (c : Controller) (call : Call) {c' : Controller}
    → IsHeldOffer c
    → step c call ≡ some c'
    → IsHeldOffer c'
unfolding step
step-IsHeldOffer c (acquires takeover) h e = unfold acquire in ground arith
step-IsHeldOffer c (releases g) h e = unfold release check in ground arith
step-IsHeldOffer c (offers g ticket now) h e = unfold offer_handoff check in ground arith
step-IsHeldOffer c (cancels g) h e = unfold cancel_handoff check in ground arith
step-IsHeldOffer c (accepts ticket now) h e = unfold accept_handoff acquire in ground arith
step-IsHeldOffer c (prepares g seq bs) h e = prepare-IsHeldOffer c g seq bs h e
step-IsHeldOffer c writes h e = unfold written in ground arith

-- After an input was taken in, every further input of its lease is refused as of unknown outcome
-- until its outcome is reported.
pub prepare_uncertain :
    (c : Controller) (g seq : ℕ) (bs : Bytes) (next : ℕ) (more : Bytes) {c' : Controller}
    → prepare c g seq bs ≡ some (c', ok write)
    → prepare c' g next more ≡ some (c', err outcome_unknown)
unfolding prepare accept_input check
prepare_uncertain c g seq bs next more e = ground arith
