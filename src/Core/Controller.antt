-- ===== src/Core/Controller.antt =====
-- `Controller` of crates/core/src/lib.rs: fencing generations, the input sequence with its window of
-- inputs that a retry is recognised against, and the one-time handoff. A method returns the new state
-- and its result; a panic is `none`.
pub mod Calls
pub mod Fencing
pub mod Window
pub mod Answers
pub mod Handoff
mod Tests
use dot_terminal.Prelude.{
  ℕ, suc, ◌+◌, ◌-◌, Bool, true, false, not, ◌&&◌, ◌||◌, Option, none, some, List, [], ◌∷◌, ◌++◌,
  length, any, ltb, leb, ◌==◌, if◌then◌else◌, Text, Bytes, list_eq, Result, ok, err, checked_add,
  u64_max, min,
}
use dot_terminal.Message.{
  Message, already_controlled, generation_exhausted, stale_generation, handoff_unavailable,
  handoff_expired, outcome_unknown, out_of_order, sequence_exhausted,
}

abbrev pub dedup_window : ℕ
dedup_window = 64

abbrev pub dedup_bytes : ℕ
dedup_bytes = 262144

abbrev pub Input : Type 0
Input = ℕ × Bytes

pub record Controller : Type 0 where
  pub generation : ℕ
  pub active : Bool
  pub last_sequence : ℕ
  pub recent : List Input
  pub recent_bytes : ℕ
  pub uncertain : Bool
  pub handoff : Option (Text × ℕ)

pub data InputDecision : Type 0 where
  write duplicate : InputDecision

-- `Controller::default()`
abbrev pub idle : Controller
idle = record {
  generation = 0;
  active = false;
  last_sequence = 0;
  recent = [];
  recent_bytes = 0;
  uncertain = false;
  handoff = none;
}

-- A new lease.
abbrev pub leased : Controller → ℕ → Controller
leased c g = record {
  generation = g;
  active = true;
  last_sequence = 0;
  recent = [];
  recent_bytes = 0;
  uncertain = false;
  handoff = none;
}

unfoldable pub acquire : Controller → Bool → Controller × Result Message ℕ
acquire c takeover =
    if c.active && not takeover
    then (c, err already_controlled)
    else elim (checked_add c.generation 1) [
      | none ↦ (c, err generation_exhausted)
      | some g ↦ (leased c g, ok g)
    ]

unfoldable pub check : Controller → ℕ → Result Message (Unit {0})
check c g = if not c.active || not (g == c.generation) then err stale_generation else ok tt

-- `self.check(g)?;` and then a change of the state.
abbrev pub checked : Controller → ℕ → Controller → Controller × Result Message (Unit {0})
checked c g c' = elim (check c g) [ err e ↦ (c, err e) | ok u ↦ (c', ok tt) ]

unfoldable pub release : Controller → ℕ → Controller × Result Message (Unit {0})
unfolding check
release c g = checked c g (record c { active = false; handoff = none })

-- `saturating_add` on `u64`.
abbrev pub saturating_add : ℕ → ℕ → ℕ
saturating_add a b = min (a + b) u64_max

unfoldable pub offer_handoff : Controller → ℕ → Text → ℕ → Controller × Result Message (Unit {0})
unfolding check
offer_handoff c g ticket now =
    checked c g (record c { handoff = some (ticket, saturating_add now 120) })

unfoldable pub cancel_handoff : Controller → ℕ → Controller × Result Message (Unit {0})
unfolding check
cancel_handoff c g = checked c g (record c { handoff = none })

unfoldable pub accept_handoff : Controller → Text → ℕ → Controller × Result Message ℕ
unfolding acquire
accept_handoff c ticket now = elim c.handoff [
  | none ↦ (c, err handoff_unavailable)
  | some (expected, deadline) ↦
      if leb deadline now
      then (record c { handoff = none }, err handoff_expired)
      else if not (list_eq ticket expected)
      then (c, err handoff_unavailable)
      else acquire c true
]

-- `while recent.len() > DEDUP_WINDOW || recent_bytes > DEDUP_BYTES { pop_front; subtract }`, with
-- `none` for the `expect` on the empty window.
unfoldable pub evict : List Input → ℕ → Option (List Input × ℕ)
evict [] n = if ltb dedup_bytes n then none else some ([], n)
evict (e ∷ es) n =
    let rest = evict es (n - length e.1) in
    if ltb dedup_window (suc (length es)) || ltb dedup_bytes n then rest else some (e ∷ es, n)

-- `recent.iter().any(|(s, d)| *s == seq && d == data)`
abbrev pub is_recent : ℕ → Bytes → List Input → Bool
is_recent seq bs = any (λ e. e.0 == seq && list_eq e.1 bs)

-- What `prepare` does with an input that is next in order.
unfoldable pub accept_input :
    Controller → ℕ → Bytes → Option (Controller × Result Message InputDecision)
accept_input c seq bs = elim (evict (c.recent ++ (seq, bs) ∷ []) (c.recent_bytes + length bs)) [
  | none ↦ none
  | some (recent, recent_bytes) ↦ some (
    record c {
      last_sequence = seq;
      recent = recent;
      recent_bytes = recent_bytes;
      uncertain = true;
    },
    ok write,
  )
]

unfoldable pub prepare :
    Controller → ℕ → ℕ → Bytes → Option (Controller × Result Message InputDecision)
unfolding check
prepare c g seq bs = elim (check c g) [
  | err e ↦ some (c, err e)
  | ok u ↦
      if c.uncertain
      then some (c, err outcome_unknown)
      else if not (seq == 0) && leb seq c.last_sequence
      then some (c, (if is_recent seq bs c.recent then ok duplicate else err out_of_order))
      else elim (checked_add c.last_sequence 1) [
        | none ↦ some (c, err sequence_exhausted)
        | some next ↦
            if not (seq == next) then some (c, err out_of_order) else accept_input c seq bs
      ]
]

unfoldable pub written : Controller → Controller
written c = record c { uncertain = false }
