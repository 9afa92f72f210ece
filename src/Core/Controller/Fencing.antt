-- ===== src/Core/Controller/Fencing.antt =====
-- Generations that lost control: `acquire` and `check` of crates/core/src/lib.rs.
use dot_terminal.Prelude.{
  ℕ, ◌≤◌, ◌<◌, ◌≡◌, ◌≢◌, ◌⊎◌, inl, inr, Bool, false, some, List, [], ◌∷◌, arith, Bytes, ok, err,
  Option-cases,
}
use mathlib.Core.Option
use dot_terminal.Message.{stale_generation}
use dot_terminal.Core.Controller.{
  Controller, acquire, check, release, offer_handoff, cancel_handoff, accept_handoff, prepare,
  accept_input, written,
}
use dot_terminal.Core.Controller.Calls.{
  Call, acquires, releases, offers, cancels, accepts, prepares, writes, step, run,
}

-- A successful `acquire` returns a new generation, which alone passes `check` from then on.
pub acquire_fences :
    (c : Controller) (takeover : Bool) (g other : ℕ)
    → (acquire c takeover).1 ≡ ok g
    → (c.generation < g)
      × (check (acquire c takeover).0 g ≡ ok tt)
      × (other ≢ g → check (acquire c takeover).0 other ≡ err stale_generation)
unfolding acquire check
acquire_fences c takeover g other e = ground arith

-- The generation is over: a later one was given out, or it was released.
abbrev pub IsStale : Controller → ℕ → Type 0
IsStale c g = (g < c.generation) ⊎ ((g ≤ c.generation) × (c.active ≡ false))

-- Exactly these generations, among those given out, are refused.
pub check-IsStale : (c : Controller) (g : ℕ) → IsStale c g → check c g ≡ err stale_generation
unfolding check
check-IsStale c g s = ground arith

acquire-IsStale :
    (c : Controller) (takeover : Bool) (g : ℕ) → IsStale c g → IsStale (acquire c takeover).0 g
unfolding acquire
acquire-IsStale c takeover g s = ground arith

prepare-IsStale :
    (c : Controller) (g' seq : ℕ) (bs : Bytes) (g : ℕ) {c' : Controller}
    → IsStale c g
    → Option.map (λ r. r.0) (prepare c g' seq bs) ≡ some c'
    → IsStale c' g
unfolding prepare accept_input
prepare-IsStale c g' seq bs g s e = ground arith

step-IsStale :
    (c : Controller) (call : Call) (g : ℕ) {c' : Controller}
    → IsStale c g
    → step c call ≡ some c'
    → IsStale c' g
unfolding step
step-IsStale c (acquires takeover) g s e = ground (arith, acquire-IsStale c takeover g s)
step-IsStale c (releases g') g s e = unfold release check in ground arith
step-IsStale c (offers g' ticket now) g s e = unfold offer_handoff check in ground arith
step-IsStale c (cancels g') g s e = unfold cancel_handoff check in ground arith
step-IsStale c (accepts ticket now) g s e = unfold accept_handoff acquire in ground arith
step-IsStale c (prepares g' seq bs) g s e = prepare-IsStale c g' seq bs g s e
step-IsStale c writes g s e = unfold written in ground arith

-- A generation that is not greater than the present one, and is older than it or belongs to a lease
-- that has ended, is refused after any further calls that do not panic.
pub run-IsStale :
    (c : Controller) (calls : List Call) (g : ℕ) {c' : Controller}
    → IsStale c g
    → run c calls ≡ some c'
    → check c' g ≡ err stale_generation
unfolding run
run-IsStale c [] g s e = ground (arith, check-IsStale c g s)
run-IsStale c (call ∷ calls) g s e = elim (Option-cases (step c call)) [
  | inl miss ↦ cc miss
  | inr (c₁, hit) ↦ run-IsStale c₁ calls g (step-IsStale c call g s hit) (rw (hit, run) at e)
]

-- After an acquire that succeeds, any generation given out before it is refused as stale, after any
-- further calls that do not panic.
pub acquire-run_fences :
    (c : Controller) (takeover : Bool) (calls : List Call) (g old : ℕ) {c' : Controller}
    → (acquire c takeover).1 ≡ ok g
    → old ≤ c.generation
    → run (acquire c takeover).0 calls ≡ some c'
    → check c' old ≡ err stale_generation
unfolding acquire
acquire-run_fences c takeover calls g old e b r =
    run-IsStale (acquire c takeover).0 calls old (ground arith) r
