-- ===== src/Session/Dispatch.antt =====
-- What a request changes in a keeper: `dispatch` of crates/session/src/main.rs.
use dot_terminal.Prelude.{
  List, [], ◌∷◌, leb, ◌&&◌, is_ok, none, if◌then◌else◌, ℕ, ◌≡◌, refl, sym, ap, subst, ◌⊎◌, ◌||◌,
  Option, some, length, ltb, Text, Bytes, Result, ok, err, arith, inl, inr, Bool-cases,
  Option-cases, Result-cases, was_ok, was_err, All,
}
use dot_terminal.Message.{Message}
use dot_terminal.Core.History
use dot_terminal.Core.History.Runs as Runs
use dot_terminal.Core.History.{History}
use dot_terminal.Core.History.IsValid
use dot_terminal.Core.Controller
use dot_terminal.Core.Controller.{Controller, InputDecision}
use dot_terminal.Core.Presence
use dot_terminal.Core.Presence.{Presence}
use dot_terminal.Core.Presence.Views
use dot_terminal.Core.Presence.Hello.{hello-IsValid}
use dot_terminal.Protocol.{Operation, Response}
use dot_terminal.Session.{
  State, Engine, Outside, input, decided, write_input, say_hello, acquire_as, release,
  offer_handoff,
}
use dot_terminal.Session.Requests.{dispatch, resize, resized}

-- The rest of the keeper's state that must stay well formed.
pub record IsWellFormed {E : Type 0} (s : State E) : Type 0 where
  pub history : History.IsValid.IsValid s.history
  pub presence : Presence.Views.IsValid s.presence

-- What the program and its terminal have to do with: a request changes it by a resize at most.
pub record SameTerminal {E : Type 0} (s s' : State E) : Type 0 where
  pub history : s'.history ≡ s.history
  pub grid : s'.grid ≡ s.grid
  pub exited : s'.exited ≡ s.exited
  pub output_closed : s'.output_closed ≡ s.output_closed

pub record Resized {E : Type 0} (s s' : State E) : Type 0 where
  pub cols : ℕ
  pub rows : ℕ
  pub geometry : History.Geometry
  pub history : History.resize s.history cols rows ≡ some (s'.history, geometry)
  pub grid : s'.grid ≡ (cols, rows)
  pub exited : s'.exited ≡ s.exited
  pub output_closed : s'.output_closed ≡ s.output_closed

-- What an operation is to do to the terminal: nothing, unless it is a resize by the holder of control,
-- within the limits, that the terminal takes.
unfoldable pub resizes : {E : Type 0} → State E → Outside → Operation → List Runs.Op
resizes s o (Operation.resize g cols rows) = elim o.resize_error [
  | some e ↦ []
  | none ↦
      if is_ok (Controller.check s.controller g) && (leb cols 240 && leb rows 100)
      then Runs.resized cols rows ∷ []
      else []
]
resizes s o _ = []

-- The terminal after what was done to it.
pub data Terminal {E : Type 0} (s s' : State E) (ops : List Runs.Op) : Type 0 where
  stays : ops ≡ [] → SameTerminal s s' → Terminal s s' ops
  reshapes : (z : Resized s s') → ops ≡ Runs.resized z.cols z.rows ∷ [] → Terminal s s' ops

Terminal-IsValid :
    {E : Type 0} (s s' : State E) {ops : List Runs.Op}
    → History.IsValid.IsValid s.history
    → Terminal s s' ops
    → History.IsValid.IsValid s'.history
Terminal-IsValid s s' v (stays nothing same) = subst History.IsValid.IsValid (sym same.history) v
Terminal-IsValid s s' v (reshapes r one) =
    History.IsValid.resize-IsValid s.history r.cols r.rows v r.history

-- An input leaves the terminal and the views alone.
abbrev pub Leaves : {E : Type 0} → State E → State E → Type 0
Leaves s s' = SameTerminal s s' × (s'.presence.views ≡ s.presence.views)

decided-history :
    {E : Type 0} (s : State E) (o : Outside) (bs : Bytes) (c : Controller)
    (d : Result Message InputDecision)
    → Leaves s (decided s o bs (c, d)).0
unfolding decided write_input Presence.input
decided-history s o bs c (err e) = (ground arith, refl)
decided-history s o bs c (ok InputDecision.duplicate) = (ground arith, refl)
decided-history s o bs c (ok InputDecision.write) = (ground arith, ground arith)

input-history :
    {E : Type 0} (s : State E) (o : Outside) (g seq : ℕ) (bs : Bytes) {s' : State E} {r : Response}
    → input s o g seq bs ≡ some (s', r)
    → Leaves s s'
unfolding input
input-history s o g seq bs {s'} e = elim (Option-cases (Controller.prepare s.controller g seq bs)) [
  | inl bad ↦ (ground arith, ground arith)
  | inr ((c, d), good) ↦
      let h = decided-history s o bs c d in (ground (arith, h), ground (arith, h))
]

-- Whoever lacks control types nothing.
input-typed :
    {E : Type 0} (s : State E) (o : Outside) (g seq : ℕ) (bs : Bytes) {s' : State E} {r : Response}
    → input s o g seq bs ≡ some (s', r)
    → (s'.typed ≡ s.typed) ⊎ (Controller.check s.controller g ≡ ok tt)
unfolding input decided Controller.prepare
input-typed s o g seq bs {s'} e = elim (Result-cases (Controller.check s.controller g)) [
  | was_err x bad ↦ inl (ground arith)
  | was_ok u held ↦ inr held
]

views-IsValid :
    {p p' : Presence} → p'.views ≡ p.views → Presence.Views.IsValid p → Presence.Views.IsValid p'
views-IsValid e v = record {
  distinct = subst Presence.Views.Distinct (sym e) v.distinct;
  few = omega (arith, ap length e, v.few);
  known = subst (All Presence.Views.IsKnown) (sym e) v.known;
}

some-injective-state :
    {E : Type 0} {a b : State E} {r q : Response}
    → ◌≡◌ {A = Option (State E × Response)} (some (a, r)) (some (b, q))
    → a ≡ b
some-injective-state e = cc

say_hello-views :
    {E : Type 0} (s : State E) (now : ℕ) (view label kind : Text)
    → Presence.Views.IsValid s.presence
    → Presence.Views.IsValid (say_hello s now view label kind).0.presence
unfolding say_hello Presence.snapshot
say_hello-views s now view label kind v =
    let v' = hello-IsValid s.presence now view label kind v in
    elim (Result-cases (Presence.hello s.presence now view label kind).1) [
      | was_err x bad ↦ subst Presence.Views.IsValid (ground arith) v'
      | was_ok u good ↦
          subst Presence.Views.IsValid (ground arith)
            (Presence.Views.prune-IsValid (Presence.hello s.presence now view label kind).0 now v')
    ]

module _ {E : Type 0} (engine : Engine E) (to_vec : Response → Option Bytes) where
  resize-Terminal :
      (s : State E) (o : Outside) (g cols rows : ℕ) {s' : State E} {r : Response}
      → resize engine to_vec s o g cols rows ≡ some (s', r)
      → Terminal s s' (resizes s o (Operation.resize g cols rows))
  unfolding resize resized resizes
  resize-Terminal s o g cols rows {s'} e = elim (Option-cases o.resize_error) [
    | inr (x, stop) ↦ stays (ground arith) (ground arith)
    | inl through ↦ elim (Result-cases (Controller.check s.controller g)) [
      | was_err x bad ↦ stays (ground arith) (ground arith)
      | was_ok u held ↦ elim (Bool-cases (ltb 240 cols || ltb 100 rows)) [
        | inl large ↦ stays (ground arith) (ground arith)
        | inr fits ↦ elim (Option-cases (History.resize s.history cols rows)) [
          | inl bad ↦ absurd (ground arith)
          | inr ((h, grid), good) ↦
              reshapes
                (record {
                  cols = cols;
                  rows = rows;
                  geometry = grid;
                  history = ground arith;
                  grid = ground arith;
                  exited = ground arith;
                  output_closed = ground arith;
                })
                (ground arith)
        ]
      ]
    ]
  ]

  -- A request leaves the terminal as it was, or resizes it, as the operation says.
  pub dispatch-Terminal :
      (s : State E) (id : Text) (o : Outside) (op : Operation) {s' : State E} {r : Response}
      → dispatch engine to_vec s id o op ≡ some (s', r)
      → Terminal s s' (resizes s o op)
  unfolding resizes dispatch say_hello acquire_as release offer_handoff
  dispatch-Terminal s id o Operation.status e = stays refl (ground arith)
  dispatch-Terminal s id o Operation.screen e = stays refl (ground arith)
  dispatch-Terminal s id o (Operation.read after) e = stays refl (ground arith)
  dispatch-Terminal s id o (Operation.read_frame after) e = stays refl (ground arith)
  dispatch-Terminal s id o Operation.stop e = stays refl (ground arith)
  dispatch-Terminal s id o (Operation.hello view label kind) e = stays refl (ground arith)
  dispatch-Terminal s id o (Operation.input g seq bs) e =
      stays refl (input-history s o g seq bs e).0
  dispatch-Terminal s id o (Operation.acquire takeover) e = stays refl (ground arith)
  dispatch-Terminal s id o (Operation.acquire_as view takeover) e = stays refl (ground arith)
  dispatch-Terminal s id o (Operation.offer_handoff g) e = stays refl (ground arith)
  dispatch-Terminal s id o (Operation.accept_handoff ticket) e = stays refl (ground arith)
  dispatch-Terminal s id o (Operation.cancel_handoff g) e = stays refl (ground arith)
  dispatch-Terminal s id o (Operation.check_control g) e = stays refl (ground arith)
  dispatch-Terminal s id o (Operation.release g) e = stays refl (ground arith)
  dispatch-Terminal s id o (Operation.resize g cols rows) e = resize-Terminal s o g cols rows e
  dispatch-Terminal s id o (Operation.subscribe after) e = absurd (ground arith)

  resize-typed :
      (s : State E) (o : Outside) (g cols rows : ℕ) {s' : State E} {r : Response}
      → resize engine to_vec s o g cols rows ≡ some (s', r)
      → (s'.typed ≡ s.typed) × (s'.presence ≡ s.presence)
  unfolding resize resized
  resize-typed s o g cols rows e = (ground arith, ground arith)

  -- A request that is answered leaves what was typed into the program as it was, unless it is an
  -- input under the generation that has control.
  pub dispatch-typed :
      (s : State E) (id : Text) (o : Outside) (op : Operation) {s' : State E} {r : Response}
      → dispatch engine to_vec s id o op ≡ some (s', r)
      → (s'.typed ≡ s.typed)
        ⊎ ((g : ℕ) × (seq : ℕ) × (bs : Bytes) × (op ≡ Operation.input g seq bs)
            × (Controller.check s.controller g ≡ ok tt))
  unfolding dispatch say_hello acquire_as release offer_handoff
  dispatch-typed s id o Operation.status e = inl (ground arith)
  dispatch-typed s id o Operation.screen e = inl (ground arith)
  dispatch-typed s id o (Operation.read after) e = inl (ground arith)
  dispatch-typed s id o (Operation.read_frame after) e = inl (ground arith)
  dispatch-typed s id o Operation.stop e = inl (ground arith)
  dispatch-typed s id o (Operation.hello view label kind) e = inl (ground arith)
  dispatch-typed s id o (Operation.input g seq bs) e = elim (input-typed s o g seq bs e) [
    | inl same ↦ inl same
    | inr held ↦ inr (g, seq, bs, refl, held)
  ]
  dispatch-typed s id o (Operation.acquire takeover) e = inl (ground arith)
  dispatch-typed s id o (Operation.acquire_as view takeover) e = inl (ground arith)
  dispatch-typed s id o (Operation.offer_handoff g) e = inl (ground arith)
  dispatch-typed s id o (Operation.accept_handoff ticket) e = inl (ground arith)
  dispatch-typed s id o (Operation.cancel_handoff g) e = inl (ground arith)
  dispatch-typed s id o (Operation.check_control g) e = inl (ground arith)
  dispatch-typed s id o (Operation.release g) e = inl (ground arith)
  dispatch-typed s id o (Operation.resize g cols rows) e = inl (resize-typed s o g cols rows e).0
  dispatch-typed s id o (Operation.subscribe after) e = absurd (ground arith)

  -- The views change by a greeting alone.
  pub dispatch-views :
      (s : State E) (id : Text) (o : Outside) (op : Operation) {s' : State E} {r : Response}
      → dispatch engine to_vec s id o op ≡ some (s', r)
      → Presence.Views.IsValid s.presence
      → Presence.Views.IsValid s'.presence
  unfolding dispatch say_hello acquire_as release Presence.took Presence.cleared offer_handoff
  dispatch-views s id o Operation.status e v = views-IsValid (ground arith) v
  dispatch-views s id o Operation.screen e v = views-IsValid (ground arith) v
  dispatch-views s id o (Operation.read after) e v = views-IsValid (ground arith) v
  dispatch-views s id o (Operation.read_frame after) e v = views-IsValid (ground arith) v
  dispatch-views s id o Operation.stop e v = views-IsValid (ground arith) v
  dispatch-views s id o (Operation.hello view label kind) e v =
      subst Presence.Views.IsValid (ap (λ (x : State E). x.presence) (some-injective-state e))
        (say_hello-views s o.now_ms view label kind v)
  dispatch-views s id o (Operation.input g seq bs) e v =
      views-IsValid (input-history s o g seq bs e).1 v
  dispatch-views s id o (Operation.acquire takeover) e v = views-IsValid (ground arith) v
  dispatch-views s id o (Operation.acquire_as view takeover) e v = views-IsValid (ground arith) v
  dispatch-views s id o (Operation.offer_handoff g) e v = views-IsValid (ground arith) v
  dispatch-views s id o (Operation.accept_handoff ticket) e v = views-IsValid (ground arith) v
  dispatch-views s id o (Operation.cancel_handoff g) e v = views-IsValid (ground arith) v
  dispatch-views s id o (Operation.check_control g) e v = views-IsValid (ground arith) v
  dispatch-views s id o (Operation.release g) e v = views-IsValid (ground arith) v
  dispatch-views s id o (Operation.resize g cols rows) e v =
      views-IsValid (ap (λ p. p.views) (resize-typed s o g cols rows e).1) v
  dispatch-views s id o (Operation.subscribe after) e v = absurd (ground arith)

  -- A request that is answered keeps the history and the presence of the keeper valid.
  pub dispatch-IsWellFormed :
      (s : State E) (id : Text) (o : Outside) (op : Operation) {s' : State E} {r : Response}
      → IsWellFormed s
      → dispatch engine to_vec s id o op ≡ some (s', r)
      → IsWellFormed s'
  dispatch-IsWellFormed s id o op {s'} v e = record {
    history = Terminal-IsValid s s' v.history (dispatch-Terminal s id o op e);
    presence = dispatch-views s id o op e v.presence;
  }
