-- ===== src/Session/Keeper/Records.antt =====
-- What the terminal of a keeper went through, in terms of the steps of its threads, and that the history
-- has it: `keeper` and `dispatch` of crates/session/src/main.rs.
use dot_terminal.Prelude.{
  is_ok, List, ◌∷◌, if◌then◌else◌, ℕ, ◌≡◌, refl, sym, ap, ◌∙◌, subst, inl, inr, Bool, Option, some,
  [], ◌++◌, Text, Bytes, ok, err, arith, Option-cases, Result-cases, was_ok, was_err,
}
use mathlib.Core.Option
use dot_terminal.Core.History
use dot_terminal.Core.History.{History, Geometry}
use dot_terminal.Core.History.IsValid.{fresh-IsValid}
use dot_terminal.Core.History.Ring.{fresh-IsRing}
use dot_terminal.Core.History.Runs.{
  Refines, step-Refines, Op, output, resized, stream, tape, step, tape_step, stream_snoc, tape_snoc,
  blank_tape, fresh-HasGrids,
}
use dot_terminal.Core.Presence
use dot_terminal.Core.Presence.{Presence}
use dot_terminal.Core.Presence.Views
use dot_terminal.Protocol.{Response, validate}
use dot_terminal.Session.{State, Engine, Outside, notify}
use dot_terminal.Session.Requests.{dispatch}
use mathlib.Core.List.{append-nil}
use dot_terminal.Session.Dispatch.{
  resizes, Terminal, stays, reshapes, dispatch-Terminal, dispatch-views,
}
use dot_terminal.Session.Keeper.{
  Keeper, Asked, start, capacity, feed, respond, ◌⟶◌, ◌⟶*◌, outputs, closes_output, exits, connects,
  answers, streams, unsubscribes, reaps, here, goes_on,
}

module _ {E : Type 0} (engine : Engine E) (to_vec : Response → Option Bytes) where
  -- What the answer to a request is to do to the terminal.
  unfoldable pub reshaped : State E → Outside → Asked → List Op
  reshaped s o (err x) = []
  reshaped s o (ok req) = if is_ok (validate req) then resizes s o req.operation else []

  -- The output that a step takes in, or the resize that it makes.
  unfoldable pub heard : (k k' : Keeper E) → ◌⟶◌ engine to_vec k k' → List Op
  heard k k' (outputs bs opened fed) = output bs ∷ []
  heard k k' (answers id o asked one done) = reshaped k.session o asked
  heard k k' (closes_output opened) = []
  heard k k' exits = []
  heard k k' (connects now) = []
  heard k k' (streams after now next r one at) = []
  heard k k' (unsubscribes one) = []
  heard k k' (reaps retention now socket r) = []

  unfoldable pub all_heard : {k k' : Keeper E} → ◌⟶*◌ engine to_vec k k' → List Op
  unfolding heard
  all_heard here = []
  all_heard (goes_on {m = m} {n = n} before last) = all_heard before ++ heard m n last

-- The history has all output of some operations, and the grid that each byte of it was produced under;
-- the grid in force is that of the terminal.
pub record Records {E : Type 0} (s : State E) (ops : List Op) : Type 0 where
  pub refines : Refines s.history (stream ops) (tape (blank_tape 80 24) ops)
  pub cols : (tape (blank_tape 80 24) ops).grid.cols ≡ s.grid.0
  pub rows : (tape (blank_tape 80 24) ops).grid.rows ≡ s.grid.1
  pub views : Presence.Views.IsValid s.presence

pub start-Records :
    {E : Type 0} (screen : E) (pid : Option ℕ) (incarnation : Text)
    → Records (start screen pid incarnation).session []
unfolding start stream tape
start-Records screen pid incarnation = record {
  refines = record {
    valid = fresh-IsValid capacity 80 24 (omega arith);
    ring = fresh-IsRing capacity 80 24 (omega arith);
    grids = fresh-HasGrids capacity 80 24;
  };
  cols = refl;
  rows = refl;
  views = record { distinct = tt; few = omega arith; known = tt };
}

-- The records do not depend on the rest.
pub kept :
    {E : Type 0} (s s' : State E) (ops : List Op)
    → s'.history ≡ s.history
    → s'.grid ≡ s.grid
    → Presence.Views.IsValid s'.presence
    → Records s ops
    → Records s' ops
kept s s' ops history grid views r = record {
  refines =
      subst (λ h. Refines h (stream ops) (tape (blank_tape 80 24) ops)) (sym history) r.refines;
  cols = r.cols ∙ ap (λ g. g.0) (sym grid);
  rows = r.rows ∙ ap (λ g. g.1) (sym grid);
  views = views;
}

-- One operation more.
grown :
    {E : Type 0} (s s' : State E) (ops : List Op) (op : Op)
    → step s.history op ≡ some s'.history
    → (tape_step (tape (blank_tape 80 24) ops) op).grid.cols ≡ s'.grid.0
    → (tape_step (tape (blank_tape 80 24) ops) op).grid.rows ≡ s'.grid.1
    → Presence.Views.IsValid s'.presence
    → Records s ops
    → Records s' (ops ++ op ∷ [])
grown s s' ops op e cols rows views r =
    let longer = tape_snoc (blank_tape 80 24) ops op in
    record {
      refines =
          rw (stream_snoc ops op, longer)
            (step-Refines s.history (stream ops) (tape (blank_tape 80 24) ops) op r.refines e);
      cols = rw longer cols;
      rows = rw longer rows;
      views = views;
    }

Terminal-Records :
    {E : Type 0} (s s' : State E) (ops made : List Op)
    → Terminal s s' made
    → Presence.Views.IsValid s'.presence
    → Records s ops
    → Records s' (ops ++ made)
Terminal-Records s s' ops made (stays nothing same) views r =
    subst (Records s') (sym (append-nil ops) ∙ ap (λ m. ops ++ m) (sym nothing))
      (kept s s' ops same.history same.grid views r)
Terminal-Records s s' ops made (reshapes z one) views r =
    subst (λ m. Records s' (ops ++ m)) (sym one)
      (grown s s' ops (resized z.cols z.rows) (ap (Option.map (λ x. x.0)) z.history)
        (ap (λ g. g.0) (sym z.grid)) (ap (λ g. g.1) (sym z.grid)) views r)

module _ {E : Type 0} (engine : Engine E) (to_vec : Response → Option Bytes) where
  pub feed-Records :
      (s : State E) (ops : List Op) (bs : Bytes) {s' : State E}
      → feed engine to_vec s bs ≡ some s'
      → Records s ops
      → Records s' (ops ++ output bs ∷ [])
  unfolding feed
  feed-Records s ops bs {s'} e r = elim (Option-cases (History.append s.history bs)) [
    | inl bad ↦ absurd (ground arith)
    | inr (h, good) ↦
        let fed : State E = notify (record s { screen = engine.feed s.screen bs; history = h }) in
        let same : fed ≡ s' = ground arith in
        subst (λ x. Records x (ops ++ output bs ∷ [])) same
          (grown s fed ops (output bs) good r.cols r.rows r.views r)
  ]

  pub respond-Records :
      (s : State E) (ops : List Op) (id : Text) (o : Outside) (asked : Asked) {s' : State E}
      {answer : Response × Bool}
      → respond engine to_vec s id o asked ≡ some (s', answer)
      → Records s ops
      → Records s' (ops ++ reshaped engine to_vec s o asked)
  unfolding respond reshaped
  respond-Records s ops id o (err x) {s'} e r =
      Terminal-Records s s' ops [] (stays refl (ground arith))
        (subst Presence.Views.IsValid (ground arith) r.views) r
  respond-Records s ops id o (ok req) {s'} e r = elim (Result-cases (validate req)) [
    | was_err x bad ↦ rw bad (
        Terminal-Records s s' ops [] (stays refl (ground arith))
          (subst Presence.Views.IsValid (ground arith) r.views) r)
    | was_ok u good ↦ elim (Option-cases (dispatch engine to_vec s id o req.operation)) [
      | inl bad ↦ absurd (ground arith)
      | inr ((s₁, response), done) ↦
          let same : s₁ ≡ s' = ground arith in
          let views = dispatch-views engine to_vec s id o req.operation done r.views in
          rw good (
            subst (λ x. Records x (ops ++ resizes s o req.operation)) same
              (Terminal-Records s s₁ ops (resizes s o req.operation)
                (dispatch-Terminal engine to_vec s id o req.operation done) views r))
    ]
  ]
