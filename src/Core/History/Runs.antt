-- ===== src/Core/History/Runs.antt =====
-- A history over any sequence of appends and resizes: what its readers get.
use dot_terminal.Prelude.{
  ℕ, ◌+◌, ◌≤◌, ◌<◌, ◌≡◌, refl, sym, ◌∙◌, ap, Option, none, some, List, [], ◌∷◌, ◌++◌, arith, length,
  Bytes, u64_max, length-append,
}
use mathlib.Core.Option
use mathlib.Core.List.{append-nil, append_assoc}
use dot_terminal.Core.History.Steps.{appended, append_total, resize_total, next_geometry}
use dot_terminal.Core.History.{
  History, Geometry, marked, append, resize, fresh, first_geometry, back, geometry,
}
use dot_terminal.Core.History.Ring.{IsRing, append-IsRing, resize-IsRing, fresh-IsRing}
use dot_terminal.Core.History.IsValid.{IsValid, append-IsValid, resize-IsValid, fresh-IsValid}
use dot_terminal.Core.History.Grids.{
  Tape, HasGrids, tape_append, tape_resize, append-HasGrids, resize-HasGrids,
}

-- What the keeper does to a history.
pub data Op : Type 0 where
  output : Bytes → Op
  resized : ℕ → ℕ → Op

abbrev pub step : History → Op → Option History
step h (output bs) = append h bs
step h (resized cols rows) = Option.map (λ r. r.0) (resize h cols rows)

-- `none` if an operation panicked.
unfoldable pub run : History → List Op → Option History
run h [] = some h
run h (op ∷ ops) = elim (step h op) [ none ↦ none | some h' ↦ run h' ops ]

abbrev pub output_of : Op → Bytes
output_of (output bs) = bs
output_of (resized cols rows) = []

-- All output, and each byte with the grid that it was produced under.
unfoldable pub stream : List Op → Bytes
stream [] = []
stream (op ∷ ops) = output_of op ++ stream ops

abbrev pub tape_step : Tape → Op → Tape
tape_step t (output bs) = tape_append t bs
tape_step t (resized cols rows) = tape_resize t cols rows

unfoldable pub tape : Tape → List Op → Tape
tape t [] = t
tape t (op ∷ ops) = tape (tape_step t op) ops

pub stream_snoc : (ops : List Op) (op : Op) → stream (ops ++ op ∷ []) ≡ stream ops ++ output_of op
unfolding stream
stream_snoc [] op = append-nil (output_of op)
stream_snoc (o ∷ ops) op =
    ap (λ bs. output_of o ++ bs) (stream_snoc ops op)
    ∙ sym (append_assoc (output_of o) (stream ops) (output_of op))

pub tape_snoc :
    (t : Tape) (ops : List Op) (op : Op) → tape t (ops ++ op ∷ []) ≡ tape_step (tape t ops) op
unfolding tape
tape_snoc t [] op = refl
tape_snoc t (o ∷ ops) op = tape_snoc (tape_step t o) ops op

-- The invariant and both views of a history.
pub record Refines (h : History) (all : Bytes) (t : Tape) : Type 0 where
  pub valid : IsValid h
  pub ring : IsRing h all
  pub grids : HasGrids h t

resized_some :
    (o : Option (History × Geometry)) {h : History}
    → Option.map (λ r. r.0) o ≡ some h
    → (g : Geometry) × (o ≡ some (h, g))
resized_some none e = cc
resized_some (some (h, g)) e = (g, ground arith)

pub step-Refines :
    (h : History) (all : Bytes) (t : Tape) (op : Op) {h' : History}
    → Refines h all t
    → step h op ≡ some h'
    → Refines h' (all ++ output_of op) (tape_step t op)
step-Refines h all t (output bs) r e = record {
  valid = append-IsValid h bs r.valid e;
  ring = append-IsRing h all bs r.ring e;
  grids = append-HasGrids h t bs r.valid r.grids e;
}
step-Refines h all t (resized cols rows) r e =
    let (g, hit) = resized_some (resize h cols rows) e in
    rw append-nil (record {
      valid = resize-IsValid h cols rows r.valid hit;
      ring = resize-IsRing h all cols rows r.ring hit;
      grids = (resize-HasGrids h t cols rows r.valid r.grids hit).1;
    })

-- No operation panics while the offsets and the epochs stay in range.
step_total :
    (h : History) (all : Bytes) (t : Tape) (op : Op)
    → Refines h all t
    → h.next + length (output_of op) ≤ u64_max
    → t.grid.epoch < u64_max
    → (h' : History) × (step h op ≡ some h')
step_total h all t (output bs) r b g = (appended h bs, append_total h bs b)
step_total h all t (resized cols rows) r b g = (
  marked h (next_geometry t.grid cols rows),
  ap (Option.map (λ r. r.0)) (resize_total h cols rows r.grids.current g),
)

epoch-tape_step : (t : Tape) (op : Op) → (tape_step t op).grid.epoch ≤ t.grid.epoch + 1
epoch-tape_step t (output bs) = omega arith
epoch-tape_step t (resized cols rows) = omega arith

run-Refines_from :
    (h : History) (all : Bytes) (t : Tape) (ops : List Op)
    → Refines h all t
    → length all + length (stream ops) ≤ u64_max
    → t.grid.epoch + length ops ≤ u64_max
    → (h' : History) × (run h ops ≡ some h') × Refines h' (all ++ stream ops) (tape t ops)
unfolding run stream tape
run-Refines_from h all t [] r b g = (h, refl, rw append-nil r)
run-Refines_from h all t (op ∷ ops) r b g =
    let size = length-append (output_of op) (stream ops) in
    let (h₁, e) = step_total h all t op r (omega (arith, r.ring.counted)) (omega arith) in
    let (h', ran, last) =
      run-Refines_from h₁ (all ++ output_of op) (tape_step t op) ops (step-Refines h all t op r e)
        (omega (arith, length-append all (output_of op))) (omega (arith, epoch-tape_step t op)) in
    (h', rw (e, run) ran, rw (← append_assoc all (output_of op) (stream ops)) last)

abbrev pub blank_tape : ℕ → ℕ → Tape
blank_tape cols rows = record { tags = []; grid = first_geometry cols rows }

pub fresh-HasGrids :
    (capacity cols rows : ℕ) → HasGrids (fresh capacity cols rows) (blank_tape cols rows)
unfolding geometry back
fresh-HasGrids capacity cols rows = record {
  counted = refl;
  current = refl;
  labels = λ i b f. absurd (omega arith);
}

-- After any sequence of outputs and resizes on a new history of positive capacity, of fewer than
-- 2^64 output bytes and fewer than 2^64 operations, no operation panicked, the history is valid, its
-- ring is the end of all output, and it names the grid of every byte from its first mark on.
pub run-Refines :
    (capacity cols rows : ℕ) (ops : List Op)
    → 0 < capacity
    → length (stream ops) ≤ u64_max
    → length ops ≤ u64_max
    → (h : History) × (run (fresh capacity cols rows) ops ≡ some h)
      × Refines h (stream ops) (tape (blank_tape cols rows) ops)
run-Refines capacity cols rows ops p b g =
    run-Refines_from (fresh capacity cols rows) [] (blank_tape cols rows) ops
      (record {
        valid = fresh-IsValid capacity cols rows p;
        ring = fresh-IsRing capacity cols rows p;
        grids = fresh-HasGrids capacity cols rows;
      })
      (omega arith) (omega arith)
