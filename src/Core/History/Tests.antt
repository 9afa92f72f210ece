-- ===== src/Core/History/Tests.antt =====
-- Runs of the history, and the theorems about it at concrete inputs.
use dot_terminal.Prelude.{◌≡◌, refl, List, [], ◌∷◌, some, true, arith, ok, get_elem?}
use dot_terminal.Core.History.{
  History, Geometry, fresh, first_geometry, append, read, read_frame, prune, prune_stale,
  prune_bound, oldest, push_all, push_byte, mark_at, until, rposition,
}
use dot_terminal.Core.History.IsValid.{IsValid, fresh-IsValid, append-IsValid}
use dot_terminal.Core.History.Ring.{read-IsRing, append-IsRing, fresh-IsRing}
use dot_terminal.Core.History.Grids.{HasGrids, read_frame-HasGrids, append-HasGrids}
use dot_terminal.Core.History.Runs.{
  Op, output, resized, run, stream, tape, Refines, blank_tape, run-Refines, fresh-HasGrids,
}

abbrev sample_ops : List Op
sample_ops = output (1 ∷ 2 ∷ 3 ∷ []) ∷ resized 100 40 ∷ output (4 ∷ 5 ∷ []) ∷ []

run-Refines_example :
    (h : History) × (run (fresh 4 80 24) sample_ops ≡ some h)
    × Refines h (stream sample_ops) (tape (blank_tape 80 24) sample_ops)
unfolding stream
run-Refines_example = run-Refines 4 80 24 sample_ops (omega arith) (omega arith) (omega arith)

-- Three bytes in a ring of two.
abbrev full : History
full = record { bytes = 2 ∷ 3 ∷ []; capacity = 2; next = 3; marks = (0, first_geometry 80 24) ∷ [] }

appended_full : append (fresh 2 80 24) (1 ∷ 2 ∷ 3 ∷ []) ≡ some full
unfolding append prune prune_stale prune_bound oldest push_all push_byte
appended_full = refl

full-IsValid : IsValid full
full-IsValid =
    append-IsValid (fresh 2 80 24) (1 ∷ 2 ∷ 3 ∷ []) (fresh-IsValid 2 80 24 (omega arith))
      appended_full

full-HasGrids : HasGrids full (record {
  tags = first_geometry 80 24 ∷ first_geometry 80 24 ∷ first_geometry 80 24 ∷ [];
  grid = first_geometry 80 24;
})
full-HasGrids =
    append-HasGrids (fresh 2 80 24) (blank_tape 80 24) (1 ∷ 2 ∷ 3 ∷ [])
      (fresh-IsValid 2 80 24 (omega arith)) (fresh-HasGrids 2 80 24) appended_full

read_frame-HasGrids_example :
    get_elem? (first_geometry 80 24 ∷ first_geometry 80 24 ∷ first_geometry 80 24 ∷ []) 2
    ≡ some (first_geometry 80 24)
unfolding read_frame read oldest mark_at until rposition
read_frame-HasGrids_example =
    read_frame-HasGrids full-IsValid full-HasGrids 0 10
      {f = record {
        chunk = record { start = 1; next = 3; gap = true; content = 2 ∷ 3 ∷ [] };
        geometry = first_geometry 80 24;
      }}
      refl (omega arith) 2 (omega arith) (omega arith)

read-IsRing_example :
    read full 0 1 ≡ ok (record { start = 1; next = 2; gap = true; content = 2 ∷ [] })
read-IsRing_example =
    read-IsRing full (1 ∷ 2 ∷ 3 ∷ []) 0 1
      (append-IsRing (fresh 2 80 24) [] (1 ∷ 2 ∷ 3 ∷ []) (fresh-IsRing 2 80 24 (omega arith))
        appended_full)
      (omega arith)

abbrev wide : Geometry
wide = record { cols = 100; rows = 40; epoch = 1 }
