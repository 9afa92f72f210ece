-- ===== src/Core/History/Marks.antt =====
-- The marks of `History`: their order, and the grid in force at an offset.
use dot_terminal.Prelude.{
  ℕ, ◌≤◌, ◌<◌, ◌≡◌, refl, Option, none, some, List, [], ◌∷◌, ◌++◌, arith, leb, if◌then◌else◌,
  Option-cases, inl, inr,
}
use mathlib.Core.Option
use dot_terminal.Core.History.{Geometry, Mark, back}

-- The offsets rise, and none is past `n`.
abbrev pub Ascends : ℕ → List Mark → Type 0
Ascends n [] = Unit {0}
Ascends n (m ∷ []) = m.0 ≤ n
Ascends n (m ∷ k ∷ ms) = (m.0 < k.0) × Ascends n (k ∷ ms)

abbrev pub first_offset : List Mark → ℕ
first_offset [] = 0
first_offset (m ∷ ms) = m.0

-- The grid of the last mark at or before an offset.
abbrev pub grid_at : List Mark → ℕ → Option Geometry
grid_at [] i = none
grid_at (m ∷ ms) i = elim (grid_at ms i) [
  | some g ↦ some g
  | none ↦ if leb m.0 i then some m.1 else none
]

pub Ascends-mono : (n k : ℕ) (ms : List Mark) → n ≤ k → Ascends n ms → Ascends k ms
Ascends-mono n k [] h a = tt
Ascends-mono n k (m ∷ []) h a = omega arith
Ascends-mono n k (m ∷ l ∷ ms) h a = (a.0, Ascends-mono n k (l ∷ ms) h a.1)

pub first_offset-le : (n : ℕ) (ms : List Mark) → Ascends n ms → first_offset ms ≤ n
first_offset-le n [] a = omega arith
first_offset-le n (m ∷ []) a = a
first_offset-le n (m ∷ k ∷ ms) a = omega (arith, first_offset-le n (k ∷ ms) a.1)

-- Before the first mark no grid is known.
pub grid_at_before :
    (n i : ℕ) (m : Mark) (ms : List Mark) → Ascends n (m ∷ ms) → i < m.0 → grid_at (m ∷ ms) i ≡ none
grid_at_before n i m [] a h = ground arith
grid_at_before n i m (k ∷ ms) a h = ground (arith, grid_at_before n i k ms)

-- From the first mark on, one is.
pub grid_at_from :
    (i : ℕ) (m : Mark) (ms : List Mark) → m.0 ≤ i → (g : Geometry) × (grid_at (m ∷ ms) i ≡ some g)
grid_at_from i m ms h = elim (Option-cases (grid_at ms i)) [
  | inl e ↦ (m.1, ground arith)
  | inr (g, e) ↦ (g, ground arith)
]

-- Past every mark it is the last one's.
pub grid_at_end :
    (n i : ℕ) (ms : List Mark)
    → Ascends n ms
    → n ≤ i
    → grid_at ms i ≡ Option.map (λ m. m.1) (back ms)
unfolding back
grid_at_end n i [] a h = refl
grid_at_end n i (m ∷ []) a h = ground arith
grid_at_end n i (m ∷ k ∷ ms) a h =
    let (g, e) = grid_at_from i k ms (omega (arith, first_offset-le n (k ∷ ms) a.1)) in
    ground (arith, grid_at_end n i (k ∷ ms) a.1 h)

-- A mark at the end changes nothing before it.
pub grid_at-append :
    (i at : ℕ) (g : Geometry) (ms : List Mark)
    → i < at
    → grid_at (ms ++ (at, g) ∷ []) i ≡ grid_at ms i
grid_at-append i at g [] h = ground arith
grid_at-append i at g (m ∷ ms) h = ground (arith, grid_at-append i at g ms h)

pub back-append : (ms : List Mark) (m : Mark) → back (ms ++ m ∷ []) ≡ some m
unfolding back
back-append [] m = refl
back-append (k ∷ []) m = refl
back-append (k ∷ l ∷ ms) m = back-append (l ∷ ms) m
