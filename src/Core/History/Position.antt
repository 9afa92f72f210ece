-- ===== src/Core/History/Position.antt =====
-- `rposition` of `read_frame`: the mark in force at an offset, and how far it reaches.
use dot_terminal.Prelude.{
  ℕ, suc, ◌≤◌, ◌<◌, ◌≡◌, refl, ◌∙◌, none, some, List, [], ◌∷◌, arith, inl, inr, get_elem?,
  Option-cases,
}
use mathlib.Core.Option
use native.Mathlib.Decide.{dec_le}
use dot_terminal.Core.History.{Mark, back, rposition, mark_at, until}
use dot_terminal.Core.History.Marks.{Ascends, first_offset, grid_at, grid_at_before}
use dot_terminal.Core.History.Pruning.{grid_at_skip}

pub rposition_from :
    (start : ℕ) (k : Mark) (ms : List Mark)
    → k.0 ≤ start
    → (j : ℕ) × (rposition start (k ∷ ms) ≡ some j)
unfolding rposition
rposition_from start k ms h = elim (Option-cases (rposition start ms)) [
  | inl e ↦ (0, ground arith)
  | inr (j, e) ↦ (suc j, ground arith)
]

pub rposition_before :
    (n start : ℕ) (k : Mark) (ms : List Mark)
    → Ascends n (k ∷ ms)
    → start < k.0
    → rposition start (k ∷ ms) ≡ none
unfolding rposition
rposition_before n start k [] a h = ground arith
rposition_before n start k (l ∷ ms) a h = ground (arith, rposition_before n start l ms)

-- The grid does not change from the mark in force at `start` up to the next mark.
pub mark_at-grid_at :
    (n start i : ℕ) (ms : List Mark)
    → Ascends n ms
    → first_offset ms ≤ start
    → start ≤ i
    → i < until (mark_at start ms) ms
    → grid_at ms i ≡ Option.map (λ m. m.1) (get_elem? ms (mark_at start ms))
unfolding mark_at until
mark_at-grid_at n start i [] a f h b = refl
mark_at-grid_at n start i (m ∷ []) a f h b = ground arith
mark_at-grid_at n start i (m ∷ k ∷ ms) a f h b = elim (dec_le k.0 start) [
  | yes past ↦
      let (j, e) = rposition_from start k ms past in
      grid_at_skip i m k ms (omega arith)
      ∙ ground (arith, mark_at-grid_at n start i (k ∷ ms) a.1 past h)
  | no ahead ↦
      ground (arith, rposition_before n start k ms a.1 (omega arith), grid_at_before n i k ms a.1)
]

rposition-some :
    (start : ℕ) (ms : List Mark) {j : ℕ}
    → rposition start ms ≡ some j
    → (k : Mark) × (get_elem? ms j ≡ some k)
unfolding rposition
rposition-some start [] e = cc
rposition-some start (m ∷ ms) {j} e = elim (Option-cases (rposition start ms)) [
  | inl miss ↦ (m, ground arith)
  | inr (i, hit) ↦ let (k, at) = rposition-some start ms hit in (k, ground arith)
]

-- The mark in force is one of the marks.
pub mark_at-some :
    (start : ℕ) (ms : List Mark) {m : Mark}
    → back ms ≡ some m
    → (k : Mark) × (get_elem? ms (mark_at start ms) ≡ some k)
unfolding mark_at back
mark_at-some start [] e = cc
mark_at-some start (m ∷ ms) e = elim (Option-cases (rposition start (m ∷ ms))) [
  | inl miss ↦ (m, ground arith)
  | inr (i, hit) ↦ let (k, at) = rposition-some start (m ∷ ms) hit in (k, ground arith)
]
