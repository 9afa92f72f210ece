-- ===== src/Core/History/Pruning.antt =====
-- What pruning does to the marks of `History`.
use dot_terminal.Prelude.{
  ℕ, suc, ◌≤◌, ◌<◌, ◌≡◌, ◌≢◌, refl, sym, ap, ◌∙◌, none, some, List, [], ◌∷◌, ◌++◌, arith, length,
  leb, ltb, ltb→lt, Bool-cases, Option-cases, inl, inr, ◌⊎◌,
}
use dot_terminal.Core.History.{
  Geometry, Mark, back, pop_back, prune_stale, prune_bound, without_idle_mark, max_marks,
}
use dot_terminal.Core.History.Marks.{Ascends, first_offset, grid_at, grid_at_from}

-- From the second mark on, the first has no say.
pub grid_at_skip :
    (i : ℕ) (m k : Mark) (ms : List Mark) → k.0 ≤ i → grid_at (m ∷ k ∷ ms) i ≡ grid_at (k ∷ ms) i
grid_at_skip i m k ms h = let (g, e) = grid_at_from i k ms h in ground arith

module _ (o : ℕ) where
  pub prune_stale-Ascends : (n : ℕ) (ms : List Mark) → Ascends n ms → Ascends n (prune_stale o ms)
  unfolding prune_stale
  prune_stale-Ascends n [] a = tt
  prune_stale-Ascends n (m ∷ []) a = a
  prune_stale-Ascends n (m ∷ k ∷ ms) a = ground (arith, prune_stale-Ascends n (k ∷ ms) a.1)

  pub back-prune_stale : (ms : List Mark) → back (prune_stale o ms) ≡ back ms
  unfolding prune_stale back
  back-prune_stale [] = refl
  back-prune_stale (m ∷ []) = refl
  back-prune_stale (m ∷ k ∷ ms) = ground (arith, back-prune_stale (k ∷ ms))

  -- If the first mark stood at or before `o`, so does the first that is left.
  pub first_offset-prune_stale :
      (ms : List Mark) → first_offset ms ≤ o → first_offset (prune_stale o ms) ≤ o
  unfolding prune_stale
  first_offset-prune_stale [] h = h
  first_offset-prune_stale (m ∷ []) h = h
  first_offset-prune_stale (m ∷ k ∷ ms) h = ground (arith, first_offset-prune_stale (k ∷ ms))

  pub grid_at-prune_stale :
      (n i : ℕ) (ms : List Mark)
      → Ascends n ms
      → first_offset (prune_stale o ms) ≤ i
      → (grid_at (prune_stale o ms) i ≡ grid_at ms i) × (first_offset ms ≤ i)
  unfolding prune_stale
  grid_at-prune_stale n i [] a h = (refl, h)
  grid_at-prune_stale n i (m ∷ []) a h = (refl, h)
  grid_at-prune_stale n i (m ∷ k ∷ ms) a h = elim (Bool-cases (leb k.0 o)) [
    | inl stale ↦
        let (same, from) = grid_at-prune_stale n i (k ∷ ms) a.1 (rw stale at h) in
        rw stale (same ∙ sym (grid_at_skip i m k ms from), omega (arith, a.0))
    | inr live ↦ ground arith
  ]

pub prune_bound-Ascends : (n : ℕ) (ms : List Mark) → Ascends n ms → Ascends n (prune_bound ms)
unfolding prune_bound
prune_bound-Ascends n [] a = tt
prune_bound-Ascends n (m ∷ []) a = a
prune_bound-Ascends n (m ∷ k ∷ ms) a = ground (arith, prune_bound-Ascends n (k ∷ ms) a.1)

-- At most `max_marks` are left.
pub length-prune_bound : (ms : List Mark) → length (prune_bound ms) ≤ max_marks
unfolding prune_bound
length-prune_bound [] = omega arith
length-prune_bound (m ∷ ms) = ground (arith, length-prune_bound ms)

-- With no more than that nothing is dropped; otherwise exactly that many stay.
pub prune_bound_cases :
    (ms : List Mark) → (prune_bound ms ≡ ms) ⊎ (length (prune_bound ms) ≡ max_marks)
unfolding prune_bound
prune_bound_cases [] = inl refl
prune_bound_cases (m ∷ ms) = elim (Bool-cases (ltb max_marks (suc (length ms)))) [
  | inl over ↦
      let few = length-prune_bound ms in
      rw over (elim (prune_bound_cases ms) [
        | inl all ↦ inr (omega (arith, ap length all, ltb→lt _ _ over))
        | inr full ↦ inr full
      ])
  | inr fits ↦ inl (rw fits)
]

pub back-prune_bound : (ms : List Mark) → back (prune_bound ms) ≡ back ms
unfolding prune_bound back
back-prune_bound [] = refl
back-prune_bound (m ∷ []) = refl
back-prune_bound (m ∷ k ∷ ms) = ground (arith, back-prune_bound (k ∷ ms))

pub grid_at-prune_bound :
    (n i : ℕ) (ms : List Mark)
    → Ascends n ms
    → first_offset (prune_bound ms) ≤ i
    → (grid_at (prune_bound ms) i ≡ grid_at ms i) × (first_offset ms ≤ i)
unfolding prune_bound
grid_at-prune_bound n i [] a h = (refl, h)
grid_at-prune_bound n i (m ∷ []) a h = (refl, h)
grid_at-prune_bound n i (m ∷ k ∷ ms) a h =
    elim (Bool-cases (ltb max_marks (suc (suc (length ms))))) [
      | inl over ↦
          let (same, from) = grid_at-prune_bound n i (k ∷ ms) a.1 (rw over at h) in
          rw over (same ∙ sym (grid_at_skip i m k ms from), omega (arith, a.0))
      | inr fits ↦ rw fits (refl, rw fits at h)
    ]

-- Dropping the mark at the head of the stream.
pub pop_back-Ascends : (n : ℕ) (ms : List Mark) → Ascends n ms → Ascends n (pop_back ms)
unfolding pop_back
pop_back-Ascends n [] a = tt
pop_back-Ascends n (m ∷ []) a = tt
pop_back-Ascends n (m ∷ k ∷ []) a = omega arith
pop_back-Ascends n (m ∷ k ∷ l ∷ ms) a = (a.0, pop_back-Ascends n (k ∷ l ∷ ms) a.1)

pub without_idle_mark-Ascends :
    (n : ℕ) (ms : List Mark) → Ascends n ms → Ascends n (without_idle_mark n ms)
unfolding without_idle_mark
without_idle_mark-Ascends n ms a = ground (arith, pop_back-Ascends n ms a)

-- Past the marks that are left there is room for one at `n`.
some_back : (m : Mark) (ms : List Mark) → back (m ∷ ms) ≢ none
unfolding back
some_back m [] e = cc
some_back m (k ∷ ms) e = some_back k ms e

pop_back_room :
    (n : ℕ) (ms : List Mark) (g : Geometry) {m : Mark}
    → Ascends n ms
    → back ms ≡ some m
    → m.0 ≡ n
    → Ascends n (pop_back ms ++ (n, g) ∷ [])
unfolding pop_back back
pop_back_room n [] g a e at = omega arith
pop_back_room n (m ∷ []) g a e at = omega arith
pop_back_room n (m ∷ k ∷ []) g a e at = ground arith
pop_back_room n (m ∷ k ∷ l ∷ ms) g a e at = (a.0, pop_back_room n (k ∷ l ∷ ms) g a.1 e at)

append_room :
    (n : ℕ) (ms : List Mark) (g : Geometry) {m : Mark}
    → Ascends n ms
    → back ms ≡ some m
    → m.0 ≢ n
    → Ascends n (ms ++ (n, g) ∷ [])
unfolding back
append_room n [] g a e at = omega arith
append_room n (m ∷ []) g a e at = ground arith
append_room n (m ∷ k ∷ ms) g a e at = (a.0, append_room n (k ∷ ms) g a.1 e at)

back-none : (n : ℕ) (ms : List Mark) (g : Geometry) → back ms ≡ none → Ascends n (ms ++ (n, g) ∷ [])
unfolding back
back-none n [] g e = omega arith
back-none n (m ∷ []) g e = cc
back-none n (m ∷ k ∷ ms) g e = absurd (some_back k ms e)

-- A new mark at the head keeps the order.
pub marked-Ascends :
    (n : ℕ) (ms : List Mark) (g : Geometry)
    → Ascends n ms
    → Ascends n (without_idle_mark n ms ++ (n, g) ∷ [])
unfolding without_idle_mark
marked-Ascends n ms g a = elim (Option-cases (back ms)) [
  | inl e ↦ ground (arith, back-none n ms g e)
  | inr (m, e) ↦ ground (arith, pop_back_room n ms g a e, append_room n ms g a e)
]

pub grid_at-pop_back :
    (n i : ℕ) (ms : List Mark) {m : Mark}
    → back ms ≡ some m
    → i < m.0
    → grid_at (pop_back ms) i ≡ grid_at ms i
unfolding pop_back back
grid_at-pop_back n i [] e h = refl
grid_at-pop_back n i (m ∷ []) e h = ground arith
grid_at-pop_back n i (m ∷ k ∷ ms) e h = ground (arith, grid_at-pop_back n i (k ∷ ms) e h)

-- Before the head of the stream the dropped mark had no say.
pub grid_at-without_idle_mark :
    (n i : ℕ) (ms : List Mark) → i < n → grid_at (without_idle_mark n ms) i ≡ grid_at ms i
unfolding without_idle_mark
grid_at-without_idle_mark n i ms h = elim (Option-cases (back ms)) [
  | inl e ↦ rw (e, without_idle_mark)
  | inr (m, e) ↦ ground (arith, grid_at-pop_back n i ms e)
]

-- The first mark of the marks with a new one stands where the first of the old ones stood.
pub first_offset_marked :
    (n : ℕ) (m : Mark) (ms : List Mark) (g : Geometry)
    → first_offset (without_idle_mark n (m ∷ ms) ++ (n, g) ∷ []) ≡ m.0
unfolding without_idle_mark back pop_back
first_offset_marked n m [] g = ground arith
first_offset_marked n m (k ∷ ms) g = ground arith

-- If the first mark is past `o`, none is stale.
pub prune_stale_ahead :
    (n o : ℕ) (ms : List Mark) → Ascends n ms → o < first_offset ms → prune_stale o ms ≡ ms
unfolding prune_stale
prune_stale_ahead n o [] a h = refl
prune_stale_ahead n o (m ∷ []) a h = refl
prune_stale_ahead n o (m ∷ k ∷ ms) a h = ground arith
