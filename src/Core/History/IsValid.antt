-- ===== src/Core/History/IsValid.antt =====
-- The invariant of `History` of crates/core/src/lib.rs.
use dot_terminal.Prelude.{
  ℕ, suc, ◌+◌, ◌-◌, ◌≤◌, ◌<◌, ◌≡◌, refl, ap, ◌∙◌, lt→ltb, none, some, List, [], ◌∷◌, ◌++◌, arith,
  length, inl, inr, ◌⊎◌, length-append, length-drop, Bytes, u64_max, min,
}
use native.Mathlib.Decide.{dec_le, dec_lt}
use dot_terminal.Core.History.{
  pop_back, fresh, first_geometry, History, Geometry, Mark, back, prune_stale, prune_bound,
  without_idle_mark, max_marks, prune, oldest, append, resize, marked, geometry, push_all,
  with_geometry,
}
use dot_terminal.Core.History.Marks.{Ascends, Ascends-mono, first_offset, back-append}
use dot_terminal.Core.History.Pruning.{
  prune_stale-Ascends, back-prune_stale, first_offset-prune_stale, prune_bound-Ascends,
  length-prune_bound, prune_bound_cases, back-prune_bound, marked-Ascends, first_offset_marked,
  prune_stale_ahead,
}
use dot_terminal.Core.History.Ring.{push_all-eq-drop}
use dot_terminal.Core.History.Steps.{append-some, resize_some, next_geometry}

-- The first grid known reaches back to the oldest byte, unless as many marks as allowed are kept.
abbrev pub Reaches : ℕ → List Mark → Type 0
Reaches o ms = (first_offset ms ≤ o) ⊎ (max_marks ≤ length ms)

-- What holds before the marks are pruned.
pub record IsLoose (h : History) : Type 0 where
  pub room : 0 < h.capacity
  pub fits : length h.bytes ≤ h.capacity
  pub counted : length h.bytes ≤ h.next
  pub in_range : h.next ≤ u64_max
  pub rising : Ascends h.next h.marks
  pub current : (m : Mark) × (back h.marks ≡ some m)
  pub reaches : Reaches (h.next - length h.bytes) h.marks

pub record IsValid (h : History) : Type 0 where
  pub loose : IsLoose h
  pub open loose use *
  pub few : length h.marks ≤ max_marks

prune_stale-Reaches :
    (n o : ℕ) (ms : List Mark) → Ascends n ms → Reaches o ms → Reaches o (prune_stale o ms)
prune_stale-Reaches n o ms a (inl r) = inl (first_offset-prune_stale o ms r)
prune_stale-Reaches n o ms a (inr r) = elim (dec_le (first_offset ms) o) [
  | yes near ↦ inl (first_offset-prune_stale o ms near)
  | no far ↦ inr (rw (prune_stale_ahead n o ms a (omega arith)) r)
]

prune-Reaches :
    (n o : ℕ) (ms : List Mark)
    → Ascends n ms
    → Reaches o ms
    → Reaches o (prune_bound (prune_stale o ms))
prune-Reaches n o ms a r = elim (prune_bound_cases (prune_stale o ms)) [
  | inr full ↦ inr (omega arith)
  | inl whole ↦ rw whole (prune_stale-Reaches n o ms a r)
]

-- Pruning establishes the invariant.
pub prune-IsValid : (h : History) → IsLoose h → IsValid (prune h)
unfolding prune oldest
prune-IsValid h l = record {
  loose = record {
    room = l.room;
    fits = l.fits;
    counted = l.counted;
    in_range = l.in_range;
    rising =
        prune_bound-Ascends h.next (prune_stale (h.next - length h.bytes) h.marks)
          (prune_stale-Ascends _ h.next h.marks l.rising);
    current = (
      l.current.0,
      back-prune_bound (prune_stale (h.next - length h.bytes) h.marks)
          ∙ back-prune_stale _ h.marks
          ∙ l.current.1,
    );
    reaches = prune-Reaches h.next _ h.marks l.rising l.reaches;
  };
  few = length-prune_bound (prune_stale (h.next - length h.bytes) h.marks);
}

pub fresh-IsValid : (capacity cols rows : ℕ) → 0 < capacity → IsValid (fresh capacity cols rows)
unfolding back
fresh-IsValid capacity cols rows p = record {
  loose = record {
    room = p;
    fits = omega arith;
    counted = omega arith;
    in_range = omega arith;
    rising = omega arith;
    current = ((0, first_geometry cols rows), refl);
    reaches = inl (omega arith);
  };
  few = omega arith;
}

-- A new history is valid, whatever its grid; only a capacity of 0 makes the assertion fail.
pub with_geometry-IsValid :
    (capacity cols rows : ℕ)
    → ((capacity ≡ 0) × (with_geometry capacity cols rows ≡ none))
      ⊎ ((h : History) × (with_geometry capacity cols rows ≡ some h) × IsValid h)
unfolding with_geometry
with_geometry-IsValid capacity cols rows = elim (dec_lt 0 capacity) [
  | yes p ↦
      inr (fresh capacity cols rows, rw (lt→ltb 0 capacity p), fresh-IsValid capacity cols rows p)
  | no p ↦ inl (omega arith, ground arith)
]

length-push_all :
    (capacity : ℕ) (bytes more : Bytes)
    → 0 < capacity
    → length bytes ≤ capacity
    → length (push_all capacity bytes more) ≡ min capacity (length bytes + length more)
length-push_all capacity bytes more p h =
    rw (push_all-eq-drop capacity p bytes more h, length-drop, length-append) (omega arith)

-- An append that does not panic keeps the history valid: the ring within its capacity, the marks in
-- order and few, and one at or before the oldest retained byte or as many as allowed.
pub append-IsValid :
    (h : History) (more : Bytes) {h' : History} → IsValid h → append h more ≡ some h' → IsValid h'
append-IsValid h more v e =
    let (b, same) = append-some h more e in
    let size = length-push_all h.capacity h.bytes more v.room v.fits in
    let n : ℕ = h.next + length more in
    rw same (
      prune-IsValid (record h { bytes = push_all h.capacity h.bytes more; next = n })
        (record {
          room = v.room;
          fits = omega arith;
          counted = omega (arith, v.counted);
          in_range = b;
          rising = Ascends-mono h.next n h.marks (omega arith) v.rising;
          current = v.current;
          reaches = elim v.reaches [ inl r ↦ inl (omega (arith, v.counted)) | inr r ↦ inr r ];
        }))

length-pop_back : (m : Mark) (ms : List Mark) → length (pop_back (m ∷ ms)) ≡ length ms
unfolding pop_back
length-pop_back m [] = refl
length-pop_back m (k ∷ ms) = ap suc (length-pop_back k ms)

length-marked :
    (n : ℕ) (ms : List Mark) (g : Geometry)
    → length ms ≤ length (without_idle_mark n ms ++ (n, g) ∷ [])
unfolding without_idle_mark
length-marked n [] g = omega arith
length-marked n (m ∷ ms) g = ground (
  arith,
  length-pop_back m ms,
  length-append (pop_back (m ∷ ms)) ((n, g) ∷ []),
  length-append (m ∷ ms) ((n, g) ∷ []),
)

marked-Reaches :
    (n o : ℕ) (ms : List Mark) (g : Geometry)
    → ((m : Mark) × (back ms ≡ some m))
    → Reaches o ms
    → Reaches o (without_idle_mark n ms ++ (n, g) ∷ [])
unfolding back
marked-Reaches n o [] g c r = cc (c.1)
marked-Reaches n o (m ∷ ms) g c (inl r) = inl (omega (arith, first_offset_marked n m ms g))
marked-Reaches n o (m ∷ ms) g c (inr r) = inr (omega (arith, length-marked n (m ∷ ms) g))

-- A new mark keeps the invariant.
pub marked-IsValid : (h : History) (g : Geometry) → IsValid h → IsValid (marked h g)
unfolding marked
marked-IsValid h g v =
    prune-IsValid (record h { marks = without_idle_mark h.next h.marks ++ ((h.next, g) ∷ []) })
      (record {
        room = v.room;
        fits = v.fits;
        counted = v.counted;
        in_range = v.in_range;
        rising = marked-Ascends h.next h.marks g v.rising;
        current = ((h.next, g), back-append (without_idle_mark h.next h.marks) (h.next, g));
        reaches = marked-Reaches h.next _ h.marks g v.current v.reaches;
      })

pub geometry_some : (h : History) → IsValid h → (g : Geometry) × (geometry h ≡ some g)
unfolding geometry
geometry_some h v = let (m, e) = v.current in (m.1, ground arith)

-- A resize that does not panic keeps the history valid.
pub resize-IsValid :
    (h : History) (cols rows : ℕ) {h' : History} {g : Geometry}
    → IsValid h
    → resize h cols rows ≡ some (h', g)
    → IsValid h'
resize-IsValid h cols rows v e =
    let (now, at) = geometry_some h v in
    let (_, same) = resize_some h cols rows at e in
    rw same (marked-IsValid h (next_geometry now cols rows) v)
