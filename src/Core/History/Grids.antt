-- ===== src/Core/History/Grids.antt =====
-- The grids of `History`, against a tape on which each byte carries the grid that it was produced under.
use dot_terminal.Prelude.{
  ℕ, ◌+◌, ◌-◌, ◌≤◌, ◌<◌, ◌≡◌, refl, sym, ap, ◌∙◌, some, List, [], ◌∷◌, ◌++◌, arith, length,
  get_elem?-append_left, get_elem?-append_right, get_elem?-map_const, length-map, length-append,
  length-drop, Bytes, ok, max, min, get_elem?, drop, take, map, length-take,
}
use mathlib.Core.Option
use native.Mathlib.Decide.{dec_lt}
use dot_terminal.Core.History.{
  chunk_from, History, Geometry, Mark, Frame, Chunk, back, prune_stale, without_idle_mark, prune,
  oldest, append, resize, marked, geometry, push_all, read_frame, read, mark_at, until,
}
use dot_terminal.Core.History.Marks.{
  Ascends, Ascends-mono, first_offset, back-append, grid_at, grid_at_end, grid_at-append,
}
use dot_terminal.Core.History.Pruning.{
  grid_at-prune_stale, grid_at-prune_bound, prune_stale-Ascends, grid_at-without_idle_mark,
  marked-Ascends, first_offset_marked, back-prune_stale, back-prune_bound,
}
use dot_terminal.Core.History.IsValid.{IsValid}
use dot_terminal.Core.History.Position.{mark_at-some, mark_at-grid_at}
use dot_terminal.Core.History.Steps.{append-some, resize_some, next_geometry}

-- Every byte ever produced, with its grid, and the grid now in force.
pub record Tape : Type 0 where
  pub tags : List Geometry
  pub grid : Geometry

abbrev pub replicate_grid : Bytes → Geometry → List Geometry
replicate_grid bs g = map (λ _. g) bs

abbrev pub tape_append : Tape → Bytes → Tape
tape_append t more = record t { tags = t.tags ++ replicate_grid more t.grid }

abbrev pub tape_resize : Tape → ℕ → ℕ → Tape
tape_resize t cols rows = record t { grid = next_geometry t.grid cols rows }

-- What the history knows of the tape: the length, the grid in force, and the grid of every byte from
-- the first mark on.
pub record HasGrids (h : History) (t : Tape) : Type 0 where
  pub counted : h.next ≡ length t.tags
  pub current : geometry h ≡ some t.grid
  pub labels :
      (i : ℕ) → i < h.next → first_offset h.marks ≤ i → grid_at h.marks i ≡ get_elem? t.tags i

module _ (h : History) (after limit : ℕ) where
  abbrev pub frame_start : ℕ
  frame_start = max after (oldest h)

  abbrev pub frame_room : ℕ
  frame_room = until (mark_at frame_start h.marks) h.marks - frame_start

  -- What a frame is made of.
  pub read_frame-some :
      {f : Frame}
      → read_frame h after limit ≡ some (ok f)
      → (read h after (min limit frame_room) ≡ ok f.chunk)
        × (Option.map (λ m. m.1) (get_elem? h.marks (mark_at frame_start h.marks))
            ≡ some f.geometry)
  unfolding read_frame
  read_frame-some e = ground arith

  pub read_some :
      {c : Chunk}
      → read h after limit ≡ ok c
      → (c.start ≡ max after (oldest h))
        × (c.next ≡ c.start + length c.content)
        × (length c.content ≤ limit)
        × (c.content ≡ take limit (drop (c.start - oldest h) h.bytes))
  unfolding read
  read_some e = ground (arith, length-take limit (drop (max after (oldest h) - oldest h) h.bytes))

-- A frame is returned, without an error or a panic, at every cursor up to the head of a valid
-- history.
pub read_frame_total :
    (h : History) (after limit : ℕ)
    → IsValid h
    → after ≤ h.next
    → (f : Frame) × (read_frame h after limit ≡ some (ok f))
unfolding read_frame read
read_frame_total h after limit v b =
    let (m, e) = mark_at-some (frame_start h after limit) h.marks v.current.1 in
    (
      record { chunk = chunk_from h after (min limit (frame_room h after limit)); geometry = m.1 },
      ground arith,
    )

module _ {h : History} {t : Tape} (v : IsValid h) (g : HasGrids h t) where
  -- Every byte of a frame of a valid history that knows the grids of its bytes was produced under
  -- the grid that the frame names, if the first mark is at or before the start of the frame.
  pub read_frame-HasGrids :
      (after limit : ℕ) {f : Frame}
      → read_frame h after limit ≡ some (ok f)
      → first_offset h.marks ≤ f.chunk.start
      → (i : ℕ) → f.chunk.start ≤ i
      → i < f.chunk.next
      → get_elem? t.tags i ≡ some f.geometry
  unfolding oldest
  read_frame-HasGrids after limit {f} e known i from to =
      let (chunk, named) = read_frame-some h after limit e in
      let (start, next, size, content) = read_some h after _ chunk in
      let at = frame_start h after limit in
      let inside : i < h.next = omega (
        arith,
        ap length content,
        length-take (min limit (frame_room h after limit))
            (drop (f.chunk.start - oldest h) h.bytes),
        length-drop (f.chunk.start - oldest h) h.bytes,
        v.counted,
      ) in
      sym (g.labels i inside (omega arith))
      ∙ mark_at-grid_at h.next at i h.marks v.rising (omega arith) (omega arith) (omega arith)
      ∙ named

-- After pruning the marks that are left name the same grids.
prune-labels :
    (h : History) (i : ℕ)
    → Ascends h.next h.marks
    → first_offset (prune h).marks ≤ i
    → (grid_at (prune h).marks i ≡ grid_at h.marks i) × (first_offset h.marks ≤ i)
unfolding prune
prune-labels h i a b =
    let kept = prune_stale (oldest h) h.marks in
    let (p, q) =
      grid_at-prune_bound h.next i kept (prune_stale-Ascends (oldest h) h.next h.marks a) b in
    let (r, s) = grid_at-prune_stale (oldest h) h.next i h.marks a q in (p ∙ r, s)

geometry-prune : (h : History) → geometry (prune h) ≡ geometry h
unfolding geometry prune
geometry-prune h =
    ap (Option.map (λ m. m.1))
      (back-prune_bound (prune_stale (oldest h) h.marks) ∙ back-prune_stale (oldest h) h.marks)

next-prune : (h : History) → (prune h).next ≡ h.next
unfolding prune
next-prune h = refl

current-back :
    (h : History) (t : Tape) → HasGrids h t → Option.map (λ m. m.1) (back h.marks) ≡ some t.grid
unfolding geometry
current-back h t g = g.current

-- The bytes that an append adds stand under the grid now in force.
labels-append :
    (h : History) (t : Tape) (more : Bytes) (i : ℕ)
    → IsValid h
    → HasGrids h t
    → i < h.next + length more
    → first_offset h.marks ≤ i
    → grid_at h.marks i ≡ get_elem? (t.tags ++ replicate_grid more t.grid) i
labels-append h t more i v g b f = elim (dec_lt i h.next) [
  | yes old ↦
      g.labels i old f
      ∙ sym (get_elem?-append_left t.tags (replicate_grid more t.grid) i (omega (arith, g.counted)))
  | no fresh ↦
      grid_at_end h.next i h.marks v.rising (omega arith)
      ∙ current-back h t g
      ∙ sym (
          get_elem?-append_right t.tags (replicate_grid more t.grid) i (omega (arith, g.counted))
          ∙ get_elem?-map_const t.grid more (i - length t.tags) (omega (arith, g.counted)))
]

first_old :
    (n i : ℕ) (ms : List Mark) (g : Geometry)
    → ((m : Mark) × (back ms ≡ some m))
    → first_offset (without_idle_mark n ms ++ (n, g) ∷ []) ≤ i
    → first_offset ms ≤ i
first_old n i [] g c h = omega arith
first_old n i (m ∷ ms) g c h = omega (arith, first_offset_marked n m ms g)

-- Appending puts the bytes on the tape under the grid now in force.
pub append-HasGrids :
    (h : History) (t : Tape) (more : Bytes) {h' : History}
    → IsValid h
    → HasGrids h t
    → append h more ≡ some h'
    → HasGrids h' (tape_append t more)
append-HasGrids h t more v g e =
    let (_, same) = append-some h more e in
    let n : ℕ = h.next + length more in
    let h₁ : History = record h { bytes = push_all h.capacity h.bytes more; next = n } in
    let rising = Ascends-mono h.next n h.marks (omega arith) v.rising in
    rw same (record {
      counted =
          next-prune h₁
          ∙ omega (
            arith,
            g.counted,
            length-append t.tags (replicate_grid more t.grid),
            length-map more (λ _. t.grid),
          );
      current = geometry-prune h₁ ∙ (unfold geometry in g.current);
      labels = λ i b f.
          let (kept, from) = prune-labels h₁ i rising f in
          kept ∙ labels-append h t more i v g (omega (arith, next-prune h₁)) from;
    })

-- A resize changes the grid in force, and no byte's grid.
pub resize-HasGrids :
    (h : History) (t : Tape) (cols rows : ℕ) {h' : History} {at : Geometry}
    → IsValid h
    → HasGrids h t
    → resize h cols rows ≡ some (h', at)
    → (at ≡ (tape_resize t cols rows).grid) × HasGrids h' (tape_resize t cols rows)
unfolding marked
resize-HasGrids h t cols rows v g e =
    let (named, same) = resize_some h cols rows g.current e in
    let now = next_geometry t.grid cols rows in
    let h₁ : History = record h {
      marks = without_idle_mark h.next h.marks ++ ((h.next, now) ∷ []);
    } in
    (
      named,
      rw same (record {
        counted = next-prune h₁ ∙ g.counted;
        current =
            geometry-prune h₁
            ∙ (unfold geometry in
                ap (Option.map (λ m. m.1))
                  (back-append (without_idle_mark h.next h.marks) (h.next, now)));
        labels = λ i b f.
            let (kept, from) = prune-labels h₁ i (marked-Ascends h.next h.marks now v.rising) f in
            let old : i < h.next = omega (arith, next-prune h₁) in
            kept
            ∙ grid_at-append i h.next now (without_idle_mark h.next h.marks) old
            ∙ grid_at-without_idle_mark h.next i h.marks old
            ∙ g.labels i old (first_old h.next i h.marks now v.current from);
      }),
    )
