-- ===== src/Core/History.antt =====
-- `History` of crates/core/src/lib.rs: the bounded ring of output bytes with absolute offsets, and
-- the grid sizes in stream order. A panic (`expect`, `assert!`) is `none`.
pub mod Steps
pub mod Marks
pub mod Pruning
pub mod IsValid
pub mod Ring
pub mod Grids
pub mod Position
pub mod Runs
mod Tests
use dot_terminal.Prelude.{
  ℕ, ◌+◌, ◌-◌, max, min, Bool, true, false, Option, none, some, List, [], ◌∷◌, ◌++◌, length, take,
  drop, ltb, leb, ◌==◌, if◌then◌else◌, Bytes, Result, ok, err, checked_add, u64_max, ◌>>=◌, zero,
  suc, get_elem?,
}
use mathlib.Core.Option
use dot_terminal.Message.{Message, cursor_ahead}

pub record Geometry : Type 0 where
  pub cols : ℕ
  pub rows : ℕ
  pub epoch : ℕ

abbrev pub Mark : Type 0
Mark = ℕ × Geometry

pub record History : Type 0 where
  pub bytes : Bytes
  pub capacity : ℕ
  pub next : ℕ
  pub marks : List Mark

pub record Chunk : Type 0 where
  pub start : ℕ
  pub next : ℕ
  pub gap : Bool
  pub content : Bytes

pub record Frame : Type 0 where
  pub chunk : Chunk
  pub geometry : Geometry

abbrev pub max_marks : ℕ
max_marks = 256

-- The grid of a fresh stream.
abbrev pub first_geometry : ℕ → ℕ → Geometry
first_geometry cols rows = record { cols = cols; rows = rows; epoch = 0 }

-- The fields that `with_geometry` fills.
abbrev pub fresh : ℕ → ℕ → ℕ → History
fresh capacity cols rows = record {
  bytes = [];
  capacity = capacity;
  next = 0;
  marks = (0, first_geometry cols rows) ∷ [];
}

unfoldable pub with_geometry : ℕ → ℕ → ℕ → Option History
with_geometry capacity cols rows = if ltb 0 capacity then some (fresh capacity cols rows) else none

unfoldable pub new : ℕ → Option History
unfolding with_geometry
new capacity = with_geometry capacity 80 24

unfoldable pub oldest : History → ℕ
oldest h = h.next - length h.bytes

-- `VecDeque::back`, and the deque without it.
unfoldable pub back : List Mark → Option Mark
back [] = none
back (m ∷ []) = some m
back (m ∷ k ∷ ms) = back (k ∷ ms)

unfoldable pub pop_back : List Mark → List Mark
pop_back [] = []
pop_back (m ∷ []) = []
pop_back (m ∷ k ∷ ms) = m ∷ pop_back (k ∷ ms)

-- `while marks.len() > 1 && marks[1].0 <= oldest { pop_front }`
unfoldable pub prune_stale : ℕ → List Mark → List Mark
prune_stale o [] = []
prune_stale o (m ∷ []) = m ∷ []
prune_stale o (m ∷ k ∷ ms) = if leb k.0 o then prune_stale o (k ∷ ms) else m ∷ k ∷ ms

-- `while marks.len() > MAX_MARKS { pop_front }`
unfoldable pub prune_bound : List Mark → List Mark
prune_bound [] = []
prune_bound (m ∷ ms) = if ltb max_marks (suc (length ms)) then prune_bound ms else m ∷ ms

unfoldable pub prune : History → History
prune h = record h { marks = prune_bound (prune_stale (oldest h) h.marks) }

-- The body of the loop over the data.
unfoldable pub push_byte : ℕ → Bytes → ℕ → Bytes
push_byte capacity bytes b =
    if length bytes == capacity then drop 1 bytes ++ (b ∷ []) else bytes ++ (b ∷ [])

unfoldable pub push_all : ℕ → Bytes → Bytes → Bytes
unfolding push_byte
push_all capacity bytes [] = bytes
push_all capacity bytes (b ∷ bs) = push_all capacity (push_byte capacity bytes b) bs

unfoldable pub append : History → Bytes → Option History
append h bs =
    Option.map (λ next. prune (record h { bytes = push_all h.capacity h.bytes bs; next = next }))
      (checked_add h.next (length bs))

unfoldable pub geometry : History → Option Geometry
unfolding back
geometry h = Option.map (λ m. m.1) (back h.marks)

-- "Two resizes with no output between them": the last mark goes if it stands at the head.
unfoldable pub without_idle_mark : ℕ → List Mark → List Mark
unfolding back pop_back
without_idle_mark next ms = elim (back ms) [
  | none ↦ ms
  | some m ↦ if m.0 == next then pop_back ms else ms
]

unfoldable pub marked : History → Geometry → History
marked h g = prune (record h { marks = without_idle_mark h.next h.marks ++ ((h.next, g) ∷ []) })

unfoldable pub resize : History → ℕ → ℕ → Option (History × Geometry)
resize h cols rows = elim (geometry h) [
  | none ↦ none
  | some g ↦ elim (checked_add g.epoch 1) [
    | none ↦ none
    | some e ↦
        let g' : Geometry = record { cols = cols; rows = rows; epoch = e } in some (marked h g', g')
  ]
]

-- The bytes from `after` on, or from the oldest one on.
abbrev pub chunk_from : History → ℕ → ℕ → Chunk
chunk_from h after limit =
    let start = max after (oldest h) in
    let content = take limit (drop (start - oldest h) h.bytes) in
    record {
      start = start;
      next = start + length content;
      gap = ltb after (oldest h);
      content = content;
    }

unfoldable pub read : History → ℕ → ℕ → Result Message Chunk
read h after limit = if ltb h.next after then err cursor_ahead else ok (chunk_from h after limit)

-- `marks.iter().rposition(|(offset, _)| *offset <= start)`
unfoldable pub rposition : ℕ → List Mark → Option ℕ
rposition start [] = none
rposition start (m ∷ ms) = elim (rposition start ms) [
  | some i ↦ some (suc i)
  | none ↦ if leb m.0 start then some 0 else none
]

unfoldable pub mark_at : ℕ → List Mark → ℕ
unfolding rposition
mark_at start ms = elim (rposition start ms) [ some i ↦ i | none ↦ 0 ]

unfoldable pub until : ℕ → List Mark → ℕ
until i ms = elim (get_elem? ms (suc i)) [ some m ↦ m.0 | none ↦ u64_max ]

-- `none` is the panic of `marks[at]` out of bounds.
unfoldable pub read_frame : History → ℕ → ℕ → Option (Result Message Frame)
read_frame h after limit =
    if ltb h.next after
    then some (err cursor_ahead)
    else let start = max after (oldest h) in
      let i = mark_at start h.marks in
      let room = until i h.marks - start in
      elim (read h after (min limit room)) [
        | err e ↦ some (err e)
        | ok c ↦ Option.map (λ m. ok (record { chunk = c; geometry = m.1 })) (get_elem? h.marks i)
      ]
