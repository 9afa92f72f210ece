-- ===== src/Core/History/Steps.antt =====
-- When `append` and `resize` panic, and the state that they leave otherwise.
use dot_terminal.Prelude.{ℕ, ◌+◌, ◌≤◌, ◌<◌, ◌≡◌, some, arith, length, Bytes, u64_max}
use dot_terminal.Core.History.{History, Geometry, push_all, prune, append, resize, marked, geometry}

abbrev pub appended : History → Bytes → History
appended h bs =
    prune (record h { bytes = push_all h.capacity h.bytes bs; next = h.next + length bs })

pub append-some :
    (h : History) (bs : Bytes) {h' : History}
    → append h bs ≡ some h'
    → (h.next + length bs ≤ u64_max) × (h' ≡ appended h bs)
unfolding append
append-some h bs e = ground arith

pub append_total :
    (h : History) (bs : Bytes) → h.next + length bs ≤ u64_max → append h bs ≡ some (appended h bs)
unfolding append
append_total h bs b = ground arith

abbrev pub next_geometry : Geometry → ℕ → ℕ → Geometry
next_geometry g cols rows = record { cols = cols; rows = rows; epoch = g.epoch + 1 }

pub resize_some :
    (h : History) (cols rows : ℕ) {h' : History} {g g' : Geometry}
    → geometry h ≡ some g
    → resize h cols rows ≡ some (h', g')
    → (g' ≡ next_geometry g cols rows) × (h' ≡ marked h (next_geometry g cols rows))
unfolding resize
resize_some h cols rows at e = ground arith

pub resize_total :
    (h : History) (cols rows : ℕ) {g : Geometry}
    → geometry h ≡ some g
    → g.epoch < u64_max
    → resize h cols rows ≡ some (marked h (next_geometry g cols rows), next_geometry g cols rows)
unfolding resize
resize_total h cols rows at b = ground arith
