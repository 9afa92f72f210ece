-- ===== src/Core/History/Ring.antt =====
-- The ring of `History` against the whole stream of output bytes.
use dot_terminal.Prelude.{
  ℕ, ◌+◌, ◌-◌, ◌≤◌, ◌<◌, max, min, false, inl, inr, ◌==◌, Bool-cases, suc, drop-congr, ◌≡◌, refl,
  sym, ap, ◌∙◌, some, [], ◌∷◌, ◌++◌, arith, length, take, drop, length-append, length-drop,
  drop-append, drop-drop, drop-nil, Bytes, ok, ltb,
}
use mathlib.Core.Path.{◌≡⟨◌⟩◌, ◌∎}
use mathlib.Core.List.{append_assoc, append-nil}
use dot_terminal.Core.History.Steps.{append-some}
use dot_terminal.Core.History.{
  History, push_byte, push_all, prune, append, resize, marked, oldest, read, fresh, Geometry,
}

-- The ring holds the last bytes of the stream, as many as fit, and counts all of them.
pub record IsRing (h : History) (stream : Bytes) : Type 0 where
  pub room : 0 < h.capacity
  pub counted : h.next ≡ length stream
  pub retained : h.bytes ≡ drop (length stream - h.capacity) stream

module _ (capacity : ℕ) (room : 0 < capacity) where
  push_byte-eq-drop :
      (bytes : Bytes) (b : ℕ)
      → length bytes ≤ capacity
      → push_byte capacity bytes b ≡ drop (length bytes + 1 - capacity) (bytes ++ b ∷ [])
  unfolding push_byte
  push_byte-eq-drop bytes b h = elim (Bool-cases (length bytes == capacity)) [
    | inl full ↦ rw full (
        sym (drop-append 1 bytes (b ∷ []) (ground arith))
        ∙ drop-congr 1 (length bytes + 1 - capacity) (bytes ++ b ∷ []) (ground arith))
    | inr free ↦
        rw free (drop-congr 0 (length bytes + 1 - capacity) (bytes ++ b ∷ []) (ground arith))
  ]

  length-push_byte :
      (bytes : Bytes) (b : ℕ)
      → length bytes ≤ capacity
      → length (push_byte capacity bytes b) ≡ min capacity (length bytes + 1)
  length-push_byte bytes b h =
      rw (push_byte-eq-drop bytes b h, length-drop, length-append) (omega arith)

  -- The loop keeps the last bytes of what was there with what came.
  pub push_all-eq-drop :
      (bytes more : Bytes)
      → length bytes ≤ capacity
      → push_all capacity bytes more ≡ drop (length bytes + length more - capacity) (bytes ++ more)
  unfolding push_all
  push_all-eq-drop bytes [] h =
      rw append-nil (drop-congr 0 (length bytes + 0 - capacity) bytes (omega arith))
  push_all-eq-drop bytes (b ∷ bs) h =
      let k = length bytes + 1 - capacity in
      let rest = length (push_byte capacity bytes b) + length bs - capacity in
      let size = length-push_byte bytes b h in
      push_all capacity (push_byte capacity bytes b) bs
      ≡⟨ push_all-eq-drop (push_byte capacity bytes b) bs (omega arith) ⟩
        drop rest (push_byte capacity bytes b ++ bs)
      ≡⟨ ap (λ (l : Bytes). drop rest (l ++ bs)) (push_byte-eq-drop bytes b h) ⟩
        drop rest (drop k (bytes ++ b ∷ []) ++ bs)
      ≡⟨ ap (drop rest)
          (sym (drop-append k (bytes ++ b ∷ []) bs (omega (arith, length-append bytes (b ∷ []))))) ⟩
        drop rest (drop k ((bytes ++ b ∷ []) ++ bs))
      ≡⟨ drop-drop rest k ((bytes ++ b ∷ []) ++ bs) ⟩ drop (k + rest) ((bytes ++ b ∷ []) ++ bs)
      ≡⟨ ap (drop (k + rest)) (append_assoc bytes (b ∷ []) bs) ⟩ drop (k + rest) (bytes ++ b ∷ bs)
      ≡⟨ drop-congr (k + rest) (length bytes + suc (length bs) - capacity) (bytes ++ b ∷ bs)
          (omega arith) ⟩
        drop (length bytes + suc (length bs) - capacity) (bytes ++ b ∷ bs) ∎

-- A fresh history is the ring of the empty stream.
pub fresh-IsRing : (capacity cols rows : ℕ) → 0 < capacity → IsRing (fresh capacity cols rows) []
fresh-IsRing capacity cols rows p = record {
  room = p;
  counted = refl;
  retained = sym (drop-nil (0 - capacity));
}

oldest-IsRing :
    (h : History) (stream : Bytes) → IsRing h stream → oldest h ≡ length stream - h.capacity
unfolding oldest
oldest-IsRing h stream r =
    omega (arith, ap length r.retained, length-drop (length stream - h.capacity) stream, r.counted)

leb_no_ahead : (n after : ℕ) → after ≤ n → ltb n after ≡ false
leb_no_ahead n after h = ground arith

length-bytes :
    (h : History) (stream : Bytes)
    → IsRing h stream
    → length h.bytes ≡ length stream - (length stream - h.capacity)
length-bytes h stream r = ap length r.retained ∙ length-drop (length stream - h.capacity) stream

retained-append :
    (h : History) (stream more : Bytes)
    → IsRing h stream
    → push_all h.capacity h.bytes more
      ≡ drop (length (stream ++ more) - h.capacity) (stream ++ more)
retained-append h stream more r =
    let size = length-bytes h stream r in
    let lost = length stream - h.capacity in
    let k = length h.bytes + length more - h.capacity in
    push_all h.capacity h.bytes more
    ≡⟨ push_all-eq-drop h.capacity r.room h.bytes more (omega arith) ⟩ drop k (h.bytes ++ more)
    ≡⟨ ap (λ (l : Bytes). drop k (l ++ more)) r.retained ⟩ drop k (drop lost stream ++ more)
    ≡⟨ ap (drop k) (sym (drop-append lost stream more (omega arith))) ⟩
      drop k (drop lost (stream ++ more))
    ≡⟨ drop-drop k lost (stream ++ more) ⟩ drop (lost + k) (stream ++ more)
    ≡⟨ drop-congr _ _ (stream ++ more) (omega (arith, length-append stream more)) ⟩
      drop (length (stream ++ more) - h.capacity) (stream ++ more) ∎

-- `append` adds the bytes to the stream, and drops the oldest of the ring only to make room.
pub append-IsRing :
    (h : History) (stream more : Bytes) {h' : History}
    → IsRing h stream
    → append h more ≡ some h'
    → IsRing h' (stream ++ more)
append-IsRing h stream more r e =
    let (_, same) = append-some h more e in
    let lost = length stream - h.capacity in
    rw same (record {
      room = unfold prune in r.room;
      counted = unfold prune in omega (arith, r.counted, length-append stream more);
      retained = unfold prune in retained-append h stream more r;
    })

-- A read at or before the head, of a history whose ring is the end of a stream, returns the bytes of
-- the stream from the cursor, or from the oldest retained byte, up to the limit, and reports a gap
-- exactly if the cursor is before the oldest retained byte.
pub read-IsRing :
    (h : History) (stream : Bytes) (after limit : ℕ)
    → IsRing h stream
    → after ≤ length stream
    → let start = max after (length stream - h.capacity) in
      let content = take limit (drop start stream) in
      read h after limit
      ≡ ok (record {
        start = start;
        next = start + length content;
        gap = ltb after (length stream - h.capacity);
        content = content;
      })
unfolding read
read-IsRing h stream after limit r b =
    let past = oldest-IsRing h stream r in
    let start = max after (length stream - h.capacity) in
    let at_start : drop (start - (length stream - h.capacity)) h.bytes ≡ drop start stream =
      rw r.retained (
        drop-drop (start - (length stream - h.capacity)) (length stream - h.capacity) stream
        ∙ drop-congr _ start stream (omega arith)) in
    rw (leb_no_ahead h.next after (omega (arith, r.counted)), past, at_start)

-- A resize leaves the bytes as they are.
pub resize-IsRing :
    (h : History) (stream : Bytes) (cols rows : ℕ) {h' : History} {g : Geometry}
    → IsRing h stream
    → resize h cols rows ≡ some (h', g)
    → IsRing h' stream
unfolding resize marked prune
resize-IsRing h stream cols rows r e = ground arith
