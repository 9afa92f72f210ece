-- ===== src/Desktop/AgentLog/Reading.antt =====
-- `read` of crates/desktop/src/agent_log.rs consumes whole lines.
use dot_terminal.Prelude.{
  ℕ, zero, suc, ◌+◌, ◌≤◌, ◌<◌, ◌≡◌, ◌≢◌, ◌⊎◌, inl, inr, refl, sym, ap, ◌∙◌, arith, true, false,
  List, [], ◌∷◌, ◌++◌, length, All, drop, min, length-drop, length-append, drop-append_length,
  drop-drop, drop-congr, Bytes, ltb, ◌==◌, Bool-cases,
}
use mathlib.Core.List.{append-nil, append_assoc}
use dot_terminal.Desktop.AgentLog.{
  Values, Event, reduce_line, read_until, ends_line, scan, read, max_scan, max_events,
}

-- No newline but at the end, and one there.
abbrev pub IsLine : Bytes → Type 0
IsLine [] = ⊥
IsLine (b ∷ []) = b ≡ 10
IsLine (b ∷ c ∷ bs) = (b ≢ 10) × IsLine (c ∷ bs)

abbrev pub NoNewline : Bytes → Type 0
NoNewline bs = All (λ b. b ≢ 10) bs

abbrev pub concat : List Bytes → Bytes
concat [] = []
concat (l ∷ ls) = l ++ concat ls

-- What `read_until` gives: a line, or all that is there without a newline.
data Until (bs : Bytes) : Type 0 where
  line_read : (ends_line (read_until bs).0 ≡ true) → IsLine (read_until bs).0 → Until bs
  half_read : (ends_line (read_until bs).0 ≡ false) → NoNewline bs → Until bs

read_until-append : (bs : Bytes) → (read_until bs).0 ++ (read_until bs).1 ≡ bs
unfolding read_until
read_until-append [] = refl
read_until-append (b ∷ bs) = elim (Bool-cases (b == 10)) [
  | inl e ↦ rw e
  | inr e ↦ rw e (ap (◌∷◌ b) (read_until-append bs))
]

ends_line-cons : (b : ℕ) (bs : Bytes) → IsLine bs → ends_line (b ∷ bs) ≡ ends_line bs
ends_line-cons b [] h = absurd h
ends_line-cons b (c ∷ bs) h = refl

IsLine-cons : (b : ℕ) (bs : Bytes) → b ≢ 10 → IsLine bs → IsLine (b ∷ bs)
IsLine-cons b [] n h = absurd h
IsLine-cons b (c ∷ bs) n h = (n, h)

half-cons : (b : ℕ) (bs : Bytes) → b ≢ 10 → ends_line bs ≡ false → ends_line (b ∷ bs) ≡ false
half-cons b [] n e = ground arith
half-cons b (c ∷ bs) n e = e

Until-cons : (b : ℕ) (bs : Bytes) → (b == 10) ≡ false → Until bs → Until (b ∷ bs)
unfolding read_until
Until-cons b bs other (line_read e h) =
    line_read (rw other (ends_line-cons b (read_until bs).0 h ∙ e))
      (rw other (IsLine-cons b (read_until bs).0 (ground arith) h))
Until-cons b bs other (half_read e h) =
    half_read (rw other (half-cons b (read_until bs).0 (ground arith) e)) (ground arith, h)

read_until_lem : (bs : Bytes) → Until bs
unfolding read_until
read_until_lem [] = half_read refl tt
read_until_lem (b ∷ bs) = elim (Bool-cases (b == 10)) [
  | inl e ↦ line_read (rw e (unfold read_until in ground arith)) (rw e (ground arith))
  | inr e ↦ Until-cons b bs e (read_until_lem bs)
]

IsLine-length : (bs : Bytes) → IsLine bs → 0 < length bs
IsLine-length [] h = absurd h
IsLine-length (b ∷ bs) h = omega arith

module _ {Json : Type 0} (json : Values Json) where
  -- The events of some lines, in order.
  abbrev pub events_of : List Bytes → List Event
  events_of [] = []
  events_of (l ∷ ls) = reduce_line json l ++ events_of ls

  -- What `scan` did: it consumed whole lines, added their events, and stopped at a limit or where no
  -- whole line is left.
  pub record IsScan (rest : Bytes) (before : List Event) (consumed : ℕ) (r : List Event × ℕ)
      : Type 0 where
    pub lines : List Bytes
    pub left : Bytes
    pub whole : All IsLine lines
    pub split : rest ≡ concat lines ++ left
    pub moved : r.1 ≡ consumed + length (concat lines)
    pub events : r.0 ≡ before ++ events_of lines
    pub stopped : (max_scan ≤ r.1) ⊎ ((max_events ≤ length r.0) ⊎ NoNewline left)

  stops :
      (rest : Bytes) (before : List Event) (consumed : ℕ)
      → (max_scan ≤ consumed) ⊎ ((max_events ≤ length before) ⊎ NoNewline rest)
      → IsScan rest before consumed (before, consumed)
  stops rest before consumed why = record {
    lines = [];
    left = rest;
    whole = tt;
    split = refl;
    moved = omega arith;
    events = sym (append-nil before);
    stopped = why;
  }

  scan_lem :
      (fuel : ℕ) (rest : Bytes) (before : List Event) (consumed : ℕ)
      → length rest < fuel
      → IsScan rest before consumed (scan json fuel rest before consumed)
  unfolding scan
  scan_lem zero rest before consumed h = absurd (omega arith)
  scan_lem (suc fuel) rest before consumed h =
      let line = (read_until rest).0 in
      let more = (read_until rest).1 in
      let joined = read_until-append rest in
      elim (Bool-cases (ltb consumed max_scan)) [
        | inr far ↦ rw (far, scan) (stops rest before consumed (inl (ground arith)))
        | inl near ↦ elim (Bool-cases (ltb (length before) max_events)) [
          | inr many ↦ rw (near, scan, many) (stops rest before consumed (inr (inl (ground arith))))
          | inl few ↦ elim (read_until_lem rest) [
            | half_read e none_left ↦
                rw (near, scan, few, e) (stops rest before consumed (inr (inr none_left)))
            | line_read e is_line ↦
                let shorter : length more < fuel =
                  omega (
                    arith,
                    ap length joined,
                    length-append line more,
                    IsLine-length line is_line,
                  ) in
                let ih =
                  scan_lem fuel more (before ++ reduce_line json line) (consumed + length line)
                    shorter in
                rw (near, scan, few, e)
                  (record {
                    lines = line ∷ ih.lines;
                    left = ih.left;
                    whole = (is_line, ih.whole);
                    split =
                        sym joined
                        ∙ ap (λ t. line ++ t) ih.split
                        ∙ sym (append_assoc line (concat ih.lines) ih.left);
                    moved = omega (arith, ih.moved, length-append line (concat ih.lines));
                    events =
                        ih.events
                        ∙ append_assoc before (reduce_line json line) (events_of ih.lines);
                    stopped = ih.stopped;
                  })
          ]
        ]
      ]

  -- What `read` did from a position: it consumed whole lines from there, in order, gave their events
  -- and the position after them, and stopped at a limit or where no whole line is left.
  pub record IsRead (content : Bytes) (start : ℕ) (r : List Event × ℕ × ℕ) : Type 0 where
    pub lines : List Bytes
    pub whole : All IsLine lines
    pub split : drop start content ≡ concat lines ++ drop r.1 content
    pub moved : r.1 ≡ start + length (concat lines)
    pub within : r.1 ≤ length content
    pub events : r.0 ≡ events_of lines
    pub size : r.2 ≡ length content
    pub stopped :
        (max_scan + start ≤ r.1) ⊎ ((max_events ≤ length r.0) ⊎ NoNewline (drop r.1 content))

  -- A read of a log from a position in it consumes whole lines from there on, in order, returns their
  -- events and the position after them, and stops only at its limits or where no whole line is left.
  pub read-IsRead :
      (content : Bytes) (start : ℕ)
      → start ≤ length content
      → IsRead content start (read json content start)
  unfolding read
  read-IsRead content start h =
      let at : min start (length content) ≡ start = omega arith in
      let s =
        scan_lem (length content + 1) (drop start content) [] 0
          (omega (arith, length-drop start content)) in
      let left_is : drop (start + (0 + length (concat s.lines))) content ≡ s.left =
        drop-congr (start + (0 + length (concat s.lines))) (start + length (concat s.lines)) content
          (omega arith)
        ∙ sym (drop-drop (length (concat s.lines)) start content)
        ∙ ap (drop (length (concat s.lines))) s.split
        ∙ drop-append_length (concat s.lines) s.left in
      rw at (record {
        lines = s.lines;
        whole = s.whole;
        split = rw (s.moved, left_is) s.split;
        moved = omega (arith, s.moved);
        within = omega (
          arith,
          s.moved,
          length-drop start content,
          ap length s.split,
          length-append (concat s.lines) s.left,
        );
        events = s.events;
        size = refl;
        stopped = elim s.stopped [
          | inl far ↦ inl (omega arith)
          | inr (inl many) ↦ inr (inl many)
          | inr (inr none_left) ↦ inr (inr (rw (s.moved, left_is) none_left))
        ];
      })
