-- ===== src/Desktop/AgentLog/Polling.antt =====
-- A view that reads a growing log again and again: `read` and `tail_start` of
-- crates/desktop/src/agent_log.rs.
use dot_terminal.Prelude.{
  All-append, ℕ, ◌+◌, ◌≤◌, ◌≡◌, refl, sym, ap, ◌∙◌, arith, List, [], ◌∷◌, ◌++◌, length, All, drop,
  length-append, drop-append, Bytes,
}
use mathlib.Core.List.{append_assoc}
use mathlib.Core.Path.{ap₂}
use dot_terminal.Desktop.AgentLog.{Values, Event, reduce_line, read}
use dot_terminal.Desktop.AgentLog.Reading.{IsLine, concat, events_of, read-IsRead}

concat-append : (xs ys : List Bytes) → concat (xs ++ ys) ≡ concat xs ++ concat ys
concat-append [] ys = refl
concat-append (x ∷ xs) ys =
    ap (λ t. x ++ t) (concat-append xs ys) ∙ sym (append_assoc x (concat xs) (concat ys))

module _ {Json : Type 0} (json : Values Json) where
  events_of-append :
      (xs ys : List Bytes) → events_of json (xs ++ ys) ≡ events_of json xs ++ events_of json ys
  events_of-append [] ys = refl
  events_of-append (x ∷ xs) ys =
      ap (λ t. reduce_line json x ++ t) (events_of-append xs ys)
      ∙ sym (append_assoc (reduce_line json x) (events_of json xs) (events_of json ys))

  -- The log grows by each part, and is read from where the last read ended: the events of all reads,
  -- and the position after the last.
  pub polls : Bytes → ℕ → List Bytes → List Event × ℕ
  polls content at [] = ([], at)
  polls content at (part ∷ parts) =
      let r = read json (content ++ part) at in
      let later = polls (content ++ part) r.1 parts in (r.0 ++ later.0, later.1)

  -- What the reads came to: they gave the events of the whole lines from the first position up to
  -- the last, each line once and in order.
  pub record IsPolled (start : ℕ) (final : Bytes) (r : List Event × ℕ) : Type 0 where
    pub lines : List Bytes
    pub whole : All IsLine lines
    pub split : drop start final ≡ concat lines ++ drop r.1 final
    pub moved : r.1 ≡ start + length (concat lines)
    pub within : r.1 ≤ length final
    pub events : r.0 ≡ events_of json lines

  -- Reads of a log that only grows, each from where the one before ended, together give the events of
  -- the whole lines between the first position and the last, each line once and in order, whatever
  -- parts the log grows by and whether a read stops at a limit or not.
  pub polls-IsPolled :
      (content : Bytes) (start : ℕ) (parts : List Bytes)
      → start ≤ length content
      → IsPolled start (content ++ concat parts) (polls content start parts)
  unfolding polls
  polls-IsPolled content start [] h = record {
    lines = [];
    whole = tt;
    split = refl;
    moved = omega arith;
    within = omega (arith, length-append content []);
    events = refl;
  }
  polls-IsPolled content start (part ∷ parts) h =
      let first =
        read-IsRead json (content ++ part) start (omega (arith, length-append content part)) in
      let next = (read json (content ++ part) start).1 in
      let later = polls-IsPolled (content ++ part) next parts first.within in
      let grown = append_assoc content part (concat parts) in
      let rest = concat parts in
      rw (← grown) (record {
        lines = first.lines ++ later.lines;
        whole = All-append IsLine first.lines later.lines first.whole later.whole;
        split =
            drop-append start (content ++ part) rest (omega (arith, length-append content part))
            ∙ ap (λ t. t ++ rest) first.split
            ∙ append_assoc (concat first.lines) (drop next (content ++ part)) rest
            ∙ ap (λ t. concat first.lines ++ t)
                (sym (drop-append next (content ++ part) rest first.within) ∙ later.split)
            ∙ sym (
                append_assoc (concat first.lines) (concat later.lines)
                  (drop (polls (content ++ part) next parts).1 ((content ++ part) ++ rest)))
            ∙ ap (λ t. t ++ drop (polls (content ++ part) next parts).1 ((content ++ part) ++ rest))
                (sym (concat-append first.lines later.lines));
        moved = omega (
          arith,
          later.moved,
          first.moved,
          ap length (concat-append first.lines later.lines),
          length-append (concat first.lines) (concat later.lines),
        );
        within = later.within;
        events =
            ap₂ (λ x y. x ++ y) first.events later.events
            ∙ sym (events_of-append first.lines later.lines);
      })
