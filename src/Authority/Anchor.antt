-- ===== src/Authority/Anchor.antt =====
-- The tip anchors of crates/authority/src/lib.rs.
pub mod Command
pub mod Hex
pub mod Contract
pub mod Honest
mod Tests
use dot_terminal.Prelude.{
  ℕ, Bool, false, not, ◌&&◌, ◌||◌, Option, none, some, all, is_empty, length, ltb, ◌==◌,
  if◌then◌else◌, Text, utf8, list_eq, is_ascii_lowercase, is_ascii_digit, Result, ok, err,
}
use dot_terminal.Authority.Types.{
  Error, anchor_unavailable, tampered, moves_backwards, moves_sideways, below_or_beside,
  moves_back_or_sideways, Tip, Digest,
}

-- The trait `TipAnchor`, over the state of an implementation.
pub record TipAnchor (S : Type 0) : Type 0 where
  pub tip : S → Result Error (Option Tip) × S
  pub advance : S → Tip → Result Error (Unit {0}) × S

-- `MemoryAnchor`: its cell is the state.
unfoldable pub memory_advance : Option Tip → Tip → Result Error (Unit {0}) × Option Tip
memory_advance none tip = (ok tt, some tip)
memory_advance (some old) tip =
    if ltb tip.seq old.seq
    then (err (tampered moves_backwards), some old)
    else if tip.seq == old.seq && not (list_eq tip.hash old.hash)
    then (err (tampered moves_sideways), some old)
    else (ok tt, some tip)

unfoldable pub memory_anchor : TipAnchor (Option Tip)
unfolding memory_advance
memory_anchor = record { tip = λ t. (ok t, t); advance = memory_advance }

-- `CommandAnchor::new` on the journal's name.
unfoldable pub valid_journal : Text → Bool
valid_journal journal = not (
    is_empty (utf8 journal)
    || ltb 64 (length (utf8 journal))
    || not (all (λ b. is_ascii_lowercase b || is_ascii_digit b || b == 45) (utf8 journal)))

-- What the program printed for `tip`: nothing of use, `null`, or the fields `seq` and `hash`, read as a
-- number and as a digest as far as they are such.
pub data Answer : Type 0 where
  unreadable : Answer
  null : Answer
  fields : Option ℕ → Option Digest → Answer

-- A tip below or beside one that was seen.
unfoldable pub contradicts : Option Tip → Tip → Bool
contradicts none tip = false
contradicts (some old) tip =
    ltb tip.seq old.seq || (tip.seq == old.seq && not (list_eq tip.hash old.hash))

-- `CommandAnchor::tip` after the program ran: `last` is the newest tip seen.
unfoldable pub command_tip :
    Option Tip → Result Error Answer → Result Error (Option Tip) × Option Tip
unfolding contradicts
command_tip last (err e) = (err e, last)
command_tip last (ok unreadable) = (err anchor_unavailable, last)
command_tip last (ok null) = (ok none, last)
command_tip last (ok (fields (some seq) (some hash))) =
    let tip : Tip = record { seq = seq; hash = hash } in
    if contradicts last tip
    then (err (tampered below_or_beside), last)
    else (ok (some tip), some tip)
command_tip last (ok (fields seq hash)) = (err anchor_unavailable, last)

-- `CommandAnchor::advance`: `run` is what the program does with the tip.
unfoldable pub command_advance :
    (Tip → Result Error (Unit {0})) → Option Tip → Tip → Result Error (Unit {0}) × Option Tip
unfolding contradicts
command_advance run last tip =
    if contradicts last tip
    then (err (tampered moves_back_or_sideways), last)
    else elim (run tip) [ err e ↦ (err e, last) | ok u ↦ (ok tt, some tip) ]
