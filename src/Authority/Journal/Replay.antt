-- ===== src/Authority/Journal/Replay.antt =====
-- The loop of `catch_up` of crates/authority/src/lib.rs over a file that grows.
use dot_terminal.Prelude.{
  ℕ, zero, suc, ◌≤◌, ◌<◌, ◌≡◌, refl, inl, inr, some, [], ◌∷◌, ◌++◌, arith, length, take, drop,
  Bytes, list_eq_refl, Result, ok, length-append, length-drop, drop-append, take-append,
  Option-cases, was_ok, was_err, Result-cases, take-length, drop_all,
}
use dot_terminal.Protocol.Framing.{from_be_bytes, be_bytes_roundtrip}
use dot_terminal.Authority.Types.{Error, Event, Digest, Line, Record, Library, IsSound}
use dot_terminal.Authority.Anchor.{TipAnchor}
use dot_terminal.Authority.Journal.{
  Journal, blank, next_seq, next_prev, apply, line_message, record_hash, scan, next_record,
  accept_record, apply_event, apply_reserve, apply_outcome,
}
use dot_terminal.Authority.Journal.Operations.{World, make_record, sealed, framed}

module _ (l : Library) where
  -- A record is the same whatever follows it in the file.
  next_record-append :
      (xs ys : Bytes) {r : Record} {rest : Bytes}
      → next_record l xs ≡ ok (r, rest)
      → (next_record l (xs ++ ys) ≡ ok (r, rest ++ ys)) × (length rest < length xs)
  unfolding next_record
  next_record-append xs ys e =
      let size = from_be_bytes (take 4 xs) in
      let long : 4 ≤ length xs = ground arith in
      let head = take-append 4 xs ys long in
      let tail = drop-append 4 xs ys long in
      let held : size ≤ length (drop 4 xs) = ground arith in
      let body = take-append size (drop 4 xs) ys held in
      let after = drop-append size (drop 4 xs) ys held in
      let enough = length-append xs ys in
      let more = length-append (drop 4 xs) ys in
      let left = length-drop size (drop 4 xs) in
      let cut = length-drop 4 xs in (ground arith, ground arith)

  -- Reading a file gives the same result on any two amounts of fuel that are greater than its
  -- length, so that the fuel that the code is given, one more than the length, is enough.
  pub scan_fuel :
      (f g : ℕ) (xs : Bytes) (j : Journal)
      → length xs < f
      → length xs < g
      → scan l f xs j ≡ scan l g xs j
  unfolding scan
  scan_fuel zero g xs j p q = absurd (omega arith)
  scan_fuel (suc f) zero xs j p q = absurd (omega arith)
  scan_fuel (suc f) (suc g) [] j p q = refl
  scan_fuel (suc f) (suc g) (b ∷ bs) j p q = elim (Result-cases (next_record l (b ∷ bs))) [
    | was_err e bad ↦ ground arith
    | was_ok (r, rest) good ↦
        let (_, shorter) = next_record-append (b ∷ bs) [] good in
        ground (arith, scan_fuel f g rest (accept_record l j r).1 (omega arith) (omega arith))
  ]

  scan_step :
      (f b : ℕ) (bs : Bytes) (j : Journal) {j' : Journal} {r : Record} {rest : Bytes}
      → next_record l (b ∷ bs) ≡ ok (r, rest)
      → scan l (suc f) (b ∷ bs) j ≡ (ok tt, j')
      → ((accept_record l j r).0 ≡ ok tt) × (scan l f rest (accept_record l j r).1 ≡ (ok tt, j'))
  unfolding scan
  scan_step f b bs j good e = ground arith

  -- A scan that gets through one part of the file goes on with the next.
  pub scan-append :
      (f : ℕ) (xs ys : Bytes) (j : Journal) {j' : Journal}
      → length (xs ++ ys) < f
      → scan l f xs j ≡ (ok tt, j')
      → scan l f (xs ++ ys) j ≡ scan l f ys j'
  unfolding scan
  scan-append zero xs ys j p e = absurd (omega arith)
  scan-append (suc f) [] ys j p e = ground arith
  scan-append (suc f) (b ∷ bs) ys j {j'} p e = elim (Result-cases (next_record l (b ∷ bs))) [
    | was_err e' bad ↦ absurd (ground arith)
    | was_ok (r, rest) good ↦
        let (same, shorter) = next_record-append (b ∷ bs) ys good in
        let sizes = length-append (b ∷ bs) ys in
        let sizes' = length-append rest ys in
        let ran = scan_step f b bs j good e in
        ground (
          arith,
          scan-append f rest ys (accept_record l j r).1 {j' = j'} (omega arith) ran.1,
          scan_fuel f (suc f) ys j' (omega arith) (omega arith),
        )
  ]

-- A scan of the whole file from a blank journal ends in the state that the journal has.
pub record Replays {S : Type 0} (l : Library) (w : World S) : Type 0 where
  pub scanned :
      (f : ℕ)
      → length w.file < f
      → scan l f w.file blank ≡ (ok tt, record w.journal { read_to = 0 })
  pub caught_up : w.journal.read_to ≡ length w.file

abbrev pub at_start : Journal → Journal
at_start j = record j { read_to = 0 }

abbrev pub from_start : Result Error (Unit {0}) × Journal → Result Error (Unit {0}) × Journal
from_start r = (r.0, at_start r.1)

apply_reserve-at_start :
    (j : Journal) (line : Line)
    → apply_reserve (at_start j) line ≡ from_start (apply_reserve j line)
unfolding apply_reserve
apply_reserve-at_start j line = ground arith

apply_outcome-at_start :
    (j : Journal) (line : Line)
    → apply_outcome (at_start j) line ≡ from_start (apply_outcome j line)
unfolding apply_outcome
apply_outcome-at_start j line = ground arith

apply_event-at_start :
    (event : Event) (j : Journal) (line : Line)
    → apply_event event (at_start j) line ≡ from_start (apply_event event j line)
unfolding apply_event
apply_event-at_start Event.reserve j line = apply_reserve-at_start j line
apply_event-at_start _ j line = apply_outcome-at_start j line

-- How far the file was read has no say in what a line does.
apply-at_start : (j : Journal) (line : Line) → apply (at_start j) line ≡ from_start (apply j line)
unfolding apply
apply-at_start j line = apply_event-at_start line.event j line

module _ {S : Type 0} (l : Library) (a : TipAnchor S) (sound : IsSound l) where
  -- What a record is made of.
  pub make_record_ok :
      (line : Line) {hash : Digest} {bytes : Bytes}
      → make_record l a line ≡ ok (hash, bytes)
      → (m : Bytes) × (text : Bytes) × (line_message l line ≡ ok m)
        × (record_hash l line (l.sign m) ≡ ok hash)
        × (l.record_vec (record { line = line; sig = l.sign m }) ≡ some text)
        × (bytes ≡ framed l a text)
  unfolding make_record
  make_record_ok line {hash} {bytes} e = elim (Result-cases (line_message l line)) [
    | was_err x bad ↦ absurd (ground arith)
    | was_ok m good ↦ elim (Result-cases (record_hash l line (l.sign m))) [
      | was_err x bad ↦ absurd (ground arith)
      | was_ok h hashed ↦
          elim (Option-cases (l.record_vec (record { line = line; sig = l.sign m }))) [
            | inl bad ↦ absurd (ground arith)
            | inr (text, made) ↦ (m, text, good, ground arith, made, ground arith)
          ]
    ]
  ]

  pub next_record-framed :
      (r : Record) (text : Bytes)
      → l.record_vec r ≡ some text
      → next_record l (framed l a text) ≡ ok (r, [])
  unfolding next_record
  next_record-framed r text e =
      let size = be_bytes_roundtrip (length text) (sound.small r text e) in
      ground (arith, size, take-length text, drop_all (length text) text, sound.reads_back r text e)

  -- The record that `append` makes is one that a reader of the file accepts.
  pub accept_record-sealed :
      (j : Journal) (line : Line) (m : Bytes) (hash : Digest) {j' : Journal}
      → line_message l (sealed l a j line) ≡ ok m
      → record_hash l (sealed l a j line) (l.sign m) ≡ ok hash
      → apply j (sealed l a j line) ≡ (ok tt, j')
      → accept_record l (at_start j) (record { line = sealed l a j line; sig = l.sign m }) ≡ (
        ok tt,
        record j' { read_to = 0; tip = some (record { seq = next_seq j.tip; hash = hash }) },
      )
  unfolding accept_record
  accept_record-sealed j line m hash good hashed applied =
      ground
        (arith, list_eq_refl (next_prev j.tip), sound.signs m, apply-at_start j (sealed l a j line))
