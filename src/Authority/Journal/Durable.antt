-- ===== src/Authority/Journal/Durable.antt =====
-- `append` of crates/authority/src/lib.rs: the file, the anchor and the journal that it leaves.
use dot_terminal.Prelude.{
  ℕ, zero, suc, ◌+◌, ◌<◌, ◌≡◌, sym, ap, ◌∙◌, Bool, some, ◌++◌, arith, length, Bytes, ok,
  length-append, was_ok, was_err, Result-cases,
}
use dot_terminal.Authority.Types.{Event, Digest, Tip, Line, Record, Library, IsSound}
use dot_terminal.Authority.Anchor.{TipAnchor}
use dot_terminal.Authority.Journal.{
  Journal, blank, next_seq, apply, apply_event, apply_reserve, apply_outcome, scan, accept_record,
}
use dot_terminal.Authority.Journal.Operations.{
  Io, World, append, make_record, persist, settle, sealed, framed, tolerate,
}
use dot_terminal.Authority.Journal.Replay.{
  Replays, make_record_ok, next_record-framed, accept_record-sealed, scan-append, at_start,
}

read_to-apply_reserve : (j : Journal) (line : Line) → (apply_reserve j line).1.read_to ≡ j.read_to
unfolding apply_reserve
read_to-apply_reserve j line = ground arith

read_to-apply_outcome : (j : Journal) (line : Line) → (apply_outcome j line).1.read_to ≡ j.read_to
unfolding apply_outcome
read_to-apply_outcome j line = ground arith

read_to-apply_event :
    (e : Event) (j : Journal) (line : Line) → (apply_event e j line).1.read_to ≡ j.read_to
unfolding apply_event
read_to-apply_event Event.reserve j line = read_to-apply_reserve j line
read_to-apply_event Event.succeeded j line = read_to-apply_outcome j line
read_to-apply_event Event.failed j line = read_to-apply_outcome j line
read_to-apply_event Event.unknown j line = read_to-apply_outcome j line

-- A line does not change how far the file was read.
read_to-apply : (j : Journal) (line : Line) → (apply j line).1.read_to ≡ j.read_to
unfolding apply
read_to-apply j line = read_to-apply_event line.event j line

module _ {S : Type 0} (l : Library) (a : TipAnchor S) where
  -- The new tip.
  abbrev pub tip_of : Journal → Digest → Tip
  tip_of j hash = record { seq = next_seq j.tip; hash = hash }

  -- The parts of a line that was appended.
  pub record Appended (spend : Bool) (line : Line) (w w' : World S) : Type 0 where
    pub hash : Digest
    pub bytes : Bytes
    pub next : Journal
    pub made : make_record l a (sealed l a w.journal line) ≡ ok (hash, bytes)
    pub applied : apply w.journal (sealed l a w.journal line) ≡ (ok tt, next)
    pub moved : tolerate spend tt (a.advance w.anchor (tip_of w.journal hash)).0 ≡ ok tt
    pub same : w' ≡ record {
      file = w.file ++ bytes;
      anchor = (a.advance w.anchor (tip_of w.journal hash)).1;
      journal = record next {
        read_to = next.read_to + length bytes;
        tip = some (tip_of w.journal hash);
      };
    }

  -- If append succeeds, the file has grown by exactly the framed record of the line with its number
  -- and chain hash, the line was applied, and the anchor moved to its tip, or was unavailable and
  -- this was no spend.
  pub append_ok :
      (io : Io) (spend : Bool) (line : Line) (w : World S)
      → (append l a io spend line w).0 ≡ ok tt
      → Appended spend line w (append l a io spend line w).1
  unfolding append persist settle
  append_ok io spend line w e = elim (Result-cases (make_record l a (sealed l a w.journal line))) [
    | was_err x bad ↦ absurd (ground arith)
    | was_ok (hash, bytes) made ↦ record {
      hash = hash;
      bytes = bytes;
      next = (apply w.journal (sealed l a w.journal line)).1;
      made = made;
      applied = ground arith;
      moved = ground arith;
      same = ground arith;
    }
  ]

  module _ (sound : IsSound l) where
    -- One record at the end of the file, read.
    scan-framed :
        (f : ℕ) (r : Record) (text : Bytes) (j j' : Journal)
        → l.record_vec r ≡ some text
        → accept_record l j r ≡ (ok tt, j')
        → scan l (suc f) (framed l a text) j ≡ (ok tt, j')
    unfolding scan
    scan-framed zero r text j j' made good =
        ground (arith, next_record-framed l a sound r text made)
    scan-framed (suc f) r text j j' made good =
        ground (arith, next_record-framed l a sound r text made)

    extend :
        (f : ℕ) (xs ys : Bytes) {j j' : Journal}
        → length (xs ++ ys) < f
        → (length xs < f → scan l f xs blank ≡ (ok tt, j))
        → ((g : ℕ) → scan l (suc g) ys j ≡ (ok tt, j'))
        → scan l f (xs ++ ys) blank ≡ (ok tt, j')
    extend zero xs ys b first more = absurd (omega arith)
    extend (suc f) xs ys b first more =
        scan-append l (suc f) xs ys blank b (first (omega (arith, length-append xs ys))) ∙ more f

    -- If the file replays to the journal, by a sound library, then after an append that succeeds the
    -- longer file replays to the new journal, and the journal has read all of it.
    pub append-Replays :
        (io : Io) (spend : Bool) (line : Line) (w : World S)
        → Replays l w
        → (append l a io spend line w).0 ≡ ok tt
        → Replays l (append l a io spend line w).1
    append-Replays io spend line w r e =
        let d = append_ok io spend line w e in
        let (m, text, good, hashed, made, size) =
          make_record_ok l a sound (sealed l a w.journal line) d.made in
        let accepted =
          accept_record-sealed l a sound w.journal line m d.hash good hashed d.applied in
        rw d.same (record {
          scanned = λ f b.
              extend f w.file d.bytes b (r.scanned f)
                (λ g. rw size (scan-framed g _ text (at_start w.journal) _ made accepted));
          caught_up =
              ap (λ n. n + length d.bytes)
                (sym (ap (λ x. x.1.read_to) d.applied) ∙ read_to-apply w.journal _ ∙ r.caught_up)
              ∙ sym (length-append w.file d.bytes);
        })
