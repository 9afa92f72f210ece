-- ===== src/Authority/Journal/Rollback.antt =====
-- The tip anchors of crates/authority/src/lib.rs, and `catch_up` against the anchored tip.
use dot_terminal.Prelude.{
  ◌<◌, ◌≡◌, is_ok, ◌⊎◌, inl, inr, refl, sym, ap, ◌∙◌, true, false, Option, some, none, length,
  list_eq, Result, ok, Bool-cases, Result-cases, was_ok, was_err, arith, ◌==◌, ltb,
}
use dot_terminal.Authority.Types.{Error, Tip, Library}
use dot_terminal.Authority.Anchor.{TipAnchor, memory_advance, command_advance, contradicts}
use dot_terminal.Authority.Journal.Operations.{
  Io, World, tolerate, reaches, check_anchor, read_file, catch_up,
}

-- The file goes as far as the anchored tip, and has the same hash there.
pub data Agrees : Option Tip → Option Tip → Type 0 where
  unanchored : {tip : Option Tip} → Agrees tip none
  ahead : {t anchored : Tip} → anchored.seq < t.seq → Agrees (some t) (some anchored)
  at_tip :
      {t anchored : Tip}
      → t.seq ≡ anchored.seq
      → list_eq t.hash anchored.hash ≡ true
      → Agrees (some t) (some anchored)

-- `reaches` succeeds only if the two tips agree.
reaches_ok : (tip anchored : Option Tip) → reaches tip anchored ≡ ok tt → Agrees tip anchored
unfolding reaches
reaches_ok tip none e = unanchored
reaches_ok none (some t) e = absurd (ground arith)
reaches_ok (some t) (some u) e = elim (Bool-cases (t.seq == u.seq)) [
  | inl same ↦ at_tip (ground arith) (ground arith)
  | inr other ↦ ahead (ground arith)
]

module _ {S : Type 0} (l : Library) (a : TipAnchor S) where
  -- A spend's `catch_up` succeeds only if the anchor answered and the journal agrees with its answer.
  pub record CaughtUp (w w' : World S) : Type 0 where
    pub answered : Option Tip
    pub answer : (a.tip w.anchor).0 ≡ ok answered
    pub agrees : Agrees w'.journal.tip answered
    pub whole : w'.journal.read_to ≡ length w'.file
    pub same_file : w'.file ≡ w.file

  tolerate_spend : {A : Type 0} (d : A) (r : Result Error A) → tolerate true d r ≡ r
  unfolding tolerate
  tolerate_spend d r = ground arith

  check_anchor_ok :
      (w : World S)
      → (check_anchor l a true w).0 ≡ ok tt
      → (answered : Option Tip) × ((a.tip w.anchor).0 ≡ ok answered) × Agrees w.journal.tip answered
  unfolding check_anchor
  check_anchor_ok w e = elim (Result-cases (a.tip w.anchor).0) [
    | was_err x bad ↦
        absurd (ground (arith, tolerate_spend {A = Option Tip} none (a.tip w.anchor).0))
    | was_ok t good ↦ (
      t,
      good,
      reaches_ok w.journal.tip t (ground (arith, tolerate_spend none (a.tip w.anchor).0)),
    )
  ]

  check_anchor-same :
      (w : World S)
      → ((check_anchor l a true w).1.journal ≡ w.journal)
        × ((check_anchor l a true w).1.file ≡ w.file)
  unfolding check_anchor
  check_anchor-same w = (refl, refl)

  read_file_ok :
      (w : World S)
      → (read_file l a w).0 ≡ ok tt
      → ((read_file l a w).1.journal.read_to ≡ length w.file)
        × ((read_file l a w).1.file ≡ w.file)
        × ((read_file l a w).1.anchor ≡ w.anchor)
  unfolding read_file
  read_file_ok w e = ground arith

  catch_up_parts :
      (io : Io) (w : World S)
      → (catch_up l a io true w).0 ≡ ok tt
      → ((read_file l a w).0 ≡ ok tt)
        × (catch_up l a io true w ≡ check_anchor l a true (read_file l a w).1)
  unfolding catch_up
  catch_up_parts io w e = (ground arith, ground arith)

  -- If the catching up before a spend succeeds, then the anchor answered, the tip of the journal is
  -- past the tip that it answered or has its number and its hash, and the journal has read the whole
  -- file, which is as it was.
  pub catch_up_ok :
      (io : Io) (w : World S)
      → (catch_up l a io true w).0 ≡ ok tt
      → CaughtUp w (catch_up l a io true w).1
  unfolding check_anchor read_file
  catch_up_ok io w e =
      let (read, same) = catch_up_parts io w e in
      let (whole, file, anchor) = read_file_ok w read in
      let w' = (read_file l a w).1 in
      let (t, answer, agrees) = check_anchor_ok w' (ap (λ r. r.0) (sym same) ∙ e) in
      let (journal, file') = check_anchor-same w' in
      rw same (record {
        answered = t;
        answer = ap (λ s. (a.tip s).0) (sym anchor) ∙ answer;
        agrees = agrees;
        whole = whole ∙ ap length (sym file);
        same_file = file;
      })

-- The memory anchor takes a tip and holds it, which then is past the tip that it held or has its
-- number and its hash, or it refuses and keeps the one that it held.
pub memory_advance_ok :
    (old : Option Tip) (tip : Tip)
    → ((memory_advance old tip ≡ (ok tt, some tip)) × Agrees (some tip) old)
      ⊎ (((memory_advance old tip).1 ≡ old) × (is_ok (memory_advance old tip).0 ≡ false))
unfolding memory_advance
memory_advance_ok none tip = inl (refl, unanchored)
memory_advance_ok (some old) tip = elim (Bool-cases (ltb tip.seq old.seq)) [
  | inl back ↦ inr (ground arith, ground arith)
  | inr on ↦ elim (Bool-cases (tip.seq == old.seq)) [
    | inr more ↦ inl (ground arith, ahead (ground arith))
    | inl same ↦ elim (Bool-cases (list_eq tip.hash old.hash)) [
      | inl equal ↦ inl (ground arith, at_tip (ground arith) equal)
      | inr other ↦ inr (ground arith, ground arith)
    ]
  ]
]

-- A command anchor takes a tip and remembers it, which then the command took and which is past the
-- last tip seen or has its number and its hash, or it refuses and remembers what it did.
pub command_advance_ok :
    (run : Tip → Result Error (Unit {0})) (last : Option Tip) (tip : Tip)
    → ((command_advance run last tip ≡ (ok tt, some tip))
        × (run tip ≡ ok tt)
        × Agrees (some tip) last)
      ⊎ (((command_advance run last tip).1 ≡ last)
          × (is_ok (command_advance run last tip).0 ≡ false))
unfolding command_advance contradicts
command_advance_ok run none tip = elim (Result-cases (run tip)) [
  | was_ok u good ↦ inl (ground arith, ground arith, unanchored)
  | was_err x bad ↦ inr (ground arith, ground arith)
]
command_advance_ok run (some old) tip = elim (Result-cases (run tip)) [
  | was_err x bad ↦ inr (ground arith, ground arith)
  | was_ok u good ↦ elim (Bool-cases (ltb tip.seq old.seq)) [
    | inl back ↦ inr (ground arith, ground arith)
    | inr on ↦ elim (Bool-cases (tip.seq == old.seq)) [
      | inr more ↦ inl (ground arith, ground arith, ahead (ground arith))
      | inl same ↦ elim (Bool-cases (list_eq tip.hash old.hash)) [
        | inl equal ↦ inl (ground arith, ground arith, at_tip (ground arith) equal)
        | inr other ↦ inr (ground arith, ground arith)
      ]
    ]
  ]
]
