-- ===== src/Authority/Anchor/Tests.antt =====
-- The command anchor at concrete inputs.
use dot_terminal.Prelude.{
  ℕ, ◌≡◌, ◌∙◌, sym, ap, inl, inr, refl, arith, Bool, true, false, ◌&&◌, Option, none, some, [], ◌∷◌,
  if◌then◌else◌, Text, Bytes, text, list_eq, list_eq_iff, Bool-cases,
}
use mathlib.Core.Option
use dot_terminal.Node.Invitation.{decimal, hex_encode}
use dot_terminal.Node.Pairing.Proof.{decimal-injective}
use dot_terminal.Authority.Types.{Tip}
use dot_terminal.Authority.Anchor.{contradicts}
use dot_terminal.Authority.Anchor.Command.{
  Values, Program, advance_args, unhex32, unhex_pairs, byte_of,
}
use dot_terminal.Authority.Anchor.Hex.{IsDigest, unhex32-hex_encode}
use dot_terminal.Authority.Anchor.Contract.{get, put, Prints, IsHonest}
use dot_terminal.Authority.Anchor.Honest.{IsRun, calls-Runs}

-- A text of 64 bytes with a character across the end of a slice: the panic.
broken : unhex32 (text "0é0000000000000000000000000000000000000000000000000000000000000") ≡ none
unfolding unhex32 unhex_pairs
broken = refl

-- A plus is read as a digit is.
plus : byte_of 43 53 ≡ some 5
unfolding byte_of
plus = refl

abbrev the_tip : Tip
the_tip = record { seq = 4; hash = text "01234567890123456789012345678901" }

the_tip-IsDigest : IsDigest the_tip.hash
the_tip-IsDigest = record { long = refl; bytes = omega arith }

-- JSON values: `null`, or a number and a text.
abbrev values : Values (Option (ℕ × Text))
values = record {
  from_slice = λ out. elim out [ [] ↦ some none | n ∷ t ↦ some (some (n, t)) ];
  is_null = λ j. elim j [ none ↦ true | some r ↦ false ];
  seq = λ j. Option.map (λ r. r.0) j;
  hash = λ j. Option.map (λ r. r.1) j;
}

-- A program that keeps one tip, once it is given it.
abbrev kept : Bool → Option Tip
kept false = none
kept true = some the_tip

abbrev print : Bool → Bytes
print false = []
print true = the_tip.seq ∷ hex_encode the_tip.hash

abbrev is_the_tip : Text → Text → Bool
is_the_tip n h = list_eq n (decimal the_tip.seq) && list_eq h (hex_encode the_tip.hash)

abbrev keeper : Program Bool
keeper s (command ∷ journal ∷ []) = (some (print s), s)
keeper s (command ∷ journal ∷ n ∷ h ∷ []) = if is_the_tip n h then (some [], true) else (none, s)
keeper s _ = (none, s)

abbrev journal : Text
journal = text "node-1"

is_the_tip_lem :
    (t : Tip)
    → IsDigest t.hash
    → is_the_tip (decimal t.seq) (hex_encode t.hash) ≡ true
    → t ≡ the_tip
is_the_tip_lem t whole e =
    let number = (list_eq_iff (decimal t.seq) (decimal the_tip.seq)).0 (ground arith) in
    let written = (list_eq_iff (hex_encode t.hash) (hex_encode the_tip.hash)).0 (ground arith) in
    let seq : t.seq ≡ the_tip.seq = decimal-injective t.seq the_tip.seq number in
    let read =
      sym (unhex32-hex_encode t.hash whole)
      ∙ ap unhex32 written
      ∙ unhex32-hex_encode the_tip.hash the_tip-IsDigest in
    let hash : t.hash ≡ the_tip.hash = cc in cc

allowed : (s : Bool) → contradicts (kept s) the_tip ≡ false
unfolding contradicts
allowed false = refl
allowed true = refl

kept-IsDigest : (s : Bool) (t : Tip) → kept s ≡ some t → IsDigest t.hash
kept-IsDigest false t e = absurd cc
kept-IsDigest true t e = let same : t ≡ the_tip = cc in rw same the_tip-IsDigest

prints :
    (s : Bool) (out : Bytes)
    → (keeper s (text "tip" ∷ journal ∷ [])).0 ≡ some out
    → Prints values keeper journal (kept s) out
prints false out e = let same : out ≡ print false = cc in (none, rw same refl, refl)
prints true out e =
    let same : out ≡ print true = cc in
    (some (the_tip.seq, hex_encode the_tip.hash), rw same refl, refl, refl, refl)

advances :
    (s : Bool) (t : Tip) (out : Bytes)
    → IsDigest t.hash
    → (keeper s (advance_args values keeper journal t)).0 ≡ some out
    → (contradicts (kept s) t ≡ false)
      × (kept (keeper s (advance_args values keeper journal t)).1 ≡ some t)
advances s t out whole e = elim (Bool-cases (is_the_tip (decimal t.seq) (hex_encode t.hash))) [
  | inr other ↦ absurd (ground arith)
  | inl it ↦
      let same = is_the_tip_lem t whole it in
      (ap (contradicts (kept s)) same ∙ allowed s, rw it (ap some (sym same)))
]

fails :
    (s : Bool) (t : Tip)
    → (keeper s (advance_args values keeper journal t)).0 ≡ none
    → kept (keeper s (advance_args values keeper journal t)).1 ≡ kept s
fails s t e = elim (Bool-cases (is_the_tip (decimal t.seq) (hex_encode t.hash))) [
  | inl it ↦ absurd (ground arith)
  | inr other ↦ rw other refl
]

honest : IsHonest values keeper journal kept
honest = record {
  digest = kept-IsDigest;
  tip_keeps = λ s. refl;
  tip_prints = prints;
  advances = advances;
  fails = λ s t whole e. inl (fails s t e);
}

calls-Runs_example : IsRun values keeper journal kept honest none false (put the_tip ∷ get ∷ [])
calls-Runs_example =
    calls-Runs values keeper journal kept honest (put the_tip ∷ get ∷ []) false
      (the_tip-IsDigest, (tt, tt))
