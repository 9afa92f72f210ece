-- ===== src/Authority/Anchor/Command.antt =====
-- `CommandAnchor` of crates/authority/src/lib.rs with its program: running it, its arguments, and what
-- is read of its output. The program and JSON are parameters.
use dot_terminal.Prelude.{
  ◌≤◌, ◌≢◌, ◌++◌, arith, ℕ, ◌+◌, ◌-◌, ◌*◌, Bool, not, ◌&&◌, Option, none, some, List, [], ◌∷◌,
  length, leb, ltb, ◌==◌, if◌then◌else◌, Text, Bytes, text, utf8, is_ascii_digit, Result, ok, err,
}
use mathlib.Core.Option
use dot_terminal.Node.Invitation.{decimal, hex_encode}
use dot_terminal.Authority.Types.{Error, anchor_unavailable, Tip, Digest}
use dot_terminal.Authority.Anchor.{
  Answer, unreadable, null, fields, contradicts, command_tip, command_advance,
}

-- What `try_wait` gives: an error, that the program still runs, or whether it succeeded.
pub data Polled : Type 0 where
  failed running : Polled
  exited : Bool → Polled

-- The loop of `run`, over what it meets at each pass, with the clock after it, in milliseconds. There
-- is no result yet if the passes end first. `none` stands for `AnchorUnavailable`.
unfoldable pub await_exit : ℕ → Bytes → List (Polled × ℕ) → Option (Option Bytes)
await_exit deadline out [] = none
await_exit deadline out ((failed, now) ∷ passes) = some none
await_exit deadline out ((exited success, now) ∷ passes) = some (if success then some out else none)
await_exit deadline out ((running, now) ∷ passes) =
    let rest = await_exit deadline out passes in if leb deadline now then some none else rest

-- A pass at or after the deadline is the last.
await_exit_ends :
    (deadline now : ℕ) (out : Bytes) (passes : List (Polled × ℕ)) (p : Polled)
    → deadline ≤ now
    → await_exit deadline out (passes ++ (p, now) ∷ []) ≢ none
unfolding await_exit
await_exit_ends deadline now out [] failed h = ground arith
await_exit_ends deadline now out [] running h = ground arith
await_exit_ends deadline now out [] (exited success) h = ground arith
await_exit_ends deadline now out ((failed, then_now) ∷ passes) p h = ground arith
await_exit_ends deadline now out ((exited success, then_now) ∷ passes) p h = ground arith
await_exit_ends deadline now out ((running, then_now) ∷ passes) p h =
    ground (arith, await_exit_ends deadline now out passes p h)

-- `run`: the clock at the start, if the program is started, and what it prints.
unfoldable pub run : Option ℕ → Bytes → List (Polled × ℕ) → Option (Option Bytes)
run none out passes = some none
run (some started) out passes = await_exit (started + 10000) out passes

-- `to_digit(16)`
unfoldable pub hex_value : ℕ → Option ℕ
hex_value c =
    if is_ascii_digit c
    then some (c - 48)
    else if leb 97 c && leb c 102
    then some (c - 87)
    else if leb 65 c && leb c 70
    then some (c - 55)
    else none

-- `u8::from_str_radix(.., 16)` of two characters; the first may be a plus.
unfoldable pub byte_of : ℕ → ℕ → Option ℕ
unfolding hex_value
byte_of c d = if c == 43 then hex_value d else elim (hex_value c) [
  | none ↦ none
  | some high ↦ elim (hex_value d) [ none ↦ none | some low ↦ some (high * 16 + low) ]
]

-- The slices of two bytes, one after the other, up to the first that is no number. `none` is a panic:
-- the end of a slice within a character.
unfoldable pub unhex_pairs : Text → Option (Option Bytes)
unhex_pairs [] = some (some [])
unhex_pairs (c ∷ []) = if leb 128 c && ltb c 2048 then some none else none
unhex_pairs (c ∷ d ∷ t) =
    let rest = unhex_pairs t in
    if leb 128 c
    then (if ltb c 2048 then some none else none)
    else if leb 128 d
    then none
    else elim (byte_of c d) [
      | none ↦ some none
      | some b ↦ Option.map (Option.map (λ bs. b ∷ bs)) rest
    ]

unfoldable pub unhex32 : Text → Option (Option Digest)
unhex32 t = if not (length (utf8 t) == 64) then some none else unhex_pairs t

-- What serde_json makes of the output.
pub record Values (Json : Type 0) : Type 0 where
  pub from_slice : Bytes → Option Json
  pub is_null : Json → Bool
  pub seq : Json → Option ℕ
  pub hash : Json → Option Text

-- `S`: the state of the program, which is given arguments and answers by what `run` gives.
abbrev pub Program : Type 0 → Type 0
Program S = S → List Text → Option Bytes × S

module _ {Json S : Type 0} (v : Values Json) (program : Program S) (journal : Text) where
  -- What is read of the output; `none` is the panic of `unhex32`.
  unfoldable pub answer_of : Bytes → Option Answer
  answer_of out = elim (v.from_slice out) [
    | none ↦ some unreadable
    | some json ↦ if v.is_null json then some null else elim (v.hash json) [
      | none ↦ some (fields (v.seq json) none)
      | some t ↦ Option.map (fields (v.seq json)) (unhex32 t)
    ]
  ]

  -- `tip`, over the newest tip seen and the program.
  unfoldable pub ask_tip : Option Tip → S → Option (Result Error (Option Tip) × (Option Tip × S))
  ask_tip last s =
      let (printed, s') = program s (text "tip" ∷ journal ∷ []) in
      elim printed [
        | none ↦ some (err anchor_unavailable, (last, s'))
        | some out ↦
            Option.map (λ a. let (result, seen) = command_tip last (ok a) in (result, (seen, s')))
              (answer_of out)
      ]

  abbrev pub advance_args : Tip → List Text
  advance_args tip = text "advance" ∷ journal ∷ decimal tip.seq ∷ hex_encode tip.hash ∷ []

  abbrev pub exit_of : Option Bytes → Result Error (Unit {0})
  exit_of none = err anchor_unavailable
  exit_of (some out) = ok tt

  -- `advance`; the program is run unless the tip contradicts the one seen.
  unfoldable pub put_tip : Option Tip → S → Tip → Result Error (Unit {0}) × (Option Tip × S)
  put_tip last s tip =
      let (printed, s') = program s (advance_args tip) in
      let (result, seen) = command_advance (λ t. exit_of printed) last tip in
      (result, (seen, if contradicts last tip then s else s'))
