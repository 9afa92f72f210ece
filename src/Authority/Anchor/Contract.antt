-- ===== src/Authority/Anchor/Contract.antt =====
-- What `CommandAnchor` of crates/authority/src/lib.rs asks of its program, as its comment says, and the
-- memory anchor that may be unavailable as what it promises then.
use dot_terminal.Prelude.{
  ◌≡◌, ◌⊎◌, true, false, Option, none, some, List, [], ◌∷◌, Text, Bytes, text, Result, ok, err,
}
use mathlib.Core.Option
use dot_terminal.Node.Invitation.{hex_encode}
use dot_terminal.Authority.Types.{Error, anchor_unavailable, Tip}
use dot_terminal.Authority.Anchor.{contradicts, memory_advance}
use dot_terminal.Authority.Anchor.Command.{Values, Program, ask_tip, advance_args, put_tip}
use dot_terminal.Authority.Anchor.Hex.{IsDigest}

-- A call of an anchor, and what it comes to.
pub data Call : Type 0 where
  get : Call
  put : Tip → Call

pub data Said : Type 0 where
  told : Option Tip → Said
  taken : Said
  refused : Error → Said

-- A tip that is seen is not past the one that is kept.
abbrev pub Seen : Option Tip → Option Tip → Type 0
Seen none m = Unit {0}
Seen (some l) none = ⊥
Seen (some l) (some t) = contradicts (some l) t ≡ false

-- What a `MemoryAnchor` that holds a tip may answer, and what it holds then, if it may be unavailable,
-- before or after it took a tip.
pub data Serves (m : Option Tip) : Call → Said → Option Tip → Type 0 where
  gets : Serves m get (told m) m
  puts : (t : Tip) {m' : Option Tip} → memory_advance m t ≡ (ok tt, m') → Serves m (put t) taken m'
  refuses :
      (t : Tip) (e x : Error) → memory_advance m t ≡ (err x, m) → Serves m (put t) (refused e) m
  lacks : (c : Call) → Serves m c (refused anchor_unavailable) m
  loses :
      (t : Tip) {m' : Option Tip}
      → memory_advance m t ≡ (ok tt, m')
      → Serves m (put t) (refused anchor_unavailable) m'

pub data Runs : Option Tip → List Call → List Said → Option Tip → Type 0 where
  ends : {m : Option Tip} → Runs m [] [] m
  next :
      {m n o : Option Tip} {c : Call} {said : Said} {cs : List Call} {rest : List Said}
      → Serves m c said n
      → Runs n cs rest o
      → Runs m (c ∷ cs) (said ∷ rest) o

abbrev pub IsCall : Call → Type 0
IsCall get = Unit {0}
IsCall (put t) = IsDigest t.hash

module _ {Json S : Type 0} (v : Values Json) (program : Program S) (journal : Text) where
  abbrev pub said_of_tip : Result Error (Option Tip) → Said
  said_of_tip (ok m) = told m
  said_of_tip (err e) = refused e

  abbrev pub said_of_put : Result Error (Unit {0}) → Said
  said_of_put (ok u) = taken
  said_of_put (err e) = refused e

  -- One call; `none` is a panic.
  abbrev pub call : Option Tip × S → Call → Option (Said × (Option Tip × S))
  call (last, s) get = Option.map (λ r. (said_of_tip r.0, r.1)) (ask_tip v program journal last s)
  call (last, s) (put t) =
      let (result, st) = put_tip v program journal last s t in some (said_of_put result, st)

  abbrev pub calls : List Call → Option Tip × S → Option (List Said × (Option Tip × S))
  calls [] st = some ([], st)
  calls (c ∷ cs) st = elim (call st c) [
    | none ↦ none
    | some (said, st') ↦ Option.map (λ r. (said ∷ r.0, r.1)) (calls cs st')
  ]

  -- The output says that a tip is kept, or that none is.
  abbrev pub Prints : Option Tip → Bytes → Type 0
  Prints none out = (j : Json) × (v.from_slice out ≡ some j) × (v.is_null j ≡ true)
  Prints (some t) out =
      (j : Json) × (v.from_slice out ≡ some j)
      × (v.is_null j ≡ false)
      × (v.seq j ≡ some t.seq)
      × (v.hash j ≡ some (hex_encode t.hash))

  -- The contract of the program: `tip` prints the tip that is kept, if it exits with success;
  -- `advance` does so only once the tip is kept, and it refuses a lower one and another of the same
  -- number; a program that fails has kept the tip all the same, or nothing was changed.
  pub record IsHonest (kept : S → Option Tip) : Type 0 where
    pub digest : (s : S) (t : Tip) → kept s ≡ some t → IsDigest t.hash
    pub tip_keeps : (s : S) → kept (program s (text "tip" ∷ journal ∷ [])).1 ≡ kept s
    pub tip_prints :
        (s : S) (out : Bytes)
        → (program s (text "tip" ∷ journal ∷ [])).0 ≡ some out
        → Prints (kept s) out
    pub advances :
        (s : S) (t : Tip) (out : Bytes)
        → IsDigest t.hash
        → (program s (advance_args v program journal t)).0 ≡ some out
        → (contradicts (kept s) t ≡ false)
          × (kept (program s (advance_args v program journal t)).1 ≡ some t)
    pub fails :
        (s : S) (t : Tip)
        → IsDigest t.hash
        → (program s (advance_args v program journal t)).0 ≡ none
        → (kept (program s (advance_args v program journal t)).1 ≡ kept s)
          ⊎ ((contradicts (kept s) t ≡ false)
              × (kept (program s (advance_args v program journal t)).1 ≡ some t))
