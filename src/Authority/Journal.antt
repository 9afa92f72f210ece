-- ===== src/Authority/Journal.antt =====
-- `Journal` of crates/authority/src/lib.rs: what a line does to the state, and how the file is read.
-- An error keeps what was changed before it, as `&mut self` does.
pub mod Operations
pub mod Replay
pub mod Durable
pub mod Budget
pub mod Outcomes
pub mod Known
pub mod Rollback
pub mod Sample
mod Tests
use dot_terminal.Prelude.{
  ℕ, zero, suc, ◌+◌, Bool, true, false, not, ◌&&◌, ◌||◌, Option, none, some, List, [], ◌∷◌, ◌++◌,
  length, take, drop, ltb, leb, ◌==◌, if◌then◌else◌, Bytes, text, list_eq, Result, ok, err, ◌>>=◌,
}
use dot_terminal.Protocol.Framing.{from_be_bytes}
use dot_terminal.Authority.Types.{
  Error, tampered, truncated_header, truncated_record, unreadable_record, broken_chain, not_signed,
  impossible_reservation, no_pending_reservation, Digest, Tip, Event, Line, Record, Library,
}
use dot_terminal.Authority.Table.{lookup, insert, OpKey, same_op}
use dot_terminal.Authority.Verify.{encode}

pub record Journal : Type 0 where
  pub read_to : ℕ
  pub tip : Option Tip
  -- grant id: the hash of its terms, and the uses so far
  pub grants : List (Digest × (Digest × ℕ))
  pub ops : List (OpKey × (Digest × Event))

-- `Default::default()` of each field.
abbrev pub blank : Journal
blank = record { read_to = 0; tip = none; grants = []; ops = [] }

abbrev pub zero_digest : Digest
zero_digest =
    0 ∷ 0 ∷ 0 ∷ 0 ∷ 0 ∷ 0 ∷ 0 ∷ 0 ∷ 0 ∷ 0 ∷ 0 ∷ 0 ∷ 0 ∷ 0 ∷ 0 ∷ 0 ∷ 0 ∷ 0 ∷ 0 ∷ 0 ∷ 0 ∷ 0 ∷ 0 ∷ 0
    ∷ 0 ∷ 0 ∷ 0 ∷ 0 ∷ 0 ∷ 0 ∷ 0 ∷ 0 ∷ []

-- `self.tip.map_or(1, |t| t.seq + 1)` and `self.tip.map_or([0; 32], |t| t.hash)`.
unfoldable pub next_seq : Option Tip → ℕ
next_seq none = 1
next_seq (some t) = t.seq + 1

unfoldable pub next_prev : Option Tip → Digest
next_prev none = zero_digest
next_prev (some t) = t.hash

abbrev pub grant_of : Digest → Journal → Option (Digest × ℕ)
grant_of id j = lookup list_eq id j.grants

abbrev pub op_of : OpKey → Journal → Option (Digest × Event)
op_of key j = lookup same_op key j.ops

abbrev pub key_of : Line → OpKey
key_of line = (line.grant, line.nonce)

-- `self.grants.entry(line.grant).or_insert((line.grant_hash, 0))`: the entry, and the table with it.
abbrev pub entry_of : Journal → Line → Digest × ℕ
entry_of j line = elim (grant_of line.grant j) [ some e ↦ e | none ↦ (line.grant_hash, 0) ]

abbrev pub entered : Journal → Line → Journal
entered j line = elim (grant_of line.grant j) [
  | some e ↦ j
  | none ↦ record j { grants = insert list_eq line.grant (line.grant_hash, 0) j.grants }
]

abbrev pub is_known : Option (Digest × Event) → Bool
is_known none = false
is_known (some e) = true

unfoldable pub apply_reserve : Journal → Line → Result Error (Unit {0}) × Journal
apply_reserve j line =
    let (hash, used) = entry_of j line in
    if not (list_eq hash line.grant_hash)
      || leb line.max_uses used
      || is_known (op_of (key_of line) j)
    then (err (tampered impossible_reservation), entered j line)
    else (
      ok tt,
      record j {
        grants = insert list_eq line.grant (hash, used + 1) j.grants;
        ops = insert same_op (key_of line) (line.body, Event.reserve) j.ops;
      },
    )

-- The pending reservation with this body, if there is one.
unfoldable pub is_pending : Digest → Option (Digest × Event) → Bool
is_pending body (some (b, Event.reserve)) = list_eq b body
is_pending body _ = false

unfoldable pub apply_outcome : Journal → Line → Result Error (Unit {0}) × Journal
unfolding is_pending
apply_outcome j line =
    if is_pending line.body (op_of (key_of line) j)
    then (ok tt, record j { ops = insert same_op (key_of line) (line.body, line.event) j.ops })
    else (err (tampered no_pending_reservation), j)

-- `apply`, by the event of the line.
unfoldable pub apply_event : Event → Journal → Line → Result Error (Unit {0}) × Journal
unfolding apply_reserve apply_outcome
apply_event Event.reserve j line = apply_reserve j line
apply_event _ j line = apply_outcome j line

unfoldable pub apply : Journal → Line → Result Error (Unit {0}) × Journal
unfolding apply_event
apply j line = apply_event line.event j line

abbrev pub line_domain : Bytes
line_domain = text "DOT-AUTH-LEDGER-LINE-ED25519-V1" ++ 0 ∷ []

module _ (l : Library) where
  unfoldable pub line_message : Line → Result Error Bytes
  line_message line = encode line_domain (l.line_vec line)

  unfoldable pub record_hash : Line → Bytes → Result Error Digest
  record_hash line sig = do m ← line_message line; ok (l.sha256 (m ++ sig))

  -- The state moves on to the line that was applied.
  abbrev pub move_tip :
      Line → Bytes → Result Error (Unit {0}) × Journal → Result Error (Unit {0}) × Journal
  move_tip line sig (err e, j) = (err e, j)
  move_tip line sig (ok u, j) = elim (record_hash line sig) [
    | err e ↦ (err e, j)
    | ok h ↦ (ok tt, record j { tip = some (record { seq = line.seq; hash = h }) })
  ]

  -- The checks on one record, and its line applied.
  unfoldable pub accept_record : Journal → Record → Result Error (Unit {0}) × Journal
  accept_record j r =
      if not (r.line.seq == next_seq j.tip) || not (list_eq r.line.prev (next_prev j.tip))
      then (err (tampered broken_chain), j)
      else elim (line_message r.line) [
        | err e ↦ (err e, j)
        | ok m ↦
            if not (l.verifies l.public_key m r.sig)
            then (err (tampered not_signed), j)
            else move_tip r.line r.sig (apply j r.line)
      ]

  -- The body of the loop: one record off the front of the bytes, or why there is none.
  unfoldable pub next_record : Bytes → Result Error (Record × Bytes)
  next_record rest =
      if ltb (length rest) 4
      then err (tampered truncated_header)
      else let size = from_be_bytes (take 4 rest) in
        let after = drop 4 rest in
        if ltb (length after) size
        then err (tampered truncated_record)
        else elim (l.record_slice (take size after)) [
          | none ↦ err (tampered unreadable_record)
          | some r ↦ ok (r, drop size after)
        ]

  -- `while at < rest.len()`, on fuel.
  unfoldable pub scan : ℕ → Bytes → Journal → Result Error (Unit {0}) × Journal
  scan zero rest j = (ok tt, j)
  scan (suc f) [] j = (ok tt, j)
  scan (suc f) (b ∷ bs) j = elim (next_record (b ∷ bs)) [
    | err e ↦ (err e, j)
    | ok (r, rest) ↦
        let (done, j') = accept_record j r in
        elim done [ err e ↦ (err e, j') | ok u ↦ scan f rest j' ]
  ]
