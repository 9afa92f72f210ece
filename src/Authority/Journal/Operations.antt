-- ===== src/Authority/Journal/Operations.antt =====
-- The operations of `Journal`: catching up with the file and the anchor, appending a line, reserving
-- a use, recording an outcome, opening.
use dot_terminal.Prelude.{
  ℕ, suc, ◌+◌, Bool, true, false, not, ◌&&◌, ◌||◌, Option, none, some, List, [], ◌∷◌, ◌++◌, length,
  take, drop, ltb, leb, ◌==◌, if◌then◌else◌, Bytes, list_eq, Result, ok, err, ◌>>=◌,
}
use mathlib.Core.Option
use dot_terminal.Protocol.Framing.{to_be_bytes}
use dot_terminal.Authority.Types.{
  Error, spent, not_pending, journal_failure, encoding, anchor_unavailable, tampered,
  shorter_than_read, diverges, behind_anchor, Digest, Tip, Event, Line, Library, Verified, Permit,
  Outcome, Grant, Request, Policy,
}
use dot_terminal.Authority.Table.{OpKey}
use dot_terminal.Authority.Verify.{verify}
use dot_terminal.Authority.Anchor.{TipAnchor}
use dot_terminal.Authority.Journal.{
  Journal, blank, zero_digest, next_seq, next_prev, grant_of, op_of, is_known, is_pending, apply,
  line_message, record_hash, scan,
}

-- What the operating system does during one operation: whether the file can be read, how many bytes
-- of a record reach it before a write fails (`none`: all do), whether it is synced, and whether the
-- lock is taken and given back.
pub record Io : Type 0 where
  pub reads : Bool
  pub stops_at : Option ℕ
  pub syncs : Bool
  pub locks : Bool
  pub unlocks : Bool

abbrev pub working : Io
working = record { reads = true; stops_at = none; syncs = true; locks = true; unlocks = true }

-- The journal with the file that it shares with other processes and the state of its anchor.
pub record World (S : Type 0) : Type 0 where
  pub file : Bytes
  pub anchor : S
  pub journal : Journal

-- `Err(AnchorUnavailable)` is tolerated unless a spend waits for it.
unfoldable pub tolerate {ℓ} : {A : Type ℓ} → Bool → A → Result Error A → Result Error A
tolerate spend a (err anchor_unavailable) = if spend then err anchor_unavailable else ok a
tolerate spend a r = r

-- The file must reach the anchored tip, and agree with it there.
unfoldable pub reaches : Option Tip → Option Tip → Result Error (Unit {0})
reaches tip none = ok tt
reaches none (some anchored) = err (tampered behind_anchor)
reaches (some t) (some anchored) =
    if ltb t.seq anchored.seq
    then err (tampered behind_anchor)
    else if t.seq == anchored.seq && not (list_eq t.hash anchored.hash)
    then err (tampered diverges)
    else ok tt

module _ {S : Type 0} (l : Library) (a : TipAnchor S) where
  -- The second half of `catch_up`.
  unfoldable pub check_anchor : Bool → World S → Result Error (Unit {0}) × World S
  check_anchor spend w =
      let (answer, s) = a.tip w.anchor in
      (tolerate spend none answer >>= reaches w.journal.tip, record w { anchor = s })

  unfoldable pub read_file : World S → Result Error (Unit {0}) × World S
  read_file w =
      if ltb (length w.file) w.journal.read_to
      then (err (tampered shorter_than_read), w)
      else let rest = drop w.journal.read_to w.file in
        let (done, j) = scan l (suc (length rest)) rest w.journal in
        elim done [
          | err e ↦ (err e, record w { journal = j })
          | ok u ↦ (ok tt, record w { journal = record j { read_to = length w.file } })
        ]

  unfoldable pub catch_up : Io → Bool → World S → Result Error (Unit {0}) × World S
  catch_up io spend w =
      if not io.reads
      then (err journal_failure, w)
      else let (done, w') = read_file w in
        elim done [ err e ↦ (err e, w') | ok u ↦ check_anchor spend w' ]

  abbrev pub sealed : Journal → Line → Line
  sealed j line = record line { seq = next_seq j.tip; prev = next_prev j.tip }

  -- The bytes of the record in the file.
  abbrev pub framed : Bytes → Bytes
  framed bytes = to_be_bytes (length bytes) ++ bytes

  -- What `append` does once its record is in the file and synced.
  unfoldable pub settle : Bool → Line → Digest → Bytes → World S → Result Error (Unit {0}) × World S
  settle spend line hash record_bytes w =
      let (done, j) = apply w.journal line in
      elim done [
        | err e ↦ (err e, record w { journal = j })
        | ok u ↦
            let t : Tip = record { seq = line.seq; hash = hash } in
            let (moved, s) = a.advance w.anchor t in
            (
              tolerate spend tt moved,
              record w {
                anchor = s;
                journal = record j { read_to = j.read_to + length record_bytes; tip = some t };
              },
            )
      ]

  -- `write_all` and `sync_all`, and what follows them.
  unfoldable pub persist :
      Io → Bool → Line → Digest → Bytes → World S → Result Error (Unit {0}) × World S
  persist io spend line hash bytes w = elim io.stops_at [
    | some n ↦ (err journal_failure, record w { file = w.file ++ take n bytes })
    | none ↦
        if not io.syncs
        then (err journal_failure, record w { file = w.file ++ bytes })
        else settle spend line hash bytes (record w { file = w.file ++ bytes })
  ]

  -- The record of a line: its hash and its bytes in the file.
  unfoldable pub make_record : Line → Result Error (Digest × Bytes)
  make_record line = do
    m ← line_message l line
    hash ← record_hash l line (l.sign m)
    elim (l.record_vec (record { line = line; sig = l.sign m })) [
      | none ↦ err encoding
      | some bytes ↦ ok (hash, framed bytes)
    ]

  unfoldable pub append : Io → Bool → Line → World S → Result Error (Unit {0}) × World S
  append io spend line w =
      let full = sealed w.journal line in
      elim (make_record full) [
        | err e ↦ (err e, w)
        | ok (hash, bytes) ↦ persist io spend full hash bytes w
      ]

  abbrev pub reserve_line : Verified → Line
  reserve_line v = record {
    seq = 0;
    prev = zero_digest;
    grant = v.grant;
    grant_hash = v.grant_hash;
    nonce = v.nonce;
    body = v.request_hash;
    event = Event.reserve;
    max_uses = v.max_uses;
  }

  -- The grant's id stands for other terms, or has no uses left.
  unfoldable pub is_used_up : Verified → Option (Digest × ℕ) → Bool
  is_used_up v none = false
  is_used_up v (some (hash, used)) = not (list_eq hash v.grant_hash) || leb v.max_uses used

  unfoldable pub is_spent : Verified → Journal → Bool
  unfolding is_used_up
  is_spent v j = is_used_up v (grant_of v.grant j) || is_known (op_of (v.grant, v.nonce) j)

  abbrev pub permit_of : Verified → Permit
  permit_of v = record { grant = v.grant; nonce = v.nonce; request_hash = v.request_hash }

  -- `reserve` once the journal is up to date.
  unfoldable pub reserve_now : Io → Verified → World S → Result Error Permit × World S
  reserve_now io v w =
      if is_spent v w.journal
      then (err spent, w)
      else let (done, w') = append io true (reserve_line v) w in
        elim done [ err e ↦ (err e, w') | ok u ↦ (ok (permit_of v), w') ]

  unfoldable pub reserve : Io → Verified → World S → Result Error Permit × World S
  reserve io v w =
      let (done, w') = catch_up io true w in
      elim done [ err e ↦ (err e, w') | ok u ↦ reserve_now io v w' ]

  -- `lock()?`, the work, `unlock()?`: its own error hides that of the work.
  unfoldable pub locked {ℓ} :
      {A : Type ℓ} → Io → (World S → Result Error A × World S) → World S → Result Error A × World S
  locked io work w =
      if not io.locks
      then (err journal_failure, w)
      else let (done, w') = work w in if io.unlocks then (done, w') else (err journal_failure, w')

  unfoldable pub authorize :
      Io
      → Grant
      → Bytes
      → Request
      → Bytes
      → Bytes
      → Policy
      → World S
      → Result Error Permit × World S
  authorize io g owner_signature r subject_signature body policy w =
      elim (verify l g owner_signature r subject_signature body policy) [
        | err e ↦ (err e, w)
        | ok v ↦ locked io (reserve io v) w
      ]

  unfoldable pub event_of : Outcome → Event
  event_of Outcome.succeeded = Event.succeeded
  event_of Outcome.failed = Event.failed
  event_of Outcome.unknown = Event.unknown

  -- `self.grants[&permit.grant]`, which panics on an unknown grant, is `none`.
  unfoldable pub outcome_line : Permit → Outcome → Journal → Option Line
  unfolding event_of
  outcome_line p outcome j =
      Option.map
        (λ e. record {
          seq = 0;
          prev = zero_digest;
          grant = p.grant;
          grant_hash = e.0;
          nonce = p.nonce;
          body = p.request_hash;
          event = event_of outcome;
          max_uses = 0;
        })
        (grant_of p.grant j)

  -- `finish` once the journal is up to date.
  unfoldable pub finish_now :
      Io → Permit → Outcome → World S → Option (Result Error (Unit {0}) × World S)
  unfolding outcome_line
  finish_now io p outcome w =
      if not (is_pending p.request_hash (op_of (p.grant, p.nonce) w.journal))
      then some (err not_pending, w)
      else Option.map (λ line. append io false line w) (outcome_line p outcome w.journal)

  unfoldable pub finish :
      Io → Permit → Outcome → World S → Option (Result Error (Unit {0}) × World S)
  finish io p outcome w =
      if not io.locks
      then some (err journal_failure, w)
      else let (done, w') = catch_up io false w in
        let worked : Option (Result Error (Unit {0}) × World S) = elim done [
          | err e ↦ some (err e, w')
          | ok u ↦ finish_now io p outcome w'
        ] in
        Option.map (λ r. if io.unlocks then r else (err journal_failure, r.1)) worked

  -- `Journal::open` on a file that is there: `Ok` hands the journal out.
  unfoldable pub open_journal : Io → Bytes → S → Result Error (Unit {0}) × World S
  open_journal io file s =
      locked io (catch_up io false) (record { file = file; anchor = s; journal = blank })

-- `pending_count`
abbrev pub is_reserve : Event → Bool
is_reserve Event.reserve = true
is_reserve _ = false

unfoldable pub count_pending : List (OpKey × (Digest × Event)) → ℕ
count_pending [] = 0
count_pending (o ∷ os) =
    let rest = count_pending os in if is_reserve (o.1).1 then suc rest else rest

unfoldable pub pending_count : Journal → ℕ
unfolding count_pending
pending_count j = count_pending j.ops
