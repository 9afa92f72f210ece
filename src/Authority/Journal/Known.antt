-- ===== src/Authority/Journal/Known.antt =====
-- The grants of the operations in the table, through every operation of `Journal` of
-- crates/authority/src/lib.rs.
use dot_terminal.Prelude.{
  ℕ, zero, suc, ◌≡◌, sym, ap, ◌∙◌, ◌⊎◌, subst, inl, inr, Bool, true, false, not, ◌||◌, some, [],
  ◌∷◌, Bytes, length, drop, ltb, list_eq, Result, err, Option-cases, Bool-cases, Result-cases,
  was_ok, was_err, arith, if◌then◌else◌, ◌==◌,
}
use dot_terminal.Authority.Types.{
  Error, journal_failure, not_pending, Line, Record, Library, Verified, Permit, Grant, Request,
  Policy, Outcome,
}
use dot_terminal.Authority.Table.{lookup, same_op}
use dot_terminal.Authority.Anchor.{TipAnchor}
use dot_terminal.Authority.Verify.{verify}
use dot_terminal.Authority.Journal.{
  op_of, is_pending, Journal, next_seq, next_prev, apply, line_message, accept_record, next_record,
  scan,
}
use dot_terminal.Authority.Journal.Operations.{
  Io, World, append, settle, persist, sealed, make_record, read_file, check_anchor, catch_up,
  reserve_line, reserve_now, is_spent, reserve, locked, authorize, finish_now, finish, outcome_line,
}
use dot_terminal.Authority.Journal.Outcomes.{HasGrants, apply-HasGrants, finish_now_total}

-- The two tables, which alone count.
record SameTables (j j' : Journal) : Type 0 where
  grants : j'.grants ≡ j.grants
  ops : j'.ops ≡ j.ops

SameTables-HasGrants : {j j' : Journal} → SameTables j j' → HasGrants j → HasGrants j'
SameTables-HasGrants t h = record {
  known = λ key e found.
      let (g, at) = h.known key e (ap (lookup same_op key) (sym t.ops) ∙ found) in
      (g, ap (lookup list_eq key.0) t.grants ∙ at);
}

module _ (l : Library) where
  accept_record_tables :
      (j : Journal) (r : Record)
      → SameTables j (accept_record l j r).1 ⊎ SameTables (apply j r.line).1 (accept_record l j r).1
  unfolding accept_record
  accept_record_tables j r =
      elim (Bool-cases
        (not (r.line.seq == next_seq j.tip) || not (list_eq r.line.prev (next_prev j.tip)))) [
          | inl bad ↦ inl (ground arith)
          | inr good ↦ elim (Result-cases (line_message l r.line)) [
            | was_err e bad ↦ inl (ground arith)
            | was_ok m fine ↦ elim (Bool-cases (l.verifies l.public_key m r.sig)) [
              | inr bad ↦ inl (ground arith)
              | inl signed ↦ inr (ground arith)
            ]
          ]
        ]

  accept_record-HasGrants :
      (j : Journal) (r : Record) → HasGrants j → HasGrants (accept_record l j r).1
  accept_record-HasGrants j r h = elim (accept_record_tables j r) [
    | inl t ↦ SameTables-HasGrants t h
    | inr t ↦ SameTables-HasGrants t (apply-HasGrants j r.line h)
  ]

  scan-HasGrants :
      (f : ℕ) (rest : Bytes) (j : Journal) → HasGrants j → HasGrants (scan l f rest j).1
  unfolding scan
  scan-HasGrants zero rest j h = h
  scan-HasGrants (suc f) [] j h = h
  scan-HasGrants (suc f) (b ∷ bs) j h = elim (Result-cases (next_record l (b ∷ bs))) [
    | was_err e bad ↦ subst HasGrants (ground arith) h
    | was_ok (r, rest) good ↦
        let h' = accept_record-HasGrants j r h in
        elim (Result-cases (accept_record l j r).0) [
          | was_err e bad ↦ subst HasGrants (ground arith) h'
          | was_ok u fine ↦
              subst HasGrants (ground arith) (scan-HasGrants f rest (accept_record l j r).1 h')
        ]
  ]

module _ {S : Type 0} (l : Library) (a : TipAnchor S) where
  abbrev pub Known : World S → Type 0
  Known w = HasGrants w.journal

  read_file_tables :
      (w : World S)
      → let rest = drop w.journal.read_to w.file in
        SameTables w.journal (read_file l a w).1.journal
        ⊎ SameTables (scan l (suc (length rest)) rest w.journal).1 (read_file l a w).1.journal
  unfolding read_file
  read_file_tables w = elim (Bool-cases (ltb (length w.file) w.journal.read_to)) [
    | inl short ↦ inl (ground arith)
    | inr long ↦ inr (ground arith)
  ]

  read_file-Known : (w : World S) → Known w → Known (read_file l a w).1
  read_file-Known w h =
      let rest = drop w.journal.read_to w.file in
      elim (read_file_tables w) [
        | inl t ↦ SameTables-HasGrants t h
        | inr t ↦ SameTables-HasGrants t (scan-HasGrants l (suc (length rest)) rest w.journal h)
      ]

  catch_up_tables :
      (io : Io) (spend : Bool) (w : World S)
      → SameTables w.journal (catch_up l a io spend w).1.journal
        ⊎ SameTables (read_file l a w).1.journal (catch_up l a io spend w).1.journal
  unfolding catch_up check_anchor
  catch_up_tables io spend w = elim (Bool-cases io.reads) [
    | inl reads ↦ inr (ground arith)
    | inr fails ↦ inl (ground arith)
  ]

  pub catch_up-Known :
      (io : Io) (spend : Bool) (w : World S) → Known w → Known (catch_up l a io spend w).1
  catch_up-Known io spend w h = elim (catch_up_tables io spend w) [
    | inl t ↦ SameTables-HasGrants t h
    | inr t ↦ SameTables-HasGrants t (read_file-Known w h)
  ]

  append_tables :
      (io : Io) (spend : Bool) (line : Line) (w : World S)
      → SameTables w.journal (append l a io spend line w).1.journal
        ⊎ SameTables
            (apply w.journal (sealed l a w.journal line)).1
            (append l a io spend line w).1.journal
  unfolding append persist settle
  append_tables io spend line w =
      elim (Result-cases (make_record l a (sealed l a w.journal line))) [
        | was_err e bad ↦ inl (ground arith)
        | was_ok (hash, bytes) made ↦ elim (Option-cases io.stops_at) [
          | inr (n, stops) ↦ inl (ground arith)
          | inl on ↦ elim (Bool-cases io.syncs) [
            | inr bad ↦ inl (ground arith)
            | inl synced ↦ inr (ground arith)
          ]
        ]
      ]

  pub append-Known :
      (io : Io) (spend : Bool) (line : Line) (w : World S)
      → Known w
      → Known (append l a io spend line w).1
  append-Known io spend line w h = elim (append_tables io spend line w) [
    | inl t ↦ SameTables-HasGrants t h
    | inr t ↦ SameTables-HasGrants t (apply-HasGrants w.journal (sealed l a w.journal line) h)
  ]

  reserve_now-Known :
      (io : Io) (v : Verified) (w : World S) → Known w → Known (reserve_now l a io v w).1
  unfolding reserve_now
  reserve_now-Known io v w h = elim (Bool-cases (is_spent l a v w.journal)) [
    | inl gone ↦ SameTables-HasGrants (ground arith) h
    | inr fresh ↦
        SameTables-HasGrants (ground arith) (append-Known io true (reserve_line l a v) w h)
  ]

  reserve-Known : (io : Io) (v : Verified) (w : World S) → Known w → Known (reserve l a io v w).1
  unfolding reserve
  reserve-Known io v w h =
      let h' = catch_up-Known io true w h in
      elim (Result-cases (catch_up l a io true w).0) [
        | was_err e bad ↦ SameTables-HasGrants (ground arith) h'
        | was_ok u good ↦
            SameTables-HasGrants (ground arith)
              (reserve_now-Known io v (catch_up l a io true w).1 h')
      ]

  pub authorize-Known :
      (io : Io) (g : Grant) (owner_signature : Bytes) (r : Request) (subject_signature : Bytes)
      (body : Bytes) (policy : Policy) (w : World S)
      → Known w
      → Known (authorize l a io g owner_signature r subject_signature body policy w).1
  unfolding authorize locked
  authorize-Known io g os r ss body policy w h =
      elim (Result-cases (verify l g os r ss body policy)) [
        | was_err e bad ↦ SameTables-HasGrants (ground arith) h
        | was_ok v good ↦ elim (Bool-cases io.locks) [
          | inr fails ↦ SameTables-HasGrants (ground arith) h
          | inl locks ↦ SameTables-HasGrants (ground arith) (reserve-Known io v w h)
        ]
      ]

  -- What `finish` returns leaves the tables known.
  pub record Finished (io : Io) (p : Permit) (outcome : Outcome) (w : World S) : Type 0 where
    pub result : Result Error (Unit {0})
    pub left : World S
    pub returns : finish l a io p outcome w ≡ some (result, left)
    pub known : Known left

  finish_now-Known :
      (io : Io) (p : Permit) (outcome : Outcome) (w : World S)
      → Known w
      → (r : Result Error (Unit {0}) × World S) × (finish_now l a io p outcome w ≡ some r)
        × Known r.1
  unfolding finish_now
  finish_now-Known io p outcome w h = elim (Option-cases (outcome_line l a p outcome w.journal)) [
    | inr (line, at) ↦
        elim (Bool-cases (is_pending p.request_hash (op_of (p.grant, p.nonce) w.journal))) [
          | inr settled ↦ ((err not_pending, w), ground arith, h)
          | inl pending ↦ (append l a io false line w, ground arith, append-Known io false line w h)
        ]
    | inl miss ↦
        let (r, e) = finish_now_total l a io p outcome w h in
        ((err not_pending, w), ground (arith, e), h)
  ]

  -- The lock is given back, or not.
  abbrev given_back : Io → Result Error (Unit {0}) × World S → Result Error (Unit {0}) × World S
  given_back io r = if io.unlocks then r else (err journal_failure, r.1)

  given_back-Known :
      (io : Io) (r : Result Error (Unit {0}) × World S) → Known r.1 → Known (given_back io r).1
  given_back-Known io r h = elim (Bool-cases io.unlocks) [ inl e ↦ rw e h | inr e ↦ rw e h ]

  pub finish-Known :
      (io : Io) (p : Permit) (outcome : Outcome) (w : World S) → Known w → Finished io p outcome w
  unfolding finish
  finish-Known io p outcome w h =
      let w' = (catch_up l a io false w).1 in
      let h' = catch_up-Known io false w h in
      elim (Bool-cases io.locks) [
        | inr fails ↦ record {
          result = err journal_failure;
          left = w;
          returns = ground arith;
          known = h;
        }
        | inl locks ↦ elim (Result-cases (catch_up l a io false w).0) [
          | was_err e bad ↦ record {
            result = (given_back io (err e, w')).0;
            left = (given_back io (err e, w')).1;
            returns = ground arith;
            known = given_back-Known io (err e, w') h';
          }
          | was_ok u good ↦
              let (r, e, kept) = finish_now-Known io p outcome w' h' in
              record {
                result = (given_back io r).0;
                left = (given_back io r).1;
                returns = ground (arith, e);
                known = given_back-Known io r kept;
              }
        ]
      ]
