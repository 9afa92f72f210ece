-- ===== src/Authority/Journal/Outcomes.antt =====
-- `finish` of crates/authority/src/lib.rs: recording the outcome of a use.
use dot_terminal.Prelude.{
  ℕ, ◌+◌, ◌≡◌, refl, sym, ap, ◌∙◌, inl, inr, true, false, Option, some, none, List, list_eq,
  list_eq_iff, list_eq_refl, subst, Result, ok, err, Option-cases, Bool-cases, Result-cases, was_ok,
  was_err, arith,
}
use dot_terminal.Authority.Types.{Error, not_pending, Digest, Event, Line, Library, Permit, Outcome}
use dot_terminal.Authority.Table.{lookup, insert, lookup-insert, OpKey, same_op, same_op_iff}
use dot_terminal.Authority.Anchor.{TipAnchor}
use dot_terminal.Authority.Journal.{
  Journal, blank, zero_digest, entered, grant_of, op_of, key_of, entry_of, is_pending, apply,
  apply_event, apply_reserve, apply_outcome,
}
use dot_terminal.Authority.Journal.Operations.{
  Io, World, append, sealed, finish_now, outcome_line, event_of,
}
use dot_terminal.Authority.Journal.Durable.{append_ok}

-- Every operation in the table is of a grant in the table.
pub record HasGrants (j : Journal) : Type 0 where
  pub known :
      (key : OpKey) (e : Digest × Event)
      → op_of key j ≡ some e
      → (g : Digest × ℕ) × (grant_of key.0 j ≡ some g)

pub blank-HasGrants : HasGrants blank
unfolding lookup
blank-HasGrants = record { known = λ key e found. absurd (ground arith) }

-- Both tables grew at most.
grown-HasGrants :
    (j j' : Journal) (key : OpKey) (v : Digest × Event)
    → ((g : Digest) (x : Digest × ℕ)
        → grant_of g j ≡ some x
        → (y : Digest × ℕ) × (grant_of g j' ≡ some y))
    → j'.ops ≡ insert same_op key v j.ops
    → (y : Digest × ℕ) × (grant_of key.0 j' ≡ some y)
    → HasGrants j
    → HasGrants j'
grown-HasGrants j j' key v mono grew mine h = record {
  known = λ k e found.
      let looked = ap (lookup same_op k) grew ∙ lookup-insert same_op same_op_iff key k v j.ops in
      elim (Bool-cases (same_op key k)) [
        | inl same ↦
            subst (λ (q : OpKey). (y : Digest × ℕ) × (grant_of q.0 j' ≡ some y))
              ((same_op_iff key k).0 same) mine
        | inr other ↦ let (x, at) = h.known k e (ground (arith, looked)) in mono k.0 x at
      ];
}

mono-insert :
    (grants : List (Digest × (Digest × ℕ))) (k : Digest) (v : Digest × ℕ) (g : Digest)
    (x : Digest × ℕ)
    → lookup list_eq g grants ≡ some x
    → (y : Digest × ℕ) × (lookup list_eq g (insert list_eq k v grants) ≡ some y)
mono-insert grants k v g x at = elim (Bool-cases (list_eq k g)) [
  | inl same ↦ (v, ground (arith, lookup-insert list_eq list_eq_iff k g v grants))
  | inr other ↦ (x, ground (arith, lookup-insert list_eq list_eq_iff k g v grants))
]

entered-HasGrants : (j : Journal) (line : Line) → HasGrants j → HasGrants (entered j line)
entered-HasGrants j line h = elim (Option-cases (grant_of line.grant j)) [
  | inr (e, at) ↦ subst HasGrants (ground arith) h
  | inl miss ↦
      let new : Journal = record j {
        grants = insert list_eq line.grant (line.grant_hash, 0) j.grants;
      } in
      let same : new ≡ entered j line = ground arith in
      let kept : HasGrants new = record {
        known = λ k e found.
            let (x, at) = h.known k e found in
            mono-insert j.grants line.grant (line.grant_hash, 0) k.0 x at;
      } in
      subst HasGrants same kept
]

apply_reserve-HasGrants :
    (j : Journal) (line : Line) → HasGrants j → HasGrants (apply_reserve j line).1
unfolding apply_reserve
apply_reserve-HasGrants j line h = elim (Result-cases (apply_reserve j line).0) [
  | was_err x bad ↦ subst HasGrants (ground arith) (entered-HasGrants j line h)
  | was_ok u good ↦
      let v : Digest × ℕ = ((entry_of j line).0, (entry_of j line).1 + 1) in
      let grants : (apply_reserve j line).1.grants ≡ insert list_eq line.grant v j.grants =
        ground arith in
      grown-HasGrants j (apply_reserve j line).1 (key_of line) (line.body, Event.reserve)
        (λ g x at.
          let (y, there) = mono-insert j.grants line.grant v g x at in
          (y, ap (lookup list_eq g) grants ∙ there))
        (ground arith)
        (
          v,
          ap (lookup list_eq line.grant) grants
              ∙ ground (
                arith,
                lookup-insert list_eq list_eq_iff line.grant line.grant v j.grants,
                list_eq_refl line.grant,
              ),
        )
        h
]

is_pending_known :
    (body : Digest) (o : Option (Digest × Event))
    → is_pending body o ≡ true
    → (e : Digest × Event) × (o ≡ some e)
unfolding is_pending
is_pending_known body none p = absurd (ground arith)
is_pending_known body (some e) p = (e, refl)

apply_outcome-HasGrants :
    (j : Journal) (line : Line) → HasGrants j → HasGrants (apply_outcome j line).1
unfolding apply_outcome
apply_outcome-HasGrants j line h =
    elim (Bool-cases (is_pending line.body (op_of (key_of line) j))) [
      | inr bad ↦ subst HasGrants (ground arith) h
      | inl good ↦
          let (e, found) = is_pending_known line.body (op_of (key_of line) j) good in
          let grants : (apply_outcome j line).1.grants ≡ j.grants = ground arith in
          let (y, at) = h.known (key_of line) e found in
          grown-HasGrants j (apply_outcome j line).1 (key_of line) (line.body, line.event)
            (λ g x there. (x, ap (lookup list_eq g) grants ∙ there)) (ground arith)
            (y, ap (lookup list_eq line.grant) grants ∙ at) h
    ]

apply_event-HasGrants :
    (e : Event) (j : Journal) (line : Line) → HasGrants j → HasGrants (apply_event e j line).1
unfolding apply_event
apply_event-HasGrants Event.reserve j line h = apply_reserve-HasGrants j line h
apply_event-HasGrants Event.succeeded j line h = apply_outcome-HasGrants j line h
apply_event-HasGrants Event.failed j line h = apply_outcome-HasGrants j line h
apply_event-HasGrants Event.unknown j line h = apply_outcome-HasGrants j line h

-- Applying a line, whether it is accepted or not, keeps it so that every operation in the table has
-- its grant in the table.
pub apply-HasGrants : (j : Journal) (line : Line) → HasGrants j → HasGrants (apply j line).1
unfolding apply
apply-HasGrants j line h = apply_event-HasGrants line.event j line h

module _ {S : Type 0} (l : Library) (a : TipAnchor S) where
  -- The line of an outcome, of a grant with these terms.
  abbrev outcome_now : Permit → Outcome → Digest × ℕ → Line
  outcome_now p outcome g = record {
    seq = 0;
    prev = zero_digest;
    grant = p.grant;
    grant_hash = g.0;
    nonce = p.nonce;
    body = p.request_hash;
    event = event_of l a outcome;
    max_uses = 0;
  }

  -- On a journal whose operations all have their grants in the table, the part of finish that
  -- follows the catching up returns a result: the lookup of the grant does not panic.
  pub finish_now_total :
      (io : Io) (p : Permit) (outcome : Outcome) (w : World S)
      → HasGrants w.journal
      → (r : Result Error (Unit {0}) × World S) × (finish_now l a io p outcome w ≡ some r)
  unfolding finish_now outcome_line
  finish_now_total io p outcome w h =
      elim (Bool-cases (is_pending p.request_hash (op_of (p.grant, p.nonce) w.journal))) [
        | inr bad ↦ ((err not_pending, w), ground arith)
        | inl good ↦
            let (e, found) =
              is_pending_known p.request_hash (op_of (p.grant, p.nonce) w.journal) good in
            let (g, at) = h.known (p.grant, p.nonce) e found in
            ((append l a io false (outcome_now p outcome g) w), ground arith)
      ]

  recorded :
      (outcome : Outcome) (j : Journal) (line : Line) {j' : Journal}
      → line.event ≡ event_of l a outcome
      → apply j line ≡ (ok tt, j')
      → op_of (key_of line) j' ≡ some (line.body, event_of l a outcome)
  unfolding apply apply_event apply_outcome event_of
  recorded Outcome.succeeded j line e done = ground (
    arith,
    lookup-insert same_op same_op_iff (key_of line) (key_of line) (line.body, line.event) j.ops,
    same_op_iff (key_of line) (key_of line),
  )
  recorded Outcome.failed j line e done = ground (
    arith,
    lookup-insert same_op same_op_iff (key_of line) (key_of line) (line.body, line.event) j.ops,
    same_op_iff (key_of line) (key_of line),
  )
  recorded Outcome.unknown j line e done = ground (
    arith,
    lookup-insert same_op same_op_iff (key_of line) (key_of line) (line.body, line.event) j.ops,
    same_op_iff (key_of line) (key_of line),
  )

  is_pending_outcome :
      (body b : Digest) (outcome : Outcome)
      → is_pending body (some (b, event_of l a outcome)) ≡ false
  unfolding is_pending event_of
  is_pending_outcome body b Outcome.succeeded = refl
  is_pending_outcome body b Outcome.failed = refl
  is_pending_outcome body b Outcome.unknown = refl

  -- After the part of finish that follows the catching up recorded the outcome of a permit, running
  -- it again for that permit on the journal that it left, with any outcome, is refused as not
  -- pending and changes nothing.
  pub finish_now_once :
      (io io' : Io) (p : Permit) (outcome again : Outcome) (w : World S) {w' : World S}
      → finish_now l a io p outcome w ≡ some (ok tt, w')
      → finish_now l a io' p again w' ≡ some (err not_pending, w')
  unfolding finish_now outcome_line
  finish_now_once io io' p outcome again w {w'} e =
      elim (Option-cases (grant_of p.grant w.journal)) [
        | inl bad ↦ absurd (ground arith)
        | inr (g, at) ↦
            let line = outcome_now p outcome g in
            let done : append l a io false line w ≡ (ok tt, w') = ground arith in
            let d = append_ok l a io false line w (ap (λ r. r.0) done) in
            let there = recorded outcome w.journal (sealed l a w.journal line) refl d.applied in
            let moved : op_of (p.grant, p.nonce) w'.journal
                ≡ some (p.request_hash, event_of l a outcome) =
              ap (λ r. op_of (p.grant, p.nonce) r.1.journal) (sym done)
              ∙ ap (λ x. op_of (p.grant, p.nonce) x.journal) d.same
              ∙ there in
            ground (arith, moved, is_pending_outcome p.request_hash p.request_hash outcome)
      ]
