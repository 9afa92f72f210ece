-- ===== src/Authority/Journal/Budget.antt =====
-- `reserve` and `authorize` of crates/authority/src/lib.rs: when a use is granted.
use dot_terminal.Prelude.{
  ◌+◌, ◌≤◌, ◌≡◌, inl, inr, sym, ap, ◌∙◌, true, false, some, none, Bytes, list_eq, list_eq_iff,
  list_eq_refl, ok, err, Option-cases, Result-cases, was_ok, was_err, arith,
}
use dot_terminal.Authority.Types.{
  spent, Event, Line, Library, Verified, Permit, Grant, Request, Policy,
}
use dot_terminal.Authority.Table.{insert, lookup-insert, same_op, same_op_iff}
use dot_terminal.Authority.Anchor.{TipAnchor}
use dot_terminal.Authority.Journal.{
  Journal, grant_of, op_of, key_of, entry_of, apply, apply_event, apply_reserve,
}
use dot_terminal.Authority.Journal.Operations.{
  Io, World, append, reserve_line, is_spent, permit_of, reserve_now, reserve, locked, authorize,
  catch_up, sealed,
}
use dot_terminal.Authority.Verify.{verify}
use dot_terminal.Authority.Journal.Rollback.{CaughtUp, catch_up_ok}
use dot_terminal.Authority.Journal.Durable.{Appended, append_ok}

-- What a reservation that was applied says of the two tables.
pub record Reserved (line : Line) (j j' : Journal) : Type 0 where
  pub unknown : op_of (key_of line) j ≡ none
  pub pending : op_of (key_of line) j' ≡ some (line.body, Event.reserve)
  pub within : ¬ (line.max_uses ≤ (entry_of j line).1)
  pub counted : grant_of line.grant j' ≡ some (line.grant_hash, (entry_of j line).1 + 1)

pub apply_reserve_ok :
    (j : Journal) (line : Line) {j' : Journal}
    → apply_reserve j line ≡ (ok tt, j')
    → Reserved line j j'
unfolding apply_reserve
apply_reserve_ok j line {j'} e =
    let hash = (entry_of j line).0 in
    let used = (entry_of j line).1 in
    let key = key_of line in
    let free : op_of key j ≡ none = elim (Option-cases (op_of key j)) [
      | inl none' ↦ ground arith
      | inr some' ↦ ground arith
    ] in
    let accepted : list_eq hash line.grant_hash ≡ true = ground arith in
    let left : ¬ (line.max_uses ≤ used) = ground arith in
    let result : record j {
      grants = insert list_eq line.grant (hash, used + 1) j.grants;
      ops = insert same_op key (line.body, Event.reserve) j.ops;
    }
        ≡ j' =
      ground arith in
    record {
      unknown = free;
      pending = rw (sym result) (
          ground (
            arith,
            lookup-insert same_op same_op_iff key key (line.body, Event.reserve) j.ops,
            same_op_iff key key,
          ));
      within = left;
      counted = rw (sym result) (
          ground (
            arith,
            lookup-insert list_eq list_eq_iff line.grant line.grant (hash, used + 1) j.grants,
            list_eq_refl line.grant,
            list_eq_iff hash line.grant_hash,
          ));
    }

module _ {S : Type 0} (l : Library) (a : TipAnchor S) where
  -- A use that was granted was not known before, and is pending in the journal that is left, so that
  -- the same request is refused from then on.
  pub record Granted (v : Verified) (p : Permit) (w w' : World S) : Type 0 where
    pub permit : p ≡ permit_of l a v
    pub fresh : is_spent l a v w.journal ≡ false
    pub pending : op_of (v.grant, v.nonce) w'.journal ≡ some (v.request_hash, Event.reserve)
    pub counted :
        grant_of v.grant w'.journal
        ≡ some (v.grant_hash, (entry_of w.journal (reserve_line l a v)).1 + 1)
    pub within : ¬ (v.max_uses ≤ (entry_of w.journal (reserve_line l a v)).1)
    pub written : Appended l a true (reserve_line l a v) w w'

  pub reserve_now_ok :
      (io : Io) (v : Verified) (w : World S) {p : Permit} {w' : World S}
      → reserve_now l a io v w ≡ (ok p, w')
      → Granted v p w w'
  unfolding reserve_now apply apply_event
  reserve_now_ok io v w {p} {w'} e =
      elim (Result-cases (append l a io true (reserve_line l a v) w).0) [
        | was_err x bad ↦ absurd (ground arith)
        | was_ok u good ↦
            let d = append_ok l a io true (reserve_line l a v) w good in
            let r =
              apply_reserve_ok w.journal (sealed l a w.journal (reserve_line l a v)) d.applied in
            let fresh : is_spent l a v w.journal ≡ false = ground arith in
            let left : (append l a io true (reserve_line l a v) w).1 ≡ w' = ground arith in
            rw (sym left) (record {
              permit = ground arith;
              fresh = fresh;
              pending = ap (λ x. op_of (v.grant, v.nonce) x.journal) d.same ∙ r.pending;
              counted = ap (λ x. grant_of v.grant x.journal) d.same ∙ r.counted;
              within = r.within;
              written = d;
            })
      ]

  -- After the part of reserve that follows the catching up returned a permit, running it again for
  -- the same use on the journal that it left is refused as spent and changes nothing, whatever the
  -- system does.
  pub reserve_now_once :
      (io io' : Io) (v : Verified) (w : World S) {p : Permit} {w' : World S}
      → reserve_now l a io v w ≡ (ok p, w')
      → reserve_now l a io' v w' ≡ (err spent, w')
  unfolding reserve_now is_spent
  reserve_now_once io io' v w e = let g = reserve_now_ok io v w e in ground (arith, g.pending)

  -- Everything that stands behind a permit that `authorize` returned.
  pub record Authorized (io : Io) (g : Grant) (owner_signature : Bytes) (r : Request)
      (subject_signature : Bytes) (body : Bytes) (policy : Policy) (p : Permit) (w w' : World S)
      : Type 0 where
    pub v : Verified
    pub checked : World S
    pub verified : verify l g owner_signature r subject_signature body policy ≡ ok v
    pub caught_up : CaughtUp l a w checked
    pub granted : Granted v p checked w'

  -- If authorize returns a permit, then the grant and the request were verified, the anchor answered
  -- a tip that the journal reaches and agrees with, and on that journal the use was not spent, was
  -- within the budget, and was counted, recorded as pending and written with the anchor moved.
  pub authorize_ok :
      (io : Io) (g : Grant) (owner_signature : Bytes) (r : Request) (subject_signature : Bytes)
      (body : Bytes) (policy : Policy) (w : World S) {p : Permit} {w' : World S}
      → authorize l a io g owner_signature r subject_signature body policy w ≡ (ok p, w')
      → Authorized io g owner_signature r subject_signature body policy p w w'
  unfolding authorize locked reserve
  authorize_ok io g os r ss body policy w e = elim (Result-cases (verify l g os r ss body policy)) [
    | was_err x bad ↦ absurd (ground arith)
    | was_ok v good ↦ record {
      v = v;
      checked = (catch_up l a io true w).1;
      verified = good;
      caught_up = catch_up_ok l a io w (ground arith);
      granted = reserve_now_ok io v (catch_up l a io true w).1 (ground arith);
    }
  ]
