-- ===== src/Node/Bridge/Guarded.antt =====
-- What stands between a peer and the upstream: `Bridge::call` of crates/node/src/bridge.rs.
use dot_terminal.Prelude.{
  ◌≡◌, refl, inl, inr, Option, some, none, Text, Bytes, list_eq, Result, ok, err, Option-cases,
  Bool-cases, Result-cases, was_ok, was_err, arith, list_eq_iff,
}
use dot_terminal.Authority.Types.{Error, Library, Verified, Permit}
use dot_terminal.Authority.Anchor.{TipAnchor}
use dot_terminal.Authority.Verify.{verify}
use dot_terminal.Authority.Journal.Operations.{Io, World, authorize, finish}
use dot_terminal.Authority.Journal.Budget.{Authorized, authorize_ok}
use dot_terminal.Authority.Journal.Outcomes.{HasGrants}
use dot_terminal.Authority.Journal.Known.{authorize-Known, finish-Known}
use dot_terminal.Node.Bridge.{
  Need, Presented, Upstream, Refused, Trust, Bridge, Moment, action, policy_at, answer, outcome_of,
  refusal, call_observe, call_control, call_needed, spend, call,
}

module _ {S U : Type 0} (l : Library) (a : TipAnchor S) (ask : Upstream U) (trust : Trust) where
  -- What became of an operation.
  pub data Handled (b : Bridge S U) (at : Moment) (presented : Option Presented) (need : Need)
      (body : Bytes) (r : Result Refused Bytes) (b' : Bridge S U) : Type 0 where
    -- refused, and nothing was sent
    held :
        (e : Refused) → r ≡ err e → b'.upstream ≡ b.upstream → Handled b at presented need body r b'
    -- looked at under a grant that verified
    observed :
        (p : Presented) (v : Verified)
        → presented ≡ some p
        → need ≡ Need.observe
        → p.request.action ≡ action Need.observe
        → verify l p.grant p.owner_signature p.request p.subject_signature body
            (policy_at trust at.now)
          ≡ ok v
        → b'.journal ≡ b.journal
        → b'.upstream ≡ (ask b.upstream p.request.resource body).1
        → r ≡ answer (ask b.upstream p.request.resource body).0
        → Handled b at presented need body r b'
    -- sent once, on a use that was reserved and anchored before
    controlled :
        (p : Presented) (permit : Permit) (w : World S) (recorded : Result Error (Unit {0}))
        → presented ≡ some p
        → need ≡ Need.control
        → p.request.action ≡ action Need.control
        → Authorized l a at.reserving p.grant p.owner_signature p.request p.subject_signature body
            (policy_at trust at.now)
            permit
            b.journal
            w
        → finish l a at.finishing permit (outcome_of (ask b.upstream p.request.resource body).0) w
          ≡ some (recorded, b'.journal)
        → b'.upstream ≡ (ask b.upstream p.request.resource body).1
        → r ≡ answer (ask b.upstream p.request.resource body).0
        → Handled b at presented need body r b'

  observe-Handled :
      (b : Bridge S U) (at : Moment) (p : Presented) (body : Bytes) {r : Result Refused Bytes}
      {b' : Bridge S U}
      → p.request.action ≡ action Need.observe
      → call_needed l a ask trust b at p Need.observe body ≡ some (r, b')
      → Handled b at (some p) Need.observe body r b'
  unfolding call_needed call_observe
  observe-Handled b at p body same e =
      elim (Result-cases (
        verify l p.grant p.owner_signature p.request p.subject_signature body
          (policy_at trust at.now))) [
            | was_err x bad ↦ held (refusal x) (ground arith) (ground arith)
            | was_ok v good ↦
                observed p v refl refl same good (ground arith) (ground arith) (ground arith)
          ]

  control-Handled :
      (b : Bridge S U) (at : Moment) (p : Presented) (body : Bytes) {r : Result Refused Bytes}
      {b' : Bridge S U}
      → p.request.action ≡ action Need.control
      → call_control l a ask trust b at p body ≡ some (r, b')
      → Handled b at (some p) Need.control body r b'
  unfolding call_control spend
  control-Handled b at p body {r} {b'} same e =
      let policy = policy_at trust at.now in
      let run =
        authorize l a at.reserving p.grant p.owner_signature p.request p.subject_signature body
          policy b.journal in
      elim (Result-cases run.0) [
        | was_err x bad ↦ held (refusal x) (ground arith) (ground arith)
        | was_ok permit good ↦
            let sent = (ask b.upstream p.request.resource body).0 in
            elim (Option-cases (finish l a at.finishing permit (outcome_of sent) run.1)) [
              | inl panic ↦ absurd (ground arith)
              | inr ((recorded, w), done) ↦
                  controlled p permit run.1 recorded refl refl same
                    (authorize_ok l a at.reserving p.grant p.owner_signature p.request
                      p.subject_signature body policy b.journal (ground arith))
                    (ground arith) (ground arith) (ground arith)
            ]
      ]

  -- A call of the bridge that returns was refused with the upstream not asked, or was an observation
  -- that verify let through with the upstream asked once and the journal as it was, or was a control
  -- whose use authorize had permitted, and thus recorded, before the upstream was asked once, and
  -- whose outcome was then given to finish.
  pub call-Handled :
      (b : Bridge S U) (at : Moment) (presented : Option Presented) (need : Need) (body : Bytes)
      {r : Result Refused Bytes} {b' : Bridge S U}
      → call l a ask trust b at presented need body ≡ some (r, b')
      → Handled b at presented need body r b'
  unfolding call call_needed
  call-Handled b at none need body e = held Refused.no_grant (ground arith) (ground arith)
  call-Handled b at (some p) need body {r} {b'} e =
      elim (Bool-cases (list_eq p.request.action (action need))) [
        | inr other ↦ held Refused.denied (ground arith) (ground arith)
        | inl equal ↦
            needed need ((list_eq_iff p.request.action (action need)).0 equal) (ground arith)
      ]
    where
      needed :
          (n : Need)
          → p.request.action ≡ action n
          → call_needed l a ask trust b at p n body ≡ some (r, b')
          → Handled b at (some p) n body r b'
      needed Need.observe same e = observe-Handled b at p body same e
      needed Need.control same e = control-Handled b at p body same e

  control_total :
      (b : Bridge S U) (at : Moment) (p : Presented) (body : Bytes)
      → HasGrants b.journal.journal
      → (r : Result Refused Bytes) × (b' : Bridge S U) × (call_control l a ask trust b at p body
          ≡ some (r, b'))
        × HasGrants b'.journal.journal
  unfolding call_control spend
  control_total b at p body h =
      let policy = policy_at trust at.now in
      let run =
        authorize l a at.reserving p.grant p.owner_signature p.request p.subject_signature body
          policy b.journal in
      let h' =
        authorize-Known l a at.reserving p.grant p.owner_signature p.request p.subject_signature
          body policy b.journal h in
      elim (Result-cases run.0) [
        | was_err x bad ↦ (err (refusal x), record b { journal = run.1 }, ground arith, h')
        | was_ok permit good ↦
            let result = ask b.upstream p.request.resource body in
            let f = finish-Known l a at.finishing permit (outcome_of result.0) run.1 h' in
            (
              answer result.0,
              record { journal = f.left; upstream = result.1 },
              ground (arith, f.returns),
              f.known,
            )
      ]

  needed_total :
      (b : Bridge S U) (at : Moment) (p : Presented) (need : Need) (body : Bytes)
      → HasGrants b.journal.journal
      → (r : Result Refused Bytes) × (b' : Bridge S U) × (call_needed l a ask trust b at p need body
          ≡ some (r, b'))
        × HasGrants b'.journal.journal
  unfolding call_needed call_observe
  needed_total b at p Need.control body h = control_total b at p body h
  needed_total b at p Need.observe body h =
      elim (Result-cases (
        verify l p.grant p.owner_signature p.request p.subject_signature body
          (policy_at trust at.now))) [
            | was_err x bad ↦ (err (refusal x), b, ground arith, h)
            | was_ok v good ↦
                let result = ask b.upstream p.request.resource body in
                (answer result.0, record b { upstream = result.1 }, ground arith, h)
          ]

  -- A call of the bridge on a journal whose operations all have their grants in the table returns
  -- without a panic, and keeps the journal so.
  pub call_total :
      (b : Bridge S U) (at : Moment) (presented : Option Presented) (need : Need) (body : Bytes)
      → HasGrants b.journal.journal
      → (r : Result Refused Bytes) × (b' : Bridge S U) × (call l a ask trust b at presented need
            body
          ≡ some (r, b'))
        × HasGrants b'.journal.journal
  unfolding call
  call_total b at none need body h = (err Refused.no_grant, b, refl, h)
  call_total b at (some p) need body h =
      elim (Bool-cases (list_eq p.request.action (action need))) [
        | inr other ↦ (err Refused.denied, b, ground arith, h)
        | inl equal ↦
            let (r, b', e, kept) = needed_total b at p need body h in
            (r, b', ground (arith, e), kept)
      ]

-- What an upstream said, without the text of an error.
abbrev pub hush : {U : Type 0} → Result Text Bytes × U → Option Bytes × U
hush (ok bytes, u) = (some bytes, u)
hush (err e, u) = (none, u)

module _ {S U : Type 0} (l : Library) (a : TipAnchor S) (ask ask' : Upstream U)
    (trust : Trust) where
  hush-same :
      (x y : Result Text Bytes × U)
      → hush x ≡ hush y
      → (answer x.0 ≡ answer y.0) × (outcome_of x.0 ≡ outcome_of y.0) × (x.1 ≡ y.1)
  unfolding answer outcome_of
  hush-same (ok b, u) (ok c, w) e = (ground arith, refl, ground arith)
  hush-same (ok b, u) (err c, w) e = absurd (ground arith)
  hush-same (err b, u) (ok c, w) e = absurd (ground arith)
  hush-same (err b, u) (err c, w) e = (refl, refl, ground arith)

  spend-same :
      ((u : U) (resource : Text) (body : Bytes)
        → hush (ask u resource body) ≡ hush (ask' u resource body))
      → (b : Bridge S U) (io : Io) (permit : Permit) (resource : Text) (body : Bytes)
      → spend l a ask trust b io permit resource body
        ≡ spend l a ask' trust b io permit resource body
  unfolding spend
  spend-same alike b io permit resource body =
      let (same_answer, same_outcome, same_state) =
        hush-same (ask b.upstream resource body) (ask' b.upstream resource body)
          (alike b.upstream resource body) in
      simp (same_answer, same_outcome, same_state)

  needed-same :
      ((u : U) (resource : Text) (body : Bytes)
        → hush (ask u resource body) ≡ hush (ask' u resource body))
      → (b : Bridge S U) (at : Moment) (p : Presented) (need : Need) (body : Bytes)
      → call_needed l a ask trust b at p need body ≡ call_needed l a ask' trust b at p need body
  unfolding call_needed call_observe call_control
  needed-same alike b at p Need.observe body =
      let resource = p.request.resource in
      let (same_answer, same_outcome, same_state) =
        hush-same (ask b.upstream resource body) (ask' b.upstream resource body)
          (alike b.upstream resource body) in
      elim (Result-cases (
        verify l p.grant p.owner_signature p.request p.subject_signature body
          (policy_at trust at.now))) [
            | was_err x bad ↦ ground arith
            | was_ok v good ↦ ground (arith, same_answer, same_state)
          ]
  needed-same alike b at p Need.control body =
      let policy = policy_at trust at.now in
      let run =
        authorize l a at.reserving p.grant p.owner_signature p.request p.subject_signature body
          policy b.journal in
      elim (Result-cases run.0) [
        | was_err x bad ↦ ground arith
        | was_ok permit good ↦ ground (
          arith,
          spend-same alike (record b { journal = run.1 }) at.finishing permit p.request.resource
              body,
        )
      ]

  -- Two upstreams that give the same answers and the same next states, but fail with different
  -- texts, make every call of the bridge return the same result and the same state.
  pub call-hush :
      ((u : U) (resource : Text) (body : Bytes)
        → hush (ask u resource body) ≡ hush (ask' u resource body))
      → (b : Bridge S U) (at : Moment) (presented : Option Presented) (need : Need) (body : Bytes)
      → call l a ask trust b at presented need body ≡ call l a ask' trust b at presented need body
  unfolding call
  call-hush alike b at none need body = refl
  call-hush alike b at (some p) need body = ground (arith, needed-same alike b at p need body)
