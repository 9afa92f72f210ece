-- ===== src/Node/Pairing/Ends.antt =====
-- An invitation comes to an end: the loop of `run` of crates/node/src/pairing.rs.
use dot_terminal.Prelude.{
  ℕ, ◌+◌, ◌≤◌, ◌≡◌, arith, some, List, [], ◌∷◌, In, inl, inr, Result, ok, err, Result-cases, was_ok,
  was_err, refl,
}
use dot_terminal.Node.{Peer}
use dot_terminal.Node.Registry.{Tls, Dir}
use dot_terminal.Node.StateFile.{Codec, Identity}
use dot_terminal.Node.Pairing.{
  Turn, Pairing, Start, Round, ended, wait, retry, round, await_join, prepare, run,
}
use dot_terminal.Node.Invitation.{Library, Error, Invite}

-- How a round came out, with the equation.
data Came (r : Round) : Type 0 where
  was_ended : (result : Result Error (Unit {0})) (d : Dir) → r ≡ ended result d → Came r
  was_wait : r ≡ wait → Came r
  was_retry : r ≡ retry → Came r

Round-cases : (r : Round) → Came r
Round-cases (ended result d) = was_ended result d refl
Round-cases wait = was_wait refl
Round-cases retry = was_retry refl

module _ (l : Library) (identities : Codec Identity) (registries : Codec (List Peer))
    (tls : Tls) where
  round_over :
      (p : Pairing) (attempts : ℕ) (t : Turn) (d : Dir)
      → p.deadline ≤ t.now
      → (result : Result Error (Unit {0})) × (round l identities registries tls p attempts t d
          ≡ ended result d)
  unfolding round
  round_over p attempts t d late = (err Error.expired, ground arith)

  await_join_ends :
      (p : Pairing) (attempts : ℕ) (t : Turn) (ts : List Turn) (d : Dir)
      → In t ts
      → p.deadline ≤ t.now
      → (result : Result Error (Unit {0})) × ((await_join l identities registries tls p attempts ts
            d).0
          ≡ some result)
  unfolding await_join
  await_join_ends p attempts t [] d among late = absurd among
  await_join_ends p attempts t (u ∷ ts) d (inl same) late =
      let (result, e) = round_over p attempts u d (rw (← same) late) in (result, rw (e, await_join))
  await_join_ends p attempts t (u ∷ ts) d (inr more) late =
      elim (Round-cases (round l identities registries tls p attempts u d)) [
        | was_ended result d' e ↦ (result, rw (e, await_join))
        | was_wait e ↦
            let (result, ih) = await_join_ends p attempts t ts d more late in
            (result, rw (e, await_join) ih)
        | was_retry e ↦
            let (result, ih) = await_join_ends p (attempts + 1) t ts d more late in
            (result, rw (e, await_join) ih)
      ]

  prepare_deadline :
      (args : Invite) (at : Start l identities registries tls) (d : Dir) (p : Pairing)
      → prepare l identities registries tls args at d ≡ ok p
      → p.deadline ≡ at.clock + args.ttl
  unfolding prepare
  prepare_deadline args at d p e = ground arith

  -- An invitation returns once its loop is at its test at a time past the start by what was asked for.
  pub run_ends :
      (args : Invite) (at : Start l identities registries tls) (t : Turn) (turns : List Turn)
      (d : Dir)
      → In t turns
      → at.clock + args.ttl ≤ t.now
      → (result : Result Error (Unit {0})) × ((run l identities registries tls args at turns d).0
          ≡ some result)
  unfolding run
  run_ends args at t turns d among late =
      elim (Result-cases (prepare l identities registries tls args at d)) [
        | was_err e bad ↦ (err e, rw (bad, run))
        | was_ok p good ↦
            let (result, done) =
              await_join_ends p 0 t turns d among (rw (prepare_deadline args at d p good) late) in
            (result, rw (good, run) done)
      ]
