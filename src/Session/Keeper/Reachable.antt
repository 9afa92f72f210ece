-- ===== src/Session/Keeper/Reachable.antt =====
-- What holds of a keeper whatever its threads do, and in whatever order.
use dot_terminal.Prelude.{
  List, ℕ, ◌-◌, ◌≤◌, ◌≡◌, refl, sym, subst, inl, inr, true, false, ◌||◌, Option, some, [], ◌++◌,
  Text, Bytes, ok, err, arith, Option-cases, Result-cases, was_ok, was_err,
}
use mathlib.Core.List.{append-nil}
use dot_terminal.Session.Keeper.Records.{
  Records, reshaped, heard, all_heard, start-Records, kept, feed-Records, respond-Records,
}
use dot_terminal.Core.History.Runs.{Op}
use dot_terminal.Protocol.{Operation, Request, Response, validate}
use dot_terminal.Session.{Engine, Outside, ended}
use dot_terminal.Session.Requests.{dispatch}
use dot_terminal.Session.Subscription.{reap}
use dot_terminal.Session.Keeper.{
  Keeper, Asked, start, max_clients, connect, respond, answer_client, is_stop, ◌⟶◌, ◌⟶*◌, outputs,
  closes_output, exits, connects, answers, streams, unsubscribes, reaps, here, goes_on,
}

-- `ops`: what the terminal went through.
pub record IsSane {E : Type 0} (k : Keeper E) (ops : List Op) : Type 0 where
  pub records : Records k.session ops
  pub few : k.clients ≤ max_clients

start-IsSane :
    {E : Type 0} (screen : E) (pid : Option ℕ) (incarnation : Text)
    → IsSane (start screen pid incarnation) []
unfolding start
start-IsSane screen pid incarnation = record {
  records = start-Records screen pid incarnation;
  few = omega arith;
}

pub asks_to_stop : (op : Operation) → is_stop op ≡ true → op ≡ Operation.stop
asks_to_stop Operation.stop e = refl
asks_to_stop Operation.status e = absurd cc
asks_to_stop Operation.screen e = absurd cc
asks_to_stop (Operation.read after) e = absurd cc
asks_to_stop (Operation.read_frame after) e = absurd cc
asks_to_stop (Operation.acquire takeover) e = absurd cc
asks_to_stop (Operation.input g seq bs) e = absurd cc
asks_to_stop (Operation.resize g cols rows) e = absurd cc
asks_to_stop (Operation.release g) e = absurd cc
asks_to_stop (Operation.offer_handoff g) e = absurd cc
asks_to_stop (Operation.accept_handoff ticket) e = absurd cc
asks_to_stop (Operation.cancel_handoff g) e = absurd cc
asks_to_stop (Operation.check_control g) e = absurd cc
asks_to_stop (Operation.hello view label kind) e = absurd cc
asks_to_stop (Operation.subscribe after) e = absurd cc
asks_to_stop (Operation.acquire_as view takeover) e = absurd cc

module _ {E : Type 0} (engine : Engine E) (to_vec : Response → Option Bytes) where
  connect-IsSane :
      (k : Keeper E) (ops : List Op) (now : ℕ)
      → IsSane k ops
      → IsSane (connect engine to_vec k now) ops
  unfolding connect
  connect-IsSane k ops now v = record {
    records =
        let same : k.session ≡ (connect engine to_vec k now).session = ground arith in
        subst (λ s. Records s ops) same v.records;
    few = ground (arith, v.few);
  }

  answer_client-IsSane :
      (k : Keeper E) (ops : List Op) (id : Text) (o : Outside) (asked : Asked) {k' : Keeper E}
      → answer_client engine to_vec k id o asked ≡ some k'
      → IsSane k ops
      → IsSane k' (ops ++ reshaped engine to_vec k.session o asked)
  unfolding answer_client
  answer_client-IsSane k ops id o asked {k'} done v =
      let ops' = ops ++ reshaped engine to_vec k.session o asked in
      elim (Option-cases (respond engine to_vec k.session id o asked)) [
        | inl bad ↦ absurd (ground arith)
        | inr ((s, answer), good) ↦
            let records = respond-Records engine to_vec k.session ops id o asked good v.records in
            let same : k'
                ≡ record k { session = s; stop = k.stop || answer.1; clients = k.clients - 1 } =
              ground arith in
            subst (λ x. IsSane x ops') (sym same)
              (record { records = records; few = omega (arith, v.few) })
      ]

  -- A step that the terminal does not hear of.
  unheard : {k : Keeper E} {ops : List Op} → IsSane k ops → IsSane k (ops ++ [])
  unheard {k} {ops} v = subst (IsSane k) (sym (append-nil ops)) v

  step-IsSane :
      (k k' : Keeper E) (ops : List Op) (st : ◌⟶◌ engine to_vec k k')
      → IsSane k ops
      → IsSane k' (ops ++ heard engine to_vec k k' st)
  unfolding heard
  step-IsSane k _ ops (outputs bs opened fed) v = record {
    records = feed-Records engine to_vec k.session ops bs fed v.records;
    few = v.few;
  }
  step-IsSane k _ ops (closes_output opened) v =
      unheard
        (record { records = kept k.session _ ops refl refl v.records.views v.records; few = v.few })
  step-IsSane k _ ops exits v =
      unheard
        (record { records = kept k.session _ ops refl refl v.records.views v.records; few = v.few })
  step-IsSane k _ ops (connects now) v = unheard (connect-IsSane k ops now v)
  step-IsSane k k' ops (answers id o asked one done) v =
      answer_client-IsSane k ops id o asked done v
  step-IsSane k _ ops (streams after now next r one at) v =
      unheard (record { records = v.records; few = v.few })
  step-IsSane k _ ops (unsubscribes one) v =
      unheard (record { records = v.records; few = omega (arith, v.few) })
  step-IsSane k _ ops (reaps retention now socket r) v =
      unheard (record { records = v.records; few = v.few })

  run-IsSane :
      {k k' : Keeper E} (ran : ◌⟶*◌ engine to_vec k k')
      → IsSane k []
      → IsSane k' (all_heard engine to_vec ran)
  unfolding all_heard
  run-IsSane here v = v
  run-IsSane (goes_on {m = m} {n = n} before last) v =
      step-IsSane m n (all_heard engine to_vec before) last (run-IsSane before v)

  -- In every state that the threads of a keeper reach, in whatever order they take their steps, the
  -- history is valid, its ring is the end of all output that these steps took in, and it names,
  -- from its first mark on, the grid of each byte of it, by the resizes within the limits that the
  -- holder of control asked for and the terminal took; the grid in force is that of the terminal,
  -- the views are valid, and at most 32 clients are connected.
  pub reach-IsSane :
      (screen : E) (pid : Option ℕ) (incarnation : Text) {k : Keeper E}
      (reached : ◌⟶*◌ engine to_vec (start screen pid incarnation) k)
      → IsSane k (all_heard engine to_vec reached)
  reach-IsSane screen pid incarnation reached =
      run-IsSane reached (start-IsSane screen pid incarnation)

  -- A step that stops a keeper, which was not stopped and whose session has not ended, is the answer
  -- to a valid request of a client to stop.
  pub stops_by_request :
      (k k' : Keeper E)
      → ◌⟶◌ engine to_vec k k'
      → k.stop ≡ false
      → ended k.session ≡ false
      → k'.stop ≡ true
      → (id : Text) × (o : Outside) × (req : Request) × (answer_client engine to_vec k id o (ok req)
          ≡ some k')
        × (validate req ≡ ok tt)
        × (req.operation ≡ Operation.stop)
  unfolding connect answer_client respond reap
  stops_by_request k _ (outputs bs opened fed) up running down = absurd cc
  stops_by_request k _ (closes_output opened) up running down = absurd cc
  stops_by_request k _ exits up running down = absurd cc
  stops_by_request k _ (connects now) up running down = absurd (ground arith)
  stops_by_request k k' (answers id o (err x) one done) up running down = absurd (ground arith)
  stops_by_request k k' (answers id o (ok req) one done) up running down =
      elim (Result-cases (validate req)) [
        | was_err x bad ↦ absurd (ground arith)
        | was_ok u valid ↦
            elim (Option-cases (dispatch engine to_vec k.session id o req.operation)) [
              | inl bad ↦ absurd (ground arith)
              | inr ((s, response), good) ↦
                  (id, o, req, done, valid, asks_to_stop req.operation (ground arith))
            ]
      ]
  stops_by_request k _ (streams after now next r one at) up running down = absurd cc
  stops_by_request k _ (unsubscribes one) up running down = absurd cc
  stops_by_request k _ (reaps retention now socket r) up running down = absurd (ground arith)
