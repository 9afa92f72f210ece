-- ===== src/System/Justified.antt =====
-- What stands behind the requests that were written to a keeper, over runs of the whole system.
use dot_terminal.Prelude.{
  list_eq_iff, starts_with, ends_with, text, All-append, All-append_left, All-append_right,
  All-mono, All-In_self, AtMostOne, no_element, one_element, ◌≡◌, inl, inr, refl, subst, true,
  Option, some, List, [], ◌∷◌, ◌++◌, All, In, In-append_left, In-append_right, Text, list_eq,
  Bool-cases,
}
use dot_terminal.Protocol.{Operation, Request, Response}
use dot_terminal.Node.Service.{Call, ask_hub, forward, paste, copy, serve}
use dot_terminal.Node.Service.Guarded.{IsEntitled, serve_called}
use dot_terminal.Desktop.Gateway.{Head, Asked, post_operation}
use dot_terminal.Desktop.Gateway.Reached.{IsReached, asked_of, post_operation-Reached}
use dot_terminal.System.{
  Origin, local, device, browser, Posted, System, Parts, forwards, asks_at, posted_by, post, ◌⟹◌,
  ◌⟹*◌, works, replies, serves, visits, attaches, governs, here, goes_on,
}

module _ {E Json : Type 0} (m : Parts E Json) where
  -- A request that the browser had written to the keeper.
  pub record IsAskedFor (h : Head) (op : Operation) (r : Request) : Type 0 where
    pub listeners : Text → Option (Request → Option Response)
    pub asked : Asked
    pub reached : IsReached m.app listeners m.to_value m.route h op asked
    pub here_asked : asked.path ≡ m.socket
    pub same : asked.request ≡ r

  -- What stands behind a request, by who wrote it.
  abbrev pub IsFrom : Origin Json → Request → Type 0
  IsFrom local r = Unit
  IsFrom (device v registry c) r = IsEntitled v m.registries m.requests registry c (forward r)
  IsFrom (browser h op) r = IsAskedFor h op r

  abbrev pub IsJustified : Posted Json → Type 0
  IsJustified p = IsFrom p.origin p.request

  forwards-All :
      (P : Call Json → Type 0) (calls : List (Call Json))
      → AtMostOne P calls
      → All (λ r. P (forward r)) (forwards calls)
  unfolding forwards
  forwards-All P calls (no_element e) = rw e tt
  forwards-All P calls (one_element (forward r) e p) = rw e (p, tt)
  forwards-All P calls (one_element (ask_hub path body) e p) = rw e tt
  forwards-All P calls (one_element paste e p) = rw e tt
  forwards-All P calls (one_element (copy t) e p) = rw e tt

  asks_at-All :
      (listeners : Text → Option (Request → Option Response)) (h : Head) (op : Operation)
      (asked : List Asked)
      → AtMostOne (IsReached m.app listeners m.to_value m.route h op) asked
      → All (IsAskedFor h op) (asks_at m.socket asked)
  unfolding asks_at
  asks_at-All listeners h op asked (no_element e) = rw e tt
  asks_at-All listeners h op asked (one_element a e reached) =
      elim (Bool-cases (list_eq a.path m.socket)) [
        | inr other ↦ rw (e, other) tt
        | inl same ↦
            rw (e, same)
              (
                record {
                  listeners = listeners;
                  asked = a;
                  reached = reached;
                  here_asked = (list_eq_iff a.path m.socket).0 same;
                  same = refl;
                },
                tt,
              )
      ]

  posted_by-All :
      (origin : Origin Json) (rs : List Request)
      → All (IsFrom origin) rs
      → All IsJustified (posted_by origin rs)
  posted_by-All origin [] a = tt
  posted_by-All origin (r ∷ rs) a = (a.0, posted_by-All origin rs a.1)

  -- All that was written is justified, and what waits was written.
  pub record IsTraced (s : System E Json) : Type 0 where
    pub justified : All IsJustified s.log
    pub waiting : All (λ p. In p s.log) s.waiting

  post-IsTraced :
      (origin : Origin Json) (rs : List Request) (s : System E Json)
      → All (IsFrom origin) rs
      → IsTraced s
      → IsTraced (post origin rs s)
  unfolding post
  post-IsTraced origin rs s a v = record {
    justified =
        All-append IsJustified s.log (posted_by origin rs) v.justified (posted_by-All origin rs a);
    waiting =
        let new = posted_by origin rs in
        All-append (λ p. In p (s.log ++ new)) s.waiting new
          (All-mono _ _ s.waiting (λ p h. In-append_left p s.log new h) v.waiting)
          (All-mono _ _ new (λ p h. In-append_right p s.log new h) (All-In_self new));
  }

  -- What waits was written.
  pub waits-In :
      (s : System E Json) (before after : List (Posted Json)) (p : Posted Json)
      → s.waiting ≡ before ++ p ∷ after
      → IsTraced s
      → In p s.log
  waits-In s before after p split v =
      (All-append_right (λ q. In q s.log) before (p ∷ after)
        (subst (All (λ q. In q s.log)) split v.waiting)).0

  pub step-log : {s t : System E Json} → ◌⟹◌ m s t → (p : Posted Json) → In p s.log → In p t.log
  unfolding post
  step-log (works st e) p h = h
  step-log (replies before after q id o split one done) p h = h
  step-log (serves {s = s} n c) p h = In-append_left p s.log _ h
  step-log (visits {s = s} listeners k op) p h = In-append_left p s.log _ h
  step-log (attaches {s = s} r) p h = In-append_left p s.log _ h
  step-log (governs cs) p h = h

  module _
      (routes : (path id : Text)
        → m.route path ≡ some id
        → (starts_with (text "/api/sessions/") path ≡ true)
          × (ends_with (text "/doorbell") path ≡ true → id ≡ text "doorbell")) where
    pub step-IsTraced : {s t : System E Json} → ◌⟹◌ m s t → IsTraced s → IsTraced t
    step-IsTraced (works st e) v = record { justified = v.justified; waiting = v.waiting }
    step-IsTraced (replies {s = s} before after p id o split one done) v =
        let all : All (λ q. In q s.log) (before ++ p ∷ after) =
          subst (All (λ q. In q s.log)) split v.waiting in
        record {
          justified = v.justified;
          waiting =
              All-append _ before after (All-append_left _ before (p ∷ after) all)
                (All-append_right _ before (p ∷ after) all).1;
        }
    step-IsTraced (serves {s = s} n c) v =
        post-IsTraced (device n s.dir.peers c)
          (forwards (serve n m.registries m.requests s.dir.peers c).1) s
          (forwards-All (IsEntitled n m.registries m.requests s.dir.peers c)
            (serve n m.registries m.requests s.dir.peers c).1
            (serve_called n m.registries m.requests s.dir.peers c))
          v
    step-IsTraced (visits {s = s} listeners h op) v =
        let asked = asked_of (post_operation m.app listeners m.to_value m.route h op) in
        post-IsTraced (browser h op) (asks_at m.socket asked) s
          (asks_at-All listeners h op asked
            (post_operation-Reached m.app listeners m.to_value m.route h op routes))
          v
    step-IsTraced (attaches {s = s} r) v = post-IsTraced local (r ∷ []) s (tt, tt) v
    step-IsTraced (governs cs) v = record { justified = v.justified; waiting = v.waiting }

    pub run-IsTraced : {s t : System E Json} → ◌⟹*◌ m s t → IsTraced s → IsTraced t
    run-IsTraced here v = v
    run-IsTraced (goes_on run st) v = step-IsTraced st (run-IsTraced run v)
