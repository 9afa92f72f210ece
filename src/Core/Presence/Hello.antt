-- ===== src/Core/Presence/Hello.antt =====
-- `hello`: what a heartbeat does to the list of views.
use dot_terminal.Prelude.{
  ℕ, ◌≡◌, refl, ap, ◌∙◌, inl, inr, none, some, List, [], ◌∷◌, ◌++◌, arith, length, length-append,
  All, Text, list_eq, list_eq_iff, Bool-cases, Option-cases, if◌then◌else◌, ok, leb,
}
use dot_terminal.Core.Presence.{
  ViewInfo, Presence, max_views, prune, refresh, join, hello, snapshot, valid_view_id, valid_label,
  valid_kind,
}
use dot_terminal.Core.Presence.Views.{
  find, Distinct, IsKnown, IsValid, if_live, find-keep_if, prune-IsValid, find-refresh,
  find_of_refresh-none, length-refresh, refresh-Distinct, refresh-IsKnown,
}

-- A view at the end of the list.
find-append :
    (j : Text) (vs : List ViewInfo) (new : ViewInfo)
    → find new.view vs ≡ none
    → find j (vs ++ new ∷ []) ≡ (if list_eq new.view j then some new else find j vs)
unfolding find
find-append j [] new e = refl
find-append j (v ∷ vs) new e = ground (
  arith,
  find-append j vs new,
  list_eq_iff v.view new.view,
  list_eq_iff v.view j,
  list_eq_iff new.view j,
)

append-Distinct :
    (vs : List ViewInfo) (new : ViewInfo)
    → Distinct vs
    → find new.view vs ≡ none
    → Distinct (vs ++ new ∷ [])
unfolding find
append-Distinct [] new d e = (refl, tt)
append-Distinct (v ∷ vs) new d e = ground (
  arith,
  append-Distinct vs new d.1,
  find-append v.view vs new,
  list_eq_iff v.view new.view,
  list_eq_iff new.view v.view,
)

append-IsKnown :
    (vs : List ViewInfo) (new : ViewInfo)
    → All IsKnown vs
    → IsKnown new
    → All IsKnown (vs ++ new ∷ [])
append-IsKnown [] new k n = (n, tt)
append-IsKnown (v ∷ vs) new k n = (k.0, append-IsKnown vs new k.1 n)

join-IsValid : (p : Presence) (new : ViewInfo) → IsKnown new → IsValid p → IsValid (join p new).0
unfolding join
join-IsValid p new n v = elim (Option-cases (refresh new p.views)) [
  | inr (ws, found) ↦
      rw (found, join)
        (record {
          distinct = refresh-Distinct new p.views v.distinct found;
          few = omega (arith, length-refresh new p.views found, v.few);
          known = refresh-IsKnown new p.views n v.known found;
        })
  | inl miss ↦ elim (Bool-cases (leb max_views (length p.views))) [
    | inl full ↦ rw (miss, full, join) v
    | inr room ↦
        rw (miss, room, join)
          (record {
            distinct =
                append-Distinct p.views new v.distinct (find_of_refresh-none new p.views miss);
            few = ground (arith, length-append p.views (new ∷ []));
            known = append-IsKnown p.views new v.known n;
          })
  ]
]

-- A heartbeat keeps the presence valid, whether accepted or not: no view is listed twice, at most 32
-- are, and each has an id, a label and a kind that are allowed.
pub hello-IsValid :
    (p : Presence) (now : ℕ) (view label kind : Text)
    → IsValid p
    → IsValid (hello p now view label kind).0
unfolding hello
hello-IsValid p now view label kind v =
    let new : ViewInfo = record { view = view; label = label; kind = kind; seen_ms = now } in
    elim (Bool-cases (valid_view_id view)) [
      | inr bad ↦ rw (bad, hello) v
      | inl id ↦ elim (Bool-cases (valid_label label)) [
        | inr bad ↦ rw (id, bad, hello) v
        | inl lb ↦ elim (Bool-cases (valid_kind kind)) [
          | inr bad ↦ rw (id, lb, bad, hello) v
          | inl kd ↦
              rw (id, lb, kd, hello)
                (join-IsValid (prune p now) new (id, lb, kd) (prune-IsValid p now v))
        ]
      ]
    ]

find-join :
    (p : Presence) (new : ViewInfo) (j : Text)
    → (join p new).1 ≡ ok tt
    → find j (join p new).0.views ≡ (if list_eq new.view j then some new else find j p.views)
unfolding join
find-join p new j e = elim (Option-cases (refresh new p.views)) [
  | inr (ws, found) ↦ rw (found, join) (find-refresh new j p.views found)
  | inl miss ↦ ground (arith, find-append j p.views new, find_of_refresh-none new p.views miss)
]

hello_ok :
    (p : Presence) (now : ℕ) (view label kind : Text)
    → (hello p now view label kind).1 ≡ ok tt
    → let new : ViewInfo = record { view = view; label = label; kind = kind; seen_ms = now } in
      (hello p now view label kind ≡ join (prune p now) new) × ((join (prune p now) new).1 ≡ ok tt)
unfolding hello
hello_ok p now view label kind e = ground arith

-- A heartbeat that is accepted by a valid presence lists its view with its label, its kind and the
-- time, forgets the views that were silent too long, and leaves every other view as it was.
pub find-hello :
    (p : Presence) (now : ℕ) (view label kind : Text) (j : Text)
    → IsValid p
    → (hello p now view label kind).1 ≡ ok tt
    → find j (hello p now view label kind).0.views ≡ (
        if list_eq view j
        then some (record { view = view; label = label; kind = kind; seen_ms = now })
        else if_live now (find j p.views))
unfolding hello
find-hello p now view label kind j v e =
    let new : ViewInfo = record { view = view; label = label; kind = kind; seen_ms = now } in
    let (joined, done) = hello_ok p now view label kind e in
    rw joined (
      find-join (prune p now) new j done
      ∙ ap (λ o. if list_eq view j then some new else o)
          (unfold prune in find-keep_if now j p.views v.distinct))

-- A snapshot of a valid presence lists a view, as it was last heard of, exactly if it was heard of
-- in the last 10 seconds.
pub find-snapshot :
    (p : Presence) (now : ℕ) (j : Text)
    → IsValid p
    → find j (snapshot p now).1.views ≡ if_live now (find j p.views)
unfolding snapshot
find-snapshot p now j v = find-keep_if now j p.views v.distinct
