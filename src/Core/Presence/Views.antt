-- ===== src/Core/Presence/Views.antt =====
-- The list of views as a map from view ids, and its bounds.
use dot_terminal.Prelude.{
  ℕ, ◌≤◌, ◌≡◌, refl, ap, inl, inr, true, Option, none, some, List, [], ◌∷◌, arith, length,
  length-keep_if-le, keep_if, All, Text, list_eq, list_eq_iff, Bool-cases, Option-cases,
  if◌then◌else◌,
}
use dot_terminal.Core.Presence.{
  ViewInfo, Presence, max_views, prune, is_live, refresh, valid_view_id, valid_label, valid_kind,
}

-- The entry of a view.
unfoldable pub find : Text → List ViewInfo → Option ViewInfo
find id [] = none
find id (v ∷ vs) = if list_eq v.view id then some v else find id vs

-- No view is listed twice.
abbrev pub Distinct : List ViewInfo → Type 0
Distinct [] = Unit {0}
Distinct (v ∷ vs) = (find v.view vs ≡ none) × Distinct vs

abbrev pub IsKnown : ViewInfo → Type 0
IsKnown v =
    (valid_view_id v.view ≡ true) × (valid_label v.label ≡ true) × (valid_kind v.kind ≡ true)

pub record IsValid (p : Presence) : Type 0 where
  pub distinct : Distinct p.views
  pub few : length p.views ≤ max_views
  pub known : All IsKnown p.views

-- The entry, if it was heard of lately.
abbrev pub if_live : ℕ → Option ViewInfo → Option ViewInfo
if_live now none = none
if_live now (some v) = if is_live now v then some v else none

find_eq : (id j : Text) (vs : List ViewInfo) → list_eq id j ≡ true → find id vs ≡ find j vs
find_eq id j vs e = ap (λ k. find k vs) ((list_eq_iff id j).0 e)

module _ (now : ℕ) where
  find-keep_if-none :
      (id : Text) (vs : List ViewInfo)
      → find id vs ≡ none
      → find id (keep_if (is_live now) vs) ≡ none
  unfolding find
  find-keep_if-none id [] e = refl
  find-keep_if-none id (v ∷ vs) e = ground (arith, find-keep_if-none id vs)

  -- Pruning forgets the silent views and no other.
  pub find-keep_if :
      (id : Text) (vs : List ViewInfo)
      → Distinct vs
      → find id (keep_if (is_live now) vs) ≡ if_live now (find id vs)
  unfolding find
  find-keep_if id [] d = refl
  find-keep_if id (v ∷ vs) d = ground (
    arith,
    find-keep_if id vs d.1,
    find-keep_if-none v.view vs d.0,
    find_eq v.view id (keep_if (is_live now) vs),
  )

  keep_if-Distinct : (vs : List ViewInfo) → Distinct vs → Distinct (keep_if (is_live now) vs)
  keep_if-Distinct [] d = tt
  keep_if-Distinct (v ∷ vs) d =
      ground (arith, keep_if-Distinct vs d.1, find-keep_if-none v.view vs d.0)

  keep_if-IsKnown : (vs : List ViewInfo) → All IsKnown vs → All IsKnown (keep_if (is_live now) vs)
  keep_if-IsKnown [] k = tt
  keep_if-IsKnown (v ∷ vs) k = ground (arith, keep_if-IsKnown vs k.1)

-- Pruning keeps the invariant.
pub prune-IsValid : (p : Presence) (now : ℕ) → IsValid p → IsValid (prune p now)
unfolding prune
prune-IsValid p now v = record {
  distinct = keep_if-Distinct now p.views v.distinct;
  few = omega (arith, length-keep_if-le (is_live now) p.views, v.few);
  known = keep_if-IsKnown now p.views v.known;
}

module _ (new : ViewInfo) where
  -- `refresh` finds the view exactly if it is listed, and then changes its entry alone.
  pub find-refresh :
      (j : Text) (vs : List ViewInfo) {ws : List ViewInfo}
      → refresh new vs ≡ some ws
      → find j ws ≡ (if list_eq new.view j then some new else find j vs)
  unfolding find refresh
  find-refresh j [] e = cc
  find-refresh j (v ∷ vs) e = elim (Bool-cases (list_eq v.view new.view)) [
    | inl hit ↦
        ground (arith, list_eq_iff v.view new.view, list_eq_iff v.view j, list_eq_iff new.view j)
    | inr miss ↦ elim (Option-cases (refresh new vs)) [
      | inl none_left ↦ absurd (ground arith)
      | inr (ws, found) ↦ ground (
        arith,
        find-refresh j vs found,
        list_eq_iff v.view j,
        list_eq_iff new.view j,
        list_eq_iff v.view new.view,
      )
    ]
  ]

  pub find_of_refresh-none : (vs : List ViewInfo) → refresh new vs ≡ none → find new.view vs ≡ none
  unfolding find refresh
  find_of_refresh-none [] e = refl
  find_of_refresh-none (v ∷ vs) e = ground (arith, find_of_refresh-none vs)

  pub length-refresh :
      (vs : List ViewInfo) {ws : List ViewInfo} → refresh new vs ≡ some ws → length ws ≡ length vs
  unfolding refresh
  length-refresh [] e = cc
  length-refresh (v ∷ vs) e = elim (Option-cases (refresh new vs)) [
    | inl miss ↦ ground arith
    | inr (ws, found) ↦ ground (arith, length-refresh vs found)
  ]

  pub refresh-Distinct :
      (vs : List ViewInfo) {ws : List ViewInfo}
      → Distinct vs
      → refresh new vs ≡ some ws
      → Distinct ws
  unfolding refresh
  refresh-Distinct [] d e = cc
  refresh-Distinct (v ∷ vs) d e = elim (Option-cases (refresh new vs)) [
    | inl miss ↦ ground arith
    | inr (ws, found) ↦ ground (
      arith,
      refresh-Distinct vs d.1 found,
      find-refresh v.view vs found,
      list_eq_iff v.view new.view,
      list_eq_iff new.view v.view,
    )
  ]

  pub refresh-IsKnown :
      (vs : List ViewInfo) {ws : List ViewInfo}
      → IsKnown new
      → All IsKnown vs
      → refresh new vs ≡ some ws
      → All IsKnown ws
  unfolding refresh
  refresh-IsKnown [] n k e = cc
  refresh-IsKnown (v ∷ vs) n k e = elim (Option-cases (refresh new vs)) [
    | inl miss ↦ ground arith
    | inr (ws, found) ↦ ground (arith, refresh-IsKnown vs n k.1 found)
  ]
