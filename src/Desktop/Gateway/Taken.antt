-- ===== src/Desktop/Gateway/Taken.antt =====
-- The actions that `view_actions` of crates/desktop/src/main.rs hands to a view.
use dot_terminal.Prelude.{
  ◌≡◌, ◌⊎◌, inl, inr, refl, ap, ◌∙◌, arith, ℕ, ◌≤◌, zero, suc, Bool, true, false, ltb, Option, none,
  some, List, [], ◌∷◌, All, length, length-take, take, keep_if, Text, Bytes, ok, Bool-cases,
  Option-cases,
}
use dot_terminal.Desktop.AgentLog.Api.{is_private_file}
use dot_terminal.Desktop.Gateway.Views.{
  UiState, ui_state_valid, ViewFiles, Disk, ViewCodec, is_action, max_snapshot, has_schema,
  replaces, ui_state_set, view_snapshot, actions_of, view_actions, ViewRequest, get_state,
  take_actions, set_state, publish, leave, view_step, view_run,
}

abbrev pub IsAction : Text → Type 0
IsAction a = is_action a ≡ true

All-take-keep_if : (n : ℕ) (xs : List Text) → All IsAction (take n (keep_if is_action xs))
All-take-keep_if zero xs = tt
All-take-keep_if (suc n) [] = tt
All-take-keep_if (suc n) (a ∷ xs) = elim (Bool-cases (is_action a)) [
  | inr bad ↦ rw bad (All-take-keep_if (suc n) xs)
  | inl good ↦ rw good (good, All-take-keep_if n xs)
]

-- Whether no request of a run leaves actions.
abbrev pub none_left : List (Disk × ViewRequest) → Bool
none_left [] = true
none_left ((disk, leave m) ∷ rs) = false
none_left ((disk, get_state) ∷ rs) = none_left rs
none_left ((disk, take_actions) ∷ rs) = none_left rs
none_left ((disk, set_state s) ∷ rs) = none_left rs
none_left ((disk, publish body) ∷ rs) = none_left rs

module _ {Json : Type 0} (c : ViewCodec Json) where
  actions_of_lem :
      (disk : Disk) (xs : Option (List Text))
      → All IsAction (actions_of c disk xs) × (length (actions_of c disk xs) ≤ 16)
  actions_of_lem disk none = (tt, omega arith)
  actions_of_lem disk (some xs) =
      (All-take-keep_if 16 xs, rw (length-take 16 (keep_if is_action xs)) (omega arith))

  set-actions :
      (disk : Disk) (s : UiState) (f : ViewFiles) → (ui_state_set c disk s f).1.actions ≡ f.actions
  unfolding ui_state_set
  set-actions disk s f = elim (Bool-cases (ui_state_valid s)) [
    | inr bad ↦ ground arith
    | inl good ↦ elim (Option-cases (c.state_to_vec s)) [
      | inl bad ↦ ground arith
      | inr (bytes, e) ↦ elim (Bool-cases (replaces c disk)) [
        | inl it ↦ ground arith
        | inr it ↦ ground arith
      ]
    ]
  ]

  snapshot-actions :
      (disk : Disk) (body : Bytes) (f : ViewFiles)
      → (view_snapshot c disk body f).1.actions ≡ f.actions
  unfolding view_snapshot
  snapshot-actions disk body f = elim (Bool-cases (ltb max_snapshot (length body))) [
    | inl bad ↦ ground arith
    | inr short ↦ elim (Option-cases (c.from_slice body)) [
      | inl bad ↦ ground arith
      | inr (v, e) ↦ elim (Bool-cases (has_schema c disk v)) [
        | inr bad ↦ ground arith
        | inl good ↦ elim (Bool-cases (replaces c disk)) [
          | inl it ↦ ground arith
          | inr it ↦ ground arith
        ]
      ]
    ]
  ]

  view_actions_empty :
      (disk : Disk) (f : ViewFiles) → f.actions ≡ none → view_actions c disk f ≡ (ok [], f)
  unfolding view_actions
  view_actions_empty disk f e = rw e refl

  view_run-actions :
      (rs : List (Disk × ViewRequest)) (f : ViewFiles)
      → none_left rs ≡ true
      → f.actions ≡ none
      → (view_run c rs f).actions ≡ none
  unfolding view_run view_step
  view_run-actions [] f left e = e
  view_run-actions ((disk, leave m) ∷ rs) f left e = absurd (ground arith)
  view_run-actions ((disk, get_state) ∷ rs) f left e = view_run-actions rs f left e
  view_run-actions ((disk, take_actions) ∷ rs) f left e =
      view_run-actions rs (view_actions c disk f).1 left
        (ap (λ r. r.1.actions) (view_actions_empty disk f e) ∙ e)
  view_run-actions ((disk, set_state s) ∷ rs) f left e =
      view_run-actions rs (ui_state_set c disk s f).1 left (set-actions disk s f ∙ e)
  view_run-actions ((disk, publish body) ∷ rs) f left e =
      view_run-actions rs (view_snapshot c disk body f).1 left (snapshot-actions disk body f ∙ e)

  taken :
      (disk : Disk) (f : ViewFiles) {xs : List Text}
      → (view_actions c disk f).0 ≡ ok xs
      → All IsAction xs
        × (length xs ≤ 16)
        × ((disk.removes ≡ false) ⊎ ((view_actions c disk f).1.actions ≡ none))
  unfolding view_actions
  taken disk f {xs} e = elim (Option-cases f.actions) [
    | inl empty ↦
        let nothing : xs ≡ [] = ground arith in
        (rw nothing tt, rw nothing (omega arith), inr (ground arith))
    | inr (m, there) ↦ elim (Bool-cases (is_private_file m)) [
      | inr bad ↦ absurd (ground arith)
      | inl private ↦ elim (Bool-cases disk.reads) [
        | inr bad ↦ absurd (ground arith)
        | inl can ↦ elim (Option-cases (c.from_utf8 m.content)) [
          | inl bad ↦ absurd (ground arith)
          | inr (t, decoded) ↦
              let it : xs ≡ actions_of c disk (c.strings_from_str t) = ground arith in
              let (each, few) = actions_of_lem disk (c.strings_from_str t) in
              (
                rw it each,
                rw it few,
                elim (Bool-cases disk.removes) [
                  | inl gone ↦ inr (ground arith)
                  | inr stays ↦ inl stays
                ],
              )
        ]
      ]
    ]
  ]

  -- The actions that a view is handed are at most 16, each of at most 80 letters, digits and `:-_`,
  -- whether the file could be removed or not; and, unless it could not be, they are handed over
  -- once: after any further requests of views, none are, unless actions were left anew.
  pub view_actions-Taken :
      (disk later : Disk) (f : ViewFiles) (rs : List (Disk × ViewRequest)) {xs : List Text}
      → (view_actions c disk f).0 ≡ ok xs
      → All IsAction xs
        × (length xs ≤ 16)
        × ((disk.removes ≡ false)
            ⊎ ((none_left rs ≡ false)
                ⊎ ((view_actions c later (view_run c rs (view_actions c disk f).1)).0 ≡ ok [])))
  view_actions-Taken disk later f rs e =
      let (each, few, end) = taken disk f e in
      let after : ViewFiles = view_run c rs (view_actions c disk f).1 in
      (
        each,
        few,
        elim end [
          | inl stays ↦ inl stays
          | inr gone ↦ elim (Bool-cases (none_left rs)) [
            | inr anew ↦ inr (inl anew)
            | inl left ↦
                let empty = view_run-actions rs (view_actions c disk f).1 left gone in
                inr (inr (ap (λ r. r.0) (view_actions_empty later after empty)))
          ]
        ],
      )
