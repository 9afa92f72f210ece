-- ===== src/Desktop/Gateway/Restored.antt =====
-- What a view restores after a restart, and the actions that are left for it: runs of the requests of
-- crates/desktop/src/main.rs on the files of the state directory.
use dot_terminal.Prelude.{
  ◌≡◌, inl, inr, refl, ap, ◌∙◌, arith, Bool, true, false, ◌&&◌, ltb, none, some, List, [], ◌∷◌,
  length, if◌then◌else◌, Text, Bytes, Bool-cases, Option-cases,
}
use dot_terminal.Desktop.AgentLog.Api.{is_private_file}
use dot_terminal.Desktop.Gateway.Views.{
  UiState, ui_state_valid, ViewFiles, Disk, ViewCodec, max_snapshot, has_schema, replaces,
  ui_state_get, ui_state_set, view_snapshot, view_actions, ViewRequest, get_state, take_actions,
  set_state, publish, leave, view_step, view_run,
}

module _ {Json : Type 0} (c : ViewCodec Json) where
  -- A state is read as it was written.
  pub data IsReadBack (s : UiState) (bytes : Bytes) : Type 0 where
    read_back :
        (t : Text) → c.from_utf8 bytes ≡ some t → c.state_from_str t ≡ some s → IsReadBack s bytes

  -- Whether a state that a view sends is kept.
  abbrev pub keeps : Disk → UiState → Bool
  keeps disk s =
      ui_state_valid s
      && elim (c.state_to_vec s) [ none ↦ false | some bytes ↦ true ]
      && replaces c disk

  -- The last state that is kept of a run, or the one before it.
  abbrev pub last_state : List (Disk × ViewRequest) → UiState → UiState
  last_state [] s = s
  last_state ((disk, set_state t) ∷ rs) s = last_state rs (if keeps disk t then t else s)
  last_state ((disk, get_state) ∷ rs) s = last_state rs s
  last_state ((disk, take_actions) ∷ rs) s = last_state rs s
  last_state ((disk, publish body) ∷ rs) s = last_state rs s
  last_state ((disk, leave m) ∷ rs) s = last_state rs s

  module _
      (sound : (s : UiState) (bytes : Bytes) → c.state_to_vec s ≡ some bytes → IsReadBack s bytes)
      (now : Disk) (reads : now.reads ≡ true) where
    get-set :
        (disk : Disk) (s : UiState) (f : ViewFiles)
        → ui_state_get c now (ui_state_set c disk s f).1
          ≡ (if keeps disk s then s else ui_state_get c now f)
    unfolding ui_state_get ui_state_set
    get-set disk s f = elim (Bool-cases (ui_state_valid s)) [
      | inr bad ↦ ground arith
      | inl good ↦ elim (Option-cases (c.state_to_vec s)) [
        | inl bad ↦ ground arith
        | inr (bytes, encoded) ↦ elim (sound s bytes encoded) [
          | read_back t decoded parsed ↦ elim (Bool-cases (replaces c disk)) [
            | inl written ↦ ground arith
            | inr kept ↦ ground arith
          ]
        ]
      ]
    ]

    get-snapshot :
        (disk : Disk) (body : Bytes) (f : ViewFiles)
        → ui_state_get c now (view_snapshot c disk body f).1 ≡ ui_state_get c now f
    unfolding ui_state_get view_snapshot
    get-snapshot disk body f = elim (Bool-cases (ltb max_snapshot (length body))) [
      | inl bad ↦ ground arith
      | inr short ↦ elim (Option-cases (c.from_slice body)) [
        | inl bad ↦ ground arith
        | inr (v, e) ↦ elim (Bool-cases (has_schema c disk v)) [
          | inr bad ↦ ground arith
          | inl good ↦ elim (Bool-cases (replaces c disk)) [
            | inl it ↦ ground arith
            | inr it ↦ ground arith
          ]
        ]
      ]
    ]

    get-actions :
        (disk : Disk) (f : ViewFiles)
        → ui_state_get c now (view_actions c disk f).1 ≡ ui_state_get c now f
    unfolding ui_state_get view_actions
    get-actions disk f = elim (Option-cases f.actions) [
      | inl bad ↦ ground arith
      | inr (m, there) ↦ elim (Bool-cases (is_private_file m)) [
        | inr bad ↦ ground arith
        | inl private ↦ elim (Bool-cases disk.reads) [
          | inr bad ↦ ground arith
          | inl can ↦ elim (Option-cases (c.from_utf8 m.content)) [
            | inl bad ↦ ground arith
            | inr (t, e) ↦ elim (Bool-cases disk.removes) [
              | inl it ↦ ground arith
              | inr it ↦ ground arith
            ]
          ]
        ]
      ]
    ]

    -- After any run of the requests of views, in which files could be written or not, the state of the
    -- interface that a view is given, if the file can be read then, is the last one of the run that
    -- was valid and could be encoded and written, or what it was before the run if there was none: no
    -- other request touches it. JSON and UTF-8 are read as they were written.
    pub view_run-last_state :
        (rs : List (Disk × ViewRequest)) (f : ViewFiles)
        → ui_state_get c now (view_run c rs f) ≡ last_state rs (ui_state_get c now f)
    unfolding view_run view_step ui_state_get
    view_run-last_state [] f = refl
    view_run-last_state ((disk, get_state) ∷ rs) f = view_run-last_state rs f
    view_run-last_state ((disk, leave m) ∷ rs) f =
        view_run-last_state rs (record f { actions = some m })
    view_run-last_state ((disk, take_actions) ∷ rs) f =
        view_run-last_state rs (view_actions c disk f).1 ∙ ap (last_state rs) (get-actions disk f)
    view_run-last_state ((disk, set_state s) ∷ rs) f =
        view_run-last_state rs (ui_state_set c disk s f).1 ∙ ap (last_state rs) (get-set disk s f)
    view_run-last_state ((disk, publish body) ∷ rs) f =
        view_run-last_state rs (view_snapshot c disk body f).1
        ∙ ap (last_state rs) (get-snapshot disk body f)
