-- ===== src/Desktop/Vault/Release.antt =====
-- How the release of secrets to a program ends.
use dot_terminal.Prelude.{
  ℕ, ◌<◌, ◌≡◌, refl, sym, ap, ◌∙◌, subst, inl, inr, some, List, [], length, ltb, Text, Bytes,
  Result, ok, err, arith, Bool-cases, Option-cases, Result-cases, was_ok, was_err,
}
use dot_terminal.Desktop.Vault.{
  Library, Vault, Io, Error, Details, max_audit, event, update, disclosed, release, Executable,
  collect, release_action,
}
use dot_terminal.Desktop.Vault.Update.{Holds, done, undone, update-Updated, update_result}
use dot_terminal.Desktop.Vault.Logged.{
  move_Holds, noted, refused, recorded, event-Logged, event_keeps,
}

module _ {V K : Type 0} (l : Library V K) where
  -- Given, with the disclosure in memory and in the file; or withheld, and the contents are as they were.
  pub data Released (io : Io) (executable : Executable) (names args : List Text) (v : Vault V K)
      (r : Result Error (List (Text × Text))) (v' : Vault V K) : Type 0 where
    given :
        (values : List (Text × Text)) (path : Text) (content : Bytes) (at : ℕ)
        → collect v.contents.secrets names [] ≡ ok values
        → executable ≡ some (path, content)
        → r ≡ ok values
        → io.clock ≡ some at
        → length v.contents.audit < max_audit
        → v'.contents ≡ record v.contents {
          audit =
              recorded l v.contents release_action
                (Details.released names path (l.sha256 content) (length args))
                at;
        }
        → Holds l io v'.key v'.file v'.contents
        → Released io executable names args v r v'
    withheld :
        (e : Error)
        → r ≡ err e
        → v'.contents ≡ v.contents
        → Released io executable names args v r v'

  disclosed-event :
      (io : Io) (details : Details) (values : List (Text × Text)) (v : Vault V K)
      → (disclosed l io details values v).1 ≡ (event l io release_action details v).1
  unfolding disclosed
  disclosed-event io details values v =
      elim (Result-cases (event l io release_action details v).0) [
        | was_err e bad ↦ ground arith
        | was_ok u good ↦ ground arith
      ]

  disclosed_result :
      (io : Io) (details : Details) (values : List (Text × Text)) (v : Vault V K)
      {t : List (Text × Text)}
      → (disclosed l io details values v).0 ≡ ok t
      → ((event l io release_action details v).0 ≡ ok tt) × (t ≡ values)
  unfolding disclosed
  disclosed_result io details values v e =
      elim (Result-cases (event l io release_action details v).0) [
        | was_err x bad ↦ absurd (ground arith)
        | was_ok u good ↦ (ground arith, ground arith)
      ]

  disclosed-Released :
      (io : Io) (path : Text) (content : Bytes) (names args : List Text)
      (values : List (Text × Text)) (v : Vault V K)
      → collect v.contents.secrets names [] ≡ ok values
      → let change =
          disclosed l io (Details.released names path (l.sha256 content) (length args)) values in
        Released io
          (some (path, content))
          names
          args
          v
          (update l io change v).0
          (update l io change v).1
  disclosed-Released io path content names args values v found =
      let details = Details.released names path (l.sha256 content) (length args) in
      let change = disclosed l io details values in
      let same = disclosed-event io details values v in
      let (key, file) = event_keeps l io release_action details v in
      elim (update-Updated l io (disclosed l io details values) v
        (ap (λ (w : Vault V K). w.key) same ∙ key) (ap (λ (w : Vault V K). w.file) same ∙ file)) [
          | undone e bad key' kept stays ↦ withheld e bad kept
          | done t good key' new holds ↦
              let (went, t_values) =
                disclosed_result io details values v (update_result l io change v good) in
              elim (event-Logged l io release_action details v) [
                | refused x bad at_end ↦ absurd (ground arith)
                | noted at fine now room at_end ↦
                    let contents = new ∙ ap (λ (w : Vault V K). w.contents) (same ∙ at_end) in
                    given values path content at found refl (good ∙ ap ok t_values) now room
                      contents (move_Holds l io (sym key') refl (sym new) holds)
              ]
        ]

  pub release-Released :
      (io : Io) (executable : Executable) (names args : List Text) (v : Vault V K)
      → Released io executable names args v
          (release l io executable names args v).0
          (release l io executable names args v).1
  unfolding release
  release-Released io executable names args v = elim (Bool-cases (ltb 128 (length names))) [
    | inl many ↦ withheld Error.too_many (ground arith) (ground arith)
    | inr few ↦ elim (Result-cases (collect v.contents.secrets names [])) [
      | was_err e bad ↦ withheld e (ground arith) (ground arith)
      | was_ok values found ↦ elim (Option-cases executable) [
        | inl none_there ↦ withheld Error.system (ground arith) (ground arith)
        | inr ((path, content), there) ↦
            let change =
              disclosed l io (Details.released names path (l.sha256 content) (length args))
                values in
            let same : update l io change v ≡ release l io executable names args v = ground arith in
            subst
              (λ e.
                Released io e names args v (release l io executable names args v).0
                  (release l io executable names args v).1)
              (sym there)
              (subst (λ r. Released io (some (path, content)) names args v r.0 r.1) same
                (disclosed-Released io path content names args values v found))
      ]
    ]
  ]
