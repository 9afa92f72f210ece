-- ===== src/Desktop/Vault/Launch.antt =====
-- The program that is launched with secrets: `vault_api` of crates/desktop/src/main.rs, on `run`.
use dot_terminal.Prelude.{
  ℕ, ◌+◌, ◌≡◌, sym, ap, ◌∙◌, subst, ◌⊎◌, inl, inr, not, ◌&&◌, ◌||◌, none, some, List, [], ◌∷◌, ◌++◌,
  length, ltb, any, if◌then◌else◌, list_eq, list_eq_iff, Text, text, Bytes, Result, ok, arith,
  Bool-cases, Option-cases, Result-cases, was_ok, was_err,
}
use mathlib.Core.List.{append-nil}
use dot_terminal.Desktop.Table.{get, insert, get-insert}
use dot_terminal.Desktop.Vault
use dot_terminal.Desktop.Vault.{
  Library, Vault, Contents, Io, Event, Details, event, update, launched, release, release_action,
  put, delete, collect,
}
use dot_terminal.Desktop.Vault.Update.{Holds, done, undone, update-Updated}
use dot_terminal.Desktop.Vault.Logged.{Logged, noted, refused, event-Logged, event_keeps}
use dot_terminal.Desktop.Vault.Release.{given, withheld, release-Released}
use dot_terminal.Desktop.Vault.Bounds.{HasBounds, launched-HasBounds, release-HasBounds}
use dot_terminal.Desktop.Vault.Api.{
  Launch, Moment, is_session, is_absolute, record_session, run_command,
}

-- The values are those of the names, and no others.
get-collect :
    (secrets : List (Text × Text)) (names : List Text) (values : List (Text × Text))
    {envs : List (Text × Text)}
    → collect secrets names values ≡ ok envs
    → (j : Text) → get j envs ≡ (if any (list_eq j) names then get j secrets else get j values)
unfolding collect
get-collect secrets [] values e j = ap (get j) (ground arith)
get-collect secrets (name ∷ names) values {envs} e j = elim (Option-cases (get name secrets)) [
  | inl missing ↦ absurd (ground (arith, missing, e))
  | inr (value, found) ↦
      let rest : collect secrets names (insert name value values) ≡ ok envs =
        ground (arith, found, e) in
      get-collect secrets names (insert name value values) rest j
      ∙ ground
          (arith, get-insert name j value values, list_eq_iff name j, list_eq_iff j name, found)
]

module _ {V K : Type 0} (l : Library V K) where
  -- The event of a disclosure.
  abbrev pub disclosure : Contents V → List Text → Text → Bytes → ℕ → ℕ → V
  disclosure c names path content count at = l.json (record {
    sequence = length c.audit + 1;
    at = at;
    action = release_action;
    details = Details.released names path (l.sha256 content) count;
  })

  -- The events stay, and further ones follow.
  abbrev pub Extends : List V → List V → Type 0
  Extends audit audit' = (more : List V) × (audit' ≡ audit ++ more)

  same-Extends : {audit audit' : List V} → audit' ≡ audit → Extends audit audit'
  same-Extends {audit} e = ([], e ∙ sym (append-nil audit))

  Logged-Extends :
      (io : Io) (action : Text) (details : Details) (v : Vault V K) {secrets : List (Text × Text)}
      {r : Result Vault.Error (Unit {0})} {v' : Vault V K}
      → Logged l io action details v secrets r v'
      → Extends v.contents.audit v'.contents.audit
  Logged-Extends io action details v (noted at good now room e) =
      (_, ap (λ (w : Vault V K). w.contents.audit) e)
  Logged-Extends io action details v (refused x bad e) =
      same-Extends (ap (λ (w : Vault V K). w.contents.audit) e)

  -- The events of a vault stay, in memory and in the file, which is as it was or has contents with
  -- these events under the key of the vault.
  pub record Keeps (io : Io) (v v' : Vault V K) : Type 0 where
    pub memory : Extends v.contents.audit v'.contents.audit
    pub file :
        (v'.file ≡ v.file)
        ⊎ ((c : Contents V) × Extends v.contents.audit c.audit × Holds l io v.key v'.file c)

  launched-Keeps : (io : Io) (id : Text) (v : Vault V K) → Keeps io v (launched l io id v).1
  unfolding launched
  launched-Keeps io id v =
      let action = text "session_started" in
      let (key, file) = event_keeps l io action (Details.session id) v in
      let grown =
        Logged-Extends io action (Details.session id) v
          (event-Logged l io action (Details.session id) v) in
      elim (update-Updated l io (event l io action (Details.session id)) v key file) [
        | done t good key' e holds ↦ record {
          memory = (grown.0, ap (λ (c : Contents V). c.audit) e ∙ grown.1);
          file = inr (_, grown, holds);
        }
        | undone x bad key' e (inl stays) ↦ record {
          memory = same-Extends (ap (λ (c : Contents V). c.audit) e);
          file = inl stays;
        }
        | undone x bad key' e (inr (unsynced, holds)) ↦ record {
          memory = same-Extends (ap (λ (c : Contents V). c.audit) e);
          file = inr (_, grown, holds);
        }
      ]

  -- After the launch, the vault is as it was, or its session was recorded.
  record_session_cases :
      (at : Moment) (v : Vault V K)
      → ((record_session l at v).1 ≡ v)
        ⊎ ((id : Text) × ((record_session l at v).1 ≡ (launched l at.launching id v).1))
  unfolding record_session
  record_session_cases at v = elim (Option-cases at.output) [
    | inl dead ↦ inl (ground arith)
    | inr ((success, printed), ran) ↦ elim (Option-cases printed) [
      | inl unread ↦ inl (ground arith)
      | inr (id, read) ↦ elim (Bool-cases (success && is_session id)) [
        | inl fine ↦ elim (Result-cases (launched l at.launching id v).0) [
          | was_err e bad ↦ inr (id, ground arith)
          | was_ok u good ↦ inr (id, ground arith)
        ]
        | inr odd ↦ inl (ground arith)
      ]
    ]
  ]

  record_session-Keeps :
      (at : Moment) (v : Vault V K) → Keeps at.launching v (record_session l at v).1
  record_session-Keeps at v = elim (record_session_cases at v) [
    | inl same ↦ record {
      memory = same-Extends (ap (λ (w : Vault V K). w.contents.audit) same);
      file = inl (ap (λ (w : Vault V K). w.file) same);
    }
    | inr (id, e) ↦ subst (Keeps at.launching v) (sym e) (launched-Keeps at.launching id v)
  ]

  record_session-HasBounds :
      (at : Moment) (v : Vault V K)
      → HasBounds v.contents
      → HasBounds (record_session l at v).1.contents
  record_session-HasBounds at v b = elim (record_session_cases at v) [
    | inl same ↦ subst (λ (w : Vault V K). HasBounds w.contents) (sym same) b
    | inr (id, e) ↦
        subst (λ (w : Vault V K). HasBounds w.contents) (sym e)
          (launched-HasBounds l at.launching id v b)
  ]

  -- How a launch request ends.
  pub data Ran (at : Moment) (command : Text) (args names : List Text) (v : Vault V K)
      (v' : Vault V K) (launches : List Launch) : Type 0 where
    -- no program ran, and at most a disclosure that was not made is in the file
    nothing : launches ≡ [] → v'.contents ≡ v.contents → Ran at command args names v v' launches
    -- a program ran with the secrets it named, on the vault that their release left, whose file had their
    -- disclosure; what followed is the recording of its session, which kept the disclosure
    launch :
        (envs : List (Text × Text)) (path : Text) (content : Bytes) (time : ℕ) (before : Vault V K)
        → launches ≡ record { command = command; args = args; envs = envs } ∷ []
        → ((j : Text)
            → get j envs ≡ (if any (list_eq j) names then get j v.contents.secrets else none))
        → at.executable ≡ some (path, content)
        → release l at.releasing at.executable names args v ≡ (ok envs, before)
        → before.contents ≡ record v.contents {
          audit =
              v.contents.audit ++ disclosure v.contents names path content (length args) time ∷ [];
        }
        → Holds l at.releasing before.key before.file before.contents
        → v' ≡ (record_session l at before).1
        → Keeps at.launching before v'
        → Ran at command args names v v' launches

  pub run_command-Ran :
      (at : Moment) (command : Text) (args names : List Text) (v : Vault V K)
      → Ran at command args names v
          (run_command l at command args names v).0.1
          (run_command l at command args names v).1
  unfolding run_command get
  run_command-Ran at command args names v =
      elim (Bool-cases (not (is_absolute command) || ltb 128 (length args))) [
        | inl odd ↦ nothing (ground arith) (ground arith)
        | inr fine ↦ elim (release-Released l at.releasing at.executable names args v) [
          | withheld e bad same ↦ nothing (ground arith) (ground arith)
          | given values path content time found fits good now room contents holds ↦
              let v₁ = (release l at.releasing at.executable names args v).1 in
              let ends : (run_command l at command args names v).0.1 ≡ (record_session l at v₁).1 =
                ground arith in
              launch values path content time v₁ (ground arith)
                (get-collect v.contents.secrets names [] found) fits (ground arith) contents holds
                ends (subst (Keeps at.launching v₁) (sym ends) (record_session-Keeps at v₁))
        ]
      ]

  pub run_command-HasBounds :
      (at : Moment) (command : Text) (args names : List Text) (v : Vault V K)
      → HasBounds v.contents
      → HasBounds (run_command l at command args names v).0.1.contents
  unfolding run_command
  run_command-HasBounds at command args names v b =
      let v₁ = (release l at.releasing at.executable names args v).1 in
      let b₁ : HasBounds v₁.contents =
        release-HasBounds l at.releasing at.executable names args v b in
      let ends : Vault V K → Type 0 = λ w. w ≡ (run_command l at command args names v).0.1 in
      elim (Bool-cases (not (is_absolute command) || ltb 128 (length args))) [
        | inl odd ↦
            let same : ends v = ground arith in
            subst (λ (w : Vault V K). HasBounds w.contents) same b
        | inr fine ↦ elim (Result-cases (release l at.releasing at.executable names args v).0) [
          | was_err e bad ↦
              let same : ends v₁ = ground arith in
              subst (λ (w : Vault V K). HasBounds w.contents) same b₁
          | was_ok envs good ↦
              let same : ends (record_session l at v₁).1 = ground arith in
              subst (λ (w : Vault V K). HasBounds w.contents) same
                (record_session-HasBounds at v₁ b₁)
        ]
      ]
