-- ===== src/Desktop/Vault/Logged.antt =====
-- The event that every change of a vault records.
use dot_terminal.Prelude.{
  ℕ, ◌<◌, ◌+◌, ◌≡◌, sym, ap, ◌∙◌, subst, inl, inr, Option, some, List, [], ◌∷◌, ◌++◌, length, leb,
  Text, Result, ok, err, arith, Bool-cases, Option-cases,
}
use dot_terminal.Desktop.Vault.{
  Library, Vault, Contents, Stored, Io, Error, Details, max_audit, event, update, logged,
}
use dot_terminal.Desktop.Vault.Update.{Holds, Updated, done, undone, update-Updated}

module _ {V K : Type 0} (l : Library V K) where
  -- The contents with one event more.
  abbrev pub recorded : Contents V → Text → Details → ℕ → List V
  recorded c action details at =
      c.audit
      ++ l.json
          (record { sequence = length c.audit + 1; at = at; action = action; details = details })
        ∷ []

  -- What an event does, if the audit has room and the clock gives the time.
  pub data Logged (io : Io) (action : Text) (details : Details) (v : Vault V K)
      (secrets : List (Text × Text)) (r : Result Error (Unit {0})) (v' : Vault V K) : Type 0 where
    noted :
        (at : ℕ)
        → r ≡ ok tt
        → io.clock ≡ some at
        → length v.contents.audit < max_audit
        → v' ≡ record v {
          contents = record { secrets = secrets; audit = recorded v.contents action details at };
        }
        → Logged io action details v secrets r v'
    refused : (e : Error) → r ≡ err e → v' ≡ v → Logged io action details v secrets r v'

  pub event-Logged :
      (io : Io) (action : Text) (details : Details) (v : Vault V K)
      → Logged io action details v v.contents.secrets
          (event l io action details v).0
          (event l io action details v).1
  unfolding event
  event-Logged io action details v = elim (Bool-cases (leb max_audit (length v.contents.audit))) [
    | inl full ↦ refused Error.audit_full (ground arith) (ground arith)
    | inr room ↦ elim (Option-cases io.clock) [
      | inl stopped ↦ refused Error.system (ground arith) (ground arith)
      | inr (at, e) ↦ noted at (ground arith) e (ground arith) (ground arith)
    ]
  ]

  pub logged-Logged :
      (io : Io) (action : Text) (details : Details)
      (change : List (Text × Text) → List (Text × Text)) (v : Vault V K)
      → Logged io action details v
          (change v.contents.secrets)
          (logged l io action details change v).0
          (logged l io action details change v).1
  unfolding logged
  logged-Logged io action details change v = elim (event-Logged io action details v) [
    | noted at good now room e ↦ noted at (ground arith) now room (ground arith)
    | refused x bad e ↦ refused x (ground arith) (ground arith)
  ]

  pub event_keeps :
      (io : Io) (action : Text) (details : Details) (v : Vault V K)
      → ((event l io action details v).1.key ≡ v.key)
        × ((event l io action details v).1.file ≡ v.file)
  event_keeps io action details v = elim (event-Logged io action details v) [
    | noted at good now room e ↦ (ap (λ (w : Vault V K). w.key) e, ap (λ (w : Vault V K). w.file) e)
    | refused x bad e ↦ (ap (λ (w : Vault V K). w.key) e, ap (λ (w : Vault V K). w.file) e)
  ]

  logged_keeps :
      (io : Io) (action : Text) (details : Details)
      (change : List (Text × Text) → List (Text × Text)) (v : Vault V K)
      → ((logged l io action details change v).1.key ≡ v.key)
        × ((logged l io action details change v).1.file ≡ v.file)
  logged_keeps io action details change v = elim (logged-Logged io action details change v) [
    | noted at good now room e ↦ (ap (λ (w : Vault V K). w.key) e, ap (λ (w : Vault V K). w.file) e)
    | refused x bad e ↦ (ap (λ (w : Vault V K). w.key) e, ap (λ (w : Vault V K). w.file) e)
  ]

  -- A change that is logged: what `put` and `delete` do once they may.
  pub changed-Updated :
      (io : Io) (action : Text) (details : Details)
      (change : List (Text × Text) → List (Text × Text)) (v : Vault V K)
      → Updated l io v
          (logged l io action details change v).1.contents
          (update l io (logged l io action details change) v).0
          (update l io (logged l io action details change) v).1
  changed-Updated io action details change v =
      let (key, file) = logged_keeps io action details change v in
      update-Updated l io (logged l io action details change) v key file

  pub move_Holds :
      (io : Io) {k k' : K} {f f' : Option Stored} {c c' : Contents V}
      → k ≡ k'
      → f ≡ f'
      → c ≡ c'
      → Holds l io k f c
      → Holds l io k' f' c'
  move_Holds io {k' = k'} {f = f} {f' = f'} {c = c} ek ef ec h =
      subst (λ x. Holds l io k' f' x) ec
        (subst (λ x. Holds l io k' x c) ef (subst (λ x. Holds l io x f c) ek h))

  -- A change that succeeded is in memory and in the file, with its event.
  pub changed_saved :
      (io : Io) (action : Text) (details : Details)
      (change : List (Text × Text) → List (Text × Text)) (v : Vault V K) {v' : Vault V K}
      → update l io (logged l io action details change) v ≡ (ok tt, v')
      → (at : ℕ) × (io.clock ≡ some at)
        × (v'.contents ≡ record {
          secrets = change v.contents.secrets;
          audit = recorded v.contents action details at;
        })
        × Holds l io v'.key v'.file v'.contents
  unfolding update
  changed_saved io action details change v {v'} e =
      elim (changed-Updated io action details change v) [
        | undone x bad key same stays ↦ absurd (ground (arith, bad, e))
        | done t good key new holds ↦ elim (logged-Logged io action details change v) [
          | refused x bad same ↦ absurd (ground (arith, bad, e))
          | noted at fine now room at_end ↦
              let ends : (update l io (logged l io action details change) v).1 ≡ v' =
                ap (λ r. r.1) e in
              let contents = sym new ∙ ap (λ (w : Vault V K). w.contents) ends in
              (
                at,
                now,
                sym contents ∙ ap (λ (w : Vault V K). w.contents) at_end,
                move_Holds io (sym key ∙ ap (λ (w : Vault V K). w.key) ends)
                    (ap (λ (w : Vault V K). w.file) ends) contents holds,
              )
        ]
      ]
