-- ===== src/Desktop/Vault/Bounds.antt =====
-- How much a vault holds.
use dot_terminal.Prelude.{
  ◌+◌, ◌≤◌, ◌≡◌, sym, subst, inl, inr, false, not, ◌&&◌, List, [], ◌∷◌, length, leb, list_eq, Text,
  text, Result, arith, Bool-cases, length-append, All, length-keep_if-le,
}
use dot_terminal.Desktop.Table.{insert, remove, length-insert-le, insert-All, remove-All}
use dot_terminal.Desktop.Vault.{
  Library, Vault, Contents, Io, Error, Details, Step, max_audit, event, update, logged, put, delete,
  release, launched, bad_secret, has_key, Executable, release_action,
}
use dot_terminal.Desktop.Vault.Update.{done, undone, update-Updated}
use dot_terminal.Desktop.Vault.Logged.{
  Logged, noted, refused, event-Logged, logged-Logged, changed-Updated, event_keeps,
}
use dot_terminal.Desktop.Vault.Release.{given, withheld, release-Released}

-- At most 128 secrets, each of them as `put` takes it, and at most 10,000 events.
pub record HasBounds {V : Type 0} (c : Contents V) : Type 0 where
  pub few : length c.secrets ≤ 128
  pub good : All (λ p. bad_secret p.0 p.1 ≡ false) c.secrets
  pub short : length c.audit ≤ max_audit

module _ {V K : Type 0} (l : Library V K) where
  update-keeps :
      {T : Type 0} (io : Io) (change : Step V K T) (v : Vault V K)
      → (change v).1.key ≡ v.key
      → (change v).1.file ≡ v.file
      → HasBounds v.contents
      → HasBounds (change v).1.contents
      → HasBounds (update l io change v).1.contents
  update-keeps io change v key file old new = elim (update-Updated l io change v key file) [
    | done t good key' e holds ↦ subst HasBounds (sym e) new
    | undone x bad key' e stays ↦ subst HasBounds (sym e) old
  ]

  Logged-HasBounds :
      (io : Io) (action : Text) (details : Details) (v : Vault V K) (secrets : List (Text × Text))
      {r : Result Error (Unit {0})} {v' : Vault V K}
      → Logged l io action details v secrets r v'
      → HasBounds v.contents
      → length secrets ≤ 128
      → All (λ p. bad_secret p.0 p.1 ≡ false) secrets
      → HasBounds v'.contents
  Logged-HasBounds io action details v secrets (noted at good now room e) b few fine =
      subst (λ (w : Vault V K). HasBounds w.contents) (sym e)
        (record {
          few = few;
          good = fine;
          short = omega (
            arith,
            room,
            length-append v.contents.audit (
                l.json (record {
                  sequence = length v.contents.audit + 1;
                  at = at;
                  action = action;
                  details = details;
                })
                ∷ []),
          );
        })
  Logged-HasBounds io action details v secrets (refused x bad e) b few fine =
      subst (λ (w : Vault V K). HasBounds w.contents) (sym e) b

  changed-HasBounds :
      (io : Io) (action : Text) (details : Details)
      (change : List (Text × Text) → List (Text × Text)) (v : Vault V K)
      → HasBounds v.contents
      → length (change v.contents.secrets) ≤ 128
      → All (λ p. bad_secret p.0 p.1 ≡ false) (change v.contents.secrets)
      → HasBounds (update l io (logged l io action details change) v).1.contents
  changed-HasBounds io action details change v b few fine =
      elim (changed-Updated l io action details change v) [
        | done t good key e holds ↦ subst HasBounds (sym e) (
            Logged-HasBounds io action details v (change v.contents.secrets)
              (logged-Logged l io action details change v) b few fine)
        | undone x bad key e stays ↦ subst HasBounds (sym e) b
      ]

  pub put-HasBounds :
      (io : Io) (name value : Text) (v : Vault V K)
      → HasBounds v.contents
      → HasBounds (put l io name value v).1.contents
  unfolding put
  put-HasBounds io name value v b = elim (Bool-cases (bad_secret name value)) [
    | inl bad ↦
        let stays : v ≡ (put l io name value v).1 = ground arith in
        subst (λ (w : Vault V K). HasBounds w.contents) stays b
    | inr fine ↦
        elim (Bool-cases
          (leb 128 (length v.contents.secrets) && not (has_key name v.contents.secrets))) [
            | inl full ↦
                let stays : v ≡ (put l io name value v).1 = ground arith in
                subst (λ (w : Vault V K). HasBounds w.contents) stays b
            | inr room ↦
                let change = insert name value in
                let goes : (update l io (logged l io (text "stored") (Details.secret name) change)
                      v).1
                    ≡ (put l io name value v).1 =
                  ground arith in
                subst (λ (w : Vault V K). HasBounds w.contents) goes
                  (changed-HasBounds io (text "stored") (Details.secret name) change v b
                    (length-insert-le name value v.contents.secrets 128 b.few
                      (λ absent. ground arith))
                    (insert-All (λ p. bad_secret p.0 p.1 ≡ false) name value v.contents.secrets fine
                      b.good))
          ]
  ]

  pub delete-HasBounds :
      (io : Io) (name : Text) (v : Vault V K)
      → HasBounds v.contents
      → HasBounds (delete l io name v).1.contents
  unfolding delete remove
  delete-HasBounds io name v b =
      changed-HasBounds io (text "deleted") (Details.secret name) (remove name) v b
        (omega (arith, b.few, length-keep_if-le (λ p. not (list_eq p.0 name)) v.contents.secrets))
        (remove-All (λ p. bad_secret p.0 p.1 ≡ false) name v.contents.secrets b.good)

  pub launched-HasBounds :
      (io : Io) (id : Text) (v : Vault V K)
      → HasBounds v.contents
      → HasBounds (launched l io id v).1.contents
  unfolding launched
  launched-HasBounds io id v b =
      let (key, file) = event_keeps l io (text "session_started") (Details.session id) v in
      update-keeps io (event l io (text "session_started") (Details.session id)) v key file b (
        Logged-HasBounds io (text "session_started") (Details.session id) v v.contents.secrets
          (event-Logged l io (text "session_started") (Details.session id) v) b b.few b.good)

  pub release-HasBounds :
      (io : Io) (executable : Executable) (names args : List Text) (v : Vault V K)
      → HasBounds v.contents
      → HasBounds (release l io executable names args v).1.contents
  release-HasBounds io executable names args v b =
      elim (release-Released l io executable names args v) [
        | withheld e bad same ↦ subst HasBounds (sym same) b
        | given values path content at found fits good now room same holds ↦
            subst HasBounds (sym same) (record {
              few = b.few;
              good = b.good;
              short = omega (
                arith,
                room,
                length-append v.contents.audit (
                    l.json (record {
                      sequence = length v.contents.audit + 1;
                      at = at;
                      action = release_action;
                      details = Details.released names path (l.sha256 content) (length args);
                    })
                    ∷ []),
              );
            })
      ]
