-- ===== src/Desktop/Vault/Disclosure.antt =====
-- What the browser gets from the vault by `vault_api` of crates/desktop/src/main.rs.
use dot_terminal.Prelude.{
  ◌≡◌, refl, sym, ap, subst, inl, inr, Bool, true, false, none, some, List, [], ◌++◌, Text, Result,
  ok, err, arith, Bool-cases, Option-cases,
}
use mathlib.Core.List.{append-nil}
use dot_terminal.Desktop.Vault
use dot_terminal.Desktop.Vault.{
  Library, Vault, Contents, Io, Event, Details, event, update, launched, release, release_action,
  put, delete, collect,
}
use dot_terminal.Desktop.Vault.Bounds.{HasBounds, put-HasBounds, delete-HasBounds}
use dot_terminal.Desktop.Vault.Api.{VaultRequest, Launch, Desk, Moment, listed, serve, vault_api}
use dot_terminal.Desktop.Vault.Launch.{Ran, run_command-Ran, run_command-HasBounds}

module _ {V K : Type 0} (l : Library V K) where
  -- Whether a request is a launch.
  abbrev pub asks_to_run : VaultRequest → Bool
  asks_to_run (VaultRequest.run command args names) = true
  asks_to_run VaultRequest.list = false
  asks_to_run (VaultRequest.put_secret name value) = false
  asks_to_run (VaultRequest.delete_secret name) = false

  listed_vault : (r : Result Vault.Error (Unit {0}) × Vault V K) → (listed l r).1 ≡ r.1
  unfolding listed
  listed_vault (ok u, v) = refl
  listed_vault (err e, v) = refl

  -- How a request of the browser ends.
  pub data Served (at : Moment) (desk : Desk V K) (request : VaultRequest) (desk' : Desk V K)
      : Type 0 where
    -- the vault is out of reach
    kept : desk' ≡ desk → Served at desk request desk'
    -- it is no launch, and no program is launched
    edited :
        (v v' : Vault V K)
        → desk.attach_only ≡ false
        → desk.vault ≡ some v
        → desk' ≡ record desk { vault = some v' }
        → asks_to_run request ≡ false
        → Served at desk request desk'
    ran :
        (command : Text) (args names : List Text) (v v' : Vault V K) (launches : List Launch)
        → desk.attach_only ≡ false
        → request ≡ VaultRequest.run command args names
        → desk.vault ≡ some v
        → desk' ≡ record desk { vault = some v'; launches = desk.launches ++ launches }
        → Ran l at command args names v v' launches
        → Served at desk request desk'

  no_launch :
      (desk : Desk V K) (v : Vault V K)
      → record desk { vault = some v; launches = desk.launches ++ [] }
        ≡ record desk { vault = some v }
  no_launch desk v =
      ap (λ xs. record desk { vault = some v; launches = xs }) (append-nil desk.launches)

  serve-Served :
      (at : Moment) (desk : Desk V K) (request : VaultRequest) (v : Vault V K)
      → desk.attach_only ≡ false
      → desk.vault ≡ some v
      → Served at desk request (record desk {
        vault = some (serve l at request v).0.1;
        launches = desk.launches ++ (serve l at request v).1;
      })
  unfolding serve listed
  serve-Served at desk VaultRequest.list v free there =
      edited v v free there (no_launch desk v) refl
  serve-Served at desk (VaultRequest.put_secret name value) v free there =
      edited v _ free there (no_launch desk (listed l (put l at.releasing name value v)).1) refl
  serve-Served at desk (VaultRequest.delete_secret name) v free there =
      edited v _ free there (no_launch desk (listed l (delete l at.releasing name v)).1) refl
  serve-Served at desk (VaultRequest.run command args names) v free there =
      ran command args names v _ _ free refl there refl (run_command-Ran l at command args names v)

  -- A request of the browser to the vault leaves the gateway as it was, or is no launch and
  -- launches no program, or is a launch that was asked for of a gateway that is not attach-only:
  -- then no program ran and the contents are as they were, or one ran with the secrets that it
  -- named and no others, on the vault that their release left, whose file had their disclosure with
  -- the executable and its digest; and after the recording of its session, which is all that
  -- followed, that event is still in the vault and in the file.
  pub vault_api-Served :
      (at : Moment) (desk : Desk V K) (request : VaultRequest)
      → Served at desk request (vault_api l at desk request).1
  unfolding vault_api
  vault_api-Served at desk request = elim (Bool-cases desk.attach_only) [
    | inl attached ↦ kept (ground arith)
    | inr free ↦ elim (Bool-cases at.locks) [
      | inr poisoned ↦ kept (ground arith)
      | inl locked ↦ elim (Option-cases desk.vault) [
        | inl closed ↦ kept (ground arith)
        | inr (v, there) ↦
            let same : record desk {
              vault = some (serve l at request v).0.1;
              launches = desk.launches ++ (serve l at request v).1;
            }
                ≡ (vault_api l at desk request).1 =
              ground arith in
            subst (Served at desk request) same (serve-Served at desk request v free there)
      ]
    ]
  ]

  serve-HasBounds :
      (at : Moment) (request : VaultRequest) (v : Vault V K)
      → HasBounds v.contents
      → HasBounds (serve l at request v).0.1.contents
  unfolding serve listed
  serve-HasBounds at VaultRequest.list v b = b
  serve-HasBounds at (VaultRequest.put_secret name value) v b =
      subst (λ (w : Vault V K). HasBounds w.contents) (sym (listed_vault _))
        (put-HasBounds l at.releasing name value v b)
  serve-HasBounds at (VaultRequest.delete_secret name) v b =
      subst (λ (w : Vault V K). HasBounds w.contents) (sym (listed_vault _))
        (delete-HasBounds l at.releasing name v b)
  serve-HasBounds at (VaultRequest.run command args names) v b =
      run_command-HasBounds l at command args names v b

  -- The vault of the gateway, if it has one, is within its bounds.
  unfoldable pub DeskBounds : Desk V K → Type 0
  DeskBounds desk = elim desk.vault [ none ↦ Unit {0} | some v ↦ HasBounds v.contents ]

  -- A request of the browser to a vault of at most 128 secrets, each with a name of 1 to 128
  -- letters, digits and underscores and a value of at most 65536 bytes, and at most 10000 events,
  -- leaves it within these bounds, whether the request succeeds or not.
  pub vault_api-DeskBounds :
      (at : Moment) (desk : Desk V K) (request : VaultRequest)
      → DeskBounds desk
      → DeskBounds (vault_api l at desk request).1
  unfolding vault_api DeskBounds
  vault_api-DeskBounds at desk request b =
      let ends : Desk V K → Type 0 = λ d. d ≡ (vault_api l at desk request).1 in
      elim (Bool-cases desk.attach_only) [
        | inl attached ↦ let same : ends desk = ground arith in subst DeskBounds same b
        | inr free ↦ elim (Bool-cases at.locks) [
          | inr poisoned ↦ let same : ends desk = ground arith in subst DeskBounds same b
          | inl locked ↦ elim (Option-cases desk.vault) [
            | inl closed ↦ let same : ends desk = ground arith in subst DeskBounds same b
            | inr (v, there) ↦
                let same : ends (record desk {
                  vault = some (serve l at request v).0.1;
                  launches = desk.launches ++ (serve l at request v).1;
                }) =
                  ground arith in
                subst DeskBounds same (
                  serve-HasBounds at request v (
                    subst (λ o. elim o [ none ↦ Unit {0} | some w ↦ HasBounds w.contents ]) there
                      b))
          ]
        ]
      ]
