-- ===== src/Desktop/Vault/Api.antt =====
-- `vault_api` of crates/desktop/src/main.rs: what the browser may ask of the vault, and the program
-- that is launched with the secrets it named.
use dot_terminal.Prelude.{
  Bool, false, not, ◌||◌, ◌&&◌, Option, none, some, List, [], ◌∷◌, ◌++◌, length, map, all, ltb,
  ◌==◌, if◌then◌else◌, Text, utf8, is_ascii_hexdigit, Result, ok, err,
}
use dot_terminal.Desktop.Vault.{
  Library, Vault, Io, Executable, Error, put, delete, release, launched,
}

pub data VaultRequest : Type 0 where
  list : VaultRequest
  -- name, value
  put_secret : Text → Text → VaultRequest
  delete_secret : Text → VaultRequest
  -- command, arguments, secrets
  run : Text → List Text → List Text → VaultRequest

-- The names of the secrets and the audit; or the session of the program.
pub data Reply (V : Type 0) : Type 0 where
  forbidden unavailable failed : Reply V
  listing : List Text → List V → Reply V
  started : Text → Reply V

-- A program with its arguments and what is added to its environment.
pub record Launch : Type 0 where
  pub command : Text
  pub args : List Text
  pub envs : List (Text × Text)

-- What the gateway has to do with the vault, and the programs it launched.
pub record Desk (V K : Type 0) : Type 0 where
  pub attach_only : Bool
  pub vault : Option (Vault V K)
  pub launches : List Launch

-- What the system does during a request. `output`: whether the program succeeded, and what it
-- printed, trimmed, if that is text; `none` if it did not run.
pub record Moment : Type 0 where
  pub locks : Bool
  pub releasing : Io
  pub launching : Io
  pub executable : Executable
  pub output : Option (Bool × Option Text)

-- `is_absolute`
abbrev pub is_absolute : Text → Bool
is_absolute [] = false
is_absolute (c ∷ cs) = c == 47

-- `session_path`
abbrev pub is_session : Text → Bool
is_session id = (length (utf8 id) == 32) && all is_ascii_hexdigit (utf8 id)

module _ {V K : Type 0} (l : Library V K) where
  -- The listing, or the failure.
  unfoldable pub listed : Result Error (Unit {0}) × Vault V K → Reply V × Vault V K
  listed (err e, v) = (failed, v)
  listed (ok u, v) = (listing (map (λ p. p.0) v.contents.secrets) v.contents.audit, v)

  -- After the program was launched.
  unfoldable pub record_session : Moment → Vault V K → Reply V × Vault V K
  record_session at v = elim at.output [
    | none ↦ (failed, v)
    | some (success, printed) ↦ if not success then (failed, v) else elim printed [
      | none ↦ (failed, v)
      | some id ↦
          if not (is_session id)
          then (failed, v)
          else let (result, v') = launched l at.launching id v in
            elim result [ err e ↦ (failed, v') | ok u ↦ (started id, v') ]
    ]
  ]

  -- The reply, the vault, and the program that was launched.
  unfoldable pub run_command :
      Moment → Text → List Text → List Text → Vault V K → (Reply V × Vault V K) × List Launch
  run_command at command args secrets v =
      if not (is_absolute command) || ltb 128 (length args)
      then ((failed, v), [])
      else let (result, v') = release l at.releasing at.executable secrets args v in
        elim result [
          | err e ↦ ((failed, v'), [])
          | ok envs ↦
              (record_session at v', record { command = command; args = args; envs = envs } ∷ [])
        ]

  unfoldable pub serve : Moment → VaultRequest → Vault V K → (Reply V × Vault V K) × List Launch
  serve at list v = (listed (ok tt, v), [])
  serve at (put_secret name value) v = (listed (put l at.releasing name value v), [])
  serve at (delete_secret name) v = (listed (delete l at.releasing name v), [])
  serve at (run command args secrets) v = run_command at command args secrets v

  unfoldable pub vault_api : Moment → Desk V K → VaultRequest → Reply V × Desk V K
  vault_api at desk request =
      if desk.attach_only
      then (forbidden, desk)
      else if not at.locks
      then (failed, desk)
      else elim desk.vault [
        | none ↦ (unavailable, desk)
        | some v ↦
            let ((reply, v'), launch) = serve at request v in
            (reply, record desk { vault = some v'; launches = desk.launches ++ launch })
      ]
