-- ===== src/Desktop/Vault.antt =====
-- crates/desktop/src/vault.rs: the secrets and the audit of their disclosure, in memory and in one
-- encrypted file. The cipher, JSON and the digest are a `Library`; what the system does is `Io`.
pub mod Api
pub mod Update
pub mod Saved
pub mod Logged
pub mod Secrets
pub mod Release
pub mod Bounds
pub mod Launch
pub mod Disclosure
mod Tests
use dot_terminal.Prelude.{
  ℕ, ◌+◌, Bool, true, false, not, ◌||◌, ◌&&◌, Option, none, some, List, [], ◌∷◌, ◌++◌, length, take,
  drop, map, all, is_empty, ltb, leb, ◌==◌, if◌then◌else◌, Text, Bytes, text, utf8,
  is_ascii_alphanumeric, Result, ok, err, ◌>>=◌,
}
use dot_terminal.Desktop.Table.{get, insert, remove}

pub data Error : Type 0 where
  locked invalid_key unsafe_file damaged unauthenticated : Error
  audit_full storage_full invalid_secret full too_many not_found : Error
  no_randomness no_encryption system : Error

-- The `details` of an event.
pub data Details : Type 0 where
  opened_by_owner : Details
  secret session : Text → Details
  -- secrets, executable, its digest, the number of arguments
  released : List Text → Text → Bytes → ℕ → Details

-- What `event` records.
pub record Event : Type 0 where
  pub sequence : ℕ
  pub at : ℕ
  pub action : Text
  pub details : Details

-- `V` is `serde_json::Value`.
pub record Contents (V : Type 0) : Type 0 where
  pub secrets : List (Text × Text)
  pub audit : List V

-- A file with what `symlink_metadata` says of it.
pub record Stored : Type 0 where
  pub is_file : Bool
  pub owned : Bool
  pub shared : Bool
  pub content : Bytes

-- `V`: JSON values, `K`: keys of the cipher.
pub record Library (V K : Type 0) : Type 0 where
  pub json : Event → V
  pub to_vec : Contents V → Option Bytes
  pub from_slice : Bytes → Option (Contents V)
  pub new_key : Bytes → Option K
  pub tag_len : ℕ
  -- under a nonce
  pub seal : K → Bytes → Bytes → Option Bytes
  pub open_in_place : K → Bytes → Bytes → Option Bytes
  pub sha256 : Bytes → Bytes

pub record Vault (V K : Type 0) : Type 0 where
  pub key : K
  pub contents : Contents V
  -- the file at `path`
  pub file : Option Stored

-- The clock and the random nonce, if they are to be had; whether the temporary file is written and
-- renamed; whether the directory is synced after that.
pub record Io : Type 0 where
  pub clock : Option ℕ
  pub nonce : Option Bytes
  pub renames : Bool
  pub syncs : Bool

abbrev pub max_file : ℕ
max_file = 8388608

abbrev pub max_audit : ℕ
max_audit = 10000

-- A step of a vault, with its result.
abbrev pub Step : Type 0 → Type 0 → Type 0 → Type 0
Step V K T = Vault V K → Result Error T × Vault V K

-- `mode(0o600)`, by the process itself.
abbrev pub private_file : Bytes → Stored
private_file content = record { is_file = true; owned = true; shared = false; content = content }

-- The name and the value of a secret.
abbrev pub bad_secret : Text → Text → Bool
bad_secret name value =
    is_empty (utf8 name)
    || ltb 128 (length (utf8 name))
    || not (all (λ b. is_ascii_alphanumeric b || b == 95) (utf8 name))
    || ltb 65536 (length (utf8 value))

abbrev pub has_key : {V : Type 0} → Text → List (Text × V) → Bool
has_key k m = elim (get k m) [ some v ↦ true | none ↦ false ]

-- `values` of `release`.
unfoldable pub collect :
    List (Text × Text) → List Text → List (Text × Text) → Result Error (List (Text × Text))
collect secrets [] values = ok values
collect secrets (name ∷ names) values = elim (get name secrets) [
  | none ↦ err not_found
  | some value ↦ collect secrets names (insert name value values)
]

-- The executable and its content; `none` if there is no such file.
abbrev pub Executable : Type 0
Executable = Option (Text × Bytes)

abbrev pub release_action : Text
release_action = text "released_to_process_launch"

module _ {V K : Type 0} (l : Library V K) where
  unfoldable pub event : Io → Text → Details → Step V K (Unit {0})
  event io action details v =
      if leb max_audit (length v.contents.audit) then (err audit_full, v) else elim io.clock [
        | none ↦ (err system, v)
        | some at ↦
            let e : Event = record {
              sequence = length v.contents.audit + 1;
              at = at;
              action = action;
              details = details;
            } in
            (
              ok tt,
              record v {
                contents = record v.contents { audit = v.contents.audit ++ l.json e ∷ [] };
              },
            )
      ]

  -- The temporary file, its renaming and the syncing of the directory.
  unfoldable pub replace_file : Io → Bytes → Step V K (Unit {0})
  replace_file io bytes v =
      if not io.renames
      then (err system, v)
      else (if io.syncs then ok tt else err system, record v { file = some (private_file bytes) })

  -- The nonce and the encrypted contents.
  unfoldable pub encrypt : Io → K → Contents V → Result Error Bytes
  encrypt io key c = elim io.nonce [
    | none ↦ err no_randomness
    | some nonce ↦ elim (l.to_vec c) [
      | none ↦ err system
      | some plain ↦
          if ltb max_file (length plain + 12 + l.tag_len)
          then err storage_full
          else elim (l.seal key nonce plain) [
            | none ↦ err no_encryption
            | some encrypted ↦ ok (nonce ++ encrypted)
          ]
    ]
  ]

  unfoldable pub save : Io → Step V K (Unit {0})
  save io v = elim (encrypt io v.key v.contents) [
    | err e ↦ (err e, v)
    | ok bytes ↦ replace_file io bytes v
  ]

  -- `result`, and the contents as they were if it is an error.
  unfoldable pub update : {T : Type 0} → Io → Step V K T → Step V K T
  update io change v =
      let (result, v₁) = change v in
      elim result [
        | err e ↦ (err e, record v₁ { contents = v.contents })
        | ok value ↦
            let (saved, v₂) = save io v₁ in
            elim saved [
              | err e ↦ (err e, record v₂ { contents = v.contents })
              | ok u ↦ (ok value, v₂)
            ]
      ]

  -- `event`, and then a change of the secrets.
  unfoldable pub logged :
      Io → Text → Details → (List (Text × Text) → List (Text × Text)) → Step V K (Unit {0})
  logged io action details change v =
      let (result, v') = event io action details v in
      elim result [
        | err e ↦ (err e, v')
        | ok u ↦ (
          ok tt,
          record v' { contents = record v'.contents { secrets = change v'.contents.secrets } },
        )
      ]

  unfoldable pub put : Io → Text → Text → Step V K (Unit {0})
  put io name value v =
      if bad_secret name value
      then (err invalid_secret, v)
      else if leb 128 (length v.contents.secrets) && not (has_key name v.contents.secrets)
      then (err full, v)
      else update io (logged io (text "stored") (secret name) (insert name value)) v

  unfoldable pub delete : Io → Text → Step V K (Unit {0})
  delete io name v = update io (logged io (text "deleted") (secret name) (remove name)) v

  -- The event of a disclosure, and the values.
  unfoldable pub disclosed : Io → Details → List (Text × Text) → Step V K (List (Text × Text))
  disclosed io details values v =
      let (result, v') = event io release_action details v in
      elim result [ err e ↦ (err e, v') | ok u ↦ (ok values, v') ]

  unfoldable pub release : Io → Executable → List Text → List Text → Step V K (List (Text × Text))
  release io executable names args v =
      if ltb 128 (length names)
      then (err too_many, v)
      else elim (collect v.contents.secrets names []) [
        | err e ↦ (err e, v)
        | ok values ↦ elim executable [
          | none ↦ (err system, v)
          | some (path, content) ↦
              update io (disclosed io (released names path (l.sha256 content) (length args)) values)
                v
        ]
      ]

  unfoldable pub launched : Io → Text → Step V K (Unit {0})
  launched io id v = update io (event io (text "session_started") (session id)) v

  -- The contents that `open` finds, before it records that it opened them.
  unfoldable pub load : K → Option Stored → Result Error (Contents V)
  load key none = ok (record { secrets = []; audit = [] })
  load key (some m) =
      if not m.is_file || not m.owned || m.shared || ltb max_file (length m.content)
      then err unsafe_file
      else if ltb (length m.content) 12
      then err damaged
      else elim (l.open_in_place key (take 12 m.content) (drop 12 m.content)) [
        | none ↦ err unauthenticated
        | some plain ↦ elim (l.from_slice plain) [ none ↦ err system | some c ↦ ok c ]
      ]

  -- Whether the lock was taken, the key, and the file; the vault, if it opens, and the file after.
  unfoldable pub open_vault :
      Io → Bool → Bytes → Option Stored → Result Error (Vault V K) × Option Stored
  open_vault io free secret_key file =
      if not free then (err locked, file) else elim (l.new_key secret_key) [
        | none ↦ (err invalid_key, file)
        | some key ↦ elim (load key file) [
          | err e ↦ (err e, file)
          | ok c ↦
              let v : Vault V K = record { key = key; contents = c; file = file } in
              let (logged_it, v₁) = event io (text "opened") opened_by_owner v in
              elim logged_it [
                | err e ↦ (err e, v₁.file)
                | ok u ↦
                    let (saved, v₂) = save io v₁ in
                    (elim saved [ err e ↦ err e | ok u' ↦ ok v₂ ], v₂.file)
              ]
        ]
      ]
