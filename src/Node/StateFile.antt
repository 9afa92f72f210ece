-- ===== src/Node/StateFile.antt =====
-- The state files of a node: `private`, `load` and `save` of crates/node/src/main.rs, with a file as what
-- `symlink_metadata` says of it. JSON is a parameter; what the system does is an `Io`.
use dot_terminal.Prelude.{
  ℕ, Bool, true, false, not, ◌||◌, ◌&&◌, Option, none, some, length, take, ltb, if◌then◌else◌, Text,
  Bytes, Result, ok, err,
}

pub data Error : Type 0 where
  not_private not_regular state_limit malformed : Error
  create_failed encode_failed sync_failed rename_failed locked : Error
  bad_name name_exists no_certificate certificate_limit peer_limit : Error
  no_peers bad_root no_verifier bad_identity no_key : Error
  name_of_other_key other_name : Error

pub data FileKind : Type 0 where
  regular directory symlink special : FileKind

-- A file with what `symlink_metadata` says of it.
pub record Stored : Type 0 where
  pub kind : FileKind
  pub owned : Bool
  pub shared : Bool
  pub content : Bytes

-- A path, and the path of its temporary file.
pub record Slot : Type 0 where
  pub file : Option Stored
  pub pending : Option Stored

pub record Identity : Type 0 where
  pub cert : Bytes
  pub key : Bytes
  pub node_id : Text

-- What serde_json makes of a type.
pub record Codec (T : Type 0) : Type 0 where
  pub to_vec : T → Option Bytes
  pub from_slice : Bytes → Option T

-- What the steps of `save` come to; `written` is what the temporary file holds if the writing fails.
pub record Io : Type 0 where
  pub creates : Bool
  pub writes : Bool
  pub written : Bytes
  pub syncs : Bool
  pub renames : Bool

unfoldable pub is_symlink : FileKind → Bool
is_symlink symlink = true
is_symlink _ = false

unfoldable pub is_dir : FileKind → Bool
is_dir directory = true
is_dir _ = false

unfoldable pub is_file : FileKind → Bool
is_file regular = true
is_file _ = false

-- `private`
unfoldable pub is_private : Bool → Stored → Bool
unfolding is_symlink is_dir
is_private wants_directory m =
    not (is_symlink m.kind || not m.owned || m.shared || (wants_directory && not (is_dir m.kind)))

abbrev pub max_state : ℕ
max_state = 1048576

-- `mode(0o600)`, by the process itself.
abbrev pub private_file : Bytes → Stored
private_file content = record { kind = regular; owned = true; shared = false; content = content }

-- `take(limit)` and `read_to_end`.
unfoldable pub read_to_end : ℕ → Bytes → Bytes
read_to_end limit content = take limit content

module _ {T : Type 0} (codec : Codec T) where
  unfoldable pub load : Slot → Result Error T
  unfolding is_private is_file
  load s = elim s.file [
    | none ↦ err not_private
    | some m ↦
        if not (is_private false m)
        then err not_private
        else if not (is_file m.kind)
        then err not_regular
        else if ltb max_state (length (read_to_end 1048577 m.content))
        then err state_limit
        else elim (codec.from_slice (read_to_end 1048577 m.content)) [
          | none ↦ err malformed
          | some t ↦ ok t
        ]
  ]

  -- After the temporary file was created.
  unfoldable pub replace : Io → T → Slot → Result Error (Unit {0}) × Slot
  replace io value s = elim (if io.writes then codec.to_vec value else none) [
    | none ↦ (err encode_failed, record s { pending = some (private_file io.written) })
    | some content ↦
        if not io.syncs
        then (err sync_failed, record s { pending = some (private_file content) })
        else if not io.renames
        then (err rename_failed, record s { pending = some (private_file content) })
        else (ok tt, record { file = some (private_file content); pending = none })
  ]

  -- `create_new` fails if the temporary file is there.
  unfoldable pub save : Io → T → Slot → Result Error (Unit {0}) × Slot
  unfolding replace
  save io value s = elim s.pending [
    | some old ↦ (err create_failed, s)
    | none ↦ if not io.creates then (err create_failed, s) else replace io value s
  ]
