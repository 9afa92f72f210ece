-- ===== src/Node/Invitation.antt =====
-- crates/node/src/pairing.rs: an invitation, and the proof that a device gives of its key: the message
-- that it signs, `check_join` and `read_join`. SHA-256, webpki, base64 and JSON are parameters.
use dot_terminal.Prelude.{
  ℕ, zero, suc, ◌+◌, ◌/◌, ◌%◌, Bool, true, false, not, ◌&&◌, Option, none, some, List, [], ◌∷◌,
  ◌++◌, take, leb, ltb, if◌then◌else◌, Text, Bytes, text, utf8, list_eq, Result, ok, err,
}
use mathlib.Core.List.{reverse}
use dot_terminal.Protocol.{PairInvitation, PairJoin, validate_join}
use dot_terminal.Protocol.Framing.{from_be_bytes, read_exact}
use dot_terminal.Node.Registry.{valid_name}
use dot_terminal.Node.StateFile.{Codec, Identity, Io, load}
use dot_terminal.Node.StateFile as StateFile
use dot_terminal.Node.Workspace.{is_whitespace}

-- `Display` of an unsigned number: its decimal digits. The fuel is one more than the number.
unfoldable pub decimal_at : ℕ → ℕ → Bytes
decimal_at zero n = []
decimal_at (suc f) n =
    let rest = decimal_at f (n / 10) ++ (48 + n % 10) ∷ [] in
    if ltb n 10 then (48 + n) ∷ [] else rest

unfoldable pub decimal : ℕ → Bytes
unfolding decimal_at
decimal n = decimal_at (suc n) n

-- `Display` of `bool`.
unfoldable pub boolean : Bool → Bytes
boolean true = 116 ∷ 114 ∷ 117 ∷ 101 ∷ []
boolean false = 102 ∷ 97 ∷ 108 ∷ 115 ∷ 101 ∷ []

-- The fields, each with the NUL that follows it, and the rest.
unfoldable pub nul_ended : List Bytes → Bytes → Bytes
nul_ended [] rest = rest
nul_ended (f ∷ fs) rest = f ++ (0 ∷ nul_ended fs rest)

abbrev pub proof_fields : PairInvitation → List Bytes
proof_fields i =
    utf8 i.token
    ∷ utf8 i.host
    ∷ decimal i.port
    ∷ decimal i.service_port
    ∷ decimal i.expires_at
    ∷ boolean i.terminal
    ∷ boolean i.clipboard_read
    ∷ boolean i.clipboard_write
    ∷ []

-- `hex::encode`
unfoldable pub hex_digit : ℕ → ℕ
hex_digit n = if ltb n 10 then 48 + n else 87 + n

unfoldable pub hex_encode : Bytes → Text
unfolding hex_digit
hex_encode [] = []
hex_encode (b ∷ bs) = hex_digit (b / 16) ∷ hex_digit (b % 16) ∷ hex_encode bs

-- `trim_start`, and `trim`.
unfoldable pub trim_start : Text → Text
trim_start [] = []
trim_start (c ∷ cs) = let rest = trim_start cs in if is_whitespace c then rest else c ∷ cs

unfoldable pub trim : Text → Text
unfolding trim_start
trim t = reverse (trim_start (reverse (trim_start t)))

-- `end_entity`: whether webpki takes a certificate; `verify_signature`: whether the key of a
-- certificate made the signature of a message.
pub record Library : Type 0 where
  pub sha256 : Bytes → Bytes
  pub end_entity : Bytes → Bool
  pub verify_signature : Bytes → Bytes → Bytes → Bool
  pub base64 : Bytes → Text
  pub join_from_slice : Bytes → Option PairJoin

pub data Error : Type 0 where
  invalid_settings no_identity no_random no_listener no_clock invalid_invitation no_artifacts :
      Error
  no_config system frame_limit invalid_request truncated : Error
  invalid_join mismatch bad_certificate bad_signature not_approved expired : Error
  registry : StateFile.Error → Error

-- The options of `Invite` but the addresses of the files.
pub record Invite : Type 0 where
  pub host : Text
  pub service_port : ℕ
  pub name : Text
  pub ttl : ℕ
  pub terminal : Bool
  pub clipboard_read : Bool
  pub clipboard_write : Bool

unfoldable pub valid_settings : Invite → Bool
valid_settings args = leb 15 args.ttl && leb args.ttl 300 && valid_name args.name

-- The bytes of `DOT-PAIR-V1`.
abbrev pub proof_tag : Bytes
proof_tag = text "DOT-PAIR-V1"

module _ (l : Library) where
  unfoldable pub proof_message : PairInvitation → Bytes → Bytes
  proof_message i server_cert = nul_ended (proof_tag ∷ proof_fields i) (l.sha256 server_cert)

  -- The code that both sides show.
  unfoldable pub code_of : PairJoin → PairInvitation → Bytes → Text
  unfolding proof_message
  code_of join i server_cert =
      hex_encode (take 8 (l.sha256 (proof_message i server_cert ++ join.certificate)))

  unfoldable pub check_join : PairJoin → PairInvitation → Bytes → Result Error Text
  unfolding code_of
  check_join join i server_cert = elim (validate_join join) [
    | err e ↦ err invalid_join
    | ok u ↦
        if not (list_eq (utf8 join.token) (utf8 i.token))
        then err mismatch
        else if not (l.end_entity join.certificate)
        then err bad_certificate
        else if not
            (l.verify_signature join.certificate (proof_message i server_cert) join.signature)
        then err bad_signature
        else ok (code_of join i server_cert)
  ]

  -- The payload of a frame whose length is within the limit.
  unfoldable pub join_payload : ℕ → Bytes → Result Error PairJoin
  join_payload n r = elim (read_exact n r).0 [
    | err e ↦ err truncated
    | ok bytes ↦ elim (l.join_from_slice bytes) [ none ↦ err invalid_request | some j ↦ ok j ]
  ]

  unfoldable pub read_join : Bytes → Result Error PairJoin
  unfolding join_payload
  read_join r =
      let (got, rest) = read_exact 4 r in
      elim got [
        | err e ↦ err truncated
        | ok size ↦
            if ltb 49152 (from_be_bytes size)
            then err frame_limit
            else join_payload (from_be_bytes size) rest
      ]
