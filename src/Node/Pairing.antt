-- ===== src/Node/Pairing.antt =====
-- `run` of crates/node/src/pairing.rs: the loop that waits for a device, and the code that the owner
-- compares. rustls is a parameter; what arrives and what the owner types is a sequence of turns. The
-- files that show the QR code are left out.
pub mod Proof
pub mod Approved
pub mod Loop
pub mod Ends
mod Tests
use dot_terminal.Prelude.{
  ℕ, zero, suc, ◌+◌, ◌-◌, ◌*◌, ◌/◌, ◌%◌, ◌<◌, ◌≤◌, Bool, true, false, not, ◌&&◌, ◌||◌, Option, none,
  some, List, [], ◌∷◌, ◌++◌, length, take, leb, ltb, ◌==◌, if◌then◌else◌, Text, Bytes, text, utf8,
  list_eq, Result, ok, err, ok_or, ◌>>=◌,
}
use mathlib.Core.List.{reverse}
use dot_terminal.Protocol.{PairInvitation, PairJoin, validate_invitation, validate_join}
use dot_terminal.Protocol.Framing.{from_be_bytes, read_exact}
use dot_terminal.Node.{Peer}
use dot_terminal.Node.Registry.{Tls, Dir, valid_name, Command, accept_invited, command}
use dot_terminal.Node.StateFile.{Codec, Identity, Io, load}
use dot_terminal.Node.StateFile as StateFile
use dot_terminal.Node.Workspace.{is_whitespace}
use dot_terminal.Node.Invitation.{
  Error, Invite, Library, check_join, expired, hex_encode, invalid_invitation, invalid_settings,
  no_artifacts, no_clock, no_config, no_identity, no_listener, no_random, not_approved, read_join,
  registry, system, trim, valid_settings,
}

-- A device that connected: the clock after that, whether its connection and the output of the process
-- work, what it sends, the line that the owner typed before the deadline and whether it was read, and
-- what the system does from then on.
pub record Visit : Type 0 where
  pub arrived : ℕ
  pub opens : Bool
  pub sends : Bytes
  pub prints : Bool
  pub typed : Option (Bool × Text)
  pub decided : ℕ
  pub lock : Bool
  pub io : Io
  pub replies : Bool

pub data Arrival : Type 0 where
  would_block broken : Arrival
  connected : Visit → Arrival

-- A round of the loop: the clock at its test, and what `accept` gives.
pub record Turn : Type 0 where
  pub now : ℕ
  pub arrival : Arrival

-- What the loop works with.
pub record Pairing : Type 0 where
  pub args : Invite
  pub identity : Identity
  pub invitation : PairInvitation
  pub deadline : ℕ

-- How a round ends: the function returns, or the loop goes on, after an attempt or not.
pub data Round : Type 0 where
  ended : Result Error (Unit {0}) → Dir → Round
  wait retry : Round

-- The peer that is enrolled.
abbrev pub new_peer : Invite → PairJoin → Peer
new_peer args join = record {
  name = args.name;
  cert = join.certificate;
  terminal = args.terminal;
  workspace = false;
  clipboard_read = args.clipboard_read;
  clipboard_write = args.clipboard_write;
}

module _ (l : Library) (identities : Codec Identity) (registries : Codec (List Peer))
    (tls : Tls) where
  -- What follows the owner's decision.
  unfoldable pub finish : Pairing → Visit → PairJoin → Dir → Result Error (Unit {0}) × Dir
  finish p v join d =
      let (result, d') =
        command identities registries tls v.lock
          (accept_invited v.io p.identity (new_peer p.args join)) d in
      elim result [
        | err e ↦ (err (registry e), d')
        | ok u ↦ (if v.replies then ok tt else err system, d')
      ]

  unfoldable pub is_approved : Visit → Text → Bool
  is_approved v code = elim v.typed [
    | none ↦ false
    | some (read, line) ↦ read && list_eq (trim line) code
  ]

  unfoldable pub decide : Pairing → Visit → PairJoin → Text → Dir → Result Error (Unit {0}) × Dir
  unfolding is_approved
  decide p v join code d =
      if not v.prints
      then (err system, d)
      else if not (is_approved v code) || leb p.deadline v.decided
      then (err not_approved, d)
      else finish p v join d

  -- The join that a device sent, with the code for it.
  unfoldable pub examine : Pairing → Visit → Result Error (PairJoin × Text)
  examine p v = elim (read_join l v.sends) [
    | err e ↦ err e
    | ok join ↦ elim (check_join l join p.invitation p.identity.cert) [
      | err e ↦ err e
      | ok code ↦ ok (join, code)
    ]
  ]

  -- Whether the loop goes on.
  abbrev pub waits : Pairing → ℕ → Turn → Bool
  waits p attempts t = ltb t.now p.deadline && ltb attempts 16

  unfoldable pub round : Pairing → ℕ → Turn → Dir → Round
  round p attempts t d =
      if not (waits p attempts t) then ended (err expired) d else elim t.arrival [
        | would_block ↦ wait
        | broken ↦ ended (err system) d
        | connected v ↦
            if leb p.deadline v.arrived
            then ended (err expired) d
            else if not v.opens
            then ended (err system) d
            else elim (examine p v) [
              | err e ↦ retry
              | ok (join, code) ↦ let (result, d') = decide p v join code d in ended result d'
            ]
      ]

  -- The loop. There is no result yet if the turns end first.
  unfoldable pub await_join : Pairing → ℕ → List Turn → Dir → Option (Result Error (Unit {0})) × Dir
  await_join p attempts [] d = (none, d)
  await_join p attempts (t ∷ ts) d = elim (round p attempts t d) [
    | ended result d' ↦ (some result, d')
    | wait ↦ await_join p attempts ts d
    | retry ↦ await_join p (attempts + 1) ts d
  ]

  -- What the system gives at the start: 32 random bytes, the port that is listened on, the time of day
  -- and the clock, and whether the files of the invitation are written.
  pub record Start : Type 0 where
    pub random : Option Bytes
    pub port : Option ℕ
    pub seconds : Option ℕ
    pub clock : ℕ
    pub artifacts : Bool

  abbrev pub invitation_of : Invite → Identity → Bytes → ℕ → ℕ → PairInvitation
  invitation_of args identity token port seconds = record {
    version = 1;
    host = args.host;
    port = port;
    service_port = args.service_port;
    certificate = l.base64 identity.cert;
    token = hex_encode token;
    expires_at = seconds + args.ttl;
    terminal = args.terminal;
    clipboard_read = args.clipboard_read;
    clipboard_write = args.clipboard_write;
  }

  abbrev pub identity_of : Dir → Result Error Identity
  identity_of d = elim (load identities d.identity) [ err e ↦ err no_identity | ok i ↦ ok i ]

  -- What `run` does before its loop.
  unfoldable pub prepare : Invite → Start → Dir → Result Error Pairing
  prepare args at d = if not (valid_settings args) then err invalid_settings else do
    identity ← identity_of d
    token ← ok_or at.random no_random
    port ← ok_or at.port no_listener
    seconds ← ok_or at.seconds no_clock
    let invitation = invitation_of args identity token port seconds
    elim (validate_invitation invitation) [
      | err e ↦ err invalid_invitation
      | ok u ↦
          if not at.artifacts
          then err no_artifacts
          else if not (tls.single_cert identity.cert identity.key)
          then err no_config
          else ok (record {
            args = args;
            identity = identity;
            invitation = invitation;
            deadline = at.clock + args.ttl;
          })
    ]

  unfoldable pub run : Invite → Start → List Turn → Dir → Option (Result Error (Unit {0})) × Dir
  run args at turns d = elim (prepare args at d) [
    | err e ↦ (some (err e), d)
    | ok p ↦ await_join p 0 turns d
  ]
