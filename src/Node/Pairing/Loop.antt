-- ===== src/Node/Pairing/Loop.antt =====
-- The loop of an invitation, and what it leaves: `run` of crates/node/src/pairing.rs.
use dot_terminal.Prelude.{ℕ, ◌+◌, ◌-◌, ◌<◌, ◌≡◌, some, true, List, ◌∷◌, take, Bytes, Result, ok}
use dot_terminal.Protocol.{validate_invitation}
use dot_terminal.Node.{Peer}
use dot_terminal.Node.Registry.{Tls, Dir, valid_name}
use dot_terminal.Node.StateFile.{Codec, Identity, load}
use dot_terminal.Node.Registry.Kept.{IsPeer}
use dot_terminal.Node.Pairing.{Visit, Turn, Pairing, Round, ended, wait, retry, new_peer, Start}
use dot_terminal.Node.Invitation.{Library, Error, Invite, hex_encode}
use dot_terminal.Node.Pairing.Approved.{visits, IsApproved, Left}

module _ (l : Library) (identities : Codec Identity) (registries : Codec (List Peer))
    (tls : Tls) where
  -- The devices that may still join, in order.
  abbrev may_join : ℕ → List Turn → List Visit
  may_join attempts ts = take (16 - attempts) (visits ts)

  -- How a round came out.
  data RoundLeft (p : Pairing) (attempts : ℕ) (t : Turn) (ts : List Turn) (d : Dir) (r : Round)
      : Type 0 where
    was_ended :
        (result : Result Error (Unit {0})) (d' : Dir)
        → r ≡ ended result d'
        → Left l identities registries tls p (may_join attempts (t ∷ ts)) d d'
        → RoundLeft p attempts t ts d r
    was_wait : r ≡ wait → visits (t ∷ ts) ≡ visits ts → RoundLeft p attempts t ts d r
    was_retry :
        (v : Visit)
        → r ≡ retry
        → attempts < 16
        → visits (t ∷ ts) ≡ v ∷ visits ts
        → RoundLeft p attempts t ts d r

  -- What a pairing is, of the options that it was made with: the identity is the node's own, the
  -- deadline is that of the options, and the invitation has a token of the bytes drawn at random.
  pub record IsOffer (args : Invite) (at : Start l identities registries tls) (d : Dir)
      (p : Pairing) : Type 0 where
    pub options : p.args ≡ args
    pub own : load identities d.identity ≡ ok p.identity
    pub until : p.deadline ≡ at.clock + args.ttl
    pub random : Bytes
    pub drawn : at.random ≡ some random
    pub token : p.invitation.token ≡ hex_encode random
    pub certificate : p.invitation.certificate ≡ l.base64 p.identity.cert
    pub valid : validate_invitation p.invitation ≡ ok tt
    pub terminal : p.invitation.terminal ≡ args.terminal
    pub clipboard_read : p.invitation.clipboard_read ≡ args.clipboard_read
    pub clipboard_write : p.invitation.clipboard_write ≡ args.clipboard_write
    pub named : valid_name args.name ≡ true

  -- How the directory is after an invitation: as it was, or as the enrolment of an approved peer left it.
  pub data Invited (args : Invite) (at : Start l identities registries tls) (turns : List Turn)
      (d d' : Dir) : Type 0 where
    as_it_was : d' ≡ d → Invited args at turns d d'
    enrolled_one :
        (p : Pairing) (a : IsApproved l identities registries tls p (take 16 (visits turns)) d d')
        → IsOffer args at d p
        → IsPeer (new_peer p.args a.join)
        → Invited args at turns d d'
