-- ===== src/Node.antt =====
-- `authorize` of crates/node/src/lib.rs: what an enrolled peer may ask of a node.
pub mod Workspace
pub mod Bridge
pub mod StateFile
pub mod Registry
pub mod Service
pub mod Invitation
pub mod Pairing
use dot_terminal.Prelude.{
  Bool, true, false, not, ◌&&◌, Text, Bytes, Result, ok, err, if◌then◌else◌, ◌≡◌, ◌≢◌, ◌↔◌, refl,
  arith, length, ltb, ◌≤◌, utf8,
}
use dot_terminal.Message.{Message}
use dot_terminal.Protocol.{
  Operation, ServiceRequest, terminal, clipboard_get, clipboard_set, identity, workspace,
  validate_service, validate, version, max_clipboard, stop,
}
use dot_terminal.Protocol.Accepted.{IsWithinLimits, validate_iff}

pub record Peer : Type 0 where
  pub name : Text
  pub cert : Bytes
  pub terminal : Bool
  pub workspace : Bool
  pub clipboard_read : Bool
  pub clipboard_write : Bool

pub data Refusal : Type 0 where
  invalid : Message → Refusal
  not_granted : Refusal

unfoldable pub is_stop : Operation → Bool
is_stop stop = true
is_stop _ = false

unfoldable pub granted : {Json : Type 0} → Peer → ServiceRequest Json → Bool
granted peer identity = true
granted peer (workspace path body) = peer.workspace
granted peer (terminal request) = peer.terminal && not (is_stop request.operation)
granted peer clipboard_get = peer.clipboard_read
granted peer (clipboard_set t) = peer.clipboard_write

unfoldable pub authorize : {Json : Type 0} → Peer → ServiceRequest Json → Result Refusal (Unit {0})
authorize peer request = elim (validate_service request) [
  | err e ↦ err (invalid e)
  | ok u ↦ if granted peer request then ok tt else err not_granted
]

-- What a peer may ask for, apart from the code: its grants, and the limits of the protocol.
abbrev pub MayAsk : {Json : Type 0} → Peer → ServiceRequest Json → Type 0
MayAsk peer identity = Unit {0}
MayAsk peer (workspace path body) = peer.workspace ≡ true
MayAsk peer (terminal request) =
    (peer.terminal ≡ true)
    × (request.operation ≢ stop)
    × (request.version ≡ version)
    × IsWithinLimits request.operation
MayAsk peer clipboard_get = peer.clipboard_read ≡ true
MayAsk peer (clipboard_set t) = (peer.clipboard_write ≡ true) × (length (utf8 t) ≤ max_clipboard)

is_stop_iff : (op : Operation) → (is_stop op ≡ false) ↔ (op ≢ stop)
unfolding is_stop
is_stop_iff stop = (λ e. cc, λ n. absurd (n refl))
is_stop_iff _ = (λ e. λ s. cc, λ n. refl)

-- A request is authorized exactly if the peer was granted its service, it is within the limits of
-- the protocol, and it does not stop a session.
pub authorize_iff :
    {Json : Type 0} (peer : Peer) (request : ServiceRequest Json)
    → (authorize peer request ≡ ok tt) ↔ MayAsk peer request
unfolding authorize granted validate_service
authorize_iff peer identity = (λ e. tt, λ m. refl)
authorize_iff peer (workspace path body) = (λ e. ground arith, λ m. ground arith)
authorize_iff peer clipboard_get = (λ e. ground arith, λ m. ground arith)
authorize_iff peer (clipboard_set t) = (λ e. ground arith, λ m. ground arith)
authorize_iff peer (terminal request) =
    let (fits, within) = validate_iff request in
    let (going, stopping) = is_stop_iff request.operation in
    (
      λ e. let (v, w) = fits (ground arith) in (ground arith, going (ground arith), v, w),
      λ (t, n, v, w). ground (arith, within (v, w), stopping n),
    )
