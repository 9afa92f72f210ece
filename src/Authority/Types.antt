-- ===== src/Authority/Types.antt =====
-- The data types of crates/authority/src/lib.rs, and what the crate takes from ring and serde_json: a
-- digest, signatures and the JSON texts of its own types, as the fields of one record.
use dot_terminal.Prelude.{ℕ, Bool, true, Option, List, Text, Bytes, ◌≡◌, some, length, ◌<◌}

-- Why a journal or an anchor was not believed, one constructor for each text.
pub data Reason : Type 0 where
  shorter_than_read truncated_header truncated_record unreadable_record broken_chain : Reason
  not_signed impossible_reservation no_pending_reservation diverges behind_anchor : Reason
  moves_backwards moves_sideways below_or_beside moves_back_or_sideways : Reason

pub data Error : Type 0 where
  denied spent not_pending journal_failure encoding : Error
  anchor_unavailable : Error
  tampered : Reason → Error

-- `[u8; 32]`
abbrev pub Digest : Type 0
Digest = Bytes

pub record Grant : Type 0 where
  pub version : ℕ
  pub id : Digest
  pub subject : Digest
  pub run : Digest
  pub audience : Text
  pub resource : Text
  pub action : Text
  pub not_before : ℕ
  pub expires : ℕ
  pub policy_epoch : ℕ
  pub max_uses : ℕ

pub record Request : Type 0 where
  pub version : ℕ
  pub grant_id : Digest
  pub run : Digest
  pub nonce : Digest
  pub audience : Text
  pub resource : Text
  pub action : Text
  pub body_sha256 : Digest

pub record Policy : Type 0 where
  pub owner_key : Digest
  pub audience : Text
  pub epoch : ℕ
  pub now : ℕ
  pub revoked : List Digest

pub record Verified : Type 0 where
  pub grant : Digest
  pub grant_hash : Digest
  pub nonce : Digest
  pub request_hash : Digest
  pub max_uses : ℕ

pub record Tip : Type 0 where
  pub seq : ℕ
  pub hash : Digest

pub data Event : Type 0 where
  reserve succeeded failed unknown : Event

pub record Line : Type 0 where
  pub seq : ℕ
  pub prev : Digest
  pub grant : Digest
  pub grant_hash : Digest
  pub nonce : Digest
  pub body : Digest
  pub event : Event
  pub max_uses : ℕ

pub record Record : Type 0 where
  pub line : Line
  pub sig : Bytes

pub record Permit : Type 0 where
  pub grant : Digest
  pub nonce : Digest
  pub request_hash : Digest

pub data Outcome : Type 0 where
  succeeded failed unknown : Outcome

-- ring and serde_json, with the node's key pair. `none` is an encoding error.
pub record Library : Type 0 where
  pub sha256 : Bytes → Digest
  -- key, message, signature
  pub verifies : Bytes → Bytes → Bytes → Bool
  pub public_key : Bytes
  pub sign : Bytes → Bytes
  pub grant_vec : Grant → Option Bytes
  pub request_vec : Request → Option Bytes
  pub line_vec : Line → Option Bytes
  pub record_vec : Record → Option Bytes
  pub record_slice : Bytes → Option Record

-- What the crates promise: a signature verifies under its key, and a JSON text reads back as the value
-- that it was made from. A record is a few hundred bytes long, so its length fits in four bytes.
pub record IsSound (l : Library) : Type 0 where
  pub signs : (m : Bytes) → l.verifies l.public_key m (l.sign m) ≡ true
  pub reads_back : (r : Record) (bs : Bytes) → l.record_vec r ≡ some bs → l.record_slice bs ≡ some r
  pub small : (r : Record) (bs : Bytes) → l.record_vec r ≡ some bs → length bs < 4294967296
