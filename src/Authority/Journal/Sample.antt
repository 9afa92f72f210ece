-- ===== src/Authority/Journal/Sample.antt =====
-- A small library for the tests: a signature is the key that signs, all hashes are alike, and one record
-- has a JSON text.
use dot_terminal.Prelude.{
  sym, ap, ◌∙◌, ℕ, zero, suc, ◌≡◌, refl, Bool, true, ◌&&◌, [], ◌∷◌, Option, some, none, Bytes, text,
  arith, list_eq, list_eq_iff, ◌==◌, if◌then◌else◌,
}
use dot_terminal.Authority.Journal.Operations.{World}
use dot_terminal.Authority.Types.{
  Tip, Grant, Request, Policy, Event, Line, Record, Library, IsSound, Verified,
}
use dot_terminal.Authority.Journal.{zero_digest, blank}

abbrev pub key : Bytes
key = 7 ∷ []

abbrev pub v : Verified
v = record {
  grant = 1 ∷ [];
  grant_hash = 2 ∷ [];
  nonce = 3 ∷ [];
  request_hash = 2 ∷ [];
  max_uses = 5;
}

-- The record of the first reservation.
abbrev pub the_record : Record
the_record = record {
  line = record {
    seq = 1;
    prev = zero_digest;
    grant = 1 ∷ [];
    grant_hash = 2 ∷ [];
    nonce = 3 ∷ [];
    body = 2 ∷ [];
    event = Event.reserve;
    max_uses = 5;
  };
  sig = key;
}

unfoldable pub event_number : Event → ℕ
event_number Event.reserve = 0
event_number Event.succeeded = 1
event_number Event.failed = 2
event_number Event.unknown = 3

unfoldable pub event_at : ℕ → Event
event_at zero = Event.reserve
event_at (suc zero) = Event.succeeded
event_at (suc (suc zero)) = Event.failed
event_at (suc (suc (suc n))) = Event.unknown

event_at-event_number : (e : Event) → event_at (event_number e) ≡ e
unfolding event_at event_number
event_at-event_number Event.reserve = refl
event_at-event_number Event.succeeded = refl
event_at-event_number Event.failed = refl
event_at-event_number Event.unknown = refl

event_number-eq : (a b : Event) → event_number a ≡ event_number b → a ≡ b
event_number-eq a b e = sym (event_at-event_number a) ∙ ap event_at e ∙ event_at-event_number b

unfoldable pub same_line : Line → Line → Bool
same_line a b =
    a.seq == b.seq
    && list_eq a.prev b.prev
    && list_eq a.grant b.grant
    && list_eq a.grant_hash b.grant_hash
    && list_eq a.nonce b.nonce
    && list_eq a.body b.body
    && event_number a.event == event_number b.event
    && a.max_uses == b.max_uses

pub same_line-eq : (a b : Line) → same_line a b ≡ true → a ≡ b
unfolding same_line
same_line-eq a b e = ground (
  arith,
  list_eq_iff a.prev b.prev,
  list_eq_iff a.grant b.grant,
  list_eq_iff a.grant_hash b.grant_hash,
  list_eq_iff a.nonce b.nonce,
  list_eq_iff a.body b.body,
  event_number-eq a.event b.event,
)

unfoldable pub to_json : Record → Record → Option Bytes
unfolding same_line
to_json known r =
    if same_line r.line known.line && list_eq r.sig known.sig then some (9 ∷ []) else none

unfoldable pub from_json : Record → Bytes → Option Record
from_json known bs = if list_eq bs (9 ∷ []) then some known else none

-- The library whose only record is a given one.
abbrev pub library_of : Record → Library
library_of known = record {
  sha256 = λ m. 2 ∷ [];
  verifies = λ k m s. list_eq s k;
  public_key = key;
  sign = λ m. key;
  grant_vec = λ g. some (g.max_uses ∷ []);
  request_vec = λ r. some r.nonce;
  line_vec = λ line. some (line.seq ∷ []);
  record_vec = to_json known;
  record_slice = from_json known;
}

abbrev pub small_library : Library
small_library = library_of the_record

pub to_json-some :
    (known r : Record) (bs : Bytes) → to_json known r ≡ some bs → (r ≡ known) × (bs ≡ 9 ∷ [])
unfolding to_json
to_json-some known r bs e =
    let same = same_line-eq r.line known.line in
    (ground (arith, list_eq_iff r.sig known.sig, same), ground arith)

pub small_library-IsSound : IsSound small_library
unfolding from_json
small_library-IsSound = record {
  signs = λ m. refl;
  reads_back = λ r bs e. let (a, b) = to_json-some the_record r bs e in rw (a, b) refl;
  small = λ r bs e. let (a, b) = to_json-some the_record r bs e in rw b (omega arith);
}

-- A new journal.
abbrev pub start : World (Option Tip)
start = record { file = []; anchor = none; journal = blank }

abbrev pub grant : Grant
grant = record {
  version = 1;
  id = 1 ∷ [];
  subject = key;
  run = 6 ∷ [];
  audience = text "node";
  resource = text "shell";
  action = text "control";
  not_before = 0;
  expires = 100;
  policy_epoch = 1;
  max_uses = 5;
}

abbrev pub asked : Request
asked = record {
  version = 1;
  grant_id = 1 ∷ [];
  run = 6 ∷ [];
  nonce = 3 ∷ [];
  audience = text "node";
  resource = text "shell";
  action = text "control";
  body_sha256 = 2 ∷ [];
}

abbrev pub policy : Policy
policy = record { owner_key = key; audience = text "node"; epoch = 1; now = 50; revoked = [] }
