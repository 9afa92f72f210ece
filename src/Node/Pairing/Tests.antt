-- ===== src/Node/Pairing/Tests.antt =====
-- The theorems about an invitation at concrete inputs.
use dot_terminal.Prelude.{
  ℕ, zero, suc, ok, ◌≡◌, refl, arith, true, false, none, some, List, [], ◌∷◌, Bytes, Text, text,
  Result, inl, inr,
}
use dot_terminal.Protocol.Framing.{read_exact}
use dot_terminal.Protocol.{validate_join, PairInvitation, PairJoin, validate_invitation, is_token}
use dot_terminal.Node.{Peer}
use dot_terminal.Node.Registry.{store, enroll, invited, tls_config, command, valid_name}
use dot_terminal.Node.StateFile.{Codec, Identity, load, save, read_to_end}
use dot_terminal.Node.Registry.Sample.{phone, tls, works, dir}
use dot_terminal.Node.Pairing.{
  Visit, Turn, connected, would_block, Start, examine, decide, finish, round, await_join, prepare,
  run,
}
use dot_terminal.Node.Invitation.{
  Library, Error, Invite, proof_message, check_join, read_join, trim, hex_encode, code_of,
  valid_settings,
}
use dot_terminal.Node.Pairing.Proof.{SameOffer, proof_message-injective}
use dot_terminal.Node.Pairing.Ends.{run_ends}

abbrev zeros : Text
zeros = text "0000000000000000000000000000000000000000000000000000000000000000"

abbrev offer : PairInvitation
offer = record {
  version = 1;
  host = text "127.0.0.1";
  port = 17844;
  service_port = 17843;
  certificate = [];
  token = zeros;
  expires_at = 123;
  terminal = true;
  clipboard_read = false;
  clipboard_write = false;
}

abbrev join : PairJoin
join = record { version = 1; token = zeros; certificate = 9 ∷ []; signature = 3 ∷ [] }

abbrev library : Library
library = record {
  sha256 = λ bs. 1 ∷ 35 ∷ [];
  end_entity = λ c. true;
  verify_signature = λ c m s. true;
  base64 = λ bs. [];
  join_from_slice = λ bs. some join;
}

-- The certificate of the node in another encoding is no part of the proof message.
proof_message-injective_example :
    SameOffer library offer (record offer { certificate = text "AA==" }) (5 ∷ []) (5 ∷ [])
unfolding validate_invitation is_token proof_message
proof_message-injective_example =
    proof_message-injective library offer (record offer { certificate = text "AA==" }) (5 ∷ [])
      (5 ∷ []) refl refl refl

abbrev identity : Identity
identity = record { cert = 5 ∷ []; key = 6 ∷ []; node_id = [] }

abbrev identities : Codec Identity
identities = record { to_vec = λ i. none; from_slice = λ bs. some identity }

-- A codec that writes any registry.
abbrev registries : Codec (List Peer)
registries = record { to_vec = λ ps. some (1 ∷ []); from_slice = λ bs. some (phone ∷ []) }

abbrev args : Invite
args = record {
  host = text "127.0.0.1";
  service_port = 17843;
  name = text "tablet";
  ttl = 120;
  terminal = true;
  clipboard_read = false;
  clipboard_write = false;
}

abbrev replicate_zero : ℕ → Bytes
replicate_zero zero = []
replicate_zero (suc n) = 0 ∷ replicate_zero n

abbrev start : Start library identities registries tls
start = record {
  random = some (replicate_zero 32);
  port = some 17844;
  seconds = some 3;
  clock = 1000;
  artifacts = true;
}

abbrev visit : Visit
visit = record {
  arrived = 1010;
  opens = true;
  sends = 0 ∷ 0 ∷ 0 ∷ 0 ∷ [];
  prints = true;
  typed = some (true, text " 0123 ");
  decided = 1020;
  lock = true;
  io = works;
  replies = true;
}

abbrev turns : List Turn
turns =
    record { now = 1001; arrival = would_block }
    ∷ record { now = 1009; arrival = connected visit }
    ∷ record { now = 1120; arrival = would_block }
    ∷ []

-- The owner typed the code, with blanks around it.
typed_code : trim (text " 0123 ") ≡ code_of library join offer identity.cert
unfolding trim code_of hex_encode proof_message
typed_code = refl

-- The tablet is enrolled beside the phone.
enrolled : (run library identities registries tls args start turns dir).0 ≡ some (ok tt)
unfolding run prepare await_join round examine decide finish read_join read_exact check_join
    validate_join validate_invitation is_token proof_message code_of hex_encode trim command enroll
    invited tls_config store save load read_to_end valid_settings valid_name
enrolled = refl

run_ends_example :
    (result : Result Error (Unit {0})) × ((run library identities registries tls args start turns
        dir).0
      ≡ some result)
run_ends_example =
    run_ends library identities registries tls args start
      (record { now = 1120; arrival = would_block }) turns dir (inr (inr (inl refl))) (omega arith)
