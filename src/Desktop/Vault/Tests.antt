-- ===== src/Desktop/Vault/Tests.antt =====
-- The theorems about the vault at concrete inputs: a cipher that only marks what it sealed, and JSON of
-- one secret and a number of events.
use dot_terminal.Prelude.{
  ℕ, zero, suc, ◌≡◌, refl, ap, subst, true, false, Option, none, some, List, [], ◌∷◌, ◌++◌, length,
  take, drop, Text, Bytes, text, ok, arith, take-append_length, drop-append_length, list_eq,
  if◌then◌else◌,
}
use dot_terminal.Desktop.Table.{get, insert, place}
use dot_terminal.Desktop.Vault.{
  Library, Vault, Contents, Io, event, encrypt, save, replace_file, update, logged, put, load,
  Details, collect, release, disclosed,
}
use dot_terminal.Desktop.Vault.Update.{Updated, update-Updated}
use dot_terminal.Desktop.Vault.Saved.{Sound, HasNonce}
use dot_terminal.Desktop.Vault.Secrets.{put_saved}
use dot_terminal.Desktop.Vault.Api.{VaultRequest, Desk, Moment, vault_api, serve, run_command}
use dot_terminal.Desktop.Vault.Disclosure.{
  Served, vault_api-Served, DeskBounds, vault_api-DeskBounds,
}

abbrev Mark : Type 0
Mark = Unit {0}

abbrev events : ℕ → List Mark
events zero = []
events (suc n) = tt ∷ events n

abbrev to_vec : Contents Mark → Option Bytes
to_vec c = elim c.secrets [
  | [] ↦ none
  | p ∷ ps ↦ elim ps [ [] ↦ some (length c.audit ∷ length p.0 ∷ p.0 ++ p.1) | q ∷ qs ↦ none ]
]

abbrev from_slice : Bytes → Option (Contents Mark)
from_slice (n ∷ m ∷ rest) =
    some (record { secrets = (take m rest, drop m rest) ∷ []; audit = events n })
from_slice _ = none

abbrev unmark : Bytes → Option Bytes
unmark [] = none
unmark (b ∷ bs) = some bs

abbrev marks : Library Mark Bytes
marks = record {
  json = λ e. tt;
  to_vec = to_vec;
  from_slice = from_slice;
  new_key = λ bs. some bs;
  tag_len = 1;
  seal = λ key nonce bs. some (0 ∷ bs);
  open_in_place = λ key nonce bs. unmark bs;
  sha256 = λ bs. bs;
}

events-length : (xs : List Mark) → events (length xs) ≡ xs
events-length [] = refl
events-length (x ∷ xs) = ap (◌∷◌ tt) (events-length xs)

parsed :
    (k v : Text) (audit : List Mark)
    → from_slice (length audit ∷ length k ∷ k ++ v)
      ≡ some (record { secrets = (k, v) ∷ []; audit = audit })
parsed k v audit = rw (take-append_length k v, drop-append_length k v, events-length audit) refl

parses-entries :
    (secrets : List (Text × Text)) (audit : List Mark) (plain : Bytes)
    → to_vec (record { secrets = secrets; audit = audit }) ≡ some plain
    → from_slice plain ≡ some (record { secrets = secrets; audit = audit })
parses-entries [] audit plain e = absurd cc
parses-entries ((k, v) ∷ []) audit plain e =
    let same : length audit ∷ length k ∷ k ++ v ≡ plain = ground arith in
    subst (λ p. from_slice p ≡ some (record { secrets = (k, v) ∷ []; audit = audit })) same
      (parsed k v audit)
parses-entries (p ∷ q ∷ qs) audit plain e = absurd cc

marks-Sound : Sound marks (text "key")
marks-Sound = record {
  opens = λ nonce plain sealed e. ground arith;
  tagged = λ nonce plain sealed e. ground arith;
  parses = λ c plain e. parses-entries c.secrets c.audit plain e;
}

-- Everything works.
abbrev working : Io
working = record {
  clock = some 1700000000;
  nonce = some (1 ∷ 2 ∷ 3 ∷ 4 ∷ 5 ∷ 6 ∷ 7 ∷ 8 ∷ 9 ∷ 10 ∷ 11 ∷ 12 ∷ []);
  renames = true;
  syncs = true;
}

working-HasNonce : HasNonce working
working-HasNonce nonce e = ground arith

abbrev empty : Vault Mark Bytes
empty = record { key = text "key"; contents = record { secrets = []; audit = [] }; file = none }

-- It has one secret.
abbrev filled : Vault Mark Bytes
unfolding put update logged event save encrypt replace_file insert get place
filled = (put marks working (text "TOKEN") (text "x") empty).1

put_saved_example :
    (load marks filled.key filled.file ≡ ok filled.contents)
    × (length filled.contents.audit ≡ 1)
    × ((j : Text)
        → get j filled.contents.secrets
          ≡ (if list_eq (text "TOKEN") j then some (text "x") else get j []))
unfolding put update logged event save encrypt replace_file insert get place
put_saved_example =
    put_saved marks working (text "TOKEN") (text "x") empty marks-Sound working-HasNonce refl

update-Updated_example :
    Updated marks working empty
      (logged marks working (text "deleted") (Details.secret (text "A")) (λ m. m) empty).1.contents
      (update marks working
        (logged marks working (text "deleted") (Details.secret (text "A")) (λ m. m))
        empty).0
      (update marks working
        (logged marks working (text "deleted") (Details.secret (text "A")) (λ m. m))
        empty).1
unfolding logged event
update-Updated_example =
    update-Updated marks working
      (logged marks working (text "deleted") (Details.secret (text "A")) (λ m. m)) empty refl refl

abbrev owner : Desk Mark Bytes
owner = record { attach_only = false; vault = some filled; launches = [] }

abbrev runs : Moment
runs = record {
  locks = true;
  releasing = working;
  launching = working;
  executable = some (text "/bin/sh", 1 ∷ []);
  output = some (true, some (text "0123456789abcdef0123456789abcdef"));
}

abbrev to_run : VaultRequest
to_run = VaultRequest.run (text "/bin/sh") [] (text "TOKEN" ∷ [])

vault_api-Served_example : Served marks runs owner to_run (vault_api marks runs owner to_run).1
vault_api-Served_example = vault_api-Served marks runs owner to_run

-- The program gets the secret.
run_launches : length (vault_api marks runs owner to_run).1.launches ≡ 1
unfolding vault_api serve run_command release collect get insert disclosed update event save encrypt
    replace_file place filled
run_launches = refl

vault_api-DeskBounds_example : DeskBounds marks (vault_api marks runs owner to_run).1
unfolding DeskBounds put update logged event save encrypt replace_file insert get place filled
vault_api-DeskBounds_example =
    vault_api-DeskBounds marks runs owner to_run
      (record { few = omega arith; good = (refl, tt); short = omega arith })
