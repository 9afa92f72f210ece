-- ===== src/Desktop/Vault/Update.antt =====
-- What is in the file of a vault after an operation, and what a failed one leaves.
use dot_terminal.Prelude.{
  ◌+◌, ◌≤◌, ◌≡◌, sym, ap, ◌∙◌, ◌⊎◌, inl, inr, false, Option, some, ◌++◌, length, Bytes, Result, ok,
  err, arith, Bool-cases, Option-cases, Result-cases, was_ok, was_err,
}
use dot_terminal.Desktop.Vault.{
  Library, Vault, Contents, Stored, Io, Error, Step, max_file, private_file, encrypt, save,
  replace_file, update,
}

module _ {V K : Type 0} (l : Library V K) where
  -- The file has these contents, under the key and the nonce of an operation.
  pub record Holds (io : Io) (key : K) (file : Option Stored) (c : Contents V) : Type 0 where
    pub nonce : Bytes
    pub plain : Bytes
    pub encrypted : Bytes
    pub fresh : io.nonce ≡ some nonce
    pub encoded : l.to_vec c ≡ some plain
    pub small : length plain + 12 + l.tag_len ≤ max_file
    pub sealed : l.seal key nonce plain ≡ some encrypted
    pub there : file ≡ some (private_file (nonce ++ encrypted))

  -- How an operation ended: with the new contents, in memory and in the file; or with the old ones, in
  -- memory, and in the file unless it was the syncing of the directory that failed.
  pub data Updated {T : Type 0} (io : Io) (v : Vault V K) (new : Contents V) (r : Result Error T)
      (v' : Vault V K) : Type 0 where
    done :
        (t : T)
        → r ≡ ok t
        → v'.key ≡ v.key
        → v'.contents ≡ new
        → Holds io v.key v'.file new
        → Updated io v new r v'
    undone :
        (e : Error)
        → r ≡ err e
        → v'.key ≡ v.key
        → v'.contents ≡ v.contents
        → (v'.file ≡ v.file) ⊎ ((io.syncs ≡ false) × Holds io v.key v'.file new)
        → Updated io v new r v'

  encrypt_lem :
      (io : Io) (key : K) (c : Contents V) {bytes : Bytes} {file : Option Stored}
      → encrypt l io key c ≡ ok bytes
      → file ≡ some (private_file bytes)
      → Holds io key file c
  unfolding encrypt
  encrypt_lem io key c {bytes} e at = elim (Option-cases io.nonce) [
    | inl bad ↦ absurd (ground arith)
    | inr (nonce, random) ↦ elim (Option-cases (l.to_vec c)) [
      | inl bad ↦ absurd (ground arith)
      | inr (plain, encoded) ↦ elim (Option-cases (l.seal key nonce plain)) [
        | inl bad ↦ absurd (ground arith)
        | inr (encrypted, sealed) ↦
            let same : bytes ≡ nonce ++ encrypted = ground arith in
            record {
              nonce = nonce;
              plain = plain;
              encrypted = encrypted;
              fresh = random;
              encoded = encoded;
              small = ground arith;
              sealed = sealed;
              there = at ∙ ap (λ b. some (private_file b)) same;
            }
      ]
    ]
  ]

  -- An operation on the vault whose change keeps the key and the file either succeeds, with the new
  -- contents in memory and encrypted in the file, or fails with the contents in memory as they were,
  -- and with the file as it was unless only the syncing of the directory failed.
  pub update-Updated :
      {T : Type 0} (io : Io) (change : Step V K T) (v : Vault V K)
      → (change v).1.key ≡ v.key
      → (change v).1.file ≡ v.file
      → Updated io v (change v).1.contents (update l io change v).0 (update l io change v).1
  unfolding update save replace_file
  update-Updated io change v key file = elim (Result-cases (change v).0) [
    | was_err e bad ↦
        undone e (ground arith) (ground (arith, key)) (ground arith) (inl (ground (arith, file)))
    | was_ok t good ↦ elim (Result-cases (encrypt l io (change v).1.key (change v).1.contents)) [
      | was_err e bad ↦
          undone e (ground arith) (ground (arith, key)) (ground arith) (inl (ground (arith, file)))
      | was_ok bytes sealed ↦ elim (Bool-cases io.renames) [
        | inr stays ↦
            undone Error.system (ground arith) (ground (arith, key)) (ground arith)
              (inl (ground (arith, file)))
        | inl moved ↦
            let holds : Holds io v.key (update l io change v).1.file (change v).1.contents =
              encrypt_lem io v.key (change v).1.contents
                (ap (λ k. encrypt l io k (change v).1.contents) (sym key) ∙ sealed)
                (ground arith) in
            elim (Bool-cases io.syncs) [
              | inl synced ↦ done t (ground arith) (ground (arith, key)) (ground arith) holds
              | inr unsynced ↦
                  undone Error.system (ground arith) (ground (arith, key)) (ground arith)
                    (inr (unsynced, holds))
            ]
      ]
    ]
  ]

  -- What an operation returns is what its change returned.
  pub update_result :
      {T : Type 0} (io : Io) (change : Step V K T) (v : Vault V K) {t : T}
      → (update l io change v).0 ≡ ok t
      → (change v).0 ≡ ok t
  unfolding update
  update_result io change v e = elim (Result-cases (change v).0) [
    | was_err x bad ↦ absurd (ground (arith, bad, e))
    | was_ok u good ↦ elim (Result-cases (save l io (change v).1).0) [
      | was_err x bad ↦ absurd (ground (arith, bad, e))
      | was_ok w fine ↦ ground arith
    ]
  ]
