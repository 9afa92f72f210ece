-- ===== src/Desktop/Vault/Saved.antt =====
-- What a process finds that opens the file of a vault after an operation.
use dot_terminal.Prelude.{
  ◌+◌, ◌≤◌, ◌≡◌, sym, ap, ◌∙◌, Option, some, ◌++◌, length, take, drop, Bytes, ok, arith,
  length-append, take-append_length, drop-append_length,
}
use dot_terminal.Desktop.Vault.{Library, Contents, Stored, Io, max_file, private_file, load}
use dot_terminal.Desktop.Vault.Update.{Holds}

-- What the vault relies on: a key opens what it sealed, with a tag of fixed length more, and JSON is
-- read as it was written.
pub record Sound {V K : Type 0} (l : Library V K) (key : K) : Type 0 where
  pub opens :
      (nonce plain sealed : Bytes)
      → l.seal key nonce plain ≡ some sealed
      → l.open_in_place key nonce sealed ≡ some plain
  pub tagged :
      (nonce plain sealed : Bytes)
      → l.seal key nonce plain ≡ some sealed
      → length sealed ≡ length plain + l.tag_len
  pub parses :
      (c : Contents V) (plain : Bytes) → l.to_vec c ≡ some plain → l.from_slice plain ≡ some c

-- A nonce has 12 bytes.
abbrev pub HasNonce : Io → Type 0
HasNonce io = (nonce : Bytes) → io.nonce ≡ some nonce → length nonce ≡ 12

module _ {V K : Type 0} (l : Library V K) where
  split_nonce :
      (nonce sealed : Bytes)
      → length nonce ≡ 12
      → (take 12 (nonce ++ sealed) ≡ nonce) × (drop 12 (nonce ++ sealed) ≡ sealed)
  split_nonce nonce sealed e = (
    ap (λ n. take n (nonce ++ sealed)) (sym e) ∙ take-append_length nonce sealed,
    ap (λ n. drop n (nonce ++ sealed)) (sym e) ∙ drop-append_length nonce sealed,
  )

  load_private :
      (key : K) (bytes plain : Bytes) (c : Contents V)
      → 12 ≤ length bytes
      → length bytes ≤ max_file
      → l.open_in_place key (take 12 bytes) (drop 12 bytes) ≡ some plain
      → l.from_slice plain ≡ some c
      → load l key (some (private_file bytes)) ≡ ok c
  unfolding load
  load_private key bytes plain c long small opened parsed = ground arith

  -- Contents that were saved are what `open` reads.
  pub load-Holds :
      (io : Io) (key : K) (file : Option Stored) (c : Contents V)
      → Sound l key
      → HasNonce io
      → Holds l io key file c
      → load l key file ≡ ok c
  load-Holds io key file c sound twelve h =
      let size = length-append h.nonce h.encrypted in
      let tagged = sound.tagged h.nonce h.plain h.encrypted h.sealed in
      let (front, rest) = split_nonce h.nonce h.encrypted (twelve h.nonce h.fresh) in
      let opened = sound.opens h.nonce h.plain h.encrypted h.sealed in
      ap (load l key) h.there
      ∙ load_private key (h.nonce ++ h.encrypted) h.plain c
          (omega (arith, size, twelve h.nonce h.fresh))
          (omega (arith, size, tagged, h.small, twelve h.nonce h.fresh))
          (ap (λ n. l.open_in_place key n (drop 12 (h.nonce ++ h.encrypted))) front
            ∙ ap (l.open_in_place key h.nonce) rest
            ∙ opened)
          (sound.parses c h.plain h.encoded)
