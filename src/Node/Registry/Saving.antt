-- ===== src/Node/Registry/Saving.antt =====
-- What `save` leaves in a state file and beside it: crates/node/src/main.rs.
use dot_terminal.Prelude.{
  ℕ, zero, suc, length-take, ◌≤◌, ◌≡◌, refl, ap, arith, ltb, if◌then◌else◌, subst, ◌+◌, none, some,
  List, [], ◌∷◌, length, take, Bytes, Result, ok, err, Option-cases, Bool-cases, inl, inr,
}
use dot_terminal.Node.StateFile.{
  Error, create_failed, encode_failed, sync_failed, rename_failed, Stored, Slot, Codec, Io,
  max_state, private_file, read_to_end, load, replace, save,
}

take_all : {A : Type 0} (n : ℕ) (xs : List A) → length xs ≤ n → take n xs ≡ xs
take_all zero [] h = refl
take_all (suc n) [] h = refl
take_all zero (x ∷ xs) h = absurd (omega arith)
take_all (suc n) (x ∷ xs) h = ap (◌∷◌ x) (take_all n xs (omega arith))

pub read_to_end_all :
    (limit : ℕ) (content : Bytes) → length content ≤ limit → read_to_end limit content ≡ content
unfolding read_to_end
read_to_end_all limit content h = take_all limit content h

pub length-read_to_end : (limit : ℕ) (content : Bytes) → length (read_to_end limit content) ≤ limit
unfolding read_to_end
length-read_to_end limit content = omega (arith, length-take limit content)

cut :
    (limit : ℕ) (content : Bytes)
    → length (read_to_end (limit + 1) content) ≤ limit
    → length content ≤ limit + 1
unfolding read_to_end
cut limit content h = omega (arith, length-take (limit + 1) content)

-- How `save` ended: with the new value in the file and no temporary file; or with the file as it was,
-- and a temporary file if one was there or was created.
pub data Saved {T : Type 0} (codec : Codec T) (value : T) (s : Slot) (r : Result Error (Unit {0}))
    (s' : Slot) : Type 0 where
  stored :
      (content : Bytes)
      → codec.to_vec value ≡ some content
      → r ≡ ok tt
      → s' ≡ record { file = some (private_file content); pending = none }
      → s.pending ≡ none
      → Saved codec value s r s'
  uncreated : r ≡ err create_failed → s' ≡ s → Saved codec value s r s'
  left :
      (e : Error) (m : Stored)
      → r ≡ err e
      → s' ≡ record s { pending = some m }
      → s.pending ≡ none
      → Saved codec value s r s'

module _ {T : Type 0} (codec : Codec T) where
  replace_lem :
      (io : Io) (value : T) (s : Slot)
      → s.pending ≡ none
      → Saved codec value s (replace codec io value s).0 (replace codec io value s).1
  unfolding replace
  replace_lem io value s free =
      elim (Option-cases (if io.writes then codec.to_vec value else none)) [
        | inl bad ↦ left encode_failed (private_file io.written) (ground arith) (ground arith) free
        | inr (content, encoded) ↦ elim (Bool-cases io.syncs) [
          | inr off ↦ left sync_failed (private_file content) (ground arith) (ground arith) free
          | inl on ↦ elim (Bool-cases io.renames) [
            | inr off ↦ left rename_failed (private_file content) (ground arith) (ground arith) free
            | inl to ↦ stored content (ground arith) (ground arith) (ground arith) free
          ]
        ]
      ]

  pub save_lem :
      (io : Io) (value : T) (s : Slot)
      → Saved codec value s (save codec io value s).0 (save codec io value s).1
  unfolding save
  save_lem io value s = elim (Option-cases s.pending) [
    | inr (old, there) ↦ uncreated (ground arith) (ground arith)
    | inl free ↦ elim (Bool-cases io.creates) [
      | inr off ↦ uncreated (ground arith) (ground arith)
      | inl on ↦
          subst {A = Result Error (Unit {0}) × Slot} (λ p. Saved codec value s p.0 p.1)
            (ground arith) (replace_lem io value s free)
    ]
  ]

  -- What is in a private file is loaded, if it is within the limit.
  pub load_private :
      (content : Bytes) (value : T) (s : Slot)
      → s.file ≡ some (private_file content)
      → length content ≤ max_state
      → codec.from_slice content ≡ some value
      → load codec s ≡ ok value
  unfolding load
  load_private content value s e fits back =
      ground (arith, read_to_end_all 1048577 content (omega arith))

  -- A file that is loaded again after it was stored gives what was stored.
  pub load-stored :
      (content : Bytes) (value other : T) (s : Slot)
      → s.file ≡ some (private_file content)
      → codec.from_slice content ≡ some value
      → load codec s ≡ ok other
      → other ≡ value
  unfolding load
  load-stored content value other s e back h =
      elim (Bool-cases (ltb max_state (length (read_to_end 1048577 content)))) [
        | inl long ↦ absurd (ground arith)
        | inr fits ↦
            let whole = read_to_end_all 1048577 content (cut 1048576 content (ground arith)) in
            ground (arith, whole)
      ]

-- Only the file itself is read.
pub load-file :
    {T : Type 0} (codec : Codec T) (s s' : Slot) → s'.file ≡ s.file → load codec s' ≡ load codec s
unfolding load
load-file codec s s' e = rw e
