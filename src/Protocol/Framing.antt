-- ===== src/Protocol/Framing.antt =====
-- `read_message` and `write_message` of crates/protocol/src/lib.rs: a length in four bytes, and the
-- JSON text. serde_json is a parameter. A reader is the bytes that it will still give; a writer is
-- what was written to it.
use dot_terminal.Prelude.{
  ℕ, ◌+◌, ◌*◌, ◌/◌, ◌%◌, ◌≤◌, ◌<◌, ◌≡◌, refl, Option, none, some, [], ◌∷◌, ◌++◌, arith, length,
  take, drop, ltb, if◌then◌else◌, Bytes, Result, ok, err, take-append_length, drop-append_length,
  length-append, Option-cases, inl, inr, Bool-cases,
}
use dot_terminal.Protocol.{max_frame}

pub data IoError : Type 0 where
  unexpected_eof invalid_content invalid_input other : IoError

-- `u32::to_be_bytes` and `u32::from_be_bytes`.
abbrev pub to_be_bytes : ℕ → Bytes
to_be_bytes n = n / 16777216 % 256 ∷ n / 65536 % 256 ∷ n / 256 % 256 ∷ n % 256 ∷ []

abbrev pub from_be_bytes : Bytes → ℕ
from_be_bytes (a ∷ b ∷ c ∷ d ∷ []) = a * 16777216 + b * 65536 + c * 256 + d
from_be_bytes _ = 0

pub be_bytes_roundtrip : (n : ℕ) → n < 4294967296 → from_be_bytes (to_be_bytes n) ≡ n
be_bytes_roundtrip n h = omega arith

-- `read_exact`: the bytes and the rest, or the end came too early.
unfoldable pub read_exact : ℕ → Bytes → Result IoError Bytes × Bytes
read_exact n r = if ltb (length r) n then (err unexpected_eof, []) else (ok (take n r), drop n r)

pub read_exact-append :
    (bs rest : Bytes) (n : ℕ) → length bs ≡ n → read_exact n (bs ++ rest) ≡ (ok bs, rest)
unfolding read_exact
read_exact-append bs rest n e =
    rw (← e) (
      ground (arith, length-append bs rest, take-append_length bs rest, drop-append_length bs rest))

module _ {T : Type 0} (to_vec : T → Option Bytes) (from_slice : Bytes → Option T) where
  -- The payload, once its length is known to be in bounds.
  unfoldable pub read_payload : ℕ → Bytes → Result IoError T × Bytes
  read_payload len r =
      let (got, rest) = read_exact len r in
      elim got [
        | err e ↦ (err e, rest)
        | ok bytes ↦ elim (from_slice bytes) [
          | none ↦ (err invalid_content, rest)
          | some t ↦ (ok t, rest)
        ]
      ]

  unfoldable pub read_message : Bytes → Result IoError T × Bytes
  unfolding read_payload
  read_message r =
      let (got, rest) = read_exact 4 r in
      elim got [
        | err e ↦ (err e, rest)
        | ok size ↦
            if ltb max_frame (from_be_bytes size)
            then (err invalid_content, rest)
            else read_payload (from_be_bytes size) rest
      ]

  unfoldable pub write_message : Bytes → T → Result IoError (Unit {0}) × Bytes
  write_message w t = elim (to_vec t) [
    | none ↦ (err other, w)
    | some content ↦
        if ltb max_frame (length content)
        then (err invalid_input, w)
        else (ok tt, w ++ (to_be_bytes (length content) ++ content))
  ]

  read_message-framed :
      (t : T) (content rest : Bytes)
      → length content ≤ max_frame
      → from_slice content ≡ some t
      → read_message ((to_be_bytes (length content) ++ content) ++ rest) ≡ (ok t, rest)
  unfolding read_message
  read_message-framed t content rest b decodes =
      let size = to_be_bytes (length content) in
      let back = be_bytes_roundtrip (length content) (omega arith) in
      ground (
        arith,
        read_exact-append size (content ++ rest) 4 refl,
        read_exact-append content rest (length content) refl,
        back,
      )

  -- A message that was written is read back, with what follows it left over, if the decoder inverts
  -- the encoder on it.
  pub read-write_message :
      (t : T) (rest : Bytes)
      → (write_message [] t).0 ≡ ok tt
      → ((content : Bytes) → to_vec t ≡ some content → from_slice content ≡ some t)
      → read_message ((write_message [] t).1 ++ rest) ≡ (ok t, rest)
  unfolding write_message
  read-write_message t rest e decodes = elim (Option-cases (to_vec t)) [
    | inl bad ↦ absurd (ground arith)
    | inr (content, good) ↦ elim (Bool-cases (ltb max_frame (length content))) [
      | inl long ↦ absurd (ground arith)
      | inr fits ↦
          rw (good, write_message, fits)
            (read_message-framed t content rest (ground arith) (decodes content good))
    ]
  ]

  -- A writer that refuses has written nothing.
  pub write_message_refused :
      (w : Bytes) (t : T) {e : IoError} → (write_message w t).0 ≡ err e → (write_message w t).1 ≡ w
  unfolding write_message
  write_message_refused w t e = ground arith

  -- A message that announces more than 262144 bytes is refused with nothing read past the four bytes
  -- of its length.
  pub read_message_too_long :
      (a b c d : ℕ) (rest : Bytes)
      → max_frame < from_be_bytes (a ∷ b ∷ c ∷ d ∷ [])
      → read_message (a ∷ b ∷ c ∷ d ∷ rest) ≡ (err invalid_content, rest)
  unfolding read_message
  read_message_too_long a b c d rest h =
      ground (arith, read_exact-append (a ∷ b ∷ c ∷ d ∷ []) rest 4 refl)
