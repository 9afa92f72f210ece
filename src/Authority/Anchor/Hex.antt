-- ===== src/Authority/Anchor/Hex.antt =====
-- The hexadecimal text of a digest is read back.
use dot_terminal.Prelude.{
  ℕ, ◌*◌, ◌/◌, ◌%◌, ◌<◌, ◌≤◌, ◌≡◌, refl, arith, some, [], ◌∷◌, All, length, Bytes, utf8,
}
use dot_terminal.Node.Invitation.{hex_digit, hex_encode}
use dot_terminal.Authority.Types.{Digest}
use dot_terminal.Authority.Anchor.Command.{hex_value, byte_of, unhex_pairs, unhex32}

-- A `[u8; 32]`.
pub record IsDigest (h : Digest) : Type 0 where
  pub long : length h ≡ 32
  pub bytes : All (λ b. b < 256) h

hex_digit_bounds : (n : ℕ) → n < 16 → (48 ≤ hex_digit n) × (hex_digit n < 128)
unfolding hex_digit
hex_digit_bounds n h = ground arith

hex_value-hex_digit : (n : ℕ) → n < 16 → hex_value (hex_digit n) ≡ some n
unfolding hex_value hex_digit
hex_value-hex_digit n h = ground arith

byte_of-hex_digit : (b : ℕ) → b < 256 → byte_of (hex_digit (b / 16)) (hex_digit (b % 16)) ≡ some b
unfolding byte_of
byte_of-hex_digit b h =
    let high = hex_value-hex_digit (b / 16) (omega arith) in
    let low = hex_value-hex_digit (b % 16) (omega arith) in
    let far = hex_digit_bounds (b / 16) (omega arith) in ground arith

unhex_pairs-hex_encode :
    (h : Bytes) → All (λ b. b < 256) h → unhex_pairs (hex_encode h) ≡ some (some h)
unfolding unhex_pairs hex_encode
unhex_pairs-hex_encode [] a = refl
unhex_pairs-hex_encode (b ∷ bs) a =
    let whole = byte_of-hex_digit b a.0 in
    let high = hex_digit_bounds (b / 16) (omega (arith, a.0)) in
    let low = hex_digit_bounds (b % 16) (omega (arith, a.0)) in
    let ih = unhex_pairs-hex_encode bs a.1 in ground arith

length-utf8-hex_encode :
    (h : Bytes) → All (λ b. b < 256) h → length (utf8 (hex_encode h)) ≡ 2 * length h
unfolding hex_encode
length-utf8-hex_encode [] a = refl
length-utf8-hex_encode (b ∷ bs) a =
    let high = hex_digit_bounds (b / 16) (omega (arith, a.0)) in
    let low = hex_digit_bounds (b % 16) (omega (arith, a.0)) in
    let ih = length-utf8-hex_encode bs a.1 in ground arith

pub unhex32-hex_encode : (h : Digest) → IsDigest h → unhex32 (hex_encode h) ≡ some (some h)
unfolding unhex32
unhex32-hex_encode h d =
    let size = length-utf8-hex_encode h d.bytes in
    let read = unhex_pairs-hex_encode h d.bytes in
    let long : length (utf8 (hex_encode h)) ≡ 64 = omega (arith, size, d.long) in ground arith
