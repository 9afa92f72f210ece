-- ===== src/Protocol/Accepted.antt =====
-- What `validate` lets through, described apart from the code.
use dot_terminal.Prelude.{
  ℕ, ◌≤◌, ◌<◌, ◌≡◌, ◌↔◌, ◌⊎◌, refl, and_true, ==_iff, true, none, [], ◌∷◌, arith, length, all, All,
  Text, Bytes, utf8, is_ascii_hexdigit, ok,
}
use dot_terminal.Protocol.{
  Operation, Request, accept_handoff, input, resize, validate, is_token, max_input, version,
  bad_operation,
}

-- A digit, or a letter from a to f in either case.
abbrev pub IsHexDigit : ℕ → Type 0
IsHexDigit b = ((48 ≤ b) × (b ≤ 57)) ⊎ (((97 ≤ b) × (b ≤ 102)) ⊎ ((65 ≤ b) × (b ≤ 70)))

abbrev pub IsToken : Text → Type 0
IsToken t = (length (utf8 t) ≡ 64) × All IsHexDigit (utf8 t)

abbrev pub IsWithinLimits : Operation → Type 0
IsWithinLimits (accept_handoff ticket) = IsToken ticket
IsWithinLimits (input g seq bs) = length bs ≤ max_input
IsWithinLimits (resize g cols rows) = (0 < cols) × (cols ≤ 240) × (0 < rows) × (rows ≤ 100)
IsWithinLimits _ = Unit {0}

is_ascii_hexdigit_iff : (b : ℕ) → (is_ascii_hexdigit b ≡ true) ↔ IsHexDigit b
is_ascii_hexdigit_iff b = (λ h. grind arith, λ h. ground arith)

all_hex_iff : (bs : Bytes) → (all is_ascii_hexdigit bs ≡ true) ↔ All IsHexDigit bs
all_hex_iff [] = ((λ h. tt), λ h. ground arith)
all_hex_iff (b ∷ bs) = (
  λ h. ((is_ascii_hexdigit_iff b).0 (ground arith), (all_hex_iff bs).0 (ground arith)),
  λ h. and_true _ _ ((is_ascii_hexdigit_iff b).1 h.0) ((all_hex_iff bs).1 h.1),
)

is_token_iff : (t : Text) → (is_token t ≡ true) ↔ IsToken t
unfolding is_token
is_token_iff t = (
  λ h. (ground arith, (all_hex_iff (utf8 t)).0 (ground arith)),
  λ h. and_true _ _ ((==_iff _ 64).1 h.0) ((all_hex_iff (utf8 t)).1 h.1),
)

bad_operation_iff : (op : Operation) → (bad_operation op ≡ none) ↔ IsWithinLimits op
unfolding bad_operation
bad_operation_iff (accept_handoff ticket) =
    (λ h. (is_token_iff ticket).0 (ground arith), λ h. let e = (is_token_iff ticket).1 h in rw e)
bad_operation_iff (input g seq bs) = (λ h. ground arith, λ h. ground arith)
bad_operation_iff (resize g cols rows) = (λ h. ground arith, λ h. ground arith)
bad_operation_iff _ = (λ h. tt, λ h. refl)

-- A request is let through exactly if it has the version of the protocol and its ticket is 64
-- hexadecimal digits, its input at most 16384 bytes, or its size from 1 to 240 columns and 1 to 100
-- rows.
pub validate_iff :
    (req : Request)
    → (validate req ≡ ok tt) ↔ ((req.version ≡ version) × IsWithinLimits req.operation)
unfolding validate
validate_iff req =
    let (fits, within) = bad_operation_iff req.operation in
    (λ h. (ground arith, fits (ground arith)), λ (same, limits). ground (arith, within limits))
