-- ===== src/Node/Pairing/Proof.antt =====
-- The proof message of a pairing fixes every field of the invitation that it is made for:
-- `proof_message` of crates/node/src/pairing.rs.
use dot_terminal.Prelude.{
  ℕ, zero, suc, ◌+◌, ◌-◌, ◌*◌, ◌/◌, ◌%◌, ◌<◌, ◌≡◌, ◌≢◌, refl, sym, ap, ◌∙◌, Bool, true, false, ◌||◌,
  List, [], ◌∷◌, ◌++◌, length, ltb, ◌==◌, Bytes, utf8, ok, arith, All, all, any, is_ascii_hexdigit,
  is_ascii_alphanumeric, Bool-cases, inl, inr,
}
use dot_terminal.Protocol.{PairInvitation, validate_invitation, is_token}
use dot_terminal.Node.Invitation.{
  Library, decimal, decimal_at, boolean, nul_ended, proof_fields, proof_message, proof_tag,
}

abbrev NoNul : Bytes → Type 0
NoNul bs = All (λ b. b ≢ 0) bs

NoNul-append : (xs ys : Bytes) → NoNul xs → NoNul ys → NoNul (xs ++ ys)
NoNul-append [] ys a b = b
NoNul-append (x ∷ xs) ys a b = (a.0, NoNul-append xs ys a.1 b)

-- The number that decimal digits stand for.
number : ℕ → Bytes → ℕ
number acc [] = acc
number acc (d ∷ ds) = number (acc * 10 + d - 48) ds

number-append :
    (acc : ℕ) (xs : Bytes) (d : ℕ) → number acc (xs ++ d ∷ []) ≡ number acc xs * 10 + d - 48
unfolding number
number-append acc [] d = refl
number-append acc (x ∷ xs) d = number-append (acc * 10 + x - 48) xs d

number-decimal_at : (f n : ℕ) → n < f → number 0 (decimal_at f n) ≡ n
unfolding decimal_at
number-decimal_at zero n h = absurd (omega arith)
number-decimal_at (suc f) n h = elim (Bool-cases (ltb n 10)) [
  | inl small ↦ rw small (unfold number in omega arith)
  | inr large ↦ rw large (
      number-append 0 (decimal_at f (n / 10)) (48 + n % 10)
      ∙ (let ih = number-decimal_at f (n / 10) (ground arith) in rw ih (omega arith)))
]

decimal_at-NoNul : (f n : ℕ) → NoNul (decimal_at f n)
unfolding decimal_at
decimal_at-NoNul zero n = tt
decimal_at-NoNul (suc f) n = elim (Bool-cases (ltb n 10)) [
  | inl small ↦ rw small (omega arith, tt)
  | inr large ↦ rw large (
      NoNul-append (decimal_at f (n / 10)) ((48 + n % 10) ∷ []) (decimal_at-NoNul f (n / 10))
        (omega arith, tt))
]

pub decimal-injective : (m n : ℕ) → decimal m ≡ decimal n → m ≡ n
unfolding decimal
decimal-injective m n e =
    sym (number-decimal_at (suc m) m (omega arith))
    ∙ ap (number 0) e
    ∙ number-decimal_at (suc n) n (omega arith)

decimal-NoNul : (n : ℕ) → NoNul (decimal n)
unfolding decimal
decimal-NoNul n = decimal_at-NoNul (suc n) n

boolean-injective : (a b : Bool) → boolean a ≡ boolean b → a ≡ b
unfolding boolean
boolean-injective a b e = ground arith

boolean-NoNul : (b : Bool) → NoNul (boolean b)
unfolding boolean
boolean-NoNul true = omega arith
boolean-NoNul false = omega arith

-- A field ends at the first NUL.
cut_at_nul :
    (xs ys us ws : Bytes)
    → NoNul xs
    → NoNul ys
    → xs ++ (0 ∷ us) ≡ ys ++ (0 ∷ ws)
    → (xs ≡ ys) × (us ≡ ws)
cut_at_nul [] [] us ws p q e = (refl, cc)
cut_at_nul [] (y ∷ ys) us ws p q e = absurd (q.0 cc)
cut_at_nul (x ∷ xs) [] us ws p q e = absurd (p.0 cc)
cut_at_nul (x ∷ xs) (y ∷ ys) us ws p q e =
    let (same, rest) = cut_at_nul xs ys us ws p.1 q.1 cc in (cc, rest)

nul_ended-injective :
    (fs gs : List Bytes) (us ws : Bytes)
    → length fs ≡ length gs
    → All NoNul fs
    → All NoNul gs
    → nul_ended fs us ≡ nul_ended gs ws
    → (fs ≡ gs) × (us ≡ ws)
unfolding nul_ended
nul_ended-injective [] [] us ws n p q e = (refl, e)
nul_ended-injective [] (g ∷ gs) us ws n p q e = absurd (omega arith)
nul_ended-injective (f ∷ fs) [] us ws n p q e = absurd (omega arith)
nul_ended-injective (f ∷ fs) (g ∷ gs) us ws n p q e =
    let (same, rest) = cut_at_nul f g (nul_ended fs us) (nul_ended gs ws) p.0 q.0 e in
    let (sames, end) = nul_ended-injective fs gs us ws (omega arith) p.1 q.1 rest in (cc, end)

hex-NoNul : (bs : Bytes) → all is_ascii_hexdigit bs ≡ true → NoNul bs
hex-NoNul [] e = tt
hex-NoNul (b ∷ bs) e = (λ z. ground arith, hex-NoNul bs (ground arith))

host-NoNul :
    (bs : Bytes)
    → all (λ b. is_ascii_alphanumeric b || any (◌==◌ b) (46 ∷ 45 ∷ 58 ∷ [])) bs ≡ true
    → NoNul bs
host-NoNul [] e = tt
host-NoNul (b ∷ bs) e = (λ z. ground arith, host-NoNul bs (ground arith))

grants_NoNul :
    (i : PairInvitation)
    → All NoNul (boolean i.terminal ∷ boolean i.clipboard_read ∷ boolean i.clipboard_write ∷ [])
grants_NoNul i = (
  boolean-NoNul i.terminal,
  (boolean-NoNul i.clipboard_read, (boolean-NoNul i.clipboard_write, tt)),
)

invitation-NoNul :
    (i : PairInvitation) → validate_invitation i ≡ ok tt → All NoNul (proof_tag ∷ proof_fields i)
unfolding validate_invitation is_token
invitation-NoNul i e =
    let token = hex-NoNul (utf8 i.token) (ground arith) in
    let host = host-NoNul (utf8 i.host) (ground arith) in
    let grants = grants_NoNul i in
    (
      omega arith,
      (
        token,
        (
          host,
          (
            decimal-NoNul i.port,
            (decimal-NoNul i.service_port, (decimal-NoNul i.expires_at, grants)),
          ),
        ),
      ),
    )

-- What two invitations have in common if they have one proof message.
pub record SameOffer (l : Library) (i j : PairInvitation) (cert cert' : Bytes) : Type 0 where
  pub token : utf8 i.token ≡ utf8 j.token
  pub host : utf8 i.host ≡ utf8 j.host
  pub port : i.port ≡ j.port
  pub service_port : i.service_port ≡ j.service_port
  pub expires_at : i.expires_at ≡ j.expires_at
  pub terminal : i.terminal ≡ j.terminal
  pub clipboard_read : i.clipboard_read ≡ j.clipboard_read
  pub clipboard_write : i.clipboard_write ≡ j.clipboard_write
  pub server : l.sha256 cert ≡ l.sha256 cert'

-- Two valid invitations with one proof message are of one token, host, ports, time and grants, and of
-- server certificates with one digest.
pub proof_message-injective :
    (l : Library) (i j : PairInvitation) (cert cert' : Bytes)
    → validate_invitation i ≡ ok tt
    → validate_invitation j ≡ ok tt
    → proof_message l i cert ≡ proof_message l j cert'
    → SameOffer l i j cert cert'
unfolding proof_message
proof_message-injective l i j cert cert' v w e =
    let (fields, server) =
      nul_ended-injective (proof_tag ∷ proof_fields i) (proof_tag ∷ proof_fields j) (l.sha256 cert)
        (l.sha256 cert') refl (invitation-NoNul i v) (invitation-NoNul j w) e in
    record {
      token = cc;
      host = cc;
      port = decimal-injective i.port j.port cc;
      service_port = decimal-injective i.service_port j.service_port cc;
      expires_at = decimal-injective i.expires_at j.expires_at cc;
      terminal = boolean-injective i.terminal j.terminal cc;
      clipboard_read = boolean-injective i.clipboard_read j.clipboard_read cc;
      clipboard_write = boolean-injective i.clipboard_write j.clipboard_write cc;
      server = server;
    }
