-- ===== src/Authority/Verify.antt =====
-- `verify` of crates/authority/src/lib.rs.
use dot_terminal.Prelude.{
  Bool, not, ◌&&◌, ◌||◌, Option, none, some, [], ◌∷◌, ◌++◌, any, all, is_empty, length, ltb, leb,
  ◌==◌, Text, Bytes, text, utf8, list_eq, is_control, Result, ok, err, ◌>>=◌, ◌>>◌, refuse_if,
}
use dot_terminal.Authority.Types.{
  Error, denied, encoding, Grant, Request, Policy, Verified, Library,
}

abbrev pub grant_domain : Bytes
grant_domain = text "DOT-AUTH-GRANT-ED25519-V1" ++ 0 ∷ []

abbrev pub request_domain : Bytes
request_domain = text "DOT-AUTH-REQUEST-ED25519-V1" ++ 0 ∷ []

unfoldable pub encode : Bytes → Option Bytes → Result Error Bytes
encode domain value = elim value [ none ↦ err encoding | some bs ↦ ok (domain ++ bs) ]

unfoldable pub valid_text : Text → Bool
valid_text s = not (is_empty s) && leb (length (utf8 s)) 256 && not (any is_control s)

module _ (l : Library) where
  unfoldable pub grant_message : Grant → Result Error Bytes
  unfolding encode
  grant_message g = encode grant_domain (l.grant_vec g)

  unfoldable pub request_message : Request → Result Error Bytes
  unfolding encode
  request_message r = encode request_domain (l.request_vec r)

  -- The condition of the first `if` of `verify`, a line of the source for each line.
  unfoldable pub is_refused : Grant → Request → Bytes → Policy → Bool
  is_refused g r body p =
      not (g.version == 1)
      || not (r.version == 1)
      || g.max_uses == 0
      || leb g.expires g.not_before
      || ltb p.now g.not_before
      || leb g.expires p.now
      || not (g.policy_epoch == p.epoch)
      || any (λ id. list_eq id g.id) p.revoked
      || not (list_eq g.audience p.audience)
      || not (list_eq r.audience g.audience)
      || not (list_eq r.resource g.resource)
      || not (list_eq r.action g.action)
      || not (list_eq r.run g.run)
      || not (list_eq r.grant_id g.id)
      || not (all valid_text (g.audience ∷ g.resource ∷ g.action ∷ []))
      || not (list_eq (l.sha256 body) r.body_sha256)

  unfoldable pub verify : Grant → Bytes → Request → Bytes → Bytes → Policy → Result Error Verified
  verify g owner_signature r subject_signature body p = do
    refuse_if (is_refused g r body p) denied
    grant_bytes ← grant_message g
    request_bytes ← request_message r
    refuse_if (not (l.verifies p.owner_key grant_bytes owner_signature)) denied
    refuse_if (not (l.verifies g.subject request_bytes subject_signature)) denied
    ok (record {
      grant = g.id;
      grant_hash = l.sha256 grant_bytes;
      nonce = r.nonce;
      request_hash = l.sha256 request_bytes;
      max_uses = g.max_uses;
    })
