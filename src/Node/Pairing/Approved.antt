-- ===== src/Node/Pairing/Approved.antt =====
-- What stands behind an enrolment by invitation: `check_join` and `run` of
-- crates/node/src/pairing.rs.
use dot_terminal.Prelude.{
  ◌<◌, ◌≤◌, ◌≡◌, true, ◌&&◌, some, List, [], ◌∷◌, length, leb, Text, Bytes, utf8, list_eq,
  list_eq_iff, ok, arith, In, Bool-cases, inl, inr, Option-cases, Result-cases, was_ok, was_err,
}
use dot_terminal.Protocol.{PairInvitation, PairJoin, validate_join}
use dot_terminal.Node.{Peer}
use dot_terminal.Node.Registry.{Tls, Dir, accept_invited, command}
use dot_terminal.Node.StateFile.{Codec, Identity}
use dot_terminal.Node.Pairing.{
  Visit, Turn, would_block, broken, connected, Pairing, new_peer, finish, is_approved, decide,
  examine,
}
use dot_terminal.Node.Invitation.{Library, proof_message, code_of, check_join, read_join, trim}

-- The devices that connected, in order.
abbrev pub visits : List Turn → List Visit
visits [] = []
visits (t ∷ ts) = elim t.arrival [
  | would_block ↦ visits ts
  | broken ↦ visits ts
  | connected v ↦ v ∷ visits ts
]

module _ (l : Library) where
  -- A join that was made for this invitation, with the key of the certificate that it brings.
  pub record IsProved (join : PairJoin) (i : PairInvitation) (server_cert : Bytes) : Type 0 where
    pub well_formed : validate_join join ≡ ok tt
    pub same_token : utf8 join.token ≡ utf8 i.token
    pub certified : l.end_entity join.certificate ≡ true
    pub signed :
        l.verify_signature join.certificate (proof_message l i server_cert) join.signature ≡ true

  pub check_join_ok :
      (join : PairJoin) (i : PairInvitation) (server_cert : Bytes) (code : Text)
      → check_join l join i server_cert ≡ ok code
      → IsProved join i server_cert × (code ≡ code_of l join i server_cert)
  unfolding check_join
  check_join_ok join i server_cert code e = elim (Result-cases (validate_join join)) [
    | was_err x bad ↦ absurd (ground arith)
    | was_ok u good ↦
        let same : list_eq (utf8 join.token) (utf8 i.token) ≡ true = ground arith in
        (
          record {
            well_formed = good;
            same_token = (list_eq_iff (utf8 join.token) (utf8 i.token)).0 same;
            certified = ground arith;
            signed = ground arith;
          },
          ground arith,
        )
  ]

  pub certificate_short :
      (join : PairJoin) → validate_join join ≡ ok tt → length join.certificate ≤ 8192
  unfolding validate_join
  certificate_short join e = ground arith

  module _ (identities : Codec Identity) (registries : Codec (List Peer)) (tls : Tls) where
    -- How the loop left the directory: as it was, or as the enrolment left it of a device that gave
    -- its proof within the attempts that were left, and that the owner approved in time.
    pub record IsApproved (p : Pairing) (vs : List Visit) (d d' : Dir) : Type 0 where
      pub visit : Visit
      pub join : PairJoin
      pub line : Text
      pub came : In visit vs
      pub sent : read_join l visit.sends ≡ ok join
      pub proved : IsProved join p.invitation p.identity.cert
      pub typed : visit.typed ≡ some (true, line)
      pub compared : trim line ≡ code_of l join p.invitation p.identity.cert
      pub in_time : visit.decided < p.deadline
      pub enrolled :
          d'
          ≡ (command identities registries tls visit.lock
              (accept_invited visit.io p.identity (new_peer p.args join))
              d).1

    pub data Left (p : Pairing) (vs : List Visit) (d d' : Dir) : Type 0 where
      unchanged : d' ≡ d → Left p vs d d'
      approved : IsApproved p vs d d' → Left p vs d d'

    finish-peers :
        (p : Pairing) (v : Visit) (join : PairJoin) (d : Dir)
        → (finish l identities registries tls p v join d).1
          ≡ (command identities registries tls v.lock
              (accept_invited v.io p.identity (new_peer p.args join))
              d).1
    unfolding finish
    finish-peers p v join d = ground arith

    pub decide-Left :
        (p : Pairing) (v : Visit) (vs : List Visit) (join : PairJoin) (code : Text) (d : Dir)
        → In v vs
        → examine l identities registries tls p v ≡ ok (join, code)
        → Left p vs d (decide l identities registries tls p v join code d).1
    unfolding decide is_approved examine
    decide-Left p v vs join code d came e = elim (Result-cases (read_join l v.sends)) [
      | was_err x bad ↦ absurd (ground arith)
      | was_ok j sent ↦ elim (Result-cases (check_join l j p.invitation p.identity.cert)) [
        | was_err x bad ↦ absurd (ground arith)
        | was_ok c checked ↦
            let same_join : j ≡ join = ground arith in
            let same_code : c ≡ code = ground arith in
            elim (Bool-cases v.prints) [
              | inr off ↦ unchanged (ground arith)
              | inl on ↦ elim (Option-cases v.typed) [
                | inl silent ↦ unchanged (ground arith)
                | inr ((was_read, line), typed) ↦
                    elim (Bool-cases (was_read && list_eq (trim line) code)) [
                      | inr other ↦ unchanged (ground arith)
                      | inl same ↦ elim (Bool-cases (leb p.deadline v.decided)) [
                        | inl late ↦ unchanged (ground arith)
                        | inr early ↦
                            let (proved, shown) =
                              check_join_ok j p.invitation p.identity.cert c checked in
                            approved (record {
                              visit = v;
                              join = join;
                              line = line;
                              came = came;
                              sent = rw (← same_join) sent;
                              proved = rw (← same_join) proved;
                              typed = ground arith;
                              compared = ground (arith, list_eq_iff (trim line) code);
                              in_time = ground arith;
                              enrolled = ground (arith, finish-peers p v join d);
                            })
                      ]
                    ]
              ]
            ]
      ]
    ]

    pub weaken :
        (p : Pairing) (vs ws : List Visit) (d d' : Dir)
        → ((v : Visit) → In v vs → In v ws)
        → Left p vs d d'
        → Left p ws d d'
    weaken p vs ws d d' more (unchanged same) = unchanged same
    weaken p vs ws d d' more (approved a) = approved (record {
      visit = a.visit;
      join = a.join;
      line = a.line;
      came = more a.visit a.came;
      sent = a.sent;
      proved = a.proved;
      typed = a.typed;
      compared = a.compared;
      in_time = a.in_time;
      enrolled = a.enrolled;
    })
