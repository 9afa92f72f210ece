-- ===== src/Node/Registry/Kept.antt =====
-- What the commands keep of the registry of enrolled peers: crates/node/src/main.rs.
use dot_terminal.Prelude.{
  All-append, ◌≤◌, ◌≡◌, arith, Bool, true, false, not, Option, List, [], ◌∷◌, ◌++◌, length, any,
  keep_if, All, Bytes, Text, list_eq_iff, ok, Option-cases, Bool-cases, inl, inr, length-append,
  length-keep_if-le, ◌<◌,
}
use dot_terminal.Node.{Peer}
use dot_terminal.Node.Registry.{Tls, PairArgs, paired, invited, valid_name, named, without}
use dot_terminal.Node.StateFile.{Identity, Codec, read_to_end}

abbrev pub IsPeer : Peer → Type 0
IsPeer p = (valid_name p.name ≡ true) × (length p.cert ≤ 8192)

-- No two peers have one name.
abbrev pub Distinct : List Peer → Type 0
Distinct [] = Unit
Distinct (p ∷ ps) = All (λ q. named p.name q ≡ false) ps × Distinct ps

pub record IsRegistry (peers : List Peer) : Type 0 where
  pub few : length peers ≤ 32
  pub distinct : Distinct peers
  pub peers_valid : All IsPeer peers

All-keep_if :
    (P : Peer → Type 0) (f : Peer → Bool) (ps : List Peer) → All P ps → All P (keep_if f ps)
All-keep_if P f [] a = tt
All-keep_if P f (p ∷ ps) a = elim (Bool-cases (f p)) [
  | inl e ↦ rw e (a.0, All-keep_if P f ps a.1)
  | inr e ↦ rw e (All-keep_if P f ps a.1)
]

Distinct-keep_if : (f : Peer → Bool) (ps : List Peer) → Distinct ps → Distinct (keep_if f ps)
Distinct-keep_if f [] d = tt
Distinct-keep_if f (p ∷ ps) d = elim (Bool-cases (f p)) [
  | inl e ↦ rw e (All-keep_if _ f ps d.0, Distinct-keep_if f ps d.1)
  | inr e ↦ rw e (Distinct-keep_if f ps d.1)
]

-- A peer at the end with a name that no other has.
Distinct-append :
    (ps : List Peer) (q : Peer)
    → All (λ p. named q.name p ≡ false) ps
    → Distinct ps
    → Distinct (ps ++ q ∷ [])
Distinct-append [] q a d = (tt, tt)
Distinct-append (p ∷ ps) q a d =
    let other : named p.name q ≡ false =
      ground (arith, list_eq_iff q.name p.name, list_eq_iff p.name q.name, a.0) in
    (All-append _ ps (q ∷ []) d.0 (other, tt), Distinct-append ps q a.1 d.1)

None-any : (f : Peer → Bool) (ps : List Peer) → any f ps ≡ false → All (λ p. f p ≡ false) ps
None-any f [] e = tt
None-any f (p ∷ ps) e = (ground arith, None-any f ps (ground arith))

None-without : (name : Text) (ps : List Peer) → All (λ p. named name p ≡ false) (without name ps)
None-without name [] = tt
None-without name (p ∷ ps) = elim (Bool-cases (named name p)) [
  | inl e ↦ rw e (None-without name ps)
  | inr e ↦ rw e (e, None-without name ps)
]

IsRegistry-append :
    (ps : List Peer) (q : Peer)
    → length ps < 32
    → All (λ p. named q.name p ≡ false) ps
    → IsPeer q
    → IsRegistry ps
    → IsRegistry (ps ++ q ∷ [])
IsRegistry-append ps q room new v r = record {
  few = omega (arith, length-append ps (q ∷ []), r.few);
  distinct = Distinct-append ps q new r.distinct;
  peers_valid = All-append _ ps (q ∷ []) r.peers_valid (v, tt);
}

pub IsRegistry-without :
    (name : Text) (ps : List Peer) → IsRegistry ps → IsRegistry (without name ps)
IsRegistry-without name ps r = record {
  few = omega (arith, length-keep_if-le (λ p. not (named name p)) ps, r.few);
  distinct = Distinct-keep_if (λ p. not (named name p)) ps r.distinct;
  peers_valid = All-keep_if _ (λ p. not (named name p)) ps r.peers_valid;
}

module _ (identities : Codec Identity) (registries : Codec (List Peer)) (tls : Tls) where
  pub paired-IsRegistry :
      (args : PairArgs) (cert : Option Bytes) (ps new : List Peer)
      → valid_name args.name ≡ true
      → paired identities registries tls args cert ps ≡ ok new
      → IsRegistry ps
      → IsRegistry new
  unfolding paired
  paired-IsRegistry args cert ps new v e r = elim (Option-cases cert) [
    | inl bad ↦ absurd (ground arith)
    | inr (content, there) ↦
        let q : Peer = record {
          name = args.name;
          cert = read_to_end 8193 content;
          terminal = args.terminal;
          workspace = args.workspace;
          clipboard_read = args.clipboard_read;
          clipboard_write = args.clipboard_write;
        } in
        let free : any (named args.name) ps ≡ false = ground arith in
        let same : new ≡ ps ++ q ∷ [] = ground arith in
        rw same (
          IsRegistry-append ps q (ground arith) (None-any (named args.name) ps free)
            (v, ground arith) r)
  ]

  pub invited-IsRegistry :
      (q : Peer) (ps new : List Peer)
      → IsPeer q
      → invited identities registries tls q ps ≡ ok new
      → IsRegistry ps
      → IsRegistry new
  unfolding invited
  invited-IsRegistry q ps new v e r =
      let same : new ≡ without q.name ps ++ q ∷ [] = ground arith in
      rw same (
        IsRegistry-append (without q.name ps) q (ground arith) (None-without q.name ps) v
          (IsRegistry-without q.name ps r))
