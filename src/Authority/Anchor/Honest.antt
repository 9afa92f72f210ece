-- ===== src/Authority/Anchor/Honest.antt =====
-- A `CommandAnchor` of crates/authority/src/lib.rs over a program that keeps its documented contract is a
-- `MemoryAnchor` that may be unavailable.
use dot_terminal.Prelude.{
  ◌≡◌, inl, inr, refl, arith, true, false, ltb, All, Option, none, some, List, [], ◌∷◌, Text, Bytes,
  text, list_eq_iff, list_eq_refl, ok, err, Bool-cases, Option-cases,
}
use dot_terminal.Authority.Types.{
  Error, anchor_unavailable, tampered, moves_backwards, moves_sideways, moves_back_or_sideways, Tip,
}
use dot_terminal.Authority.Anchor.{
  Answer, null, fields, contradicts, command_tip, command_advance, memory_advance,
}
use dot_terminal.Authority.Anchor.Command.{
  Values, Program, answer_of, ask_tip, advance_args, put_tip,
}
use dot_terminal.Authority.Anchor.Hex.{IsDigest, unhex32-hex_encode}
use dot_terminal.Authority.Anchor.Contract.{
  Call, get, put, Said, told, taken, refused, Seen, Serves, gets, puts, refuses, lacks, loses, Runs,
  ends, next, IsCall, call, calls, Prints, IsHonest,
}

memory_advance_ok_if :
    (m : Option Tip) (t : Tip) → contradicts m t ≡ false → memory_advance m t ≡ (ok tt, some t)
unfolding memory_advance contradicts
memory_advance_ok_if none t e = refl
memory_advance_ok_if (some old) t e = ground arith

memory_advance_err_if :
    (m : Option Tip) (t : Tip)
    → contradicts m t ≡ true
    → (x : Error) × (memory_advance m t ≡ (err x, m))
unfolding memory_advance contradicts
memory_advance_err_if none t e = absurd cc
memory_advance_err_if (some old) t e = elim (Bool-cases (ltb t.seq old.seq)) [
  | inl lower ↦ (tampered moves_backwards, ground arith)
  | inr beside ↦ (tampered moves_sideways, ground arith)
]

contradicts_self : (t : Tip) → contradicts (some t) t ≡ false
unfolding contradicts
contradicts_self t = ground (arith, list_eq_refl t.hash)

-- A tip that contradicts one that was seen contradicts the one that is kept.
Seen-contradicts :
    (last m : Option Tip) (t : Tip)
    → Seen last m
    → contradicts last t ≡ true
    → contradicts m t ≡ true
unfolding contradicts
Seen-contradicts none m t seen e = absurd cc
Seen-contradicts (some l) none t seen e = absurd seen
Seen-contradicts (some l) (some k) t seen e =
    ground (arith, list_eq_iff k.hash l.hash, list_eq_iff t.hash l.hash, list_eq_iff t.hash k.hash)

command_tip_lem :
    (last : Option Tip) (t : Tip)
    → Seen last (some t)
    → command_tip last (ok (fields (some t.seq) (some t.hash))) ≡ (ok (some t), some t)
unfolding command_tip contradicts
command_tip_lem none t seen = refl
command_tip_lem (some l) t seen = ground arith

Seen-some : (last : Option Tip) (t : Tip) → contradicts last t ≡ false → Seen last (some t)
Seen-some none t e = tt
Seen-some (some l) t e = e

module _ {Json S : Type 0} (v : Values Json) (program : Program S) (journal : Text)
    (kept : S → Option Tip) (honest : IsHonest v program journal kept) where
  -- How a call comes out.
  record IsServed (last : Option Tip) (s : S) (c : Call) : Type 0 where
    said : Said
    last' : Option Tip
    s' : S
    out : call v program journal (last, s) c ≡ some (said, (last', s'))
    served : Serves (kept s) c said (kept s')
    seen : Seen last' (kept s')

  answer_of-Prints :
      (s : S) (m : Option Tip) (out : Bytes)
      → kept s ≡ m
      → Prints v program journal m out
      → (a : Answer) × (answer_of v program journal out ≡ some a)
        × ((last : Option Tip)
            → Seen last m
            → (last' : Option Tip) × (command_tip last (ok a) ≡ (ok m, last')) × Seen last' m)
  unfolding answer_of command_tip
  answer_of-Prints s none out e (j, parsed, is_null) =
      (null, ground arith, λ last seen. (last, refl, seen))
  answer_of-Prints s (some t) out e (j, parsed, not_null, seq, hash) =
      let read = unhex32-hex_encode t.hash (honest.digest s t e) in
      (
        fields (some t.seq) (some t.hash),
        ground arith,
        λ last seen. (some t, command_tip_lem last t seen, contradicts_self t),
      )

  get-Served : (last : Option Tip) (s : S) → Seen last (kept s) → IsServed last s get
  unfolding ask_tip
  get-Served last s seen =
      let args = text "tip" ∷ journal ∷ [] in
      let after = (program s args).1 in
      let same : kept after ≡ kept s = honest.tip_keeps s in
      let seen_after : Seen last (kept after) = rw same seen in
      elim (Option-cases (program s args).0) [
        | inl silent ↦ record {
          said = refused anchor_unavailable;
          last' = last;
          s' = after;
          out = ground arith;
          served = rw same (lacks get);
          seen = seen_after;
        }
        | inr (out, printed) ↦
            let (a, read, tell) =
              answer_of-Prints s (kept s) out refl (honest.tip_prints s out printed) in
            let (last', answered, seen') = tell last seen in
            record {
              said = told (kept s);
              last' = last';
              s' = after;
              out = ground arith;
              served = rw same gets;
              seen = rw same seen';
            }
      ]

  put-Served :
      (last : Option Tip) (s : S) (t : Tip)
      → IsDigest t.hash
      → Seen last (kept s)
      → IsServed last s (put t)
  unfolding put_tip command_advance
  put-Served last s t whole seen = elim (Bool-cases (contradicts last t)) [
    | inl lower ↦
        let (x, refused_by) =
          memory_advance_err_if (kept s) t (Seen-contradicts last (kept s) t seen lower) in
        record {
          said = refused (tampered moves_back_or_sideways);
          last' = last;
          s' = s;
          out = ground arith;
          served = refuses t (tampered moves_back_or_sideways) x refused_by;
          seen = seen;
        }
    | inr higher ↦
        let args = advance_args v program journal t in
        let after = (program s args).1 in
        elim (Option-cases (program s args).0) [
          | inr (out, printed) ↦
              let (fine, now) = honest.advances s t out whole printed in
              record {
                said = taken;
                last' = some t;
                s' = after;
                out = ground arith;
                served = puts t (rw now (memory_advance_ok_if (kept s) t fine));
                seen = rw now (contradicts_self t);
              }
          | inl silent ↦ elim (honest.fails s t whole silent) [
            | inl same ↦ record {
              said = refused anchor_unavailable;
              last' = last;
              s' = after;
              out = ground arith;
              served = rw same (lacks (put t));
              seen = rw same seen;
            }
            | inr (fine, now) ↦ record {
              said = refused anchor_unavailable;
              last' = last;
              s' = after;
              out = ground arith;
              served = loses t (rw now (memory_advance_ok_if (kept s) t fine));
              seen = rw now (Seen-some last t higher);
            }
          ]
        ]
  ]

  call-Served :
      (last : Option Tip) (s : S) (c : Call) → IsCall c → Seen last (kept s) → IsServed last s c
  call-Served last s get whole seen = get-Served last s seen
  call-Served last s (put t) whole seen = put-Served last s t whole seen

  -- What a run of calls comes to.
  pub record IsRun (last : Option Tip) (s : S) (cs : List Call) : Type 0 where
    pub answers : List Said
    pub last' : Option Tip
    pub s' : S
    pub out : calls v program journal cs (last, s) ≡ some (answers, (last', s'))
    pub runs : Runs (kept s) cs answers (kept s')

  calls_next :
      (st st' : Option Tip × S) (c : Call) (cs : List Call) {said : Said}
      {r : List Said × (Option Tip × S)}
      → call v program journal st c ≡ some (said, st')
      → calls v program journal cs st' ≡ some r
      → calls v program journal (c ∷ cs) st ≡ some (said ∷ r.0, r.1)
  calls_next st st' c cs e f = ground arith

  calls-Run :
      (cs : List Call) (last : Option Tip) (s : S)
      → All IsCall cs
      → Seen last (kept s)
      → IsRun last s cs
  calls-Run [] last s whole seen = record {
    answers = [];
    last' = last;
    s' = s;
    out = refl;
    runs = ends;
  }
  calls-Run (c ∷ cs) last s whole seen =
      let first = call-Served last s c whole.0 seen in
      let rest = calls-Run cs first.last' first.s' whole.1 first.seen in
      record {
        answers = first.said ∷ rest.answers;
        last' = rest.last';
        s' = rest.s';
        out = calls_next (last, s) (first.last', first.s') c cs first.out rest.out;
        runs = next first.served rest.runs;
      }

  -- Over a program that keeps its documented contract, but may fail at any call, a command anchor that
  -- has seen no tip yet answers any calls without a panic, and as a memory anchor would that holds the
  -- tip that the program keeps and may be unavailable: a tip that is told is the one that is kept, a
  -- tip is taken only if the memory anchor takes it, and only one that it refuses is called tampered
  -- with.
  pub calls-Runs : (cs : List Call) (s : S) → All IsCall cs → IsRun none s cs
  calls-Runs cs s whole = calls-Run cs none s whole tt
