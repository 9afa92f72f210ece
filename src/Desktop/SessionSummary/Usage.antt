-- ===== src/Desktop/SessionSummary/Usage.antt =====
-- What `usage` of crates/desktop/src/session_summary.rs reports of a snapshot.
use dot_terminal.Prelude.{
  ◌∙◌, ℕ, ◌+◌, ◌≤◌, ◌≡◌, ◌↔◌, inl, inr, arith, true, false, Option, some, List, [], ◌∷◌, length,
  any, Bool-cases, Option-cases, min, u64_max,
}
use dot_terminal.Desktop.SessionSummary.{
  Process, Snapshot, Used, unknown, sampled, Ids, contains, is_pid, get_or, sum_resident, of_ids,
  sum_cpu, usage_of, usage,
}
use dot_terminal.Desktop.SessionSummary.Descendants.{Unique, Descends}
use dot_terminal.Desktop.SessionSummary.Closing.{close_exact}

-- The memory of some processes, without a bound.
abbrev pub total : {F : Type 0} → List (Process F) → ℕ
total [] = 0
total (p ∷ ps) = get_or 0 p.resident + total ps

sum_resident-total :
    {F : Type 0} (ps : List (Process F)) (acc : ℕ)
    → acc ≤ u64_max
    → sum_resident ps acc ≡ min u64_max (acc + total ps)
unfolding sum_resident
sum_resident-total [] acc h = omega arith
sum_resident-total (p ∷ ps) acc h =
    let next : ℕ = min (acc + get_or 0 p.resident) u64_max in
    let rest = sum_resident-total ps next (omega arith) in rest ∙ omega arith

module _ {F Json : Type 0} (float_zero : F) (add : F → F → F) where
  -- The report is of these numbers: those of the process and its descendants, each once.
  pub record IsReport (at : Json) (ps : List (Process F)) (pid : ℕ) (used : Option (Used Json F))
      : Type 0 where
    pub found : Ids
    pub unique : Unique found
    pub family : (x : ℕ) → (contains found x ≡ true) ↔ Descends ps pid x
    pub reported :
        used
        ≡ some (
            sampled at
              (sum_cpu float_zero add (of_ids found ps) float_zero)
              (min u64_max (total (of_ids found ps)))
              (length found))

  usage_of-IsReport :
      (at : Json) (ps : List (Process F)) (pid : ℕ)
      → IsReport at ps pid (usage_of float_zero add at ps pid)
  unfolding usage_of
  usage_of-IsReport at ps pid =
      let (found, done, unique, family) = close_exact ps pid in
      record {
        found = found;
        unique = unique;
        family = family;
        reported =
            rw (done, usage_of, sum_resident-total (of_ids found ps) 0 (omega arith))
              (ground arith);
      }

  -- What is reported of a process: if the snapshot has it, the number of the process and all its
  -- descendants, each counted once, their memory up to the bound of u64 and their processor time;
  -- and else that it is unknown. The loop always ends.
  pub data Reported (s : Snapshot Json F) (pid : ℕ) (used : Option (Used Json F)) : Type 0 where
    not_there :
        ((ps : List (Process F)) → s.processes ≡ some ps → any (is_pid pid) ps ≡ false)
        → used ≡ some unknown
        → Reported s pid used
    there :
        (ps : List (Process F))
        → s.processes ≡ some ps
        → any (is_pid pid) ps ≡ true
        → IsReport s.at ps pid used
        → Reported s pid used

  pub usage-Reported :
      (s : Snapshot Json F) (pid : ℕ) → Reported s pid (usage float_zero add s (some pid))
  unfolding usage
  usage-Reported s pid = elim (Option-cases s.processes) [
    | inl bad ↦ not_there (λ ps e. absurd (ground arith)) (ground arith)
    | inr (ps, has_them) ↦ elim (Bool-cases (any (is_pid pid) ps)) [
      | inr off ↦
          not_there (λ qs e. let same : qs ≡ ps = ground arith in rw same off) (ground arith)
      | inl on ↦ there ps has_them on (rw (has_them, usage, on) (usage_of-IsReport s.at ps pid))
    ]
  ]
