-- ===== src/Desktop/SessionSummary/Tests.antt =====
-- The theorem about the use of a session at a concrete input.
use dot_terminal.Prelude.{ℕ, ◌+◌, ◌≡◌, refl, Option, none, some, [], ◌∷◌}
use dot_terminal.Desktop.SessionSummary.{
  Process, Snapshot, sampled, usage, usage_of, close, pass, visit, add_id, sum_cpu, sum_resident,
}
use dot_terminal.Desktop.SessionSummary.Usage.{Reported, usage-Reported}

abbrev process : ℕ → Option ℕ → ℕ → ℕ → Process ℕ
process pid ppid cpu resident = record {
  pid = some pid;
  ppid = ppid;
  cpu = some cpu;
  resident = some resident;
}

-- Process 3 is listed before its parent, so that the loop makes a second pass.
abbrev snapshot : Snapshot ℕ ℕ
snapshot = record {
  at = 123;
  processes = some (
      process 1 none 1 10
      ∷ process 3 (some 2) 10 30
      ∷ process 2 (some 1) 5 20
      ∷ process 4 none 80 400
      ∷ []);
}

counts_descendants : usage 0 ◌+◌ snapshot (some 1) ≡ some (sampled 123 16 60 3)
unfolding usage usage_of close pass visit add_id sum_cpu sum_resident
counts_descendants = refl

usage-Reported_example : Reported 0 ◌+◌ snapshot 1 (usage 0 ◌+◌ snapshot (some 1))
usage-Reported_example = usage-Reported 0 ◌+◌ snapshot 1
