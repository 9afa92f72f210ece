-- ===== src/Desktop/SessionSummary/Closing.antt =====
-- The loop of `usage` of crates/desktop/src/session_summary.rs ends, with all descendants.
use dot_terminal.Prelude.{
  ℕ, zero, suc, ◌+◌, ◌≤◌, ◌<◌, ◌≡◌, ◌↔◌, inl, inr, refl, arith, Bool, true, false, not, none, some,
  List, [], ◌∷◌, length, In, ◌==◌, if◌then◌else◌, Bool-cases,
}
use dot_terminal.Desktop.SessionSummary.{Process, Ids, contains, visit, pass, close}
use dot_terminal.Desktop.SessionSummary.Descendants.{
  Unique, Descends, itself, child, same, added, visit_lem, contains_self, pass-AllDescend,
  pass-Unique, pass-contains, pass-grows, IsClosed, pass_idle,
}

module _ {F : Type 0} where
  -- The processes whose numbers are not found yet.
  is_unseen : Ids → Process F → Bool
  is_unseen ids p = elim p.pid [ none ↦ false | some i ↦ not (contains ids i) ]

  unseen : List (Process F) → Ids → ℕ
  unseen [] ids = 0
  unseen (p ∷ ps) ids = let rest = unseen ps ids in if is_unseen ids p then suc rest else rest

  unseen-le : (ps : List (Process F)) (ids : Ids) → unseen ps ids ≤ length ps
  unfolding unseen
  unseen-le [] ids = omega arith
  unseen-le (p ∷ ps) ids = ground (arith, unseen-le ps ids)

  is_unseen-cons :
      (p : Process F) (i : ℕ) (ids : Ids) → is_unseen (i ∷ ids) p ≡ true → is_unseen ids p ≡ true
  unfolding is_unseen
  is_unseen-cons p i ids e = ground arith

  unseen-cons : (ps : List (Process F)) (i : ℕ) (ids : Ids) → unseen ps (i ∷ ids) ≤ unseen ps ids
  unfolding unseen
  unseen-cons [] i ids = omega arith
  unseen-cons (p ∷ ps) i ids = ground (arith, unseen-cons ps i ids, is_unseen-cons p i ids)

  is_unseen-new :
      (p : Process F) (i : ℕ) (ids : Ids)
      → p.pid ≡ some i
      → contains ids i ≡ false
      → (is_unseen ids p ≡ true) × (is_unseen (i ∷ ids) p ≡ false)
  unfolding is_unseen
  is_unseen-new p i ids named new = (ground arith, ground arith)

  unseen-new :
      (ps : List (Process F)) (p : Process F) (i : ℕ) (ids : Ids)
      → In p ps
      → p.pid ≡ some i
      → contains ids i ≡ false
      → unseen ps (i ∷ ids) < unseen ps ids
  unfolding unseen
  unseen-new [] p i ids among named new = absurd among
  unseen-new (o ∷ ps) p i ids (inl it) named new =
      let (was, now) = is_unseen-new o i ids (rw it at named) new in
      ground (arith, unseen-cons ps i ids)
  unseen-new (o ∷ ps) p i ids (inr more) named new =
      ground (arith, unseen-new ps p i ids more named new, is_unseen-cons o i ids)

  -- What is found and what is not are together no more than before.
  visit-bound :
      (ps : List (Process F)) (ids : Ids) (p : Process F)
      → In p ps
      → length (visit ids p) + unseen ps (visit ids p) ≤ length ids + unseen ps ids
  visit-bound ps ids p among = elim (visit_lem ids p) [
    | same kept ↦ rw kept (omega arith)
    | added q i parent on named new more ↦
        rw more (omega (arith, unseen-new ps p i ids among named new))
  ]

  pass-bound :
      (ps rest : List (Process F)) (ids : Ids)
      → ((p : Process F) → In p rest → In p ps)
      → length (pass rest ids) + unseen ps (pass rest ids) ≤ length ids + unseen ps ids
  unfolding pass
  pass-bound ps [] ids sub = omega arith
  pass-bound ps (p ∷ rest) ids sub = omega (
    arith,
    visit-bound ps ids p (sub p (inl refl)),
    pass-bound ps rest (visit ids p) (λ q h. sub q (inr h)),
  )

  -- What the loop found: numbers without repetition, the first ones among them, each of a descendant,
  -- and with every one the numbers of the processes it is the parent of.
  record IsFamily (ps : List (Process F)) (pid : ℕ) (ids : Ids) : Type 0 where
    unique : Unique ids
    has_first : contains ids pid ≡ true
    all_descend : (x : ℕ) → contains ids x ≡ true → Descends ps pid x

  pass-IsFamily :
      (ps : List (Process F)) (pid : ℕ) (ids : Ids)
      → IsFamily ps pid ids
      → IsFamily ps pid (pass ps ids)
  pass-IsFamily ps pid ids f = record {
    unique = pass-Unique ps ids f.unique;
    has_first = pass-contains ps ids pid f.has_first;
    all_descend = pass-AllDescend ps ps pid ids (λ p h. h) f.all_descend;
  }

  -- With more fuel than processes that are not found, the loop ends with a family that is closed.
  close_lem :
      (fuel : ℕ) (ps : List (Process F)) (pid : ℕ) (ids : Ids)
      → unseen ps ids < fuel
      → IsFamily ps pid ids
      → (found : Ids) × (close fuel ps ids ≡ some found)
        × IsFamily ps pid found
        × ((p : Process F) → In p ps → IsClosed found p)
  unfolding close
  close_lem zero ps pid ids h f = absurd (omega arith)
  close_lem (suc fuel) ps pid ids h f =
      let grown = pass-IsFamily ps pid ids f in
      elim (Bool-cases (length ids == length (pass ps ids))) [
        | inl equal ↦
            let (idle, closed) = pass_idle ps ids (ground arith) in
            (pass ps ids, rw (equal, close), grown, rw idle closed)
        | inr more ↦
            let (found, done, family, closed) =
              close_lem fuel ps pid (pass ps ids)
                (ground (arith, pass-bound ps ps ids (λ p h'. h'), pass-grows ps ids)) grown in
            (found, rw (more, close) done, family, closed)
      ]

  found_all :
      (ps : List (Process F)) (pid : ℕ) (found : Ids)
      → contains found pid ≡ true
      → ((p : Process F) → In p ps → IsClosed found p)
      → {x : ℕ} → Descends ps pid x
      → contains found x ≡ true
  found_all ps pid found first closed (itself e) = rw e first
  found_all ps pid found first closed (child {x = y} p q among parent named up) =
      let h = found_all ps pid found first closed up in closed p among y (rw parent h) named

  -- The numbers that the loop finds, with two more rounds of fuel than processes: no number twice, and
  -- those of the process and its descendants.
  pub close_exact :
      (ps : List (Process F)) (pid : ℕ)
      → (found : Ids) × (close (length ps + 2) ps (pid ∷ []) ≡ some found)
        × Unique found
        × ((x : ℕ) → (contains found x ≡ true) ↔ Descends ps pid x)
  close_exact ps pid =
      let start : IsFamily ps pid (pid ∷ []) = record {
        unique = (refl, tt);
        has_first = contains_self pid [];
        all_descend = λ x e. itself (ground arith);
      } in
      let (found, done, family, closed) =
        close_lem (length ps + 2) ps pid (pid ∷ []) (omega (arith, unseen-le ps (pid ∷ [])))
          start in
      (
        found,
        done,
        family.unique,
        λ x. (family.all_descend x, λ d. found_all ps pid found family.has_first closed d),
      )
