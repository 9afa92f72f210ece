-- ===== src/Desktop/SessionSummary/Descendants.antt =====
-- The loop of `usage` of crates/desktop/src/session_summary.rs finds a process and its descendants.
use dot_terminal.Prelude.{
  ℕ, ◌≤◌, ◌≡◌, inl, inr, refl, ap, ◌∙◌, arith, true, false, some, List, [], ◌∷◌, length, In, ◌==◌,
  Bool-cases, Option-cases,
}
use dot_terminal.Desktop.SessionSummary.{Process, Ids, contains, add_id, has, visit, pass}

pub contains_self : (i : ℕ) (ids : Ids) → contains (i ∷ ids) i ≡ true
contains_self i ids = ground arith

contains_more : (i j : ℕ) (ids : Ids) → contains ids j ≡ true → contains (i ∷ ids) j ≡ true
contains_more i j ids e = ground arith

-- No number twice.
abbrev pub Unique : Ids → Type 0
Unique [] = Unit
Unique (i ∷ ids) = (contains ids i ≡ false) × Unique ids

module _ {F : Type 0} where
  -- The process itself, and a process whose parent is one.
  pub data Descends (ps : List (Process F)) (pid : ℕ) : ℕ → Type 0 where
    itself : {x : ℕ} → x ≡ pid → Descends ps pid x
    child :
        {x : ℕ} (p : Process F) (q : ℕ)
        → In p ps
        → p.ppid ≡ some q
        → p.pid ≡ some x
        → Descends ps pid q
        → Descends ps pid x

  -- What a visit comes to.
  pub data Visited (ids : Ids) (p : Process F) (ids' : Ids) : Type 0 where
    same : ids' ≡ ids → Visited ids p ids'
    added :
        (q i : ℕ)
        → p.ppid ≡ some q
        → contains ids q ≡ true
        → p.pid ≡ some i
        → contains ids i ≡ false
        → ids' ≡ i ∷ ids
        → Visited ids p ids'

  pub visit_lem : (ids : Ids) (p : Process F) → Visited ids p (visit ids p)
  unfolding visit add_id
  visit_lem ids p = elim (Option-cases p.ppid) [
    | inl orphan ↦ same (ground arith)
    | inr (q, parent) ↦ elim (Option-cases p.pid) [
      | inl unnamed ↦ same (ground arith)
      | inr (i, named) ↦ elim (Bool-cases (contains ids q)) [
        | inr off ↦ same (ground arith)
        | inl on ↦ elim (Bool-cases (contains ids i)) [
          | inl old ↦ same (ground arith)
          | inr new ↦ added q i parent on named new (ground arith)
        ]
      ]
    ]
  ]

  -- Every number found is of a descendant.
  abbrev pub AllDescend : List (Process F) → ℕ → Ids → Type 0
  AllDescend ps pid ids = (x : ℕ) → contains ids x ≡ true → Descends ps pid x

  visit-AllDescend :
      (ps : List (Process F)) (pid : ℕ) (ids : Ids) (p : Process F)
      → In p ps
      → AllDescend ps pid ids
      → AllDescend ps pid (visit ids p)
  visit-AllDescend ps pid ids p among all_descend x e = elim (visit_lem ids p) [
    | same kept ↦ all_descend x (ground arith)
    | added q i parent on named new more ↦ elim (Bool-cases (i == x)) [
      | inl it ↦ child p q among parent (ground arith) (all_descend q on)
      | inr other ↦ let h = rw more at e in all_descend x (ground arith)
    ]
  ]

  pub pass-AllDescend :
      (ps rest : List (Process F)) (pid : ℕ) (ids : Ids)
      → ((p : Process F) → In p rest → In p ps)
      → AllDescend ps pid ids
      → AllDescend ps pid (pass rest ids)
  unfolding pass
  pass-AllDescend ps [] pid ids sub a = a
  pass-AllDescend ps (p ∷ rest) pid ids sub a =
      pass-AllDescend ps rest pid (visit ids p) (λ q h. sub q (inr h))
        (visit-AllDescend ps pid ids p (sub p (inl refl)) a)

  visit-Unique : (ids : Ids) (p : Process F) → Unique ids → Unique (visit ids p)
  visit-Unique ids p u = elim (visit_lem ids p) [
    | same kept ↦ rw kept u
    | added q i parent on named new more ↦ rw more (new, u)
  ]

  pub pass-Unique : (rest : List (Process F)) (ids : Ids) → Unique ids → Unique (pass rest ids)
  unfolding pass
  pass-Unique [] ids u = u
  pass-Unique (p ∷ rest) ids u = pass-Unique rest (visit ids p) (visit-Unique ids p u)

  visit-contains :
      (ids : Ids) (p : Process F) (x : ℕ) → contains ids x ≡ true → contains (visit ids p) x ≡ true
  visit-contains ids p x e = elim (visit_lem ids p) [
    | same kept ↦ rw kept e
    | added q i parent on named new more ↦ rw more (contains_more i x ids e)
  ]

  pub pass-contains :
      (rest : List (Process F)) (ids : Ids) (x : ℕ)
      → contains ids x ≡ true
      → contains (pass rest ids) x ≡ true
  unfolding pass
  pass-contains [] ids x e = e
  pass-contains (p ∷ rest) ids x e = pass-contains rest (visit ids p) x (visit-contains ids p x e)

  visit-grows : (ids : Ids) (p : Process F) → length ids ≤ length (visit ids p)
  visit-grows ids p = elim (visit_lem ids p) [
    | same kept ↦ omega (arith, ap length kept)
    | added q i parent on named new more ↦ omega (arith, ap length more)
  ]

  pub pass-grows : (rest : List (Process F)) (ids : Ids) → length ids ≤ length (pass rest ids)
  unfolding pass
  pass-grows [] ids = omega arith
  pass-grows (p ∷ rest) ids = omega (arith, visit-grows ids p, pass-grows rest (visit ids p))

  -- A process whose parent is found is found.
  abbrev pub IsClosed : Ids → Process F → Type 0
  IsClosed ids p = (i : ℕ) → has ids p.ppid ≡ true → p.pid ≡ some i → contains ids i ≡ true

  visit_idle :
      (ids : Ids) (p : Process F)
      → length (visit ids p) ≤ length ids
      → (visit ids p ≡ ids) × IsClosed ids p
  unfolding visit add_id
  visit_idle ids p few = elim (visit_lem ids p) [
    | same kept ↦ (kept, λ i on named. ground arith)
    | added q i parent on named new more ↦ absurd (omega (arith, ap length more))
  ]

  pub pass_idle :
      (rest : List (Process F)) (ids : Ids)
      → length (pass rest ids) ≤ length ids
      → (pass rest ids ≡ ids) × ((p : Process F) → In p rest → IsClosed ids p)
  unfolding pass
  pass_idle [] ids few = (refl, λ p h. absurd h)
  pass_idle (p ∷ rest) ids few =
      let (kept, closed) = visit_idle ids p (omega (arith, pass-grows rest (visit ids p))) in
      let (idle, others) = pass_idle rest ids (rw kept at few) in
      (
        ap (pass rest) kept ∙ idle,
        λ q h. elim h [ inl it ↦ rw it closed | inr more ↦ others q more ],
      )
