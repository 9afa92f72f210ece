-- ===== src/Core/Controller/Window.antt =====
-- The window of recent inputs of `Controller`, against the log of all inputs that a lease wrote.
use dot_terminal.Prelude.{
  ℕ, zero, suc, ◌+◌, ◌-◌, ◌≤◌, ◌<◌, ◌≡◌, refl, ap, ◌∙◌, inl, inr, true, ◌&&◌, ◌||◌, some, List, [],
  ◌∷◌, ◌++◌, arith, length, drop, get_elem?, length-append, length-drop, drop-append, drop-drop,
  get_elem?-drop, Bytes, list_eq, list_eq_iff, ltb, ◌==◌, Bool-cases, ok,
}
use dot_terminal.Core.Controller.{
  Controller, Input, write, accept_input, evict, is_recent, dedup_window, dedup_bytes,
}

-- The inputs of a lease with their sequence numbers, the first being `suc n`.
abbrev pub numbered : ℕ → List Bytes → List Input
numbered n [] = []
numbered n (b ∷ bs) = (suc n, b) ∷ numbered (suc n) bs

abbrev pub total : List Input → ℕ
total [] = 0
total (e ∷ es) = length e.1 + total es

-- `log` is what the lease wrote so far. The window is its end, and counts its bytes.
pub record IsWindow (c : Controller) (log : List Bytes) (left : ℕ) : Type 0 where
  pub in_order : c.last_sequence ≡ length log
  pub past : left ≤ length log
  pub window : c.recent ≡ numbered left (drop left log)
  pub counted : c.recent_bytes ≡ total c.recent
  pub few : length c.recent ≤ dedup_window
  pub small : c.recent_bytes ≤ dedup_bytes

length-numbered : (n : ℕ) (bs : List Bytes) → length (numbered n bs) ≡ length bs
length-numbered n [] = refl
length-numbered n (b ∷ bs) = ap suc (length-numbered (suc n) bs)

total-append : (es fs : List Input) → total (es ++ fs) ≡ total es + total fs
total-append [] fs = omega arith
total-append (e ∷ es) fs = omega (arith, total-append es fs)

numbered-append :
    (n : ℕ) (bs : List Bytes) (b : Bytes)
    → numbered n (bs ++ b ∷ []) ≡ numbered n bs ++ (suc (n + length bs), b) ∷ []
numbered-append n [] b = ground arith
numbered-append n (a ∷ bs) b = rw (numbered-append (suc n) bs b) (ground arith)

drop-numbered : (k n : ℕ) (bs : List Bytes) → drop k (numbered n bs) ≡ numbered (n + k) (drop k bs)
drop-numbered zero n bs = ap (λ m. numbered m bs) {x = n} {y = n + 0} (omega arith)
drop-numbered (suc k) n [] = refl
drop-numbered (suc k) n (b ∷ bs) =
    drop-numbered k (suc n) bs
    ∙ ap (λ m. numbered m (drop k bs)) {x = suc n + k} {y = n + suc k} (omega arith)

-- The loop drops inputs at the front until both bounds hold, and never finds the window empty.
pub evict-some :
    (es : List Input)
    → (j : ℕ) × (j ≤ length es)
      × (evict es (total es) ≡ some (drop j es, total (drop j es)))
      × (length (drop j es) ≤ dedup_window)
      × (total (drop j es) ≤ dedup_bytes)
unfolding evict
evict-some [] = (0, omega arith, refl, omega arith, omega arith)
evict-some (e ∷ es) =
    let over = ltb dedup_window (suc (length es)) || ltb dedup_bytes (length e.1 + total es) in
    let cut : length e.1 + total es - length e.1 ≡ total es = omega arith in
    elim (Bool-cases over) [
      | inl more ↦
          let (j, b, run, w, s) = evict-some es in (suc j, omega arith, rw (more, cut) run, w, s)
      | inr done ↦ (0, omega arith, rw done, ground arith, ground arith)
    ]

-- A match in the numbered log is the input with that number.
is_recent-numbered :
    (seq n : ℕ) (bs : Bytes) (log : List Bytes)
    → is_recent seq bs (numbered n log) ≡ true
    → (n < seq) × (get_elem? log (seq - suc n) ≡ some bs)
is_recent-numbered seq n bs [] e = cc
is_recent-numbered seq n bs (b ∷ log) e = elim (Bool-cases ((suc n == seq) && list_eq b bs)) [
  | inl hit ↦
      let at : seq - suc n ≡ 0 = ground arith in
      (ground arith, rw at (ap some (ground (arith, list_eq_iff b bs))))
  | inr miss ↦
      let (past, found) = is_recent-numbered seq (suc n) bs log (rw miss at e) in
      let at : seq - suc n ≡ suc (seq - suc (suc n)) = omega arith in (omega arith, rw at found)
]

numbered-is_recent :
    (i n : ℕ) (bs : Bytes) (log : List Bytes)
    → get_elem? log i ≡ some bs
    → is_recent (suc (n + i)) bs (numbered n log) ≡ true
numbered-is_recent i n bs [] e = cc
numbered-is_recent zero n bs (b ∷ log) e = ground (arith, list_eq_iff b bs)
numbered-is_recent (suc i) n bs (b ∷ log) e =
    ground (arith, list_eq_iff b bs, numbered-is_recent i (suc n) bs log e)

module _ (c : Controller) (log : List Bytes) (left : ℕ) (w : IsWindow c log left) where
  -- What the window holds was written, with that number.
  pub is_recent_sound :
      (seq : ℕ) (bs : Bytes)
      → is_recent seq bs c.recent ≡ true
      → (left < seq) × (get_elem? log (seq - 1) ≡ some bs)
  is_recent_sound seq bs e =
      let (past, found) = is_recent-numbered seq left bs (drop left log) (rw w.window at e) in
      let at : left + (seq - suc left) ≡ seq - 1 = omega arith in
      (past, rw (get_elem?-drop left (seq - suc left) log, at) at found)

  -- What was written and has not left the window is in it.
  pub is_recent_complete :
      (seq : ℕ) (bs : Bytes)
      → left < seq
      → get_elem? log (seq - 1) ≡ some bs
      → is_recent seq bs c.recent ≡ true
  is_recent_complete seq bs past found =
      let i = seq - suc left in
      let at : seq - 1 ≡ left + i = omega arith in
      let same : suc (left + i) ≡ seq = omega arith in
      rw (w.window, ← same)
        (numbered-is_recent i left bs (drop left log)
          (get_elem?-drop left i log ∙ (rw at at found)))

  window-append :
      (bs : Bytes)
      → c.recent ++ (suc (length log), bs) ∷ [] ≡ numbered left (drop left (log ++ bs ∷ []))
  window-append bs =
      let at : suc (left + length (drop left log)) ≡ suc (length log) =
        omega (arith, length-drop left log, w.past) in
      rw (
        w.window,
        drop-append left log (bs ∷ []) w.past,
        numbered-append left (drop left log) bs,
        at,
      )

  -- Taking one more input in: the window follows the longer log.
  pub accept_input-IsWindow :
      (bs : Bytes)
      → (c' : Controller) × (now : ℕ) × (accept_input c (suc (length log)) bs ≡ some (c', ok write))
        × IsWindow c' (log ++ bs ∷ []) now
        × (left ≤ now)
  unfolding accept_input
  accept_input-IsWindow bs =
      let seq = suc (length log) in
      let more = c.recent ++ (seq, bs) ∷ [] in
      let sum : c.recent_bytes + length bs ≡ total more =
        omega (arith, w.counted, total-append c.recent ((seq, bs) ∷ [])) in
      let (j, b, done, few, small) = evict-some more in
      let all : more ≡ numbered left (drop left (log ++ bs ∷ [])) = window-append bs in
      (
        record c {
          last_sequence = seq;
          recent = drop j more;
          recent_bytes = total (drop j more);
          uncertain = true;
        },
        left + j,
        rw (sum, done, accept_input),
        record {
          in_order = omega (arith, length-append log (bs ∷ []));
          past = omega (
            arith,
            ap length all,
            length-numbered left (drop left (log ++ bs ∷ [])),
            length-drop left (log ++ bs ∷ []),
            length-append log (bs ∷ []),
          );
          window =
              ap (drop j) all
              ∙ drop-numbered j left (drop left (log ++ bs ∷ []))
              ∙ ap (numbered (left + j)) (drop-drop j left (log ++ bs ∷ []));
          counted = refl;
          few = few;
          small = small;
        },
        omega arith,
      )
