-- ===== src/Core/Controller/Answers.antt =====
-- `prepare` in terms of the log of what the lease wrote.
use dot_terminal.Prelude.{
  ℕ, suc, ◌-◌, ◌≤◌, ◌<◌, ◌≡◌, ◌≢◌, sym, ◌∙◌, inl, inr, false, ◌&&◌, none, some, List, [], ◌∷◌, ◌++◌,
  arith, length, get_elem?, get_elem?_beyond, Bytes, ◌==◌, leb, not, if◌then◌else◌, Bool-cases, ok,
  err, u64_max, checked_add,
}
use mathlib.Core.Bool.{false≢true}
use native.Mathlib.Decide.{ℕ_discrete}
use dot_terminal.Message.{out_of_order}
use dot_terminal.Core.Controller.{
  Controller, write, duplicate, check, prepare, accept_input, is_recent,
}
use dot_terminal.Core.Controller.Window.{
  IsWindow, is_recent_sound, is_recent_complete, accept_input-IsWindow,
}

-- The three answers to an input of the lease's holder. `log` is what was written, and its inputs up
-- to number `left` have left the window.
pub data Answers (c : Controller) (log : List Bytes) (left g seq : ℕ) (bs : Bytes) : Type 0 where
  -- the next input, taken in: the longer log is that of the new state
  taken :
      (c' : Controller) (now : ℕ)
      → seq ≡ suc (length log)
      → prepare c g seq bs ≡ some (c', ok write)
      → IsWindow c' (log ++ bs ∷ []) now
      → left ≤ now
      → Answers c log left g seq bs
  -- byte for byte the input that was written under this number, which is still in the window
  known :
      left < seq
      → get_elem? log (seq - 1) ≡ some bs
      → prepare c g seq bs ≡ some (c, ok duplicate)
      → Answers c log left g seq bs
  -- neither: refused, and nothing changes
  refused :
      seq ≢ suc (length log)
      → (left < seq → get_elem? log (seq - 1) ≢ some bs)
      → prepare c g seq bs ≡ some (c, err out_of_order)
      → Answers c log left g seq bs

none≢some {ℓ} : {A : Type ℓ} {a : A} → none ≢ some a
none≢some e = cc

module _ (c : Controller) (log : List Bytes) (left g : ℕ) (w : IsWindow c log left)
    (held : check c g ≡ ok tt) (certain : c.uncertain ≡ false) (room : length log < u64_max) where
  prepare_ready :
      (seq : ℕ) (bs : Bytes)
      → prepare c g seq bs ≡ (
          if not (seq == 0) && leb seq c.last_sequence
          then some (c, (if is_recent seq bs c.recent then ok duplicate else err out_of_order))
          else if not (seq == suc (length log))
          then some (c, err out_of_order)
          else accept_input c seq bs)
  unfolding prepare
  prepare_ready seq bs =
      let next : checked_add c.last_sequence 1 ≡ some (suc (length log)) =
        ground (arith, w.in_order) in
      simp (held, certain, next, prepare)

  next_written :
      (seq : ℕ) (bs : Bytes) (c' : Controller)
      → seq ≡ suc (length log)
      → accept_input c (suc (length log)) bs ≡ some (c', ok write)
      → prepare c g seq bs ≡ some (c', ok write)
  next_written seq bs c' e done =
      rw e (prepare_ready (suc (length log)) bs ∙ ground (arith, w.in_order))

  -- Past the log, and under number 0, nothing was written.
  no_entry :
      (seq : ℕ) (bs : Bytes)
      → seq ≢ suc (length log)
      → (not (seq == 0) && leb seq c.last_sequence) ≡ false
      → left < seq
      → get_elem? log (seq - 1) ≢ some bs
  no_entry seq bs other outside past found =
      none≢some (sym (get_elem?_beyond log (seq - 1) (ground (arith, w.in_order))) ∙ found)

  -- For a lease whose written inputs are log, all of them reported and fewer than 2^64, prepare
  -- never panics: it takes in the input that is next in number, answers duplicate to one that the
  -- window holds byte for byte, and refuses any other as out of order.
  pub prepare-Answers : (seq : ℕ) (bs : Bytes) → Answers c log left g seq bs
  prepare-Answers seq bs = elim (ℕ_discrete seq (suc (length log))) [
    | yes next ↦
        let (c', now, done, w', later) = accept_input-IsWindow c log left w bs in
        taken c' now next (next_written seq bs c' next done) w' later
    | no other ↦ elim (Bool-cases (not (seq == 0) && leb seq c.last_sequence)) [
      | inl earlier ↦ elim (Bool-cases (is_recent seq bs c.recent)) [
        | inl hit ↦
            let (past, found) = is_recent_sound c log left w seq bs hit in
            known past found (ground (arith, prepare_ready seq bs))
        | inr miss ↦
            refused other
              (λ past found.
                false≢true (sym miss ∙ is_recent_complete c log left w seq bs past found))
              (ground (arith, prepare_ready seq bs))
      ]
      | inr outside ↦
          refused other (no_entry seq bs other outside) (ground (arith, prepare_ready seq bs))
    ]
  ]
