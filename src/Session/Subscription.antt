-- ===== src/Session/Subscription.antt =====
-- The threads of crates/session/src/main.rs beside the requests: a subscription writes a frame as its
-- bytes land, and an ended session is left when nobody asks for it any more.
use dot_terminal.Prelude.{
  starts_with, ℕ, ◌+◌, ◌-◌, ◌<◌, ◌≤◌, ◌≡◌, refl, ap, ◌∙◌, min, max, Bool, true, false, not, ◌||◌,
  ◌&&◌, Option, some, List, [], ◌∷◌, length, drop, is_empty, any, leb, if◌then◌else◌, Text, Bytes,
  text, list_eq, Result, ok, err, arith, length-take, length-drop, u64_max,
}
use dot_terminal.Message.{Message}
use dot_terminal.Core.History.{History, Mark, Frame, read_frame, until, mark_at, oldest, rposition}
use dot_terminal.Core.History.Marks.{Ascends}
use dot_terminal.Core.History.IsValid.{IsValid}
use dot_terminal.Core.History.Grids.{
  read_frame_total, read_frame-some, read_some, frame_start, frame_room,
}
use native.Mathlib.Decide.{dec_le}
use mathlib.Core.Option
use dot_terminal.Core.History.Position.{rposition_from, rposition_before}
use dot_terminal.Protocol.{Response}
use dot_terminal.Session.{State, ended, frame, error, read_limit}

-- What one pass of the loop of `subscribe` does: it gives up with an error, writes a frame and goes on
-- behind it, writes the last frame and ends, or waits for the signal or the heartbeat.
pub data Turn : Type 0 where
  fails closes waits : Response → Turn
  sends : Response → ℕ → Turn

module _ {E : Type 0} where
  unfoldable pub turn_on : State E → Result Message Frame → Turn
  turn_on s (err e) = fails (error e)
  turn_on s (ok f) =
      let has_bytes = not (is_empty f.chunk.content) in
      let response = frame s f (ended s && not has_bytes) in
      if has_bytes || ended s
      then (if not has_bytes then closes response else sends response f.chunk.next)
      else waits (frame s f false)

  unfoldable pub turn : State E → ℕ → Option Turn
  unfolding turn_on
  turn s after = Option.map (turn_on s) (read_frame s.history after read_limit)

-- `launcher_session_var`
abbrev pub launcher_prefixes : List Text
launcher_prefixes =
    text "CLAUDE_CODE_"
    ∷ text "ITERM_"
    ∷ text "TMUX"
    ∷ text "KITTY_"
    ∷ text "WEZTERM_"
    ∷ text "VSCODE_"
    ∷ []

abbrev pub launcher_names : List Text
launcher_names =
    text "CLAUDECODE"
    ∷ text "CLAUDE_PID"
    ∷ text "CLAUDE_EFFORT"
    ∷ text "AI_AGENT"
    ∷ text "TERM_SESSION_ID"
    ∷ text "TERM_PROGRAM"
    ∷ text "TERM_PROGRAM_VERSION"
    ∷ text "TERM_FEATURES"
    ∷ text "LC_TERMINAL"
    ∷ text "LC_TERMINAL_VERSION"
    ∷ text "COLORFGBG"
    ∷ text "WINDOWID"
    ∷ []

unfoldable pub launcher_session_var : Text → Bool
launcher_session_var name =
    any (λ p. starts_with p name) launcher_prefixes || any (list_eq name) launcher_names

-- What the loop of `reap_when_exited` does when it wakes.
pub data Reaping : Type 0 where
  returns sleeps exits stops : Reaping

-- retention in milliseconds, stop, the time, the last client's time, whether the socket is there
unfoldable pub reap : {E : Type 0} → State E → ℕ → Bool → ℕ → ℕ → Bool → Reaping
reap s retention stop now last_client socket =
    if stop
    then returns
    else if not (ended s)
    then sleeps
    else if not socket
    then exits
    else if leb retention (now - last_client)
    then stops
    else sleeps

-- The grid that is in force at an offset reaches past it.
until_beyond :
    (n start : ℕ) (ms : List Mark)
    → Ascends n ms
    → start < n
    → n ≤ u64_max
    → start < until (mark_at start ms) ms
unfolding until mark_at rposition
until_beyond n start [] a b c = omega (arith, b, c)
until_beyond n start (m ∷ []) a b c = ground arith
until_beyond n start (m ∷ k ∷ ms) a b c = elim (dec_le k.0 start) [
  | yes past ↦
      let (j, e) = rposition_from start k ms past in
      ground (arith, until_beyond n start (k ∷ ms) a.1 b c)
  | no ahead ↦ ground (arith, rposition_before n start k ms a.1 (omega arith))
]

-- A frame holds bytes unless none is retained at or past the cursor.
pub frame_progress :
    (h : History) (after : ℕ) {f : Frame}
    → IsValid h
    → after ≤ h.next
    → read_frame h after read_limit ≡ some (ok f)
    → (f.chunk.next ≡ f.chunk.start + length f.chunk.content)
      × (after ≤ f.chunk.start)
      × (f.chunk.next ≤ h.next)
      × (length f.chunk.content ≡ 0 → h.next ≤ max after (oldest h))
unfolding oldest
frame_progress h after {f} v b e =
    let (chunk, named) = read_frame-some h after read_limit e in
    let (start, next, size, content) = read_some h after _ chunk in
    let at = frame_start h after read_limit in
    let limit = min read_limit (frame_room h after read_limit) in
    let sizes = ap length content ∙ length-take limit (drop (f.chunk.start - oldest h) h.bytes) in
    let cut = length-drop (f.chunk.start - oldest h) h.bytes in
    (
      next,
      omega arith,
      omega (arith, sizes, cut, v.counted),
      λ hollow. elim (dec_le h.next at) [
        | yes all ↦ omega arith
        | no some' ↦
            let room = until_beyond h.next at h.marks v.rising (omega arith) v.in_range in
            absurd (omega (arith, room, sizes, cut, hollow, v.counted))
      ],
    )

-- What a pass of the loop may do at a cursor.
abbrev pub Sound : {E : Type 0} → State E → ℕ → Turn → Type 0
Sound s after (fails r) = ⊥
Sound s after (sends r next) = (after < next) × (next ≤ s.history.next)
Sound s after (closes r) = (s.history.next ≤ max after (oldest s.history)) × (ended s ≡ true)
Sound s after (waits r) = (s.history.next ≤ max after (oldest s.history)) × (ended s ≡ false)

turn_on-Sound :
    {E : Type 0} (s : State E) (after : ℕ) (f : Frame)
    → f.chunk.next ≡ f.chunk.start + length f.chunk.content
    → after ≤ f.chunk.start
    → f.chunk.next ≤ s.history.next
    → (length f.chunk.content ≡ 0 → s.history.next ≤ max after (oldest s.history))
    → Sound s after (turn_on s (ok f))
unfolding turn_on
turn_on-Sound s after f next start head whole = go f.chunk.content refl (ended s) refl
  where
    go :
        (bs : Bytes) (p : f.chunk.content ≡ bs) (b : Bool) (q : ended s ≡ b)
        → Sound s after (turn_on s (ok f))
    go [] p true q = rw (p, q) (whole (ap length p), q)
    go [] p false q = rw (p, q) (whole (ap length p), q)
    go (x ∷ xs) p true q = rw p (omega (arith, ap length p), head)
    go (x ∷ xs) p false q = rw p (omega (arith, ap length p), head)

-- At a cursor up to the head of a valid history a pass of the loop of a subscription never fails: it
-- sends a frame and moves the cursor forward but not past the head, or, only if no byte is retained
-- at or past the cursor, closes if the session has ended and waits if not.
pub turn_total :
    {E : Type 0} (s : State E) (after : ℕ)
    → IsValid s.history
    → after ≤ s.history.next
    → (t : Turn) × (turn s after ≡ some t) × Sound s after t
unfolding turn turn_on
turn_total s after v b =
    let (f, e) = read_frame_total s.history after read_limit v b in
    let (next, start, head, whole) = frame_progress s.history after v b e in
    (turn_on s (ok f), ground arith, turn_on-Sound s after f next start head whole)
