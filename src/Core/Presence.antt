-- ===== src/Core/Presence.antt =====
-- `Presence` of crates/core/src/lib.rs: who looks at a session, and who types.
pub mod Views
pub mod Hello
mod Tests
use dot_terminal.Prelude.{
  ℕ, ◌-◌, Bool, true, false, not, ◌&&◌, ◌||◌, Option, none, some, List, [], ◌∷◌, ◌++◌, length, any,
  all, keep_if, is_empty, ltb, leb, ◌==◌, if◌then◌else◌, Text, text, utf8, list_eq,
  is_ascii_alphanumeric, is_control, Result, ok, err,
}
use mathlib.Core.Option
use dot_terminal.Message.{
  Message, invalid_view_id, invalid_view_label, invalid_view_kind, too_many_views,
}

abbrev pub view_ttl_ms : ℕ
view_ttl_ms = 10000

abbrev pub max_views : ℕ
max_views = 32

abbrev pub view_kinds : List Text
view_kinds = text "app" ∷ text "browser" ∷ text "phone" ∷ text "cli" ∷ []

pub record ViewInfo : Type 0 where
  pub view : Text
  pub label : Text
  pub kind : Text
  pub seen_ms : ℕ

pub record Presence : Type 0 where
  pub views : List ViewInfo
  pub controller : Option Text
  pub held : Bool
  pub last_input_ms : Option ℕ

pub record PresenceSnapshot : Type 0 where
  pub held : Bool
  pub views : List ViewInfo
  pub controller : Option Text
  pub controller_idle_ms : Option ℕ

-- `Presence::default()`
abbrev pub nobody : Presence
nobody = record { views = []; controller = none; held = false; last_input_ms = none }

unfoldable pub valid_view_id : Text → Bool
valid_view_id view =
    leb 8 (length (utf8 view))
    && leb (length (utf8 view)) 64
    && all (λ b. is_ascii_alphanumeric b || b == 45) (utf8 view)

unfoldable pub valid_label : Text → Bool
valid_label label = not (is_empty label || ltb 40 (length label) || any is_control label)

unfoldable pub valid_kind : Text → Bool
valid_kind kind = any (list_eq kind) view_kinds

-- `retain(|v| now.saturating_sub(v.seen_ms) <= VIEW_TTL_MS)`
abbrev pub is_live : ℕ → ViewInfo → Bool
is_live now v = leb (now - v.seen_ms) view_ttl_ms

unfoldable pub prune : Presence → ℕ → Presence
prune p now = record p { views = keep_if (is_live now) p.views }

-- `iter_mut().find(|v| v.view == view)` and the assignments to what it finds; `none` if it finds
-- nothing.
unfoldable pub refresh : ViewInfo → List ViewInfo → Option (List ViewInfo)
refresh new [] = none
refresh new (v ∷ vs) =
    let rest = Option.map (λ ws. v ∷ ws) (refresh new vs) in
    if list_eq v.view new.view
    then some (record v { label = new.label; kind = new.kind; seen_ms = new.seen_ms } ∷ vs)
    else rest

-- `hello` once the arguments are known to be valid and the silent views are gone.
unfoldable pub join : Presence → ViewInfo → Presence × Result Message (Unit {0})
join p new = elim (refresh new p.views) [
  | some vs ↦ (record p { views = vs }, ok tt)
  | none ↦
      if leb max_views (length p.views)
      then (p, err too_many_views)
      else (record p { views = p.views ++ new ∷ [] }, ok tt)
]

unfoldable pub hello : Presence → ℕ → Text → Text → Text → Presence × Result Message (Unit {0})
hello p now view label kind =
    if not (valid_view_id view)
    then (p, err invalid_view_id)
    else if not (valid_label label)
    then (p, err invalid_view_label)
    else if not (valid_kind kind)
    then (p, err invalid_view_kind)
    else join (prune p now) (record { view = view; label = label; kind = kind; seen_ms = now })

unfoldable pub took : Presence → ℕ → Option Text → Presence
took p now view = record p { controller = view; held = true; last_input_ms = some now }

unfoldable pub cleared : Presence → Presence
cleared p = record p { controller = none; held = false; last_input_ms = none }

unfoldable pub input : Presence → ℕ → Presence
input p now = record p { last_input_ms = some now }

unfoldable pub snapshot : Presence → ℕ → Presence × PresenceSnapshot
unfolding prune
snapshot p now =
    let q = prune p now in
    (
      q,
      record {
        held = q.held;
        views = q.views;
        controller = q.controller;
        controller_idle_ms = Option.map (λ t. now - t) q.last_input_ms;
      },
    )
