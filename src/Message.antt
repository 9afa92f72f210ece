-- ===== src/Message.antt =====
-- The texts with which the crates refuse a request, one constructor for each literal, so that two
-- refusals are told apart as the callers tell them apart: by what they say.
use dot_terminal.Prelude.{Text}

pub data Message : Type 0 where
  -- crates/core/src/lib.rs
  cursor_ahead : Message
  already_controlled : Message
  generation_exhausted : Message
  stale_generation : Message
  handoff_unavailable : Message
  handoff_expired : Message
  outcome_unknown : Message
  out_of_order : Message
  sequence_exhausted : Message
  invalid_view_id : Message
  invalid_view_label : Message
  invalid_view_kind : Message
  too_many_views : Message
  -- crates/protocol/src/lib.rs
  unsupported_version : Message
  invalid_ticket : Message
  input_limit : Message
  invalid_dimensions : Message
  clipboard_limit : Message
  invalid_invitation : Message
  invalid_enrollment : Message
  -- crates/session/src/main.rs
  screen_too_large : Message
  screen_limit : Message
  session_exited : Message
  earlier_input_pending : Message
  write_outcome_unknown : Message
  -- the text of an error of the operating system or of a library
  external : Text → Message
