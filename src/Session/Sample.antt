-- ===== src/Session/Sample.antt =====
-- A terminal engine and an environment for the tests of crates/session/src/main.rs.
use dot_terminal.Prelude.{ℕ, true, [], Option, some, none, Bytes, text}
use dot_terminal.Protocol.{Response}
use dot_terminal.Session.{Engine, Outside}

-- An engine that keeps its size alone.
abbrev pub sized : Engine (ℕ × ℕ)
sized = record {
  dimensions = λ e. e;
  cursor = λ e. (0, 0);
  lines = λ e. [];
  resize = λ e cols rows. (cols, rows);
  feed = λ e bs. e;
}

abbrev pub no_json : Response → Option Bytes
no_json r = some []

abbrev pub calm : Outside
calm = record {
  now_ms = 1000;
  clock = 1;
  ticket = text "t1";
  writer_free = true;
  stops_at = none;
  resize_error = none;
}
