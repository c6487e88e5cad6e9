-- ===== src/Terminal/Persistence/Samples.antt =====
-- Sample data for the tests of the modules on services/terminal_sessions.py.
use portex.Common.{ℕ, false, Option, none, some, [], ◌∷◌, String}
use portex.Text.{Text, codes}
use portex.Terminal.Sessions.{closed, docker_container, Snapshot}
use portex.Clock.{Datetime, ahead}
use portex.Terminal.Persistence.{Json, IsoFormat}

-- Times written as one code point.
abbrev read_time : Text → Option Datetime
read_time (t ∷ []) = some (record { wall = t; zone = ahead 0 })
read_time _ = none

abbrev pub iso : IsoFormat
iso = record { isoformat = λ t. t ∷ []; fromisoformat = read_time }

abbrev pub no_text : Json → Text
no_text v = []

abbrev pub below : String → Option String
below folder = some folder

-- A snapshot of a session at a time.
abbrev pub at_time : String → ℕ → Snapshot
at_time session_id now = record {
  info = record {
    session_id = session_id;
    group_id = "g1";
    group_folder = "home";
    owner_user_id = "alice";
    backend = docker_container;
    container_name = none;
    status = closed;
    created_at = 1;
    last_attached_at = none;
    reconnect_deadline = none;
  };
  snapshot_at = now;
  output = codes "ready";
  output_bytes = 5;
  history_max_bytes = 100;
  truncated = false;
}
