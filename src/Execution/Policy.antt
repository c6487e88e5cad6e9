-- ===== src/Execution/Policy.antt =====
-- services/execution_policy.py and services/execution_mode.py: which backend runs a request.
use text.Mathlib.Text.{◌==◌ as str_eq}
use portex.Common.{Bool, ◌&&◌, Option, none, some, [], ◌∷◌, String, if◌then◌else◌}
use portex.Dict.{Dict, get}

abbrev pub default_backend : String
default_backend = "openai_runtime"

abbrev pub mode_to_backend : Dict String
mode_to_backend =
    ("openai", "openai_runtime") ∷ ("host", "host_process") ∷ ("container", "docker_container") ∷ []

-- `ExecutionPolicy.select_backend` of the requested mode; `none` is the `ValueError`.
unfoldable pub select_backend : Option String → Option String
unfolding get
select_backend none = some default_backend
select_backend (some mode) = get mode_to_backend mode

pub data ExecutionMode : Type 0 where
  host : ExecutionMode
  container : ExecutionMode

-- `get_execution_mode`; `host_mode` is the truth of the configuration's entry.
unfoldable pub get_execution_mode : String → Bool → ExecutionMode
get_execution_mode user_role host_mode =
    if str_eq user_role "admin" && host_mode then host else container
