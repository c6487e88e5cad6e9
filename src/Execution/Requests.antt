-- ===== src/Execution/Requests.antt =====
-- The data of services/execution_coordinator.py: requests, results, snapshots of runs and what a
-- backend's `execute` comes to.
use portex.Common.{ℕ, Bool, Option, String}
use portex.Dict.{Dict}

pub data ExecutionSource : Type 0 where
  web : ExecutionSource
  im : ExecutionSource
  scheduled : ExecutionSource

pub data ExecutionStatus : Type 0 where
  queued : ExecutionStatus
  running : ExecutionStatus
  completed : ExecutionStatus
  failed : ExecutionStatus
  cancelled : ExecutionStatus
  timeout : ExecutionStatus

-- The metadata is passed on and never read here.
pub record ExecutionRequest : Type 0 where
  pub group_folder : String
  pub chat_jid : String
  pub user_id : String
  pub prompt : String
  pub source : ExecutionSource
  pub slot_id : String
  pub requested_mode : Option String
  pub timeout_ms : Option ℕ
  pub fresh_session : Bool
  pub request_id : Option String
  pub request_metadata : Option (Dict String)

pub record ExecutionHandle : Type 0 where
  pub run_id : String
  pub group_folder : String
  pub status : ExecutionStatus

pub record ExecutionResult : Type 0 where
  pub run_id : String
  pub status : ExecutionStatus
  pub group_folder : String
  pub backend : String
  pub session_id : String
  pub slot_id : String
  pub final_output : Option String
  pub error : Option String
  pub timeout_ms : Option ℕ

pub record ExecutionRunSnapshot : Type 0 where
  pub run_id : String
  pub group_folder : String
  pub chat_jid : String
  pub user_id : String
  pub source : ExecutionSource
  pub requested_mode : Option String
  pub status : ExecutionStatus
  pub slot_id : String
  pub backend : Option String
  pub session_id : Option String
  pub created_at : ℕ
  pub started_at : Option ℕ
  pub finished_at : Option ℕ
  pub final_output : Option String
  pub error : Option String
  pub timeout_ms : Option ℕ
  pub recovery_attempted : Bool
  pub recovery_reason : Option String
  pub recovery_succeeded : Option Bool

-- The dict that a backend may return; a missing key is `none`.
pub record RawResult : Type 0 where
  pub status : Option ExecutionStatus
  pub final_output : Option String
  pub error : Option String
  pub timeout_ms : Option ℕ

-- What the await of `backend.execute` comes to: a dict, a result, or one of the exceptions that
-- the coordinator tells apart. `resume_failed` is `SessionResumeFailedError`, a `RuntimeError`;
-- `interrupted` is `CancelledError`, which is no `Exception`.
pub data Outcome : Type 0 where
  returned_dict : RawResult → Outcome
  returned : ExecutionResult → Outcome
  timed_out : Outcome
  resume_failed : String → Outcome
  runtime_error : String → Outcome
  other_error : String → Outcome
  interrupted : Outcome
