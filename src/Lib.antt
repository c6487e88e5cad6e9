-- ===== src/Lib.antt =====
-- Portex: a gateway in which several users run agents and terminals in shared workspaces.
--
-- Five parts are modelled. services/group_registry.py keeps the workspaces and the chats bound to
-- them, services/group_member_service.py their members, and services/conversation_slot_service.py
-- their conversations. services/terminal_sessions.py keeps one terminal session for each
-- workspace, replays its recent output to whoever attaches, keeps past sessions on disk, and
-- searches their outputs. services/execution_coordinator.py runs the agents, one run at a time for
-- each group, in the sessions of services/workspace_lifecycle.py, on the backend that
-- services/execution_policy.py selects. services/scheduler.py keeps the tasks that run at set
-- times, for services/task_service.py, which logs their runs. domain/permissions.py says what each
-- role may do.
--
-- - Terminal/Sessions.antt, Terminal/Sessions/Actions.antt and Terminal/Sessions/Events.antt: the
--   state of `TerminalSessionService`, its methods, and the steps of bridges and timers. A managed
--   session is a mutable object that two dicts refer to, so the objects stand in a heap
--   (`Service.objects`) and the dicts hold references. A method is a function from the state to
--   its result, the new state and what it asks of the outside (bridges, timers, files), from one
--   acquisition of the lock to its release. Fresh ids, bridges and the clock are arguments.
--   Terminal/Sessions/Registry, Ownership and Lifecycle hold the proofs, over `Reach`, the
--   histories of methods, bridge events and timers in any order.
-- - Terminal/History.antt: `_append_output_history`, the bounded buffer of output chunks, with the
--   width of UTF-8 written out; Terminal/History/Window.antt says which chunks it keeps.
-- - Terminal/Search: the predicates that say what kind of marker an occurrence of a query is
--   (Words, Tags, Payload, named as in the source with the common prefix left out), the counters
--   (Hits, PayloadHits), the search for offsets and the snippets (Offsets). Suffix, TagEnds,
--   Separators, Wrappers, Census and WholeWords hold the proofs. A text is the list of its code
--   points (Text.antt). `str.lower` is an argument, since the full case mapping of Unicode is
--   data; nothing is assumed of it. Candidates holds what a search finds out about one snapshot,
--   and Ranking the keys of the three sorts and the search of many snapshots; a density of matches
--   is kept as the fraction it is computed from.
-- - Terminal/Persistence.antt: the payload of a snapshot's file as a JSON value, and its
--   validation when it is read. `isoformat` and `fromisoformat` are arguments, and so is `str` of
--   a value that is no text; a time is a number of microseconds. Persistence/Files holds the
--   files, in dicts by folder; which folder a name resolves to is an argument.
--   Persistence/Recovery is the recovery of active sessions at start. RoundTrip, Disk and
--   Recovery/Restored hold the proofs.
-- - Terminal/Timeline.antt: the snapshots of a workspace in memory and on disk, merged
--   (Timeline/Merging), filtered (Timeline/Filters) and cut into pages (Timeline/Paging), and the
--   listings; Timeline/Search puts the search on top of them. Newest and Pages hold the proofs. A
--   client that reads pages runs on fuel, of which the number of snapshots is shown to be enough.
-- - Groups/Slots, Members, Registry and Bindings: the three services over one database, whose
--   tables are lists of rows (Table.antt). Groups/Registry/Histories holds the sequences of calls,
--   and MainSlots, Members/Owners, Bindings/Targets and Bindings/Access the proofs. A row that a
--   method is given stands for the object of the session that it changes. `user_can_access_group`
--   calls itself for a chat's workspace; it runs on fuel, of which two calls are shown to be
--   enough.
-- - Execution/Workspace.antt: `WorkspaceSessionStore`; Execution/Workspace/Log.antt compares it
--   with a log of what was done to it. Execution/Policy.antt: the backend and the mode of a
--   request. Execution/Requests.antt: the data of requests, results and outcomes.
-- - Execution/Coordinator.antt: the state of `ExecutionCoordinator` and its record of finished
--   runs; futures, workers and executions are objects in heaps. Coordinator/Steps holds submission
--   and cancellation, Runs a worker's steps, Backends an execution's, each from one await to the
--   next, and Histories the sequences of all of them. Completed and Stored say what storing a
--   result does; Kept lists the ways in which steps change the part of the state that invariants
--   are about, and shows that all steps change it so; Bounded, Workers and Tracked are invariants
--   over all histories; Cancelled, Recovery and Lost follow single runs. Monitor holds the reads,
--   and Monitor/Counts is about the counts of runs. The policy, the backends' names and the
--   resolver of workspaces are functions of the state's setup, of which nothing is assumed; what a
--   backend's `execute` comes to, random ids and the clock are arguments.
-- - Tasks/Schedule.antt: the rules of `TaskScheduler` for one task. A time is the number of
--   microseconds from the first `datetime`, and an interval or a time that `timedelta` or
--   `datetime` cannot hold is an exception (Clock.antt); Python's `int` is written out in
--   Text/Integers.antt. Tasks/Schedule/CatchUp.antt is about the next run of an interval task.
--   Tasks/Scheduler.antt: the tasks as objects in a heap, and the calls and the start and end of
--   an execution; Scheduler/Ready and Scheduler/Histories hold the invariant, and Scheduler/Order
--   is about the due tasks. Scheduler/Pending is the pass over them and the polling loop, with
--   what others do meanwhile as an argument, and Pending/Due what a pass leaves due.
--   Tasks/Logs.antt: `TaskLogService`, with Logs/Newest. Tasks/Service.antt: `TaskService`, whose
--   executions go to the coordinator; Service/Completed holds the sequences of its calls. The
--   package croniter is an argument, of which nothing is assumed; it may refuse an expression or
--   find no date.
-- - Permissions.antt: the templates and lookups of roles, and what they allow.
--
-- Common.antt, Dict.antt, Text.antt, Clock.antt and Sort.antt hold what the parts share; Sort is
-- Python's stable sort by a tuple of keys, with Sort/Columns and Sort/Insertion for what it does.
-- The search loop runs on fuel: two more steps than the text is long, which its theorem shows to
-- be enough, since every step moves on by one. The loop to the next run of a task has two more
-- steps than there are microseconds from its anchor to the present, and its theorem shows the
-- same, where it does not end in an exception before.
--
-- Not modelled: the event loop (a lock's section is one step, and an event is put into its queue
-- in the step that looks the queue up, so the order of two puts that wait on a file is not shown),
-- the cancellation of a task's await (its executor returns or raises an exception), the conversion
-- of a bridge event given as a dict, the bytes of a file, ids with lone surrogates (an output with
-- one is modelled: its file is not written), the migrations of the database, the last
-- `datetime` outside of the scheduler, the floating point of `perf_counter`, the coordinator's
-- guard against exceptions that its own code cannot raise, and the other services.
mod Common
pub mod Text
pub mod Clock
pub mod Dict
pub mod Sort
pub mod Table
pub mod Groups
pub mod Terminal
pub mod Execution
pub mod Tasks
pub mod Permissions
