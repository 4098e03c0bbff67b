-- ===== src/Lib.antt =====
-- Sinfonia: a daemon that hands the issues of a tracker to coding agents, and a bridge that turns the
-- CI results and reviews of their pull requests into moves of the tickets and into merges. These
-- modules model the decisions of both, and prove what they promise.
--
-- The parts and how they interact:
--   * Base: what all modules share. Numbers are natural numbers; a `u32` or `u64` keeps its wrapping
--     or saturating operations (Base/Words). A `HashMap` or `HashSet` with text keys is a list of its
--     entries (Base/Maps), whose laws are what is used of it. Base/Order has Rust's `Ord` with its
--     laws and the stable sort.
--   * Domain: crates/sinfonia-tracker/src/types.rs and custom_fields.rs, crates/sinfonia/src/domain.rs.
--     A time is a number of milliseconds; `seconds_running`, which only adds milliseconds / 1000, is
--     kept as milliseconds.
--   * Json: the values of serde_json, as the code reads them. Tracker/Config:
--     crates/sinfonia-tracker/src/config.rs. Tracker/Marker: custom_fields.rs of the same crate with
--     the functions of linear.rs that keep a ticket's fields in a comment; the comments are those
--     that Linear answers, and printed JSON is a parameter.
--   * Daemon/Config: the records of crates/sinfonia/src/config/typed.rs. Daemon/Config/Effective: the
--     lane of a state (`effective_llm_for_state`) and the preflight check (`validate_for_dispatch`).
--     Daemon/Config/Parse: the parsers of its sections, Parse/Whole with
--     crates/sinfonia/src/config/loader.rs from the text of WORKFLOW.md to the whole.
--   * Daemon/Orchestrator: crates/sinfonia/src/orchestrator. Dispatch (dispatch.rs) says which issue may
--     run, in which order, and whether there is a slot. Retries (retries.rs) has the backoff and
--     `schedule`. Core has the handlers of one issue: `dispatch_one`, `fire_retry` (with
--     `finish_retry` and `retry_issue` as its parts behind the two awaits) and `on_worker_exit`;
--     Tick has `tick`, `reconcile_running_issues` and `terminate_running_issue`. AgentEvents is
--     crates/sinfonia/src/agent/events.rs with `consume_agent_events`, Snapshot is state.rs. Runner is
--     runner.rs: the steps of an attempt at an issue, where the agent, the hooks, the template and the
--     tracker answer as they like and may look at what was done; the turns are counted down from
--     `agent.max_turns`, at least 1, which the source's own test makes enough. A handler maps the state to
--     the next one and to its effects (Effects): workers and timers that are spawned, workspaces that
--     are removed. History runs whole handlers in any order; Core/Capacity runs the sections under
--     the lock in any order, as the awaits of the handlers allow.
--   * Daemon/Workspace: crates/sinfonia/src/workspace/manager.rs, with the age-based part of
--     `workspace_sweep` of orchestrator/mod.rs. A path is its components, a text being split at `/`; the answers of the file system
--     are parameters, and a removal is the path that it removes.
--   * Daemon/Http/Events: crates/sinfonia/src/http/events.rs, the events that the daemon sends to its
--     subscribers. Bridge/Events: crates/sinfonia-bridge/src/events.rs, which counts them to the
--     budget. System/Channel composes the two.
--   * Bridge: crates/sinfonia-bridge/src. World has the calls that the bridge makes: of the tracker, of
--     GitHub and of SQLite, which are not part of the repository. An `Environment` answers each call
--     as a function of the calls before it, with success or failure, and each call is recorded in
--     order. Store has the statements of storage.rs over the tables, Labels labels.rs, Merge
--     merge/mod.rs, Feedback feedback/mod.rs with attempts.rs, categorize.rs and transition.rs.
--     Feedback/Budget and Feedback/Cost are budget.rs and cost.rs, Webhook/Verify webhook/verify.rs,
--     Webhook/App webhook/mod.rs with `AppState`, Webhook/Handlers webhook/handlers.rs over it.
--     Feedback/Manifest is feedback/manifest.rs: Shape reads the manifest of a run, Fetch finds it,
--     Digest renders it, and its `fetch_digest` is what the evaluation is given.
--     Config is config.rs: Config/Document from the text of BRIDGE.md to the configuration,
--     Config/Sections the parsers of its sections, Config/Validate the rules.
--     Feedback/Evaluate calls Merge, Labels and Store the way the code does. World/Triple has the
--     rules by which a condition is carried through an action; Merge/Stable and Merge/Events say what
--     a condition must satisfy for all entry points of the coordinator to keep it.
--
-- Definitions keep the names of the source. A `match` behind an await, or the body of a loop, is a
-- definition of its own (`after_summary`, `reconcile_landing`). The parameters of a section are code
-- that is not modelled: `to_lowercase` is `str::to_lowercase` over all of Unicode, `workspace_path_for`
-- the path of a workspace as text, `env_var` the process environment, `render` the Liquid template of
-- the failure comment, `fetch_digest` the reading of the manifest of a run, `hmac_sha256` the
-- digest of a secret and a body, `parse_json` serde_json. `Platform` of Config/Defaults has the
-- environment, YAML, the compiler of patterns and the parser of URLs. The
-- decimals of the budget are a type with its operations (Feedback/Cost), with their conversions
-- `from_f64`, `cost_to_string` and `f64_of_u64`. A regular expression is the test that it makes.
--
-- Loops: `kick` runs until its head waits. It takes fuel, one more than the rows of the repository,
-- and Merge/Termination shows that any larger amount ends in the same world. The other loops are
-- structural.
--
-- Not modelled: logging and tracing; the providers' processes and HTTP; the
-- workspace hooks and the sweep of terminal issues; the HTTP server of the daemon; the rest of
-- the trackers' HTTP clients. Concurrent webhooks of the bridge are modelled as one after another.
pub mod Base
pub mod Domain
pub mod Json
pub mod Tracker
pub mod Daemon
pub mod Bridge
pub mod System
