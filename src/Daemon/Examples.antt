-- ===== src/Daemon/Examples.antt =====
-- The daemon's theorems at a small configuration: one active state, one issue in it.
use mathlib.Core.List.{Perm}
use sinfonia.Base.{
  is_some, ◌||◌, ℕ, ◌+◌, ◌≤◌, ◌≡◌, ◌≢◌, ◌↔◌, refl, String, true, false, Option, none, some, Bool,
  Any, Map, eq_iff, member, ◌++◌, List, [], ◌∷◌, ℤ, pos, arith, lookup,
}
use sinfonia.Daemon.Config.{inherit}
use sinfonia.Base.{length, if◌then◌else◌}
use sinfonia.Daemon.Orchestrator.Snapshot.{build_snapshot, build_issue_view}
use sinfonia.Daemon.Orchestrator.Snapshot.Views.{
  status_of, runs_as, retries_as, build_issue_view_lem,
}
use sinfonia.Tracker.Config.{linear}
use sinfonia.Base.Order.{class_of}
use sinfonia.Domain.{
  sanitize_workspace_key, RunningEntry, OrchestratorState, Issue, LiveSession, CodexTotals,
}
use sinfonia.Daemon.Workspace.{
  FilePath, normal, WorkspaceEntry, reaped_keys, running_keys, remove_key, remove, path_eq,
  components, join_path, split_path, component_of, starts_with, workspace_path_for,
  ensure_for_issue,
}
use sinfonia.Daemon.Workspace.Paths.{Answers, ensure_for_issue_lem, remove_key_child, remove_child}
use sinfonia.Daemon.Workspace.Sweep.{Reapable, reaped_spares_runs, reaped_iff}
use sinfonia.Daemon.Config.{ServiceConfig, StateOverride, anthropic, codex, ok}
use sinfonia.Daemon.Config.Effective.{IsReady, validate_for_dispatch, validate_iff}
use sinfonia.Daemon.Orchestrator.Dispatch.{is_dispatch_eligible, dispatch_order, sort_for_dispatch}
use sinfonia.Daemon.Orchestrator.Dispatch.Eligibility.{IsEligible, is_dispatch_eligible_iff}
use sinfonia.Daemon.Orchestrator.Dispatch.Order.{InOrder, sort_for_dispatch_lem}
use sinfonia.Daemon.Orchestrator.Core.{new_entry, dispatch_one, on_worker_exit}
use sinfonia.Daemon.Orchestrator.Effects.{is_dispatched}
use sinfonia.Daemon.Orchestrator.Core.Handlers.{
  MayStart, Started, dispatch_one_lem, next_retry, on_worker_exit_lem,
}
use sinfonia.Daemon.Orchestrator.Core.Ownership.{IsOwned}
use sinfonia.Daemon.Orchestrator.Core.Capacity.{here, next, dispatch, runs, Reach-capacity}
use sinfonia.Daemon.Orchestrator.AgentEvents.{account, turn_started, TokenUsage}
use sinfonia.Daemon.Orchestrator.AgentEvents.Accounting.{
  Report, progress, ended, silent, account_all, input, output, total, Grown, turn_accounting,
}
use sinfonia.Daemon.Orchestrator.History.{
  Request, poll, exited, timer, initial, serve, serve-IsOwned,
}

abbrev lower : String → String
lower s = s

abbrev path_of : String → String
path_of key = key

abbrev env_var : String → Option String
env_var name = none

abbrev codex_lane : StateOverride
codex_lane = record {
  provider = some codex;
  model = none;
  endpoint = none;
  api_key = none;
  command = none;
  temperature = none;
  turn_timeout_ms = none;
  prompt_template = none;
}

abbrev pub config : ServiceConfig
config = record {
  tracker = record {
    kind = linear;
    endpoint = "";
    api_key = some "key";
    project_slug = some "project";
    active_states = "todo" ∷ "doing" ∷ [];
    terminal_states = "done" ∷ [];
    jira_email = none;
  };
  polling = record { interval_ms = 30000 };
  workspace = record {
    root = "/work";
    cleanup = record { sweep_interval_secs = 3600; max_age_hours = 24 };
  };
  hooks = record {
    after_create = none;
    before_run = none;
    after_run = none;
    before_remove = none;
    timeout_ms = 60000;
  };
  agent = record {
    max_concurrent_agents = 2;
    max_turns = 20;
    max_retry_backoff_ms = 300000;
    max_concurrent_agents_by_state = ("doing", 1) ∷ [];
    env_policy = record { mode = inherit; passthrough = [] };
  };
  dispatch_allowlist = record { require_labels = [] };
  llm = record {
    provider = anthropic;
    model = "m";
    endpoint = none;
    api_key = none;
    command = "";
    turn_timeout_ms = 3600000;
    read_timeout_ms = 5000;
    stall_timeout_ms = pos 300000;
    approval_policy = none;
    thread_sandbox = none;
    turn_sandbox_policy = none;
    temperature = none;
  };
  server = record { port = none; bind = "127.0.0.1" };
  telemetry = record {
    otlp_endpoint = none;
    service_name = "sinfonia";
    tenant_id = "default";
    headers = [];
    sinfonia_events_secret = none;
  };
  states = ("doing", codex_lane) ∷ [];
}

abbrev issue_at : String → Option ℤ → Issue
issue_at id priority = record {
  id = id;
  identifier = id;
  title = "title";
  description = none;
  priority = priority;
  state = "todo";
  branch_name = none;
  url = none;
  labels = [];
  blocked_by = [];
  children = [];
  created_at = none;
  updated_at = none;
  fields = [];
}

abbrev pub urgent : Issue
urgent = issue_at "A-1" (some (pos 1))

abbrev unranked : Issue
unranked = issue_at "A-0" none

-- An issue is dispatched, its worker exits, and the timer finds it again.
abbrev requests : List Request
requests =
    poll config 1000 (λ ids. none) (some (urgent ∷ []))
    ∷ exited config 2000 "A-1" "A-1" false (some "crash") 2000 1000 none
    ∷ timer config 12000 "A-1" (some (urgent ∷ []))
    ∷ []

serve-IsOwned_example : IsOwned (serve lower path_of env_var requests (initial config))
serve-IsOwned_example = serve-IsOwned lower path_of env_var config requests

Reach-capacity_example :
    runs lower path_of (dispatch_one lower path_of config 1000 urgent none (initial config)).0.0 ≤ 2
unfolding initial
Reach-capacity_example =
    Reach-capacity lower path_of {cfg = config} {s = initial config}
      {t = (dispatch_one lower path_of config 1000 urgent none (initial config)).0.0} (omega arith)
      (next here (dispatch 1000 urgent none))

is_dispatch_eligible_iff_example :
    (is_dispatch_eligible lower urgent config ≡ true) ↔ IsEligible lower urgent config
is_dispatch_eligible_iff_example = is_dispatch_eligible_iff lower urgent config

sort_for_dispatch_lem_example :
    Perm (sort_for_dispatch (unranked ∷ urgent ∷ [])) (unranked ∷ urgent ∷ [])
    × InOrder (sort_for_dispatch (unranked ∷ urgent ∷ []))
    × ((key : Issue)
        → class_of dispatch_order key (sort_for_dispatch (unranked ∷ urgent ∷ []))
          ≡ class_of dispatch_order key (unranked ∷ urgent ∷ []))
sort_for_dispatch_lem_example = sort_for_dispatch_lem (unranked ∷ urgent ∷ [])

abbrev usage_of : ℕ → TokenUsage
usage_of n = record { input_tokens = n; output_tokens = 1; total_tokens = n + 1 }

abbrev reports : List Report
reports = progress 10 (usage_of 100) ∷ ended 20 "done" (usage_of 250) ∷ silent 30 "done" ∷ []

abbrev session : LiveSession
session = record {
  session_id = none;
  thread_id = none;
  turn_id = none;
  codex_app_server_pid = none;
  last_codex_event = none;
  last_codex_timestamp = none;
  last_codex_message = none;
  codex_input_tokens = 40;
  codex_output_tokens = 0;
  codex_total_tokens = 40;
  last_reported_input_tokens = 40;
  last_reported_output_tokens = 0;
  last_reported_total_tokens = 40;
  turn_count = 1;
}

abbrev totals : CodexTotals
totals = record { input_tokens = 1000; output_tokens = 0; total_tokens = 1000; seconds_running = 0 }

turn_accounting_example :
    let started = account (turn_started 5 "thread" "turn") session totals in
    let q = account_all "thread" "turn" reports started.0 started.1 in
    Grown input reports session totals q
    × Grown output reports session totals q
    × Grown total reports session totals q
turn_accounting_example =
    turn_accounting "thread" "turn" 5 reports session totals
      ((omega arith, (omega arith, (omega arith, tt))), omega arith, omega arith)
      ((omega arith, (omega arith, (omega arith, tt))), omega arith, omega arith)
      ((omega arith, (omega arith, (omega arith, tt))), omega arith, omega arith)

validate_iff_example :
    (validate_for_dispatch lower env_var config ≡ ok tt) ↔ IsReady lower env_var config
validate_iff_example = validate_iff lower env_var config

dispatch_one_lem_example :
    let r = dispatch_one lower path_of config 1000 urgent none (initial config) in
    ((is_dispatched r.1 ≡ true) ↔ MayStart lower path_of config urgent none (initial config))
    × (is_dispatched r.1 ≡ true → Started lower path_of 1000 urgent none r.0)
    × (is_dispatched r.1 ≡ false → r.0 ≡ (initial config, []))
dispatch_one_lem_example = dispatch_one_lem lower path_of config 1000 urgent none (initial config)

abbrev busy : OrchestratorState
busy = (dispatch_one lower path_of config 1000 urgent none (initial config)).0.0

-- The run that is dropped was not started by the worker that exits.
on_worker_exit_lem_example :
    let t =
      (on_worker_exit lower path_of config 2000 "A-1" "A-1" false none 2000 500 none busy).0 in
    (lookup "A-1" t.running ≡ none)
    × (lookup "A-1" t.retry_attempts
        ≡ some (next_retry lower path_of config 2000 "A-1" "A-1" false none none))
    × ((other : String)
        → other ≢ "A-1"
        → (lookup other t.running ≡ lookup other busy.running)
          × (lookup other t.retry_attempts ≡ lookup other busy.retry_attempts))
on_worker_exit_lem_example =
    on_worker_exit_lem lower path_of config 2000 "A-1" "A-1" false none 2000 500 none busy

abbrev root_path : FilePath
root_path = normal "work" ∷ []

abbrev found : FilePath → Bool
found p = true

abbrev canonical : FilePath → Option FilePath
canonical p = some p

abbrev old_workspaces : List WorkspaceEntry
old_workspaces =
    record { key = "A-1"; path = normal "work" ∷ normal "A-1" ∷ []; modified = some 0 }
    ∷ record { key = "A-2"; path = normal "work" ∷ normal "A-2" ∷ []; modified = some 0 }
    ∷ []

ensure_for_issue_lem_example :
    Answers found found found canonical root_path "A/1"
      (ensure_for_issue found found found canonical root_path "A/1")
ensure_for_issue_lem_example = ensure_for_issue_lem found found found canonical root_path "A/1"

remove_key_child_example : normal "work" ∷ normal "A-2" ∷ [] ≡ root_path ++ (normal "A-2" ∷ [])
unfolding remove_key path_eq components starts_with join_path split_path component_of
remove_key_child_example =
    remove_key_child found found found canonical root_path (normal "work" ∷ normal "A-2" ∷ []) "A-2"
      refl (λ e. ground (arith, (eq_iff "A-2" "..").1 e)) refl

remove_child_example :
    normal "work" ∷ normal "A_1" ∷ [] ≡ root_path ++ (normal (sanitize_workspace_key "A/1") ∷ [])
unfolding remove sanitize_workspace_key workspace_path_for components join_path split_path
    component_of
remove_child_example =
    remove_child found found found canonical root_path (normal "work" ∷ normal "A_1" ∷ []) "A/1"
      refl (λ e. ground (arith, (eq_iff "A_1" ".").1 e))
      (λ e. ground (arith, (eq_iff "A_1" "..").1 e)) refl

abbrev active_run : RunningEntry
active_run = new_entry lower path_of 1000 urgent none

abbrev runs_now : Map RunningEntry
runs_now = ("A-1", active_run) ∷ []

abbrev one_hour : ℕ
one_hour = 1

reaped_spares_runs_example :
    member
      (sanitize_workspace_key active_run.identifier)
      (reaped_keys one_hour 4000000000000 runs_now old_workspaces)
    ≡ false
unfolding lookup
reaped_spares_runs_example =
    reaped_spares_runs one_hour 4000000000000 runs_now old_workspaces "A-1" active_run refl

reaped_iff_example :
    (member "A-2" (reaped_keys one_hour 4000000000000 runs_now old_workspaces) ≡ true) ↔ (
      (one_hour ≢ 0)
      × (member "A-2" (running_keys runs_now) ≡ false)
      × Any (Reapable 4000000000000 one_hour "A-2") old_workspaces)
reaped_iff_example = reaped_iff one_hour 4000000000000 runs_now old_workspaces "A-2"

-- One issue runs.
build_issue_view_lem_example :
    let view = build_snapshot 1000 busy in
    (is_some (build_issue_view (λ t. "now") busy "A-1")
      ≡ runs_as "A-1" view || retries_as "A-1" view)
    × (status_of (build_issue_view (λ t. "now") busy "A-1") ≡ (
        if runs_as "A-1" view
        then some "running"
        else if retries_as "A-1" view
        then some "retrying"
        else none))
    × (view.counts.running ≡ length view.running)
    × (view.counts.retrying ≡ length view.retrying)
build_issue_view_lem_example = build_issue_view_lem (λ t. "now") 1000 busy "A-1"
