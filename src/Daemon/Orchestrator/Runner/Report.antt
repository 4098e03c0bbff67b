-- ===== src/Daemon/Orchestrator/Runner/Report.antt =====
-- The event that ends a session tells what the session did.
use sinfonia.Base.{
  ℕ, zero, suc, ◌+◌, ◌≤◌, ◌≡◌, ◌∙◌, ◌⊎◌, inl, inr, refl, sym, ap, max, String, Bool, true, false,
  Option, none, some, List, [], ◌∷◌, ◌++◌, if◌then◌else◌, arith,
}
use sinfonia.Domain.{Issue}
use sinfonia.Daemon.Config.{ServiceConfig, debug_provider}
use sinfonia.Daemon.Orchestrator.AgentEvents.{
  AgentEvent, TokenUsage, session_completed, session_started, startup_failed,
}
use sinfonia.Daemon.Orchestrator.Runner.{
  Attempt, attempt_at, RunError, Outcome, done, failed, HookKind, after_create, before_run,
  after_run, TurnAnswer, completed, turn_error, timed_out, input_required, broken, Step, ran_hook,
  ran_turn, read_state, stopped_session, sent, Workspace, Surroundings, exit_reason_for,
  accumulate_usage, Progress, did, prompt_for, ends_here, refreshed, turn_ended, prompted, one_turn,
  behind_turn, run_turns, run_after, after_run_best_effort, finish_session, started, with_agent,
  if_hook_succeeds, hooked, at_start, placed, run_agent_attempt,
}
use sinfonia.Daemon.Orchestrator.Runner.Counts.{
  is_run, is_answered, add_usage, runs_in, answers_in, usage_from, no_usage, Told, Told-snoc,
  Told-other, Next,
}

module _ (attempt : Attempt) (id : String) where
  open attempt use {around, cfg, llm}

  abbrev Kept : ℕ → Progress → Type 0
  Kept bound p = (p.issue.id ≡ id) × Told bound p.turn_count p.session_total p.steps

  Kept-other :
      (bound : ℕ) (p : Progress) (s : Step)
      → is_run s ≡ 0
      → is_answered s ≡ 0
      → add_usage s p.session_total ≡ p.session_total
      → Kept bound p
      → Kept bound (did s p)
  Kept-other bound p s i j u k =
      (k.0, Told-other bound p.turn_count p.session_total p.steps s i j u k.1)

  either-Kept :
      (b : Bool) (bound : ℕ) (r s : Outcome (Unit {0}) × Progress)
      → Kept bound r.1
      → Kept bound s.1
      → Kept bound (if b then r else s).1
  either-Kept true bound r s k l = k
  either-Kept false bound r s k l = l

  refreshed-Kept :
      (turn bound : ℕ) (o : Outcome (List String)) (p : Progress)
      → Kept bound p
      → p.turn_count ≡ turn
      → let r = refreshed attempt o p in Kept bound r.1 × Next turn r
  refreshed-Kept turn bound (failed e) p k c = (k, tt)
  refreshed-Kept turn bound (done states) p k c = (k, c)

  -- A turn that was run, with the count the progress then has
  grown :
      (answer : TurnAnswer) (prompt : String) (turn bound : ℕ) (p : Progress) {turns : ℕ}
      → Kept bound p
      → p.turn_count + is_answered (ran_turn turn prompt answer) ≡ turns
      → Told
          (suc bound)
          turns
          (add_usage (ran_turn turn prompt answer) p.session_total)
          (p.steps ++ ran_turn turn prompt answer ∷ [])
  grown answer prompt turn bound p {turns} k c =
      let s = ran_turn turn prompt answer in
      let (a, u, r) = Told-snoc bound p.turn_count p.session_total p.steps s k.1 in
      (omega (arith, a, c), u, omega (arith, r))

  turn_ended-Kept :
      (answer : TurnAnswer) (prompt : String) (turn bound : ℕ) (p : Progress)
      → Kept bound p
      → suc p.turn_count ≡ turn
      → let r = turn_ended attempt answer turn (did (ran_turn turn prompt answer) p) in
        Kept (suc bound) r.1 × Next turn r
  turn_ended-Kept (broken e) prompt turn bound p k c =
      ((k.0, grown (broken e) prompt turn bound p k (omega arith)), tt)
  turn_ended-Kept (turn_error m) prompt turn bound p k c =
      ((k.0, grown (turn_error m) prompt turn bound p k (omega (arith, c))), tt)
  turn_ended-Kept timed_out prompt turn bound p k c =
      ((k.0, grown timed_out prompt turn bound p k (omega (arith, c))), tt)
  turn_ended-Kept input_required prompt turn bound p k c =
      ((k.0, grown input_required prompt turn bound p k (omega (arith, c))), tt)
  turn_ended-Kept (completed usage) prompt turn bound p k c =
      let q = record (did (ran_turn turn prompt (completed usage)) p) {
        turn_count = turn;
        session_total = accumulate_usage p.session_total usage;
      } in
      refreshed-Kept turn (suc bound) (around.fetch_states q.steps) (did read_state q)
        (Kept-other (suc bound) q read_state refl refl refl
          (k.0, grown (completed usage) prompt turn bound p k (omega (arith, c))))
        refl

  Kept-later : (bound n : ℕ) (p : Progress) → Kept bound p → bound ≤ n → Kept n p
  Kept-later bound n p (i, (a, u, r)) le = (i, (a, u, omega (arith, r, le)))

  prompted-Kept :
      (o : Outcome String) (turn bound : ℕ) (p : Progress)
      → Kept bound p
      → suc p.turn_count ≡ turn
      → let r = prompted attempt o turn p in Kept (suc bound) r.1 × Next turn r
  prompted-Kept (failed e) turn bound p k c = (Kept-later bound (suc bound) p k (omega arith), tt)
  prompted-Kept (done prompt) turn bound p k c =
      turn_ended-Kept (around.run_turn p.steps) prompt turn bound p k c

  behind_turn-Kept :
      (turn bound : ℕ) (prior_state : String) (r later : Outcome (Unit {0}) × Progress)
      → Kept bound r.1
      → (r.1.turn_count ≡ turn → Kept bound later.1)
      → Next turn r
      → Kept bound (behind_turn attempt turn prior_state r later).1
  behind_turn-Kept turn bound prior_state (failed e, q) later k l n = k
  behind_turn-Kept turn bound prior_state (done _, q) later k l n =
      either-Kept (ends_here attempt turn prior_state q.issue) bound (done tt, q) later k (l n)

  run_turns-Kept :
      (left turn bound : ℕ) (p : Progress)
      → Kept bound p
      → suc p.turn_count ≡ turn
      → Kept (bound + left) (run_turns attempt left turn p).1
  unfolding run_turns
  run_turns-Kept zero turn bound p k c = Kept-later bound (bound + 0) p k (omega arith)
  run_turns-Kept (suc left) turn bound p k c =
      let o = prompt_for attempt p.issue turn in
      let r = one_turn attempt turn p in
      let (grew, counted) = prompted-Kept o turn bound p k c in
      behind_turn-Kept turn (bound + suc left) p.issue.state r
        (run_turns attempt left (suc turn) r.1)
        (Kept-later (suc bound) (bound + suc left) r.1 grew (omega arith))
        (λ n.
          Kept-later (suc bound + left) (bound + suc left) (run_turns attempt left (suc turn) r.1).1
            (run_turns-Kept left (suc turn) (suc bound) r.1 grew (ap suc n)) (omega arith))
        counted

  first_turns :
      (left : ℕ) (p : Progress)
      → Kept 0 p
      → suc p.turn_count ≡ 1
      → Kept left (run_turns attempt left 1 p).1
  first_turns left p k c =
      let q = (run_turns attempt left 1 p).1 in
      Kept-later (0 + left) left q (run_turns-Kept left 1 0 p k c) (omega arith)

  run_after-Kept :
      (hook : Option String) (bound : ℕ) (p : Progress)
      → Kept bound p
      → Kept bound (run_after attempt hook p)
  run_after-Kept none bound p k = k
  run_after-Kept (some script) bound p k = Kept-other bound p (ran_hook after_run) refl refl refl k

  -- The event that a session with these turns and these tokens calls for
  abbrev event_of : String → ℕ → Outcome (Unit {0}) → Issue → ℕ → ℕ → TokenUsage → AgentEvent
  event_of thread duration_ms outcome issue at turns total =
      session_completed at thread issue.id issue.identifier issue.state
        (debug_provider llm.provider) llm.model turns total.input_tokens total.output_tokens
        total.total_tokens duration_ms (exit_reason_for outcome)

  -- The last of the steps tells of the turns and tokens in those before it.
  abbrev Closed : ℕ → Outcome (Unit {0}) × List Step → Type 0
  Closed duration_ms (outcome, steps) =
      (before : List Step) × (issue : Issue) × (thread : String) × (at : ℕ) × (steps
        ≡ before
          ++ sent (
              event_of thread duration_ms outcome issue at (answers_in before)
                (usage_from no_usage before))
            ∷ [])
      × (issue.id ≡ id)
      × (runs_in before ≤ max cfg.agent.max_turns 1)

  -- No session: an error, and no turn
  abbrev Unstarted : Outcome (Unit {0}) × List Step → Type 0
  Unstarted (outcome, steps) = (e : RunError) × (outcome ≡ failed e) × (runs_in steps ≡ 0)

  finish_session-Closed :
      (thread : String) (duration_ms : ℕ) (r : Outcome (Unit {0}) × Progress)
      → Kept (max cfg.agent.max_turns 1) r.1
      → Closed duration_ms (finish_session attempt thread duration_ms r)
  unfolding finish_session
  finish_session-Closed thread duration_ms (outcome, p) k =
      let q = after_run_best_effort attempt (did stopped_session p) in
      let event = λ (turns : ℕ) (total : TokenUsage).
        q.steps
        ++ sent (event_of thread duration_ms outcome q.issue (around.now q.steps) turns total)
          ∷ [] in
      let (i, (a, u, r)) =
        run_after-Kept cfg.hooks.after_run (max cfg.agent.max_turns 1) (did stopped_session p)
          (Kept-other (max cfg.agent.max_turns 1) p stopped_session refl refl refl k) in
      (
        q.steps,
        q.issue,
        thread,
        around.now q.steps,
        ap (λ n. event (n) q.session_total) (sym a) ∙ ap (event (answers_in q.steps)) (sym u),
        i,
        r,
      )

  -- What an attempt comes to
  abbrev pub Ended : ℕ → Outcome (Unit {0}) × List Step → Type 0
  Ended duration_ms r = Unstarted r ⊎ Closed duration_ms r

  started-Ended :
      (o : Outcome String) (p : Progress) (duration_ms : ℕ)
      → Kept 0 p
      → p.turn_count ≡ 0
      → Ended duration_ms (started attempt o p duration_ms)
  started-Ended (failed e) p duration_ms k z =
      let failing = sent (startup_failed (around.now p.steps) (around.error_text e)) in
      let (i, (a, u, r)) =
        run_after-Kept cfg.hooks.after_run 0 (did failing p)
          (Kept-other 0 p failing refl refl refl k) in
      inl (e, refl, omega (arith, r))
  started-Ended (done thread) p duration_ms k z =
      let starting = sent (session_started (around.now p.steps) thread none) in
      inr (
        finish_session-Closed thread duration_ms
          (run_turns attempt (max cfg.agent.max_turns 1) 1 (did starting p))
          (first_turns (max cfg.agent.max_turns 1) (did starting p)
            (Kept-other 0 p starting refl refl refl k) (ap suc z)))

  with_agent-Ended :
      (o : Outcome (Unit {0})) (p : Progress) (duration_ms : ℕ)
      → Kept 0 p
      → p.turn_count ≡ 0
      → Ended duration_ms (with_agent attempt o p duration_ms)
  with_agent-Ended (failed e) p duration_ms (i, (a, u, r)) z = inl (e, refl, omega (arith, r))
  with_agent-Ended (done _) p duration_ms k z =
      started-Ended (around.start_session p.steps) p duration_ms k z

  if_hook_succeeds-Ended :
      (o : Outcome (Unit {0})) (p : Progress) (duration_ms : ℕ)
      (next : Progress → Outcome (Unit {0}) × List Step)
      → Kept 0 p
      → Ended duration_ms (next p)
      → Ended duration_ms (if_hook_succeeds attempt o p next)
  if_hook_succeeds-Ended (failed e) p duration_ms next (i, (a, u, r)) h =
      inl (e, refl, omega (arith, r))
  if_hook_succeeds-Ended (done _) p duration_ms next k h = h

  hooked-Ended :
      (hook : Option String) (kind : HookKind) (p : Progress) (duration_ms : ℕ)
      (next : Progress → Outcome (Unit {0}) × List Step)
      → Kept 0 p
      → p.turn_count ≡ 0
      → ((q : Progress) → Kept 0 q → q.turn_count ≡ 0 → Ended duration_ms (next q))
      → Ended duration_ms (hooked attempt hook kind p next)
  hooked-Ended none kind p duration_ms next k z h = h p k z
  hooked-Ended (some script) kind p duration_ms next k z h =
      let grew = Kept-other 0 p (ran_hook kind) refl refl refl k in
      if_hook_succeeds-Ended (around.run_hook p.steps kind) (did (ran_hook kind) p) duration_ms next
        grew (h (did (ran_hook kind) p) grew z)

  placed-Ended :
      (o : Outcome Workspace) (issue : Issue) (duration_ms : ℕ)
      → issue.id ≡ id
      → Ended duration_ms (placed attempt o issue duration_ms)
  placed-Ended (failed e) issue duration_ms same = inl (e, refl, refl)
  placed-Ended (done ws) issue duration_ms same =
      let before = λ (q : Progress). with_agent attempt (around.build_for llm) q duration_ms in
      hooked-Ended (if ws.created_now then cfg.hooks.after_create else none) after_create
        (at_start attempt issue) duration_ms
        (λ p. hooked attempt cfg.hooks.before_run before_run p before)
        (same, (refl, refl, omega arith)) refl
        (λ p k z.
          hooked-Ended cfg.hooks.before_run before_run p duration_ms before k z
            (λ q k' z'. with_agent-Ended (around.build_for llm) q duration_ms k' z'))

-- An attempt that ends has failed without a turn, or the last it does is to send the event of its session, for the same
-- issue: the event's turns are those the agent answered, its tokens the (saturating) sum over the turns completed, its
-- exit reason that of the outcome; no more turns are run than `agent.max_turns`, or 1 where that is 0.
pub run_agent_attempt-Ended :
    (to_lowercase : String → String) (env_var : String → Option String) (around : Surroundings)
    (cfg : ServiceConfig) (workflow : String) (initial_attempt : Option ℕ) (duration_ms : ℕ)
    (issue : Issue)
    → Ended
        (attempt_at to_lowercase env_var around cfg workflow initial_attempt issue)
        issue.id
        duration_ms
        (run_agent_attempt to_lowercase env_var around cfg workflow initial_attempt duration_ms
          issue)
unfolding run_agent_attempt
run_agent_attempt-Ended to_lowercase env_var around cfg workflow initial_attempt duration_ms issue =
    placed-Ended (attempt_at to_lowercase env_var around cfg workflow initial_attempt issue)
      issue.id (around.ensure_for_issue issue.identifier) issue duration_ms refl
