-- ===== src/Bridge/Feedback/Evaluate/Outcomes.antt =====
-- What the outcome of an evaluation says of the checks.
use sinfonia.Base.{
  zero, suc, ◌+◌, min, u32_max, unwrap_or, is_some, subst, sym, ℕ, ◌≤◌, ◌≡◌, refl, String, true,
  false, not, Option, none, some, List, arith,
}
use sinfonia.Domain.{CustomFieldValue}
use sinfonia.Bridge.Types.{
  Result, ok, err, CheckRunSummary, FailureCategory, BridgeConfig, is_green, required_failed,
}
use sinfonia.Bridge.World.{
  Call, sql, continue, note, read_custom_field, ask_field, execute, commit, Environment, World,
  Action, ◌>>=◌, pure,
}
use sinfonia.Bridge.World.Triple.{
  Triple, Outcome, bind_triple, pure_triple, raise_triple, if_triple, any_triple, weaken_triple,
}
use sinfonia.Bridge.Store.{ticket_of, lookup_pr_ticket}
use sinfonia.Bridge.Labels.{LabelManager}
use sinfonia.Bridge.Feedback.Attempts.{
  AttemptDecision, continue_retrying, cap_hit, decide, field_u32, effective_max, read_u32,
  read_and_decide,
}
use sinfonia.Bridge.Feedback.Categorize.{categorize}
use sinfonia.Bridge.Feedback.Transition.{RedContext}
use sinfonia.Bridge.Feedback.Evaluate.{
  CiOutcome, no_mapped_pr, pending, green, red, capped, apply_decision, red_path, green_path,
  evaluate_ticket, evaluate_one_pr,
}

-- A field of a ticket as the tracker answered it, as a number if it has one
abbrev pub Read : Environment → String → String → Option ℕ → Type 0
Read env ticket key o =
    (calls : List Call) × (v : CustomFieldValue) × (env.field calls ticket key ≡ ok v)
    × (field_u32 v ≡ o)

-- The cap: that of the ticket, where it has one above 0, and else that of the configuration
abbrev pub IsCap : ℕ → Option ℕ → ℕ → Type 0
IsCap config_max none max = max ≡ config_max
IsCap config_max (some zero) max = max ≡ config_max
IsCap config_max (some (suc n)) max = max ≡ suc n

abbrev pub Capped : Environment → BridgeConfig → String → ℕ → Type 0
Capped env cfg ticket max =
    (o : Option ℕ) × Read env ticket cfg.custom_fields.max_attempts_override o
    × IsCap cfg.feedback_loop.max_attempts o max

-- The attempts that were counted before, none where the ticket has no count
abbrev pub Counted : Environment → BridgeConfig → String → ℕ → Type 0
Counted env cfg ticket prior =
    (o : Option ℕ) × Read env ticket cfg.custom_fields.attempt_count o × (unwrap_or o 0 ≡ prior)

-- What a decision says of the count and the cap
abbrev Decided : AttemptDecision → ℕ → ℕ → Type 0
Decided (continue_retrying next) prior max = (next ≡ min (prior + 1) u32_max) × (next ≤ max)
Decided (cap_hit stayed_at m) prior max = (m ≡ max) × (stayed_at ≡ prior) × (max ≤ stayed_at)

decide-Decided : (prior max : ℕ) → Decided (decide prior max) prior max
unfolding decide
decide-Decided prior max = ground arith

-- The outcome, against the ticket, the checks, the configuration and the fields of the ticket
abbrev pub Fits : Environment → BridgeConfig → Option String → CheckRunSummary → CiOutcome → Type 0
Fits env cfg mapped s no_mapped_pr = mapped ≡ none
Fits env cfg mapped s pending =
    (is_some mapped ≡ true)
    × (is_green s cfg.feedback_loop.required_checks ≡ false)
    × (required_failed s cfg.feedback_loop.required_checks ≡ false)
Fits env cfg mapped s green =
    (is_some mapped ≡ true) × (is_green s cfg.feedback_loop.required_checks ≡ true)
Fits env cfg mapped s (red category next_attempt max_attempts target_state) =
    (ticket : String) × (mapped ≡ some ticket)
    × (is_green s cfg.feedback_loop.required_checks ≡ false)
    × (required_failed s cfg.feedback_loop.required_checks ≡ true)
    × Capped env cfg ticket max_attempts
    × ((prior : ℕ) × Counted env cfg ticket prior × (next_attempt ≡ min (prior + 1) u32_max))
    × (next_attempt ≤ max_attempts)
    × ((c : FailureCategory) × (categorize s.failed cfg.feedback_loop.failure_categories ≡ some c)
        × (category ≡ c.name)
        × (target_state ≡ c.target_state))
Fits env cfg mapped s (capped stayed_at max) =
    (ticket : String) × (mapped ≡ some ticket)
    × (is_green s cfg.feedback_loop.required_checks ≡ false)
    × (required_failed s cfg.feedback_loop.required_checks ≡ true)
    × Capped env cfg ticket max
    × Counted env cfg ticket stayed_at
    × (max ≤ stayed_at)

-- What the red path is told
record Known (env : Environment) (cfg : BridgeConfig) (ticket : String) (s : CheckRunSummary)
    (prior max : ℕ) (decision : AttemptDecision) : Type 0 where
  pub not_green : is_green s cfg.feedback_loop.required_checks ≡ false
  pub failed : required_failed s cfg.feedback_loop.required_checks ≡ true
  pub cap : Capped env cfg ticket max
  pub count : Counted env cfg ticket prior
  pub decided : Decided decision prior max

effective_max-IsCap :
    (o : Option ℕ) (config_max : ℕ) → IsCap config_max o (effective_max o config_max)
unfolding effective_max
effective_max-IsCap none config_max = refl
effective_max-IsCap (some zero) config_max = refl
effective_max-IsCap (some (suc n)) config_max = ground arith

module _ (env : Environment) (cfg : BridgeConfig) (labels : LabelManager)
    (render : String → ℕ → ℕ → String → List String → String → String → String → String)
    (fetch_digest : String → ℕ → String → World → Option String × World) where
  abbrev AnyWorld : World → Type 0
  AnyWorld w = Unit {0}

  then_pure :
      {A B : Type 0} {Q : B → Type 0} (m : Action A) (b : B)
      → Q b
      → Triple AnyWorld (m >>= λ _. pure b) (λ b _. Q b) AnyWorld
  then_pure m b q =
      bind_triple (any_triple m)
        (λ _. weaken_triple (λ w p. q) (λ b w h. h) (λ w e. e) (pure_triple b))

  -- What is known of a value stays known.
  keep_value :
      {A B : Type 0} {Q : B → Type 0} (m : Action A) (b : B)
      → Triple (λ _. Q b) (m >>= λ _. pure b) (λ b _. Q b) AnyWorld
  keep_value {A} {B} {Q} m b = record { run = λ w q. (then_pure {Q = Q} m b q).run w tt }

  apply_decision-Fits :
      (ctx : RedContext) (ticket : String) (s : CheckRunSummary) (category : FailureCategory)
      (prior max_attempts : ℕ) (text : String) (decision : AttemptDecision)
      → Known env cfg ticket s prior max_attempts decision
      → categorize s.failed cfg.feedback_loop.failure_categories ≡ some category
      → Triple AnyWorld
          (apply_decision env cfg labels render fetch_digest ctx category max_attempts text
            decision)
          (λ o _. Fits env cfg (some ticket) s o)
          AnyWorld
  unfolding apply_decision
  apply_decision-Fits ctx ticket s category prior max_attempts text (continue_retrying next) k e =
      then_pure {Q = Fits env cfg (some ticket) s} _
        (red category.name next max_attempts category.target_state)
        (
          ticket,
          refl,
          k.not_green,
          k.failed,
          k.cap,
          (prior, k.count, k.decided.0),
          k.decided.1,
          (category, e, refl, refl),
        )
  apply_decision-Fits ctx ticket s category prior max_attempts text (cap_hit stayed_at m) k e =
      then_pure {Q = Fits env cfg (some ticket) s} _ (capped stayed_at m) (
        ticket,
        refl,
        k.not_green,
        k.failed,
        subst (Capped env cfg ticket) (sym k.decided.0) k.cap,
        subst (Counted env cfg ticket) (sym k.decided.1) k.count,
        omega (arith, k.decided.0, k.decided.2),
      )

  red_path-Fits :
      (repo : String) (pr_number : ℕ) (ticket_id : String) (s : CheckRunSummary) (run_id : Option ℕ)
      (prior max_attempts : ℕ) (decision : AttemptDecision) (category : Option FailureCategory)
      → Known env cfg ticket_id s prior max_attempts decision
      → categorize s.failed cfg.feedback_loop.failure_categories ≡ category
      → Triple AnyWorld
          (red_path env cfg labels render fetch_digest repo pr_number ticket_id s run_id
            (prior, max_attempts, decision)
            category)
          (λ o _. Fits env cfg (some ticket_id) s o)
          AnyWorld
  unfolding red_path
  red_path-Fits repo pr_number ticket_id s run_id prior max_attempts decision none k e =
      raise_triple _
  red_path-Fits repo pr_number ticket_id s run_id prior max_attempts decision (some category) k e =
      bind_triple (any_triple _) (λ texts.
        bind_triple
          (apply_decision-Fits _ ticket_id s category prior max_attempts texts.0 decision k e)
          (λ outcome. keep_value {Q = Fits env cfg (some ticket_id) s} _ outcome))

  -- A field that is read
  read_u32-Read :
      (ticket key : String)
      → Triple AnyWorld (read_u32 env ticket key) (λ o _. Read env ticket key o) AnyWorld
  unfolding read_u32 ask_field ◌>>=◌ pure
  read_u32-Read ticket key = record { run = λ w p. answer w (env.field w.calls ticket key) refl }
    where
      answer :
          (w : World) (r : Result CustomFieldValue)
          → env.field w.calls ticket key ≡ r
          → let q = continue r (λ v. pure (field_u32 v)) (note w (read_custom_field ticket key)) in
            Outcome (λ o (_ : World). Read env ticket key o) AnyWorld q.0 q.1
      answer w (ok v) e = (w.calls, v, e, refl)
      answer w (err x) e = tt

  -- What is known stays known while more is read.
  given :
      {A : Type 0} {K : Type 0} {m : Action A} {Q : A → World → Type 0}
      → (K → Triple AnyWorld m Q AnyWorld)
      → Triple (λ _. K) m Q AnyWorld
  given f = record { run = λ w k. (f k).run w tt }

  -- The count, the cap and the decision on them
  read_and_decide-Known :
      (ticket : String) (s : CheckRunSummary)
      → is_green s cfg.feedback_loop.required_checks ≡ false
      → required_failed s cfg.feedback_loop.required_checks ≡ true
      → Triple AnyWorld
          (read_and_decide env ticket cfg.custom_fields.attempt_count
            cfg.custom_fields.max_attempts_override cfg.feedback_loop.max_attempts)
          (λ r _. Known env cfg ticket s r.0 r.1 r.2)
          AnyWorld
  unfolding read_and_decide
  read_and_decide-Known ticket s not_green failed =
      bind_triple (read_u32-Read ticket cfg.custom_fields.attempt_count) (λ count. given (λ counted.
        bind_triple (read_u32-Read ticket cfg.custom_fields.max_attempts_override) (λ per_ticket.
          given (λ told.
            weaken_triple
              (λ w p. record {
                not_green = not_green;
                failed = failed;
                cap = (
                  per_ticket,
                  told,
                  effective_max-IsCap per_ticket cfg.feedback_loop.max_attempts,
                );
                count = (count, counted, refl);
                decided = decide-Decided _ _;
              })
              (λ a w h. h) (λ w e. e) (pure_triple _)))))

  evaluate_ticket-Fits :
      (repo : String) (pr_number : ℕ) (s : CheckRunSummary) (run_id : Option ℕ)
      (ticket : Option String)
      → Triple AnyWorld
          (evaluate_ticket env cfg labels render fetch_digest repo pr_number s run_id ticket)
          (λ o _. Fits env cfg ticket s o)
          AnyWorld
  unfolding evaluate_ticket green_path
  evaluate_ticket-Fits repo pr_number s run_id none =
      weaken_triple (λ w p. refl) (λ a w h. h) (λ w e. e) (pure_triple no_mapped_pr)
  evaluate_ticket-Fits repo pr_number s run_id (some ticket_id) =
      if_triple (is_green s cfg.feedback_loop.required_checks)
        (λ is_green.
          bind_triple (any_triple _)
            (λ _. then_pure {Q = Fits env cfg (some ticket_id) s} _ green (refl, is_green)))
        (λ not_green.
          if_triple (not (required_failed s cfg.feedback_loop.required_checks))
            (λ none_failed.
              weaken_triple (λ w p. (refl, not_green, ground (arith, none_failed))) (λ a w h. h)
                (λ w e. e) (pure_triple pending))
            (λ some_failed.
              bind_triple
                (read_and_decide-Known ticket_id s not_green (ground (arith, some_failed)))
                (λ decided. record {
                  run = λ w d.
                      (red_path-Fits repo pr_number ticket_id s run_id decided.0 decided.1 decided.2
                          (categorize s.failed cfg.feedback_loop.failure_categories) d refl).run
                        w tt;
                })))

  -- The ticket is the one that the tables have.
  lookup_pr_ticket-mapped :
      (repo : String) (pr_number : ℕ) (m : Option String)
      → Triple
          (λ w. ticket_of repo pr_number w.tables.pr_ticket_map ≡ m)
          (lookup_pr_ticket env repo pr_number)
          (λ t _. t ≡ m)
          AnyWorld
  unfolding lookup_pr_ticket execute
  lookup_pr_ticket-mapped repo pr_number m = record {
    run = λ w p. answer w p (env.perform w.calls (sql "lookup_pr_ticket"));
  }
    where
      answer :
          (w : World) (p : ticket_of repo pr_number w.tables.pr_ticket_map ≡ m)
          (r : Result (Unit {0}))
          → let q =
              commit
                (env.now w.calls)
                "lookup_pr_ticket"
                (λ now t. (ok (ticket_of repo pr_number t.pr_ticket_map), t))
                w
                r in
            Outcome (λ t (_ : World). t ≡ m) AnyWorld q.0 q.1
      answer w p (ok _) = p
      answer w p (err e) = tt

  -- An outcome that an evaluation reports agrees with the tables and the checks: the pull request has
  -- no ticket in the tables, or else the outcome is green where the checks are green, red or capped
  -- only where a gating check failed, and pending only where neither is. It is red with the category
  -- of the failed checks and with one attempt more than the ticket's field has, not above the cap, and
  -- capped where the field is at or above the cap; the cap is the ticket's own field where that is
  -- above 0, and else that of the configuration.
  pub evaluate_one_pr-Fits :
      (repo : String) (pr_number : ℕ) (s : CheckRunSummary) (run_id : Option ℕ) (w : World)
      → let r = evaluate_one_pr env cfg labels render fetch_digest repo pr_number s run_id w in
        Outcome
          (λ o _. Fits env cfg (ticket_of repo pr_number w.tables.pr_ticket_map) s o)
          (λ _. Unit {0})
          r.0
          r.1
  unfolding evaluate_one_pr
  evaluate_one_pr-Fits repo pr_number s run_id w =
      let mapped = ticket_of repo pr_number w.tables.pr_ticket_map in
      (bind_triple {R = λ o _. Fits env cfg mapped s o} {E = AnyWorld}
          (lookup_pr_ticket-mapped repo pr_number mapped)
          (λ ticket. given (λ same.
            subst
              (λ t.
                Triple AnyWorld
                  (evaluate_ticket env cfg labels render fetch_digest repo pr_number s run_id
                    ticket)
                  (λ o _. Fits env cfg t s o) AnyWorld)
              same (evaluate_ticket-Fits repo pr_number s run_id ticket)))).run
        w refl
