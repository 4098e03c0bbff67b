-- ===== src/Daemon/Orchestrator/Core/Ownership.antt =====
-- Who owns an issue: a run, a pending retry, or nobody, and the claims that go with it.
use sinfonia.Base.{
  ℕ, ◌≡◌, String, Bool, true, false, Option, none, some, [], lookup, insert, member, set_insert,
  lookup-insert, lookup-remove, member-insert, eq_iff, eq_refl, if◌then◌else◌, arith, inl, inr,
  subst, sym, ◌⊎◌,
}
use sinfonia.Domain.{Issue, RunningEntry, RetryEntry, OrchestratorState}
use sinfonia.Daemon.Config.{ServiceConfig}
use sinfonia.Daemon.Orchestrator.Effects.{Run, is_dispatched, DispatchOutcome}
use sinfonia.Daemon.Orchestrator.Retries.{schedule}
use sinfonia.Daemon.Orchestrator.Core.{dispatch_one, start_run, drop_run, new_entry}

pub record IsOwned (s : OrchestratorState) : Type 0 where
  pub run_claimed :
      (id : String) (r : RunningEntry)
      → lookup id s.running ≡ some r
      → (member id s.claimed ≡ true) × (r.issue_id ≡ id) × (lookup id s.retry_attempts ≡ none)
  pub retry_claimed :
      (id : String) (e : RetryEntry)
      → lookup id s.retry_attempts ≡ some e
      → (member id s.claimed ≡ true) × (e.issue_id ≡ id)

pub if-IsOwned : (b : Bool) (x y : Run) → IsOwned x.0 → IsOwned y.0 → IsOwned (if b then x else y).0
if-IsOwned true x y p q = p
if-IsOwned false x y p q = q

-- A retry is scheduled for an issue that does not run.
pub schedule-IsOwned :
    (s : OrchestratorState) (e : RetryEntry)
    → IsOwned s
    → lookup e.issue_id s.running ≡ none
    → IsOwned (schedule s e).0
unfolding schedule
schedule-IsOwned s e h idle = record {
  run_claimed = λ id r p.
      rw (lookup-insert, member-insert)
        (ground (arith, h.run_claimed id r p, eq_iff e.issue_id id));
  retry_claimed = λ id x p.
      rw member-insert
        (ground (arith, h.retry_claimed id x, eq_iff e.issue_id id, rw lookup-insert at p));
}

-- A run that ends is owned by nobody, its claim is kept for what follows.
pub drop_run-IsOwned :
    (s : OrchestratorState) (id : String) (from to : ℕ)
    → IsOwned s
    → IsOwned (drop_run s id from to) × (lookup id (drop_run s id from to).running ≡ none)
drop_run-IsOwned s id from to h = (
  record {
    run_claimed = λ j r p. h.run_claimed j r (ground (arith, lookup-remove id j s.running, p));
    retry_claimed = h.retry_claimed;
  },
  ground (arith, lookup-remove id id s.running, eq_refl id),
)

-- An update of a run that keeps its issue's id.
pub update_run-IsOwned :
    (s : OrchestratorState) (id : String) (r r' : RunningEntry)
    → IsOwned s
    → lookup id s.running ≡ some r
    → r'.issue_id ≡ r.issue_id
    → IsOwned (record s { running = insert id r' s.running })
update_run-IsOwned s id r r' h e same = record {
  run_claimed = λ j x p. ground (
    arith,
    lookup-insert id j r' s.running,
    p,
    same,
    eq_iff id j,
    h.run_claimed id r e,
    h.run_claimed j x,
  );
  retry_claimed = h.retry_claimed;
}

module _ (to_lowercase : String → String) (workspace_path_for : String → String) where
  -- The run of an issue that is claimed, in place of a pending retry.
  pub start_run-IsOwned :
      (now : ℕ) (issue : Issue) (attempt : Option ℕ) (s : OrchestratorState)
      → IsOwned s
      → member issue.id s.claimed ≡ true
      → IsOwned (start_run to_lowercase workspace_path_for now issue attempt s).0.0
  unfolding start_run
  start_run-IsOwned now issue attempt s h c = record {
    run_claimed = λ id r p. ground (
      arith,
      c,
      p,
      h.run_claimed id r,
      eq_iff issue.id id,
      lookup-remove issue.id id s.retry_attempts,
      lookup-insert issue.id id (new_entry to_lowercase workspace_path_for now issue attempt)
          s.running,
    );
    retry_claimed = λ id e p.
        h.retry_claimed id e (ground (arith, lookup-remove issue.id id s.retry_attempts, p));
  }

  pub claim-IsOwned :
      (s : OrchestratorState) (id : String)
      → IsOwned s
      → IsOwned (record s { claimed = set_insert id s.claimed })
  claim-IsOwned s id h = record {
    run_claimed = λ j r p.
        let (a, b, d) = h.run_claimed j r p in
        (ground (arith, member-insert id j s.claimed, a), b, d);
    retry_claimed = λ j e p.
        let (a, b) = h.retry_claimed j e p in (ground (arith, member-insert id j s.claimed, a), b);
  }

  -- A dispatch changes nothing, or starts the run of an issue that it claims.
  pub dispatch_one-cases :
      (cfg : ServiceConfig) (now : ℕ) (issue : Issue) (attempt : Option ℕ) (s : OrchestratorState)
      → let r = dispatch_one to_lowercase workspace_path_for cfg now issue attempt s in
        ((r.0 ≡ (s, [])) × (is_dispatched r.1 ≡ false))
        ⊎ (r
            ≡ start_run to_lowercase workspace_path_for now issue attempt
                (record s { claimed = set_insert issue.id s.claimed }))
  unfolding dispatch_one start_run set_insert
  dispatch_one-cases cfg now issue attempt s = ground arith

  pub dispatch_one-IsOwned :
      (cfg : ServiceConfig) (now : ℕ) (issue : Issue) (attempt : Option ℕ) (s : OrchestratorState)
      → IsOwned s
      → IsOwned (dispatch_one to_lowercase workspace_path_for cfg now issue attempt s).0.0
  dispatch_one-IsOwned cfg now issue attempt s h =
      elim (dispatch_one-cases cfg now issue attempt s) [
        | inl e ↦ subst (λ (r : Run). IsOwned r.0) (sym e.0) h
        | inr e ↦
            subst (λ (r : Run × DispatchOutcome). IsOwned r.0.0) (sym e)
              (start_run-IsOwned now issue attempt _ (claim-IsOwned s issue.id h)
                (ground (arith, member-insert issue.id issue.id s.claimed, eq_refl issue.id)))
      ]
