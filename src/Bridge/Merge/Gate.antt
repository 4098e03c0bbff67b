-- ===== src/Bridge/Merge/Gate.antt =====
-- What lands was green: every merge follows the checks of the head that it merges.
use sinfonia.Base.{
  ℕ, ◌≡◌, refl, sym, subst, ap, String, true, false, not, List, [], ◌∷◌, ◌++◌, arith, inl,
}
use sinfonia.Bridge.Types.{
  Result, ok, err, CheckRunSummary, PrLanding, LandingRow, BridgeConfig, awaiting_ci, is_green,
}
use sinfonia.Bridge.World.{
  Environment, Call, World, note, sql, list_check_run_summary, merge_pr, ask_summary, ask_merge,
}
use sinfonia.Bridge.World.Triple.{
  Triple, Outcome, bind_triple, if_triple, execute_triple, weaken_triple, any_answer,
}
use sinfonia.Bridge.Store.{enqueue_landing, advance_landing, dequeue_landing}
use sinfonia.Bridge.Labels.{LabelManager}
use sinfonia.Bridge.Merge.{advance_ready, after_summary, merge_green}
use sinfonia.Bridge.Merge.Stable.{
  IsStable, IsQuiet, is_merge, After, after_merge-Stable, rearm-Stable, finish-Stable,
}
use sinfonia.Bridge.Merge.Events.{Event, serve, IsInvariant}
use sinfonia.Bridge.Merge.Events.Handlers.{serve-keeps}
use sinfonia.Bridge.Merge.Queue.{every}

-- A history of calls in which every merge comes right after the checks of its head, which were
-- complete and green, with only the status of the landing written between.
pub data IsGated (env : Environment) (cfg : BridgeConfig) : List Call → Type 0 where
  start : IsGated env cfg []
  other :
      (calls : List Call) (c : Call)
      → is_merge c ≡ false
      → IsGated env cfg calls
      → IsGated env cfg (calls ++ c ∷ [])
  landed :
      (calls : List Call) (repo : String) (pr : ℕ) (sha : String) (s : CheckRunSummary)
      → IsGated env cfg calls
      → env.summary calls repo sha ≡ ok s
      → s.any_pending ≡ false
      → is_green s cfg.feedback_loop.required_checks ≡ true
      → IsGated env cfg (
          ((calls ++ list_check_run_summary repo sha ∷ []) ++ sql "advance_landing" ∷ [])
          ++ merge_pr repo pr cfg.feedback_loop.merge_coordinator.merge_method sha ∷ [])

abbrev pub Gated : Environment → BridgeConfig → World → Type 0
Gated env cfg w = IsGated env cfg w.calls

module _ (env : Environment) (cfg : BridgeConfig) (labels : LabelManager) where
  Gated-quiet : IsQuiet (Gated env cfg)
  Gated-quiet c e w p = other w.calls c e p

  Gated-stable : (l : LandingRow) → IsStable env cfg labels l (Gated env cfg) (Gated env cfg)
  unfolding advance_landing dequeue_landing is_merge
  Gated-stable l = record {
    quiet = Gated-quiet;
    advance = λ status sha a next.
        execute_triple env "advance_landing" _ (Gated-quiet (sql "advance_landing") refl)
          (Gated-quiet (sql "advance_landing") refl);
    dequeue =
        execute_triple env "dequeue_landing" _ (Gated-quiet (sql "dequeue_landing") refl)
          (Gated-quiet (sql "dequeue_landing") refl);
  }

  -- The checks were just read.
  abbrev Asked : String → String → CheckRunSummary → World → Type 0
  Asked repo sha s w =
      (calls : List Call) × IsGated env cfg calls
      × (env.summary calls repo sha ≡ ok s)
      × (w.calls ≡ calls ++ list_check_run_summary repo sha ∷ [])

  Asked-Gated :
      (repo sha : String) (s : CheckRunSummary) (w : World) → Asked repo sha s w → Gated env cfg w
  unfolding is_merge
  Asked-Gated repo sha s w (calls, p, _, e) =
      subst (IsGated env cfg) (sym e) (other calls (list_check_run_summary repo sha) refl p)

  ask_summary-Asked :
      (repo sha : String)
      → Triple (Gated env cfg) (ask_summary env repo sha) (Asked repo sha) (Gated env cfg)
  unfolding ask_summary is_merge
  ask_summary-Asked repo sha = record {
    run = λ w p. answer w p (env.summary w.calls repo sha) refl;
  }
    where
      answer :
          (w : World) (p : Gated env cfg w) (r : Result CheckRunSummary)
          → env.summary w.calls repo sha ≡ r
          → Outcome (Asked repo sha) (Gated env cfg) r (note w (list_check_run_summary repo sha))
      answer w p (ok s) e = (w.calls, p, e, refl)
      answer w p (err x) e = other w.calls (list_check_run_summary repo sha) refl p

  merge_green-Gated :
      (l : LandingRow) (pr : PrLanding) (s : CheckRunSummary)
      → s.any_pending ≡ false
      → is_green s cfg.feedback_loop.required_checks ≡ true
      → Triple
          (Asked l.repo pr.head_sha s)
          (merge_green env cfg labels l pr)
          (After (Gated env cfg) (Gated env cfg))
          (Gated env cfg)
  unfolding merge_green advance_landing ask_merge is_merge
  merge_green-Gated l pr s complete green =
      bind_triple
        {Q = λ _ w.
          (calls : List Call) × IsGated env cfg calls
          × (env.summary calls l.repo pr.head_sha ≡ ok s)
          × (w.calls
              ≡ (calls ++ list_check_run_summary l.repo pr.head_sha ∷ [])
                ++ sql "advance_landing" ∷ [])}
        (execute_triple env "advance_landing" _
          (λ w p. (p.0, p.1, p.2, ap (λ cs. cs ++ sql "advance_landing" ∷ []) p.3))
          (λ w p.
            Gated-quiet (sql "advance_landing") refl w (Asked-Gated l.repo pr.head_sha s w p)))
        (λ _.
          bind_triple {Q = λ _. Gated env cfg}
            (record {
              run = λ w p.
                  any_answer (Gated env cfg)
                    (env.merge w.calls l.repo l.pr_number
                      cfg.feedback_loop.merge_coordinator.merge_method pr.head_sha)
                    (note w (
                      merge_pr l.repo l.pr_number cfg.feedback_loop.merge_coordinator.merge_method
                        pr.head_sha))
                    (subst
                      (λ cs. IsGated env cfg (
                        cs
                        ++ merge_pr l.repo l.pr_number
                            cfg.feedback_loop.merge_coordinator.merge_method pr.head_sha
                          ∷ []))
                      (sym p.3)
                      (landed p.0 l.repo l.pr_number pr.head_sha s p.1 p.2 complete green));
            })
            (λ outcome.
              after_merge-Stable env cfg labels l (Gated env cfg) (Gated env cfg) (Gated-stable l)
                pr outcome))

  land-Gated :
      (l : LandingRow) (pr : PrLanding)
      → Triple
          (Gated env cfg)
          (advance_ready env cfg labels l pr)
          (After (Gated env cfg) (Gated env cfg))
          (Gated env cfg)
  unfolding advance_ready after_summary
  land-Gated l pr = bind_triple (ask_summary-Asked l.repo pr.head_sha) (λ s.
      if_triple s.any_pending
        (λ _.
          weaken_triple (Asked-Gated l.repo pr.head_sha s) (λ a w q. q) (λ w e. e)
            (rearm-Stable env cfg labels l (Gated env cfg) (Gated env cfg) (Gated-stable l)
              awaiting_ci pr.head_sha l.attempt (inl refl)))
        (λ complete.
          if_triple (not (is_green s cfg.feedback_loop.required_checks))
            (λ _.
              weaken_triple (Asked-Gated l.repo pr.head_sha s) (λ a w q. q) (λ w e. e)
                (finish-Stable env cfg labels l (Gated env cfg) (Gated env cfg) (Gated-stable l)))
            (λ green. merge_green-Gated l pr s complete (ground (arith, green)))))

  Gated-invariant : IsInvariant env cfg labels (Gated env cfg) (λ _. Unit {0})
  unfolding enqueue_landing is_merge
  Gated-invariant = record {
    quiet = Gated-quiet;
    rows = λ w p. every w.tables.landing_queue;
    stable = λ l _. Gated-stable l;
    land = λ l _ pr. land-Gated l pr;
    enqueue = λ repo pr ticket sha.
        execute_triple env "enqueue_landing" _ (Gated-quiet (sql "enqueue_landing") refl)
          (Gated-quiet (sql "enqueue_landing") refl);
  }

  -- After any sequence of approvals, CI results and boots, whatever GitHub answers, every merge that
  -- was asked for came right after the checks of the very head that it names were read, complete and
  -- green, with the configured method, if this was so before.
  pub serve-Gated :
      (es : List Event) (w : World) → Gated env cfg w → Gated env cfg (serve env cfg labels es w)
  serve-Gated es w p =
      serve-keeps env cfg labels (Gated env cfg) (λ _. Unit {0}) Gated-invariant es w p
