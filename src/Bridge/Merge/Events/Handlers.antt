-- ===== src/Bridge/Merge/Events/Handlers.antt =====
-- Each entry point keeps an invariant of the coordinator, and so does any sequence of events.
use sinfonia.Base.{
  ℕ, ◌≡◌, refl, String, not, ◌||◌, Option, none, some, List, [], ◌∷◌, All, arith, is_empty, str_eq,
  sym, inl, eq_iff,
}
use Prim.Native.String.{compare}
use sinfonia.Base.Order.{sort_by}
use sinfonia.Bridge.Types.{Result, ok, err, PrLanding, LandingRow, awaiting_ci, BridgeConfig}
use sinfonia.Bridge.World.{Environment, World, Action, get_pull_request, ask_pull_request}
use sinfonia.Bridge.World.Triple.{
  Triple, Outcome, Preserves, bind_triple, pure_triple, if_triple, execute_triple, weaken_triple,
  ask_pull_request-Preserves,
}
use sinfonia.Bridge.Store.{lookup_pr_ticket, get_landing, list_landings, landing_order, is_row}
use sinfonia.Bridge.Labels.{LabelManager}
use sinfonia.Bridge.Merge.{
  kick, enqueue_pull_request, enqueue_ticket, enqueue_on_approval, kick_queued, on_ci_green,
  relinquish, on_ci_red, reconcile_pull_request, reconcile_landing, reconcile_read, each, repos_of,
  reconcile_all, reconcile_on_boot,
}
use sinfonia.Bridge.Merge.Stable.{is_merge}
use sinfonia.Bridge.Merge.Queue.{find-All, All-sort_by, every}
use sinfonia.Bridge.Merge.Events.{
  Event, approved, ci_green, ci_red, boot, handle, serve, IsInvariant, quiet_sql, kick-Preserves,
}

module _ (env : Environment) (cfg : BridgeConfig) (labels : LabelManager) (I : World → Type 0)
    (L : LandingRow → Type 0) (h : IsInvariant env cfg labels I L) where
  -- An approval
  enqueue_ticket-Preserves :
      (repo : String) (pr : ℕ) (ticket : Option String)
      → Preserves I (enqueue_ticket env cfg labels repo pr ticket)
  unfolding enqueue_pull_request is_merge
  enqueue_ticket-Preserves repo pr none = pure_triple tt
  enqueue_ticket-Preserves repo pr (some ticket) =
      bind_triple (ask_pull_request-Preserves env repo pr (h.quiet _ refl)) (λ p.
        if_triple p.merged (λ _. pure_triple tt)
          (λ _.
            bind_triple (h.enqueue repo pr ticket p.head_sha)
              (λ _. kick-Preserves env cfg labels I L h repo)))

  enqueue_on_approval-Preserves :
      (repo : String) (pr : ℕ) → Preserves I (enqueue_on_approval env cfg labels repo pr)
  unfolding enqueue_on_approval lookup_pr_ticket
  enqueue_on_approval-Preserves repo pr =
      if_triple (not cfg.feedback_loop.merge_coordinator.enabled) (λ _. pure_triple tt)
        (λ _.
          bind_triple
            (execute_triple env "lookup_pr_ticket" _
              (quiet_sql env cfg labels I L h "lookup_pr_ticket")
              (quiet_sql env cfg labels I L h "lookup_pr_ticket"))
            (λ ticket. enqueue_ticket-Preserves repo pr ticket))

  -- The landing that a hook reads is a row.
  get_landing-triple :
      (repo : String) (pr : ℕ)
      → Triple I
          (get_landing env repo pr)
          (λ o w.
            I w × ((l : LandingRow) → o ≡ some l → L l × (l.repo ≡ repo) × (l.pr_number ≡ pr)))
          I
  unfolding get_landing
  get_landing-triple repo pr =
      execute_triple env "get_landing" _
        (λ w p. (
          quiet_sql env cfg labels I L h "get_landing" w p,
          λ l e.
              let (good, same) =
                find-All L (is_row repo pr) w.tables.landing_queue l (h.rows w p) e in
              (good, ground (arith, eq_iff l.repo repo, same), ground (arith, same)),
        ))
        (quiet_sql env cfg labels I L h "get_landing")

  kick_queued-Preserves :
      (repo : String) (o : Option LandingRow) → Preserves I (kick_queued env cfg labels repo o)
  kick_queued-Preserves repo none = pure_triple tt
  kick_queued-Preserves repo (some l) = kick-Preserves env cfg labels I L h repo

  on_ci_green-Preserves :
      (repo : String) (pr : ℕ) → Preserves I (on_ci_green env cfg labels repo pr)
  unfolding on_ci_green
  on_ci_green-Preserves repo pr =
      if_triple (not cfg.feedback_loop.merge_coordinator.enabled) (λ _. pure_triple tt)
        (λ _.
          bind_triple (get_landing-triple repo pr) (λ o.
            weaken_triple (λ w p. p.0) (λ a w q. q) (λ w e. e) (kick_queued-Preserves repo o)))

  relinquish-Preserves :
      (repo : String) (pr : ℕ) (o : Option LandingRow)
      → Triple
          (λ w. I w × ((l : LandingRow) → o ≡ some l → L l × (l.repo ≡ repo) × (l.pr_number ≡ pr)))
          (relinquish env cfg labels repo pr o)
          (λ _. I)
          I
  relinquish-Preserves repo pr none =
      weaken_triple (λ w p. p.0) (λ a w q. q) (λ w e. e) (pure_triple tt)
  relinquish-Preserves repo pr (some l) = record {
    run = λ w p.
        let (good, r, n) = p.1 l refl in rw (sym r, sym n) ((h.stable l good).dequeue.run w p.0);
  }

  on_ci_red-Preserves : (repo : String) (pr : ℕ) → Preserves I (on_ci_red env cfg labels repo pr)
  unfolding on_ci_red
  on_ci_red-Preserves repo pr =
      if_triple (not cfg.feedback_loop.merge_coordinator.enabled) (λ _. pure_triple tt)
        (λ _. bind_triple (get_landing-triple repo pr) (λ o.
          bind_triple (relinquish-Preserves repo pr o)
            (λ _. kick-Preserves env cfg labels I L h repo)))

  -- The reconciliation at boot
  reconcile_read-Preserves :
      (l : LandingRow) (r : Result PrLanding)
      → L l
      → Preserves I (reconcile_read env cfg labels l r)
  unfolding reconcile_pull_request
  reconcile_read-Preserves l (err e) good = pure_triple tt
  reconcile_read-Preserves l (ok pr) good =
      if_triple (pr.merged || str_eq pr.state "closed") (λ _. (h.stable l good).dequeue)
        (λ _.
          if_triple (not (str_eq pr.head_sha l.head_sha))
            (λ _.
              bind_triple ((h.stable l good).advance awaiting_ci pr.head_sha l.attempt (inl refl))
                (λ _. pure_triple tt))
            (λ _. pure_triple tt))

  reconcile_landing-Preserves :
      (l : LandingRow) → L l → Preserves I (reconcile_landing env cfg labels l)
  unfolding reconcile_landing ask_pull_request is_merge
  reconcile_landing-Preserves l good = record {
    run = λ w p.
        (reconcile_read-Preserves l (env.pull_request w.calls l.repo l.pr_number) good).run _
          (h.quiet (get_pull_request l.repo l.pr_number) refl w p);
  }

  each-Preserves :
      {A : Type 0} (good : A → Type 0) (f : A → Action (Unit {0}))
      → ((a : A) → good a → Preserves I (f a))
      → (xs : List A) → All good xs
      → Preserves I (each env cfg labels f xs)
  each-Preserves good f keep [] goods = pure_triple tt
  each-Preserves good f keep (x ∷ xs) goods =
      bind_triple (keep x goods.0) (λ _. each-Preserves good f keep xs goods.1)

  reconcile_all-Preserves :
      (landings : List LandingRow)
      → All L landings
      → Preserves I (reconcile_all env cfg labels landings)
  unfolding reconcile_all
  reconcile_all-Preserves landings goods =
      if_triple (is_empty landings) (λ _. pure_triple tt)
        (λ _.
          bind_triple
            (each-Preserves L (reconcile_landing env cfg labels) reconcile_landing-Preserves
              landings goods)
            (λ _.
              each-Preserves (λ _. Unit {0}) (kick env cfg labels)
                (λ repo _. kick-Preserves env cfg labels I L h repo)
                (sort_by compare (repos_of env cfg labels landings)) (every _)))

  reconcile_on_boot-Preserves : Preserves I (reconcile_on_boot env cfg labels)
  unfolding reconcile_on_boot list_landings
  reconcile_on_boot-Preserves =
      if_triple (not cfg.feedback_loop.merge_coordinator.enabled) (λ _. pure_triple tt)
        (λ _.
          bind_triple {Q = λ ls w. I w × All L ls}
            (execute_triple env "list_landings" _
              (λ w p. (
                quiet_sql env cfg labels I L h "list_landings" w p,
                All-sort_by landing_order L w.tables.landing_queue (h.rows w p),
              ))
              (quiet_sql env cfg labels I L h "list_landings"))
            (λ ls. record { run = λ w p. (reconcile_all-Preserves ls p.1).run w p.0 }))

  handle-Preserves : (e : Event) → Preserves I (handle env cfg labels e)
  unfolding handle
  handle-Preserves (approved repo pr) = enqueue_on_approval-Preserves repo pr
  handle-Preserves (ci_green repo pr) = on_ci_green-Preserves repo pr
  handle-Preserves (ci_red repo pr) = on_ci_red-Preserves repo pr
  handle-Preserves boot = reconcile_on_boot-Preserves

  settled : {A : Type 0} (r : Result A) (w : World) → Outcome (λ (_ : A). I) I r w → I w
  settled (ok a) w p = p
  settled (err e) w p = p

  pub serve-keeps : (es : List Event) (w : World) → I w → I (serve env cfg labels es w)
  unfolding serve
  serve-keeps [] w p = p
  serve-keeps (e ∷ es) w p =
      let t = handle env cfg labels e w in
      serve-keeps es t.1 (settled t.0 t.1 ((handle-Preserves e).run w p))
