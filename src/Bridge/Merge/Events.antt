-- ===== src/Bridge/Merge/Events.antt =====
-- The entry points of the coordinator as events, in any order, and the conditions that they keep.
pub mod Handlers
use sinfonia.Base.{
  ℕ, zero, suc, ◌+◌, ◌≤◌, ◌<◌, ◌≡◌, refl, String, Bool, true, false, not, ◌||◌, Option, none, some,
  List, [], ◌∷◌, All, arith, unwrap_or, is_empty, str_eq, if◌then◌else◌, sym, ◌∙◌, inl, subst,
  eq_iff, find,
}
use Prim.Native.String.{compare}
use sinfonia.Base.Order.{sort_by}
use sinfonia.Bridge.Types.{Result, ok, err, PrLanding, LandingRow, awaiting_ci, BridgeConfig}
use sinfonia.Bridge.World.{
  Environment, World, Action, note, sql, get_pull_request, ask_pull_request,
}
use sinfonia.Bridge.World.Triple.{
  Triple, Outcome, Preserves, bind_triple, pure_triple, if_triple, execute_triple, weaken_triple,
  ask_pull_request-Preserves,
}
use sinfonia.Bridge.Store.{
  lookup_pr_ticket, enqueue_landing, get_landing, list_landings, landing_order, is_row,
}
use sinfonia.Bridge.Labels.{LabelManager}
use sinfonia.Bridge.Merge.{
  advance_ready, go_on, after_turn, kick_once, kick_within, kick, enqueue_pull_request,
  enqueue_ticket, enqueue_on_approval, kick_queued, on_ci_green, relinquish, on_ci_red,
  reconcile_pull_request, reconcile_landing, reconcile_read, each, repos_of, reconcile_all,
  reconcile_on_boot, rows_of,
}
use sinfonia.Bridge.Merge.Stable.{IsStable, IsQuiet, is_merge, After, advance_one-Stable}
use sinfonia.Bridge.Merge.Queue.{
  the_head, the_head-All, find-All, head_of_queue-triple, All-sort_by,
}

pub data Event : Type 0 where
  approved ci_green ci_red : String → ℕ → Event
  boot : Event

unfoldable pub handle : Environment → BridgeConfig → LabelManager → Event → Action (Unit {0})
handle env cfg labels (approved repo pr) = enqueue_on_approval env cfg labels repo pr
handle env cfg labels (ci_green repo pr) = on_ci_green env cfg labels repo pr
handle env cfg labels (ci_red repo pr) = on_ci_red env cfg labels repo pr
handle env cfg labels boot = reconcile_on_boot env cfg labels

-- The events one after another; one that fails is logged.
unfoldable pub serve : Environment → BridgeConfig → LabelManager → List Event → World → World
serve env cfg labels [] w = w
serve env cfg labels (e ∷ es) w = serve env cfg labels es (handle env cfg labels e w).1

-- `L` is what `I` says of each row.
pub record IsInvariant (env : Environment) (cfg : BridgeConfig) (labels : LabelManager)
    (I : World → Type 0) (L : LandingRow → Type 0) : Type 0 where
  pub quiet : IsQuiet I
  pub rows : (w : World) → I w → All L w.tables.landing_queue
  pub stable : (l : LandingRow) → L l → IsStable env cfg labels l I I
  pub land :
      (l : LandingRow)
      → L l
      → (pr : PrLanding) → Triple I (advance_ready env cfg labels l pr) (After I I) I
  pub enqueue :
      (repo : String) (pr : ℕ) (ticket sha : String)
      → Preserves I (enqueue_landing env repo pr ticket sha)

module _ (env : Environment) (cfg : BridgeConfig) (labels : LabelManager) (I : World → Type 0)
    (L : LandingRow → Type 0) (h : IsInvariant env cfg labels I L) where
  pub quiet_sql : (name : String) (w : World) → I w → I (note w (sql name))
  unfolding is_merge
  quiet_sql name = h.quiet (sql name) refl

  both : (b : Bool) (w : World) → After I I b w → I w
  both true w p = p
  both false w p = p

  go_on-Preserves :
      (repo : String) (o : Option LandingRow)
      → Triple
          (λ w. I w × (the_head repo w.tables.landing_queue ≡ o))
          (go_on env cfg labels o)
          (λ _. I)
          I
  go_on-Preserves repo none = weaken_triple (λ w p. p.0) (λ a w q. q) (λ w e. e) (pure_triple false)
  go_on-Preserves repo (some l) = record {
    run = λ w p.
        let (ok_row, _) = the_head-All L repo w.tables.landing_queue l (h.rows w p.0) p.1 in
        (weaken_triple {P = I} {P' = I} (λ w p. p) both (λ w e. e)
            (advance_one-Stable env cfg labels l I I (h.stable l ok_row) (h.land l ok_row))).run
          w p.0;
  }

  kick_once-Preserves : (repo : String) → Preserves I (kick_once env cfg labels repo)
  unfolding kick_once
  kick_once-Preserves repo =
      bind_triple (head_of_queue-triple env cfg labels repo (quiet_sql "list_landings"))
        (λ o. go_on-Preserves repo o)

  abbrev Holds : Option World → Type 0
  Holds none = Unit
  Holds (some v) = I v

  after_turn-Holds :
      (again : World → Option World) (r : Result Bool) (w : World)
      → ((v : World) → I v → Holds (again v))
      → Outcome (λ (_ : Bool). I) I r w
      → Holds (after_turn env cfg labels again r w)
  after_turn-Holds again (ok true) w k p = k w p
  after_turn-Holds again (ok false) w k p = p
  after_turn-Holds again (err e) w k p = p

  kick_within-Holds :
      (fuel : ℕ) (repo : String) (w : World) → I w → Holds (kick_within env cfg labels fuel repo w)
  unfolding kick_within
  kick_within-Holds zero repo w p = tt
  kick_within-Holds (suc fuel) repo w p =
      let t = kick_once env cfg labels repo w in
      after_turn-Holds (kick_within env cfg labels fuel repo) t.0 t.1 (kick_within-Holds fuel repo)
        ((kick_once-Preserves repo).run w p)

  Holds-unwrap_or : (o : Option World) (w : World) → Holds o → I w → I (unwrap_or o w)
  Holds-unwrap_or none w h p = p
  Holds-unwrap_or (some v) w h p = h

  pub kick-Preserves : (repo : String) → Preserves I (kick env cfg labels repo)
  unfolding kick
  kick-Preserves repo = record {
    run = λ w p.
        Holds-unwrap_or
          (kick_within env cfg labels (suc (rows_of repo w.tables.landing_queue)) repo w) w
          (kick_within-Holds (suc (rows_of repo w.tables.landing_queue)) repo w p) p;
  }
