-- ===== src/Bridge/Merge/Termination.antt =====
-- The loop of `kick` ends: every turn that goes on has removed a row of the repository.
use sinfonia.Base.{
  ℕ, zero, suc, ◌≤◌, ◌<◌, ◌≡◌, refl, String, Bool, true, false, Option, none, some, any, arith,
  unwrap_or, subst, sym, ap, ◌∙◌,
}
use sinfonia.Bridge.Types.{Result, ok, err, LandingRow, BridgeConfig}
use sinfonia.Bridge.World.{Environment, World}
use sinfonia.Bridge.World.Triple.{
  Triple, Outcome, bind_triple, pure_triple, execute_triple, weaken_triple,
}
use sinfonia.Bridge.Store.{is_row, advance_landing, dequeue_landing}
use sinfonia.Bridge.Store.Rows.{rows_of-delete-lt}
use sinfonia.Bridge.Labels.{LabelManager}
use sinfonia.Bridge.Merge.{rows_of, go_on, kick_once, kick_within, kick, after_turn}
use sinfonia.Bridge.Merge.Stable.{IsStable, After, advance_one-Stable, advance_ready-Stable}
use sinfonia.Bridge.Merge.Queue.{
  the_head, the_head-any, head_of_queue-triple, rows_of-update, any-update,
}

-- The landing is in the table, which has at most `n` rows of its repository.
abbrev InTable : String → LandingRow → ℕ → World → Type 0
InTable repo l n w =
    let rows = w.tables.landing_queue in
    (l.repo ≡ repo) × (any (is_row repo l.pr_number) rows ≡ true) × (rows_of repo rows ≤ n)

abbrev Fewer : String → ℕ → World → Type 0
Fewer repo n w = rows_of repo w.tables.landing_queue < n

module _ (env : Environment) (cfg : BridgeConfig) (labels : LabelManager) where
  InTable-Stable :
      (repo : String) (l : LandingRow) (n : ℕ)
      → IsStable env cfg labels l (InTable repo l n) (Fewer repo n)
  unfolding advance_landing dequeue_landing
  InTable-Stable repo l n = record {
    quiet = λ c e w p. p;
    advance = λ status sha a next.
        execute_triple env "advance_landing" _
          (λ w p.
            let rows = w.tables.landing_queue in
            rw p.0 (
              refl,
              any-update _ repo l.pr_number status sha a rows ∙ p.1,
              omega (
                arith,
                rows_of-update (env.now w.calls) repo repo l.pr_number status sha a rows,
                p.2,
              ),
            ))
          (λ w p. p);
    dequeue =
        execute_triple env "dequeue_landing" _
          (λ w p.
            let rows = w.tables.landing_queue in
            rw p.0 (omega (arith, rows_of-delete-lt repo l.pr_number rows p.1, p.2)))
          (λ w p. p);
  }

  -- What a turn does to the number of rows
  kick_once-Fewer :
      (repo : String) (n : ℕ)
      → Triple
          (λ w. rows_of repo w.tables.landing_queue ≤ n)
          (kick_once env cfg labels repo)
          (After (λ _. Unit) (Fewer repo n))
          (λ _. Unit)
  unfolding kick_once
  kick_once-Fewer repo n =
      bind_triple
        (weaken_triple (λ w p. p) (λ o w q. q) (λ w e. tt)
          (head_of_queue-triple env cfg labels repo (λ w p. p)))
        (λ o. turn o)
    where
      turn :
          (o : Option LandingRow)
          → Triple
              (λ w.
                (rows_of repo w.tables.landing_queue ≤ n)
                × (the_head repo w.tables.landing_queue ≡ o))
              (go_on env cfg labels o)
              (After (λ _. Unit) (Fewer repo n))
              (λ _. Unit)
      turn none = weaken_triple (λ w p. tt) (λ a w q. q) (λ w e. e) (pure_triple false)
      turn (some l) =
          let stable = InTable-Stable repo l n in
          weaken_triple
            (λ w p.
              let (there, same) = the_head-any repo w.tables.landing_queue l p.1 in
              (
                same,
                subst (λ r. any (is_row r l.pr_number) w.tables.landing_queue ≡ true) same there,
                p.0,
              ))
            after (λ w e. tt)
            (advance_one-Stable env cfg labels l (InTable repo l n) (Fewer repo n) stable (
              advance_ready-Stable env cfg labels l (InTable repo l n) (Fewer repo n) stable
                (λ _ _ _ _ w p. p)))
        where
          after :
              (a : Bool) (w : World)
              → After (InTable repo l n) (Fewer repo n) a w
              → After (λ _. Unit {0}) (Fewer repo n) a w
          after true w q = q
          after false w q = tt

  -- Both amounts of fuel end in the same world.
  abbrev Agree : ℕ → ℕ → String → World → Type 0
  Agree fuel fuel' repo w =
      (v : World) × (kick_within env cfg labels fuel repo w ≡ some v)
      × (kick_within env cfg labels fuel' repo w ≡ some v)

  turn-Agree :
      (fuel fuel' n : ℕ) (repo : String)
      → ((v : World) → Fewer repo n v → Agree fuel fuel' repo v)
      → (r : Result Bool) (v : World)
      → Outcome (After (λ _. Unit {0}) (Fewer repo n)) (λ _. Unit {0}) r v
      → (u : World) × (after_turn env cfg labels (kick_within env cfg labels fuel repo) r v
          ≡ some u)
        × (after_turn env cfg labels (kick_within env cfg labels fuel' repo) r v ≡ some u)
  turn-Agree fuel fuel' n repo go_on (ok true) v less = go_on v less
  turn-Agree fuel fuel' n repo go_on (ok false) v _ = (v, refl, refl)
  turn-Agree fuel fuel' n repo go_on (err e) v _ = (v, refl, refl)

  kick_within-Agree :
      (fuel fuel' : ℕ) (repo : String) (w : World)
      → rows_of repo w.tables.landing_queue < fuel
      → rows_of repo w.tables.landing_queue < fuel'
      → Agree fuel fuel' repo w
  unfolding kick_within
  kick_within-Agree zero fuel' repo w p q = absurd (omega (arith, p))
  kick_within-Agree (suc fuel) zero repo w p q = absurd (omega (arith, q))
  kick_within-Agree (suc fuel) (suc fuel') repo w p q =
      let n = rows_of repo w.tables.landing_queue in
      let t = kick_once env cfg labels repo w in
      turn-Agree fuel fuel' n repo
        (λ v less.
          kick_within-Agree fuel fuel' repo v (omega (arith, less, p)) (omega (arith, less, q)))
        t.0 t.1 ((kick_once-Fewer repo n).run w (omega arith))

  -- The loop of `kick` takes at most one turn more than the repository has rows: with any fuel above
  -- that number it ends, and in the world that `kick` returns.
  pub kick_terminates :
      (fuel : ℕ) (repo : String) (w : World)
      → rows_of repo w.tables.landing_queue < fuel
      → kick_within env cfg labels fuel repo w ≡ some (kick env cfg labels repo w).1
  unfolding kick
  kick_terminates fuel repo w enough =
      let n = rows_of repo w.tables.landing_queue in
      let (v, p, q) = kick_within-Agree fuel (suc n) repo w enough (omega arith) in
      p ∙ ap some (sym (ap (λ o. unwrap_or o w) q))
