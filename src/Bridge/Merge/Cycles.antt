-- ===== src/Bridge/Merge/Cycles.antt =====
-- The update cycles of a landing are bounded.
use sinfonia.Base.{
  ◌≡◌, refl, true, false, ◌+◌, ◌<◌, leb, ℕ, ◌≤◌, String, List, [], ◌∷◌, ◌++◌, All, any, arith, inl,
  inr, Bool-cases,
}
use sinfonia.Bridge.Types.{ok, accepted, LandingStatus, PrLanding, LandingRow, BridgeConfig}
use sinfonia.Bridge.World.{
  Environment, World, ask_update_branch, update_pr_branch, sql, ◌>>=◌, execute, pure,
}
use sinfonia.Bridge.Merge.{advance_behind, after_update}
use sinfonia.Bridge.World.Triple.{execute_triple}
use sinfonia.Bridge.Store.{
  update_rows, is_row, enqueue_row, enqueue_landing, advance_landing, dequeue_landing,
}
use sinfonia.Bridge.Store.Rows.{All-update, All-delete}
use sinfonia.Bridge.Labels.{LabelManager}
use sinfonia.Bridge.Merge.Stable.{IsStable, IsNext, advance_ready-Stable}
use sinfonia.Bridge.Merge.Events.{Event, serve, IsInvariant}
use sinfonia.Bridge.Merge.Events.Handlers.{serve-keeps}

abbrev pub IsBounded : BridgeConfig → LandingRow → Type 0
IsBounded cfg l = l.attempt ≤ cfg.feedback_loop.merge_coordinator.max_update_cycles

abbrev pub AllBounded : BridgeConfig → World → Type 0
AllBounded cfg w = All (IsBounded cfg) w.tables.landing_queue

All-append {κ} :
    {A : Type 0} (P : A → Type κ) (xs ys : List A) → All P xs → All P ys → All P (xs ++ ys)
All-append P [] ys h k = k
All-append P (x ∷ xs) ys h k = (h.0, All-append P xs ys h.1 k)

All-enqueue :
    (cfg : BridgeConfig) (now : ℕ) (repo : String) (pr : ℕ) (ticket sha : String)
    (rows : List LandingRow)
    → All (IsBounded cfg) rows
    → All (IsBounded cfg) (enqueue_row now repo pr ticket sha rows)
unfolding enqueue_row
All-enqueue cfg now repo pr ticket sha rows h = elim (Bool-cases (any (is_row repo pr) rows)) [
  | inl e ↦ rw e h
  | inr e ↦ rw e (All-append (IsBounded cfg) rows _ h (omega arith, tt))
]

next_bounded :
    (cfg : BridgeConfig) (l : LandingRow) (a : ℕ)
    → IsBounded cfg l
    → IsNext cfg l a
    → a ≤ cfg.feedback_loop.merge_coordinator.max_update_cycles
next_bounded cfg l a h (inl e) = omega (arith, h, e)
next_bounded cfg l a h (inr (e, below)) = omega (arith, e, below)

module _ (env : Environment) (cfg : BridgeConfig) (labels : LabelManager) where
  IsBounded-stable :
      (l : LandingRow)
      → IsBounded cfg l
      → IsStable env cfg labels l (AllBounded cfg) (AllBounded cfg)
  unfolding advance_landing dequeue_landing
  IsBounded-stable l h = record {
    quiet = λ c e w p. p;
    advance = λ status sha a next.
        execute_triple env "advance_landing" _
          (λ w p.
            All-update (IsBounded cfg) (env.now w.calls) l.repo l.pr_number status sha a
              w.tables.landing_queue (λ r _. next_bounded cfg l a h next) p)
          (λ w p. p);
    dequeue =
        execute_triple env "dequeue_landing" _
          (λ w p. All-delete (IsBounded cfg) l.repo l.pr_number w.tables.landing_queue p)
          (λ w p. p);
  }

  IsBounded-invariant : IsInvariant env cfg labels (AllBounded cfg) (IsBounded cfg)
  unfolding enqueue_landing
  IsBounded-invariant = record {
    quiet = λ c e w p. p;
    rows = λ w p. p;
    stable = IsBounded-stable;
    land = λ l good pr.
        advance_ready-Stable env cfg labels l (AllBounded cfg) (AllBounded cfg)
          (IsBounded-stable l good) (λ _ _ _ _ w p. p) pr;
    enqueue = λ repo pr ticket sha.
        execute_triple env "enqueue_landing" _
          (λ w p. All-enqueue cfg (env.now w.calls) repo pr ticket sha w.tables.landing_queue p)
          (λ w p. p);
  }

  -- Every row of the landing has used one cycle more.
  abbrev pub CountedUp : LandingRow → World → Type 0
  CountedUp landing w =
      All (λ r. is_row landing.repo landing.pr_number r ≡ true → r.attempt ≡ landing.attempt + 1)
        w.tables.landing_queue

  update_rows-counted :
      (now : ℕ) (repo : String) (pr : ℕ) (status : LandingStatus) (sha : String) (a : ℕ)
      (rows : List LandingRow)
      → All
          (λ r. is_row repo pr r ≡ true → r.attempt ≡ a)
          (update_rows now repo pr status sha a rows)
  unfolding update_rows
  update_rows-counted now repo pr status sha a [] = tt
  update_rows-counted now repo pr status sha a (r ∷ rest) = elim (Bool-cases (is_row repo pr r)) [
    | inl e ↦ rw (e) (λ h. refl, update_rows-counted now repo pr status sha a rest)
    | inr e ↦ rw (e) (λ h. cc (e, h), update_rows-counted now repo pr status sha a rest)
  ]

  advance_behind-CountedUp :
      (landing : LandingRow) (pr : PrLanding) (w : World)
      → landing.attempt < cfg.feedback_loop.merge_coordinator.max_update_cycles
      → env.update_branch w.calls landing.repo landing.pr_number pr.head_sha ≡ ok accepted
      → env.perform
          (w.calls ++ update_pr_branch landing.repo landing.pr_number pr.head_sha ∷ [])
          (sql "advance_landing")
        ≡ ok tt
      → CountedUp landing (advance_behind env cfg labels landing pr w).1
  unfolding advance_behind after_update ask_update_branch ◌>>=◌ advance_landing execute pure
  advance_behind-CountedUp landing pr w free taken stored =
      let open_ : leb cfg.feedback_loop.merge_coordinator.max_update_cycles landing.attempt
          ≡ false =
        ground (arith, free) in
      rw (open_, taken, stored) (update_rows-counted _ _ _ _ _ _ _)

  -- After any sequence of approvals, CI results and boots, from tables where each landing has counted
  -- at most `max_update_cycles` update cycles, each landing still has. An update that is then asked for
  -- a landing below the limit, which GitHub accepts and whose count the database stores, is counted:
  -- every row of the landing has one cycle more.
  pub serve-bounded :
      (es : List Event) (w : World) (landing : LandingRow) (pr : PrLanding)
      → AllBounded cfg w
      → landing.attempt < cfg.feedback_loop.merge_coordinator.max_update_cycles
      → env.update_branch
          (serve env cfg labels es w).calls
          landing.repo
          landing.pr_number
          pr.head_sha
        ≡ ok accepted
      → env.perform
          ((serve env cfg labels es w).calls
            ++ update_pr_branch landing.repo landing.pr_number pr.head_sha ∷ [])
          (sql "advance_landing")
        ≡ ok tt
      → AllBounded cfg (serve env cfg labels es w)
        × CountedUp landing (advance_behind env cfg labels landing pr (serve env cfg labels es w)).1
  serve-bounded es w landing pr p free taken stored = (
    serve-keeps env cfg labels (AllBounded cfg) (IsBounded cfg) IsBounded-invariant es w p,
    advance_behind-CountedUp landing pr (serve env cfg labels es w) free taken stored,
  )
