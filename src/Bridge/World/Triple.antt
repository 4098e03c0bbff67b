-- ===== src/Bridge/World/Triple.antt =====
-- Conditions before and after an action: `Triple P m Q E` says that from a world with `P`, the
-- action ends with `Q` of its result, or with `E` where it fails.
use sinfonia.Base.{ℕ, ◌≡◌, refl, String, Bool, true, false, [], ◌∷◌, ◌++◌, if◌then◌else◌}
use sinfonia.Bridge.Types.{Error, Result, ok, err}
use sinfonia.Bridge.World.{
  Environment, Call, sql, read_custom_field, list_check_run_summary, get_pull_request,
  update_pr_branch, merge_pr, Tables, World, Action, ◌>>=◌, pure, raise, tolerate, note, commit,
  continue, perform, ask_field, ask_summary, ask_pull_request, ask_update_branch, ask_merge,
  execute,
}

abbrev pub Outcome :
    {A : Type 0} → (A → World → Type 0) → (World → Type 0) → Result A → World → Type 0
Outcome Q E (ok a) w = Q a w
Outcome Q E (err e) w = E w

pub record Triple {A : Type 0} (P : World → Type 0) (m : Action A) (Q : A → World → Type 0)
    (E : World → Type 0) : Type 0 where
  pub run : (w : World) → P w → Outcome Q E (m w).0 (m w).1

-- A condition that an action keeps, also where it fails.
abbrev pub Preserves : {A : Type 0} → (World → Type 0) → Action A → Type 0
Preserves I m = Triple I m (λ _. I) I

pub bind_triple :
    {A B : Type 0} {P : World → Type 0} {Q : A → World → Type 0} {R : B → World → Type 0}
    {E : World → Type 0} {m : Action A} {f : A → Action B}
    → Triple P m Q E
    → ((a : A) → Triple (Q a) (f a) R E)
    → Triple P (m >>= f) R E
unfolding ◌>>=◌
bind_triple {A} {B} {P} {Q} {R} {E} {m} {f} h k = record {
  run = λ w p. after (m w).0 (m w).1 (h.run w p);
}
  where
    after :
        (r : Result A) (w' : World)
        → Outcome Q E r w'
        → Outcome R E (continue r f w').0 (continue r f w').1
    after (ok a) w' q = (k a).run w' q
    after (err e) w' q = q

pub pure_triple :
    {A : Type 0} {Q : A → World → Type 0} {E : World → Type 0} (a : A) → Triple (Q a) (pure a) Q E
unfolding pure
pure_triple a = record { run = λ w p. p }

pub raise_triple :
    {A : Type 0} {Q : A → World → Type 0} {E : World → Type 0} (e : Error) → Triple E (raise e) Q E
unfolding raise
raise_triple e = record { run = λ w p. p }

pub tolerate_triple :
    {A : Type 0} {P Q E : World → Type 0} {m : Action A}
    → Triple P m (λ _. Q) Q
    → Triple P (tolerate m) (λ _. Q) E
unfolding tolerate
tolerate_triple {A} {P} {Q} {E} {m} h = record { run = λ w p. after (m w).0 (m w).1 (h.run w p) }
  where
    after : (r : Result A) (w' : World) → Outcome (λ _. Q) Q r w' → Q w'
    after (ok a) w' q = q
    after (err e) w' q = q

pub if_triple :
    {A : Type 0} {P : World → Type 0} {Q : A → World → Type 0} {E : World → Type 0} {m n : Action A}
    (b : Bool)
    → (b ≡ true → Triple P m Q E)
    → (b ≡ false → Triple P n Q E)
    → Triple P (if b then m else n) Q E
if_triple true h k = h refl
if_triple false h k = k refl

-- What holds at the end may be weakened.
pub weaken_triple :
    {A : Type 0} {P P' : World → Type 0} {Q Q' : A → World → Type 0} {E E' : World → Type 0}
    {m : Action A}
    → ((w : World) → P' w → P w)
    → ((a : A) (w : World) → Q a w → Q' a w)
    → ((w : World) → E w → E' w)
    → Triple P m Q E
    → Triple P' m Q' E'
weaken_triple {A} {P} {P'} {Q} {Q'} {E} {E'} {m} pre post fail h = record {
  run = λ w p. after (m w).0 (m w).1 (h.run w (pre w p));
}
  where
    after : (r : Result A) (w' : World) → Outcome Q E r w' → Outcome Q' E' r w'
    after (ok a) w' q = post a w' q
    after (err e) w' q = fail w' q

-- Nothing is said of the end.
pub any_triple :
    {A : Type 0} {P : World → Type 0} (m : Action A) → Triple P m (λ _ _. Unit {0}) (λ _. Unit {0})
any_triple {A} {P} m = record { run = λ w p. after (m w).0 (m w).1 }
  where
    after :
        (r : Result A) (w' : World) → Outcome (λ (_ : A) (_ : World). Unit {0}) (λ _. Unit {0}) r w'
    after (ok a) w' = tt
    after (err e) w' = tt

-- A condition that holds after a call, whatever the answer.
pub any_answer :
    {A : Type 0} (I : World → Type 0) (r : Result A) (w : World)
    → I w
    → Outcome (λ (_ : A). I) I r w
any_answer I (ok a) w p = p
any_answer I (err e) w p = p

module _ (env : Environment) where
  pub perform_triple :
      {P Q E : World → Type 0} (c : Call)
      → ((w : World) → P w → Q (note w c))
      → ((w : World) → P w → E (note w c))
      → Triple P (perform env c) (λ _. Q) E
  unfolding perform
  perform_triple {P} {Q} {E} c h k = record { run = λ w p. after w p (env.perform w.calls c) }
    where
      after :
          (w : World) (p : P w) (r : Result (Unit {0}))
          → Outcome (λ (_ : Unit {0}). Q) E r (note w c)
      after w p (ok _) = h w p
      after w p (err _) = k w p

  pub ask_field-Preserves :
      {I : World → Type 0} (ticket key : String)
      → ((w : World) → I w → I (note w (read_custom_field ticket key)))
      → Preserves I (ask_field env ticket key)
  unfolding ask_field
  ask_field-Preserves {I} ticket key h = record {
    run = λ w p. any_answer I (env.field w.calls ticket key) _ (h w p);
  }

  pub ask_summary-Preserves :
      {I : World → Type 0} (repo sha : String)
      → ((w : World) → I w → I (note w (list_check_run_summary repo sha)))
      → Preserves I (ask_summary env repo sha)
  unfolding ask_summary
  ask_summary-Preserves {I} repo sha h = record {
    run = λ w p. any_answer I (env.summary w.calls repo sha) _ (h w p);
  }

  pub ask_pull_request-Preserves :
      {I : World → Type 0} (repo : String) (pr : ℕ)
      → ((w : World) → I w → I (note w (get_pull_request repo pr)))
      → Preserves I (ask_pull_request env repo pr)
  unfolding ask_pull_request
  ask_pull_request-Preserves {I} repo pr h = record {
    run = λ w p. any_answer I (env.pull_request w.calls repo pr) _ (h w p);
  }

  pub ask_update_branch-Preserves :
      {I : World → Type 0} (repo : String) (pr : ℕ) (sha : String)
      → ((w : World) → I w → I (note w (update_pr_branch repo pr sha)))
      → Preserves I (ask_update_branch env repo pr sha)
  unfolding ask_update_branch
  ask_update_branch-Preserves {I} repo pr sha h = record {
    run = λ w p. any_answer I (env.update_branch w.calls repo pr sha) _ (h w p);
  }

  pub ask_merge-Preserves :
      {I : World → Type 0} (repo : String) (pr : ℕ) (method sha : String)
      → ((w : World) → I w → I (note w (merge_pr repo pr method sha)))
      → Preserves I (ask_merge env repo pr method sha)
  unfolding ask_merge
  ask_merge-Preserves {I} repo pr method sha h = record {
    run = λ w p. any_answer I (env.merge w.calls repo pr method sha) _ (h w p);
  }

  -- A statement of the database: where it fails, the tables stay.
  pub execute_triple :
      {A : Type 0} {P : World → Type 0} {Q : A → World → Type 0} {E : World → Type 0}
      (name : String) (statement : ℕ → Tables → Result A × Tables)
      → ((w : World)
          → P w
          → Outcome Q E (statement (env.now w.calls) w.tables).0 (record {
            tables = (statement (env.now w.calls) w.tables).1;
            calls = w.calls ++ sql name ∷ [];
          }))
      → ((w : World) → P w → E (note w (sql name)))
      → Triple P (execute env name statement) Q E
  unfolding execute
  execute_triple {A} {P} {Q} {E} name statement h k = record {
    run = λ w p. after w p (env.perform w.calls (sql name));
  }
    where
      after :
          (w : World) (p : P w) (r : Result (Unit {0}))
          → Outcome Q E
              (commit (env.now w.calls) name statement w r).0
              (commit (env.now w.calls) name statement w r).1
      after w p (ok _) = h w p
      after w p (err _) = k w p
