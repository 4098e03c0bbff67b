-- ===== src/Bridge/Feedback/Transition/Writes.antt =====
-- The writes to the tracker come first, and only they can fail the step.
use mathlib.Core.List.{append_assoc, append-nil}
use sinfonia.Base.{ℕ, ◌≡◌, refl, sym, ◌∙◌, ap, subst, String, List, [], ◌∷◌, ◌++◌}
use sinfonia.Domain.{string, number}
use sinfonia.Bridge.Types.{Error, Result, ok, err, FailureCategory, CustomFieldsSection}
use sinfonia.Bridge.World.{
  Environment, Call, World, note, perform, write_custom_field, transition_issue, post_pr_comment,
}
use sinfonia.Bridge.World.Triple.{
  Triple, Outcome, bind_triple, tolerate_triple, perform_triple, weaken_triple,
}
use sinfonia.Bridge.Labels.{
  LabelManager, needs_fixes, in_progress, awaiting_review, failure, cap_hit as cap_hit_label,
}
use sinfonia.Bridge.Merge.Stable.{IsQuiet, is_merge, apply-Preserves, remove-Preserves}
use sinfonia.Bridge.Feedback.Attempts.{cap_hit, f64_of}
use sinfonia.Bridge.Feedback.Transition.{
  RedContext, red_labels, cap_labels, apply_red_below_cap, apply_cap_hit,
}

-- Each of the calls was taken when it was made.
abbrev pub Taken : Environment → List Call → List Call → Type 0
Taken env base [] = Unit
Taken env base (c ∷ cs) = (env.perform base c ≡ ok tt) × Taken env (base ++ c ∷ []) cs

-- The writes were made after the calls of `base` and taken, then other calls.
abbrev pub Followed : Environment → List Call → List Call → World → Type 0
Followed env base writes w =
    Taken env base writes × (rest : List Call) × (w.calls ≡ (base ++ writes) ++ rest)

Taken-snoc :
    (env : Environment) (base done : List Call) (c : Call)
    → Taken env base done
    → env.perform (base ++ done) c ≡ ok tt
    → Taken env base (done ++ c ∷ [])
Taken-snoc env base [] c t e = (subst (λ cs. env.perform cs c ≡ ok tt) (append-nil base) e, tt)
Taken-snoc env base (d ∷ done) c t e = (
  t.0,
  Taken-snoc env (base ++ d ∷ []) done c t.1
      (subst (λ cs. env.perform cs c ≡ ok tt) (sym (append_assoc base (d ∷ []) done)) e),
)

-- A write was refused, those before it were taken, and nothing was done after it.
abbrev pub Stopped : Environment → List Call → List Call → World → Type 0
Stopped env base writes w =
    (done : List Call) × (c : Call) × (todo : List Call) × (e : Error) × (writes
      ≡ (done ++ c ∷ []) ++ todo)
    × Taken env base done
    × (env.perform (base ++ done) c ≡ err e)
    × (w.calls ≡ (base ++ done) ++ c ∷ [])

abbrev At : Environment → List Call → List Call → World → Type 0
At env base done w = Taken env base done × (w.calls ≡ base ++ done)

Followed-quiet : (env : Environment) (base writes : List Call) → IsQuiet (Followed env base writes)
Followed-quiet env base writes c _ w (t, rest, e) =
    (t, rest ++ c ∷ [], ap (λ cs. cs ++ c ∷ []) e ∙ append_assoc (base ++ writes) rest (c ∷ []))

write_step :
    (env : Environment) (base done : List Call) (c : Call) (todo writes : List Call)
    → writes ≡ (done ++ c ∷ []) ++ todo
    → Triple
        (At env base done)
        (perform env c)
        (λ _. At env base (done ++ c ∷ []))
        (Stopped env base writes)
unfolding perform
write_step env base done c todo writes split = record {
  run = λ w p. answer w p (env.perform w.calls c) refl;
}
  where
    answer :
        (w : World) (p : At env base done w) (r : Result (Unit {0}))
        → env.perform w.calls c ≡ r
        → Outcome
            (λ (_ : Unit {0}). At env base (done ++ c ∷ []))
            (Stopped env base writes)
            r
            (note w c)
    answer w (t, p) (ok _) e = (
      Taken-snoc env base done c t (subst (λ cs. env.perform cs c ≡ ok tt) p e),
      ap (λ cs. cs ++ c ∷ []) p ∙ append_assoc base done (c ∷ []),
    )
    answer w (t, p) (err x) e = (
      done,
      c,
      todo,
      x,
      split,
      t,
      subst (λ cs. env.perform cs c ≡ err x) p e,
      ap (λ cs. cs ++ c ∷ []) p,
    )

abbrev pub red_writes : RedContext → FailureCategory → ℕ → CustomFieldsSection → String → List Call
red_writes ctx category next_attempt custom_fields failure_summary =
    write_custom_field ctx.ticket_id custom_fields.last_failure_log (string failure_summary)
    ∷ write_custom_field ctx.ticket_id custom_fields.failure_category (string category.name)
    ∷ write_custom_field ctx.ticket_id custom_fields.attempt_count (number (f64_of next_attempt))
    ∷ transition_issue ctx.ticket_id category.target_state
    ∷ []

module _ (env : Environment) (labels : LabelManager) where
  -- Behind the writes: labels and a comment, whose failures are only logged.
  red_labels-triple :
      (base writes : List Call) (E : World → Type 0) (repo : String) (pr : ℕ)
      (category comment : String)
      → Triple
          (Followed env base writes)
          (red_labels env labels repo pr category comment)
          (λ _. Followed env base writes)
          E
  unfolding is_merge
  red_labels-triple base writes E repo pr category comment =
      let quiet = Followed-quiet env base writes in
      bind_triple (tolerate_triple (apply-Preserves env labels repo pr needs_fixes quiet)) (λ _.
        bind_triple (tolerate_triple (apply-Preserves env labels repo pr (failure category) quiet))
          (λ _.
            bind_triple (tolerate_triple (remove-Preserves env labels repo pr in_progress quiet))
              (λ _.
                bind_triple
                  (tolerate_triple (remove-Preserves env labels repo pr awaiting_review quiet))
                  (λ _. tolerate_triple (
                    perform_triple env (post_pr_comment repo pr comment) (quiet _ refl)
                      (quiet _ refl))))))

  all_written :
      (base writes : List Call) (w : World) → At env base writes w → Followed env base writes w
  all_written base writes w (t, p) = (t, [], p ∙ sym (append-nil (base ++ writes)))

  red-triple :
      (base : List Call) (ctx : RedContext) (category : FailureCategory) (next_attempt : ℕ)
      (custom_fields : CustomFieldsSection) (comment summary : String)
      → let writes = red_writes ctx category next_attempt custom_fields summary in
        Triple
          (At env base [])
          (apply_red_below_cap env labels ctx category next_attempt custom_fields comment summary)
          (λ _. Followed env base writes)
          (Stopped env base writes)
  unfolding apply_red_below_cap
  red-triple base ctx category next_attempt custom_fields comment summary =
      let writes = red_writes ctx category next_attempt custom_fields summary in
      let log = write_custom_field ctx.ticket_id custom_fields.last_failure_log (string summary) in
      let kind =
        write_custom_field ctx.ticket_id custom_fields.failure_category (string category.name) in
      let count =
        write_custom_field ctx.ticket_id custom_fields.attempt_count
          (number (f64_of next_attempt)) in
      let move = transition_issue ctx.ticket_id category.target_state in
      bind_triple (write_step env base [] log (kind ∷ count ∷ move ∷ []) writes refl) (λ _.
        bind_triple (write_step env base (log ∷ []) kind (count ∷ move ∷ []) writes refl) (λ _.
          bind_triple (write_step env base (log ∷ kind ∷ []) count (move ∷ []) writes refl) (λ _.
            bind_triple (write_step env base (log ∷ kind ∷ count ∷ []) move [] writes refl) (λ _.
              weaken_triple (all_written base writes) (λ a w q. q) (λ w e. e)
                (red_labels-triple base writes (Stopped env base writes) ctx.repo ctx.pr_number
                  category.name comment)))))

  -- A red run below the cap writes the failure log, the category and the count, and moves the ticket,
  -- in this order. The step succeeds only where the tracker took all these writes, whatever GitHub
  -- answers to the labels and the comment behind them; else it took those before one that it refused,
  -- the step fails and makes no further call.
  pub red_writes_first :
      (ctx : RedContext) (category : FailureCategory) (next_attempt : ℕ)
      (custom_fields : CustomFieldsSection) (comment summary : String) (w : World)
      → let writes = red_writes ctx category next_attempt custom_fields summary in
        let r =
          apply_red_below_cap env labels ctx category next_attempt custom_fields comment summary
            w in
        Outcome (λ _. Followed env w.calls writes) (Stopped env w.calls writes) r.0 r.1
  red_writes_first ctx category next_attempt custom_fields comment summary w =
      (red-triple w.calls ctx category next_attempt custom_fields comment summary).run w
        (tt, sym (append-nil w.calls))

  cap_labels-triple :
      (base writes : List Call) (E : World → Type 0) (repo : String) (pr : ℕ) (comment : String)
      → Triple
          (Followed env base writes)
          (cap_labels env labels repo pr comment)
          (λ _. Followed env base writes)
          E
  unfolding is_merge
  cap_labels-triple base writes E repo pr comment =
      let quiet = Followed-quiet env base writes in
      bind_triple (tolerate_triple (apply-Preserves env labels repo pr cap_hit_label quiet)) (λ _.
        bind_triple (tolerate_triple (remove-Preserves env labels repo pr in_progress quiet)) (λ _.
          bind_triple (tolerate_triple (remove-Preserves env labels repo pr needs_fixes quiet))
            (λ _. tolerate_triple (
              perform_triple env (post_pr_comment repo pr comment) (quiet _ refl) (quiet _ refl)))))

  -- A cap hit first moves the ticket to the blocked state, and fails only where the tracker refuses
  -- this; it writes no field, so that the count stays.
  pub cap_hit_writes :
      (ctx : RedContext) (stayed_at max : ℕ) (blocked_state comment : String) (w : World)
      → let r = apply_cap_hit env labels ctx (cap_hit stayed_at max) blocked_state comment w in
        let move = transition_issue ctx.ticket_id blocked_state ∷ [] in
        Outcome (λ _. Followed env w.calls move) (Stopped env w.calls move) r.0 r.1
  unfolding apply_cap_hit
  cap_hit_writes ctx stayed_at max blocked_state comment w =
      let move = transition_issue ctx.ticket_id blocked_state in
      (bind_triple (write_step env w.calls [] move [] (move ∷ []) refl) (λ _.
          weaken_triple (all_written w.calls (move ∷ [])) (λ a w q. q) (λ w e. e)
            (cap_labels-triple w.calls (move ∷ []) (Stopped env w.calls (move ∷ [])) ctx.repo
              ctx.pr_number comment))).run
        w (tt, sym (append-nil w.calls))
