-- ===== src/Bridge/Feedback/Budget/Flush.antt =====
-- No token is lost or counted twice between the sessions and the flushes.
use sinfonia.Base.{
  ℕ, ◌+◌, ◌≤◌, ◌≡◌, refl, sym, subst, String, Bool, false, Option, none, some, List, [], ◌∷◌, Map,
  lookup, insert, lookup-insert, u64_max, unwrap_or, str_eq, eq_iff, eq_refl, if◌then◌else◌, arith,
  Bool-cases, inl, inr,
}
use sinfonia.Domain.{F64}
use sinfonia.Bridge.Types.{FeedbackLoopSection}
use sinfonia.Bridge.Feedback.Cost.{Arithmetic, CostTable, compute_cost}
use sinfonia.Bridge.Feedback.Budget.{
  TicketAccumulator, FlushedTotals, fresh, add_session, apply_session, has_pending, snapshot_of,
  cleared, take_from, take_pending,
}

-- A session that completed, or a flush, of some ticket
pub data Happening : Type 0 where
  session : ℕ → String → String → String → ℕ → ℕ → Happening
  flush : ℕ → String → Happening

module _ {Decimal : Type 0} (num : Arithmetic Decimal) (to_lowercase : String → String)
    (from_f64 : F64 → Option Decimal) (cost_to_string : Decimal → String) (f64_of_u64 : ℕ → F64)
    (feedback : FeedbackLoopSection) (table : CostTable Decimal) (accepts : Bool) where
  abbrev pub Tickets : Type 0
  Tickets = Map (TicketAccumulator Decimal)

  abbrev account_of : String → Tickets → TicketAccumulator Decimal
  account_of id tickets =
      unwrap_or (lookup id tickets) (fresh num to_lowercase from_f64 cost_to_string f64_of_u64 id)

  abbrev pub total_of : String → Tickets → ℕ
  total_of id tickets = (account_of id tickets).running_total_tokens

  abbrev pub pending_of : String → Tickets → ℕ
  pending_of id tickets =
      (account_of id tickets).pending_input_tokens + (account_of id tickets).pending_output_tokens

  abbrev delta : Option (FlushedTotals Decimal) → ℕ
  delta none = 0
  delta (some f) = f.tokens_delta

  -- The next state, and what is flushed of the ticket
  unfoldable pub happen : String → Happening → Tickets → ℕ × Tickets
  happen id (session now j provider model input output) tickets = (
    0,
    (apply_session num to_lowercase from_f64 cost_to_string f64_of_u64 feedback table accepts now j
        provider model input output tickets).1,
  )
  happen id (flush now j) tickets =
      let (taken, kept) =
        take_pending num to_lowercase from_f64 cost_to_string f64_of_u64 now j tickets in
      (if str_eq j id then delta taken else 0, kept)

  abbrev pub tokens_of : String → Happening → ℕ
  tokens_of id (session now j provider model input output) =
      if str_eq j id then input + output else 0
  tokens_of id (flush now j) = 0

  unfoldable pub run : String → List Happening → Tickets → ℕ × Tickets
  run id [] tickets = (0, tickets)
  run id (h ∷ hs) tickets =
      let (flushed, next) = happen id h tickets in
      let (later, last) = run id hs next in (flushed + later, last)

  abbrev pub spent : String → List Happening → ℕ
  spent id [] = 0
  spent id (h ∷ hs) = tokens_of id h + spent id hs

  abbrev pending : TicketAccumulator Decimal → ℕ
  pending acc = acc.pending_input_tokens + acc.pending_output_tokens

  account_of-insert_self :
      (id : String) (acc : TicketAccumulator Decimal) (tickets : Tickets)
      → account_of id (insert id acc tickets) ≡ acc
  account_of-insert_self id acc tickets =
      ground (arith, lookup-insert id id acc tickets, eq_refl id)

  account_of-insert_other :
      (id j : String) (acc : TicketAccumulator Decimal) (tickets : Tickets)
      → str_eq j id ≡ false
      → account_of id (insert j acc tickets) ≡ account_of id tickets
  account_of-insert_other id j acc tickets e = ground (arith, lookup-insert j id acc tickets, e)

  add_session-counts :
      (now : ℕ) (c : Decimal) (input output : ℕ) (acc : TicketAccumulator Decimal)
      → pending acc ≤ acc.running_total_tokens
      → acc.running_total_tokens + (input + output) ≤ u64_max
      → let acc' =
          add_session num to_lowercase from_f64 cost_to_string f64_of_u64 now c input output acc in
        (acc'.running_total_tokens ≡ acc.running_total_tokens + (input + output))
        × (pending acc' ≡ pending acc + (input + output))
  unfolding add_session
  add_session-counts now c input output acc p q = (omega arith, omega arith)

  -- From one account to the next, with `n` tokens spent and some flushed
  record Moved (before : TicketAccumulator Decimal) (n flushed : ℕ)
      (after : TicketAccumulator Decimal) : Type 0 where
    pub total : after.running_total_tokens ≡ before.running_total_tokens + n
    pub kept : flushed + pending after ≡ pending before + n
    pub below : pending after ≤ after.running_total_tokens

  -- A happening, at the account of a ticket
  abbrev Counts : String → Tickets → ℕ → ℕ × Tickets → Type 0
  Counts id before n r = Moved (account_of id before) n r.0 (account_of id r.1)

  Counts-self :
      (id : String) (before : Tickets) (n flushed : ℕ) (acc : TicketAccumulator Decimal)
      → Moved (account_of id before) n flushed acc
      → Counts id before n (flushed, insert id acc before)
  Counts-self id before n flushed acc m =
      subst (λ a. Moved (account_of id before) n flushed a)
        (sym (account_of-insert_self id acc before)) m

  stays :
      (acc : TicketAccumulator Decimal) → pending acc ≤ acc.running_total_tokens → Moved acc 0 0 acc
  stays acc le = record { total = omega arith; kept = omega arith; below = le }

  Counts-other :
      (id j : String) (before : Tickets) (acc : TicketAccumulator Decimal)
      → str_eq j id ≡ false
      → pending_of id before ≤ total_of id before
      → Counts id before 0 (0, insert j acc before)
  Counts-other id j before acc e le =
      subst (λ a. Moved (account_of id before) 0 0 a)
        (sym (account_of-insert_other id j acc before e)) (stays (account_of id before) le)

  session-Counts :
      (id j provider model : String) (now input output : ℕ) (tickets : Tickets)
      → pending_of id tickets ≤ total_of id tickets
      → total_of id tickets + tokens_of id (session now j provider model input output) ≤ u64_max
      → Counts id tickets
          (tokens_of id (session now j provider model input output))
          (happen id (session now j provider model input output) tickets)
  unfolding happen apply_session
  session-Counts id j provider model now input output tickets p q =
      elim (Bool-cases (str_eq j id)) [
        | inl e ↦
            let same : j ≡ id = ground (arith, eq_iff j id, e) in
            let q' : total_of id tickets + (input + output) ≤ u64_max = ground (arith, q, e) in
            let c = compute_cost num to_lowercase table provider model input output in
            let (t, n) = add_session-counts now c input output (account_of id tickets) p q' in
            rw (e, same)
              (Counts-self id tickets (input + output) 0
                (add_session num to_lowercase from_f64 cost_to_string f64_of_u64 now c input output
                  (account_of id tickets))
                (record { total = t; kept = omega (arith, n); below = omega (arith, t, n, p) }))
        | inr e ↦ rw e (Counts-other id j tickets _ e p)
      ]

  -- What a flush takes of the ticket's own account
  cleared-Moved :
      (now : ℕ) (acc : TicketAccumulator Decimal)
      → pending acc ≤ acc.running_total_tokens
      → acc.running_total_tokens ≤ u64_max
      → Moved acc 0
          (snapshot_of num to_lowercase from_f64 cost_to_string f64_of_u64 acc).tokens_delta
          (cleared num to_lowercase from_f64 cost_to_string f64_of_u64 now acc)
  cleared-Moved now acc le fits = record {
    total = omega arith;
    kept = omega arith;
    below = omega arith;
  }

  taken-Counts :
      (id j : String) (now : ℕ) (tickets : Tickets) (o : Option (TicketAccumulator Decimal))
      → lookup j tickets ≡ o
      → pending_of id tickets ≤ total_of id tickets
      → total_of id tickets ≤ u64_max
      → let r = take_from num to_lowercase from_f64 cost_to_string f64_of_u64 now j tickets o in
        Counts id tickets 0 ((if str_eq j id then delta r.0 else 0), r.1)
  taken-Counts id j now tickets none e p q = elim (Bool-cases (str_eq j id)) [
    | inl b ↦ rw b (stays (account_of id tickets) p)
    | inr b ↦ rw b (stays (account_of id tickets) p)
  ]
  taken-Counts id j now tickets (some acc) e p q =
      elim (Bool-cases (has_pending num to_lowercase from_f64 cost_to_string f64_of_u64 acc)) [
        | inl h ↦ elim (Bool-cases (str_eq j id)) [
          | inl b ↦
              let same : j ≡ id = ground (arith, eq_iff j id, b) in
              let mine : account_of id tickets ≡ acc = ground (arith, e, same) in
              let le : pending acc ≤ acc.running_total_tokens =
                subst (λ (a : TicketAccumulator Decimal). pending a ≤ a.running_total_tokens) mine
                  p in
              let fits : acc.running_total_tokens ≤ u64_max =
                subst (λ (a : TicketAccumulator Decimal). a.running_total_tokens ≤ u64_max) mine
                  q in
              rw (h, b, same)
                (Counts-self id tickets 0
                  (snapshot_of num to_lowercase from_f64 cost_to_string f64_of_u64 acc).tokens_delta
                  (cleared num to_lowercase from_f64 cost_to_string f64_of_u64 now acc)
                  (subst
                    (λ (a : TicketAccumulator Decimal).
                      Moved a 0
                        (snapshot_of num to_lowercase from_f64 cost_to_string f64_of_u64
                          acc).tokens_delta
                        (cleared num to_lowercase from_f64 cost_to_string f64_of_u64 now acc))
                    (sym mine) (cleared-Moved now acc le fits)))
          | inr b ↦ rw (h, b) (Counts-other id j tickets _ b p)
        ]
        | inr h ↦ elim (Bool-cases (str_eq j id)) [
          | inl b ↦ rw (h, b) (stays (account_of id tickets) p)
          | inr b ↦ rw (h, b) (stays (account_of id tickets) p)
        ]
      ]

  happen-Counts :
      (id : String) (h : Happening) (tickets : Tickets)
      → pending_of id tickets ≤ total_of id tickets
      → total_of id tickets + tokens_of id h ≤ u64_max
      → Counts id tickets (tokens_of id h) (happen id h tickets)
  happen-Counts id (session now j provider model input output) tickets p q =
      session-Counts id j provider model now input output tickets p q
  happen-Counts id (flush now j) tickets p q =
      unfold happen take_pending in
      taken-Counts id j now tickets (lookup j tickets) refl p (omega (arith, q))

  run-Counts :
      (id : String) (hs : List Happening) (tickets : Tickets)
      → pending_of id tickets ≤ total_of id tickets
      → total_of id tickets + spent id hs ≤ u64_max
      → Counts id tickets (spent id hs) (run id hs tickets)
  unfolding run
  run-Counts id [] tickets p q = stays (account_of id tickets) p
  run-Counts id (h ∷ hs) tickets p q =
      let step = happen-Counts id h tickets p (omega (arith, q)) in
      let rest =
        run-Counts id hs (happen id h tickets).1 step.below (omega (arith, q, step.total)) in
      record {
        total = omega (arith, step.total, rest.total);
        kept = omega (arith, step.kept, rest.kept);
        below = rest.below;
      }

  -- Over any sessions and flushes of any tickets, from an empty accumulator, as long as a `u64` holds
  -- the tokens of a ticket: its running total is the sum of the tokens of its sessions, and what was
  -- flushed of it together with what is pending is that sum too.
  pub run_lem :
      (id : String) (hs : List Happening)
      → spent id hs ≤ u64_max
      → let r = run id hs [] in
        (total_of id r.1 ≡ spent id hs) × (r.0 + pending_of id r.1 ≡ spent id hs)
  unfolding lookup
  run_lem id hs fits =
      let m = run-Counts id hs [] (omega arith) (omega (arith, fits)) in
      (omega (arith, m.total), omega (arith, m.kept))
