-- ===== src/Daemon/Orchestrator/AgentEvents/Accounting.antt =====
-- The token counts of a run and the totals over all runs.
use sinfonia.Base.{
  ℕ, ◌+◌, ◌-◌, ◌≤◌, ◌≡◌, ◌∙◌, ap, refl, String, List, [], ◌∷◌, none, some, u64_max, arith,
}
use sinfonia.Domain.{LiveSession, CodexTotals}
use sinfonia.Daemon.Orchestrator.AgentEvents.{
  AgentEvent, TokenUsage, turn_started, turn_progress, turn_completed, account, note_event,
  reset_baseline, session_usage, totals_usage, count_turn, usage,
}

-- The reports of one turn: while it goes on, at its end with a message, or at its end with none
pub data Report : Type 0 where
  progress : ℕ → TokenUsage → Report
  ended : ℕ → String → TokenUsage → Report
  silent : ℕ → String → Report

abbrev pub event_of : String → String → Report → AgentEvent
event_of thread turn (progress at u) = turn_progress at thread turn u
event_of thread turn (ended at message u) = turn_completed at thread turn message (some u)
event_of thread turn (silent at message) = turn_completed at thread turn message none

unfoldable pub account_all :
    String → String → List Report → LiveSession → CodexTotals → LiveSession × CodexTotals
account_all thread turn [] s t = (s, t)
account_all thread turn (r ∷ rest) s t =
    let (s', t') = account (event_of thread turn r) s t in account_all thread turn rest s' t'

-- One of the three counts: in a report, of a run with its baseline, and over all runs
pub record Counter : Type 0 where
  pub reported : TokenUsage → ℕ
  pub run : LiveSession → ℕ
  pub base : LiveSession → ℕ
  pub overall : CodexTotals → ℕ

abbrev pub input : Counter
input = record {
  reported = λ u. u.input_tokens;
  run = λ s. s.codex_input_tokens;
  base = λ s. s.last_reported_input_tokens;
  overall = λ t. t.input_tokens;
}

abbrev pub output : Counter
output = record {
  reported = λ u. u.output_tokens;
  run = λ s. s.codex_output_tokens;
  base = λ s. s.last_reported_output_tokens;
  overall = λ t. t.output_tokens;
}

abbrev pub total : Counter
total = record {
  reported = λ u. u.total_tokens;
  run = λ s. s.codex_total_tokens;
  base = λ s. s.last_reported_total_tokens;
  overall = λ t. t.total_tokens;
}

-- The count of a report, or the one before where it has none
abbrev pub count_in : Counter → ℕ → Report → ℕ
count_in k d (progress at u) = k.reported u
count_in k d (ended at message u) = k.reported u
count_in k d (silent at message) = d

-- The reports are cumulative: none is below the one before.
abbrev pub IsCumulative : Counter → ℕ → List Report → Type 0
IsCumulative k low [] = Unit
IsCumulative k low (r ∷ rest) = (low ≤ count_in k low r) × IsCumulative k (count_in k low r) rest

-- The last count of a list, or the value before it
abbrev pub last_count : Counter → ℕ → List Report → ℕ
last_count k d [] = d
last_count k d (r ∷ rest) = last_count k (count_in k d r) rest

last_count-ge :
    (k : Counter) (low : ℕ) (rs : List Report) → IsCumulative k low rs → low ≤ last_count k low rs
last_count-ge k low [] h = omega arith
last_count-ge k low (r ∷ rest) h = omega (arith, h.0, last_count-ge k (count_in k low r) rest h.1)

-- What one report does to a count
abbrev Steps : Counter → Type 0
Steps k =
    (thread turn : String) (r : Report) (s : LiveSession) (t : CodexTotals)
    → let q = account (event_of thread turn r) s t in
      let d = count_in k (k.base s) r in
      (k.run s + (d - k.base s) ≤ u64_max → k.run q.0 ≡ k.run s + (d - k.base s))
      × (k.overall t + (d - k.base s) ≤ u64_max → k.overall q.1 ≡ k.overall t + (d - k.base s))
      × (k.base q.0 ≡ d)

-- Behind a baseline, cumulative reports raise the run's count and the one over all runs by the distance
-- from the baseline to the last report, whatever reports came between, as long as a `u64` holds them.
progress_telescopes :
    (k : Counter) (steps : Steps k) (thread turn : String) (b : ℕ) (rs : List Report)
    (s : LiveSession) (t : CodexTotals)
    → k.base s ≡ b
    → IsCumulative k b rs
    → k.run s + last_count k b rs ≤ u64_max + b
    → k.overall t + last_count k b rs ≤ u64_max + b
    → let q = account_all thread turn rs s t in
      (k.run q.0 + b ≡ k.run s + last_count k b rs)
      × (k.overall q.1 + b ≡ k.overall t + last_count k b rs)
unfolding account_all
progress_telescopes k steps thread turn b [] s t e c h i = (refl, refl)
progress_telescopes k steps thread turn b (r ∷ rest) s t e c h i =
    let q = account (event_of thread turn r) s t in
    let d = count_in k b r in
    let same : count_in k (k.base s) r ≡ d = ap (λ n. count_in k n r) e in
    let step = steps thread turn r s t in
    let low : b ≤ d = c.0 in
    let ge = last_count-ge k d rest c.1 in
    let session : k.run q.0 ≡ k.run s + (count_in k (k.base s) r - k.base s) =
      step.0 (omega (arith, h, e, same, low, ge)) in
    let totals : k.overall q.1 ≡ k.overall t + (count_in k (k.base s) r - k.base s) =
      step.1 (omega (arith, i, e, same, low, ge)) in
    let (p, o) =
      progress_telescopes k steps thread turn d rest q.0 q.1 (step.2 ∙ same) c.1
        (omega (arith, session, h, e, same, low)) (omega (arith, totals, i, e, same, low)) in
    (omega (arith, p, session, e, same, low), omega (arith, o, totals, e, same, low))

input-Steps : Steps input
unfolding account note_event reset_baseline session_usage totals_usage count_turn usage
input-Steps thread turn (progress at u) s t = (λ h. omega (arith, h), λ h. omega (arith, h), refl)
input-Steps thread turn (ended at message u) s t =
    (λ h. omega (arith, h), λ h. omega (arith, h), refl)
input-Steps thread turn (silent at message) s t = (λ h. omega arith, λ h. omega arith, refl)

output-Steps : Steps output
unfolding account note_event reset_baseline session_usage totals_usage count_turn usage
output-Steps thread turn (progress at u) s t = (λ h. omega (arith, h), λ h. omega (arith, h), refl)
output-Steps thread turn (ended at message u) s t =
    (λ h. omega (arith, h), λ h. omega (arith, h), refl)
output-Steps thread turn (silent at message) s t = (λ h. omega arith, λ h. omega arith, refl)

total-Steps : Steps total
unfolding account note_event reset_baseline session_usage totals_usage count_turn usage
total-Steps thread turn (progress at u) s t = (λ h. omega (arith, h), λ h. omega (arith, h), refl)
total-Steps thread turn (ended at message u) s t =
    (λ h. omega (arith, h), λ h. omega (arith, h), refl)
total-Steps thread turn (silent at message) s t = (λ h. omega arith, λ h. omega arith, refl)

-- The reports of a count are cumulative, and a `u64` holds the sums with the last.
abbrev pub Fits : Counter → List Report → LiveSession → CodexTotals → Type 0
Fits k rs s t =
    IsCumulative k 0 rs
    × (k.run s + last_count k 0 rs ≤ u64_max)
    × (k.overall t + last_count k 0 rs ≤ u64_max)

-- A count has grown by the last report.
abbrev pub Grown :
    Counter → List Report → LiveSession → CodexTotals → LiveSession × CodexTotals → Type 0
Grown k rs s t q =
    (k.run q.0 ≡ k.run s + last_count k 0 rs) × (k.overall q.1 ≡ k.overall t + last_count k 0 rs)

one_count :
    (k : Counter) (steps : Steps k) (thread turn : String) (rs : List Report)
    (s started : LiveSession) (t totals : CodexTotals)
    → (k.run started ≡ k.run s) × (k.overall totals ≡ k.overall t) × (k.base started ≡ 0)
    → Fits k rs s t
    → Grown k rs s t (account_all thread turn rs started totals)
one_count k steps thread turn rs s started t totals (a, b, z) f =
    let (p, q) =
      progress_telescopes k steps thread turn 0 rs started totals z f.0 (omega (arith, a, f.1))
        (omega (arith, b, f.2)) in
    (omega (arith, p, a), omega (arith, q, b))

-- A turn that starts and reports cumulatively, by progress events and at its end, adds its last report
-- to the run and to the sums over all runs: the input, the output and the total tokens, whatever reports
-- came between, as long as a `u64` holds the sums.
pub turn_accounting :
    (thread turn : String) (at : ℕ) (rs : List Report) (s : LiveSession) (t : CodexTotals)
    → Fits input rs s t
    → Fits output rs s t
    → Fits total rs s t
    → let started = account (turn_started at thread turn) s t in
      let q = account_all thread turn rs started.0 started.1 in
      Grown input rs s t q × Grown output rs s t q × Grown total rs s t q
unfolding account note_event reset_baseline count_turn usage
turn_accounting thread turn at rs s t f g h =
    let started = account (turn_started at thread turn) s t in
    (
      one_count input input-Steps thread turn rs s started.0 t started.1 (refl, refl, refl) f,
      one_count output output-Steps thread turn rs s started.0 t started.1 (refl, refl, refl) g,
      one_count total total-Steps thread turn rs s started.0 t started.1 (refl, refl, refl) h,
    )
