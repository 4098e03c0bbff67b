-- ===== src/Bridge/World.antt =====
-- The bridge and what it talks to. The tracker, GitHub and SQLite are not part of this repository:
-- an `Environment` says how each call is answered, as a function of all calls made before it, so
-- that it may answer the same call differently each time, or fail. Every call that the bridge makes
-- is recorded, in order.
pub mod Triple
use sinfonia.Base.{
  ℕ, ◌≡◌, refl, String, Bool, true, false, Option, none, some, List, [], ◌∷◌, ◌++◌, Map,
  if◌then◌else◌,
}
use sinfonia.Domain.{CustomFieldValue}
use sinfonia.Bridge.Types.{
  Error, Result, ok, err, CheckRunSummary, PrLanding, UpdateBranchOutcome, MergeOutcome, LandingRow,
  LandingStatus,
}

pub data Call : Type 0 where
  -- IssueTracker
  read_custom_field : String → String → Call
  write_custom_field : String → String → CustomFieldValue → Call
  transition_issue : String → String → Call
  -- GhOps
  ensure_label : String → String → String → String → Call
  apply_label_to_pr : String → ℕ → String → Call
  remove_label_from_pr : String → ℕ → String → Call
  post_pr_comment : String → ℕ → String → Call
  list_check_run_summary : String → String → Call
  get_pull_request : String → ℕ → Call
  update_pr_branch : String → ℕ → String → Call
  merge_pr : String → ℕ → String → String → Call
  -- a statement of the database, by the name of the method of `Store` that issues it
  sql : String → Call

pub record Environment : Type 0 where
  -- calls that answer nothing
  pub perform : List Call → Call → Result (Unit {0})
  pub field : List Call → String → String → Result CustomFieldValue
  pub summary : List Call → String → String → Result CheckRunSummary
  pub pull_request : List Call → String → ℕ → Result PrLanding
  pub update_branch : List Call → String → ℕ → String → Result UpdateBranchOutcome
  pub merge : List Call → String → ℕ → String → String → Result MergeOutcome
  -- `Utc::now().timestamp()`
  pub now : List Call → ℕ

-- The tables of the database.
pub record Tables : Type 0 where
  pub processed_deliveries : List String
  pub pr_ticket_map : List (String × ℕ × String)
  pub landing_queue : List LandingRow

pub record World : Type 0 where
  pub tables : Tables
  pub calls : List Call

-- A function of the bridge, in a given environment.
abbrev pub Action : Type 0 → Type 0
Action A = World → Result A × World

abbrev pub continue : {A B : Type 0} → Result A → (A → Action B) → Action B
continue (ok a) f w = f a w
continue (err e) f w = (err e, w)

infixl 5 ◌>>=◌ ◌>>◌
unfoldable pub ◌>>=◌ : {A B : Type 0} → Action A → (A → Action B) → Action B
◌>>=◌ m f w = let (r, w') = m w in continue r f w'

abbrev pub ◌>>◌ : {A B : Type 0} → Action A → Action B → Action B
m >> k = m >>= λ _. k

unfoldable pub pure : {A : Type 0} → A → Action A
pure a w = (ok a, w)

unfoldable pub raise : {A : Type 0} → Error → Action A
raise e w = (err e, w)

-- `if let Err(e) = m { warn!(…) }`
unfoldable pub tolerate : {A : Type 0} → Action A → Action (Unit {0})
tolerate m w = let (r, w') = m w in (ok tt, w')

-- The call is recorded, whatever the answer.
abbrev pub note : World → Call → World
note w c = record w { calls = w.calls ++ c ∷ [] }

-- What a statement does, where the database takes it and where it fails
abbrev pub commit :
    {A : Type 0}
    → ℕ
    → String
    → (ℕ → Tables → Result A × Tables)
    → World
    → Result (Unit {0})
    → Result A × World
commit now name statement w (ok _) =
    let (r, t) = statement now w.tables in
    (r, record { tables = t; calls = w.calls ++ sql name ∷ [] })
commit now name statement w (err e) = (err e, note w (sql name))

module _ (env : Environment) where
  unfoldable pub perform : Call → Action (Unit {0})
  perform c w = (env.perform w.calls c, note w c)

  unfoldable pub ask_field : String → String → Action CustomFieldValue
  ask_field ticket key w = (env.field w.calls ticket key, note w (read_custom_field ticket key))

  unfoldable pub ask_summary : String → String → Action CheckRunSummary
  ask_summary repo sha w = (env.summary w.calls repo sha, note w (list_check_run_summary repo sha))

  unfoldable pub ask_pull_request : String → ℕ → Action PrLanding
  ask_pull_request repo pr w = (env.pull_request w.calls repo pr, note w (get_pull_request repo pr))

  unfoldable pub ask_update_branch : String → ℕ → String → Action UpdateBranchOutcome
  ask_update_branch repo pr sha w =
      (env.update_branch w.calls repo pr sha, note w (update_pr_branch repo pr sha))

  unfoldable pub ask_merge : String → ℕ → String → String → Action MergeOutcome
  ask_merge repo pr method sha w =
      (env.merge w.calls repo pr method sha, note w (merge_pr repo pr method sha))

  -- A statement changes the tables as it says, or nothing where the database fails.
  unfoldable pub execute : {A : Type 0} → String → (ℕ → Tables → Result A × Tables) → Action A
  execute name statement w =
      commit (env.now w.calls) name statement w (env.perform w.calls (sql name))
