-- ===== src/Daemon/Orchestrator/Snapshot/Views.antt =====
-- The view of an issue against the rows of the snapshot.
use sinfonia.Base.{
  ℕ, suc, ◌≡◌, ◌∙◌, refl, sym, ap, String, Bool, Option, none, some, List, [], ◌∷◌, map, Map,
  values, length, any, find, is_some, ◌||◌, str_eq, arith, if◌then◌else◌,
}
use sinfonia.Domain.{RunningEntry, RetryEntry, OrchestratorState}
use sinfonia.Json.{Json, text_at}
use sinfonia.Daemon.Orchestrator.Snapshot.{
  RunningRow, RetryRow, SnapshotView, running_row, retry_row, build_snapshot, found_view,
  build_issue_view,
}

abbrev pub runs_as : String → SnapshotView → Bool
runs_as identifier view =
    any (λ (r : RunningRow). str_eq r.issue_identifier identifier) view.running

abbrev pub retries_as : String → SnapshotView → Bool
retries_as identifier view =
    any (λ (r : RetryRow). str_eq r.issue_identifier identifier) view.retrying

any-running :
    (identifier : String) (rs : List RunningEntry)
    → any (λ (r : RunningRow). str_eq r.issue_identifier identifier) (map running_row rs)
      ≡ is_some (find (λ (r : RunningEntry). str_eq r.identifier identifier) rs)
unfolding running_row
any-running identifier [] = refl
any-running identifier (r ∷ rest) = ground (arith, any-running identifier rest)

any-retrying :
    (identifier : String) (rs : List RetryEntry)
    → any (λ (r : RetryRow). str_eq r.issue_identifier identifier) (map retry_row rs)
      ≡ is_some (find (λ (r : RetryEntry). str_eq r.identifier identifier) rs)
unfolding retry_row
any-retrying identifier [] = refl
any-retrying identifier (r ∷ rest) = ground (arith, any-retrying identifier rest)

-- The status that a view shows
abbrev pub status_of : Option Json → Option String
status_of none = none
status_of (some v) = text_at (some v) "status"

found_view_lem :
    (time : ℕ → String) (identifier : String) (entry : Option RunningEntry)
    (retry : Option RetryEntry)
    → status_of (found_view time identifier entry retry)
      ≡ (if is_some entry then some "running" else if is_some retry then some "retrying" else none)
found_view_lem time identifier none none = refl
found_view_lem time identifier none (some r) = refl
found_view_lem time identifier (some e) none = refl
found_view_lem time identifier (some e) (some r) = refl

found_view-exists :
    (time : ℕ → String) (identifier : String) (entry : Option RunningEntry)
    (retry : Option RetryEntry)
    → is_some (found_view time identifier entry retry) ≡ is_some entry || is_some retry
found_view-exists time identifier none none = refl
found_view-exists time identifier none (some r) = refl
found_view-exists time identifier (some e) none = refl
found_view-exists time identifier (some e) (some r) = refl

-- The counts and the rows
length-map : {A B : Type 0} (f : A → B) (xs : List A) → length (map f xs) ≡ length xs
length-map f [] = refl
length-map f (x ∷ xs) = ap (λ n. suc n) (length-map f xs)

length-values : {V : Type 0} (m : Map V) → length (values m) ≡ length m
length-values [] = refl
length-values ((k, v) ∷ rest) = ap (λ n. suc n) (length-values rest)

-- An issue has a view exactly where the snapshot has a row of its identifier: its status is `running`
-- where a run has it, and else `retrying`. The counts are the numbers of the rows.
pub build_issue_view_lem :
    (time : ℕ → String) (now : ℕ) (state : OrchestratorState) (identifier : String)
    → let view = build_snapshot now state in
      (is_some (build_issue_view time state identifier)
        ≡ runs_as identifier view || retries_as identifier view)
      × (status_of (build_issue_view time state identifier) ≡ (
          if runs_as identifier view
          then some "running"
          else if retries_as identifier view
          then some "retrying"
          else none))
      × (view.counts.running ≡ length view.running)
      × (view.counts.retrying ≡ length view.retrying)
unfolding build_snapshot build_issue_view
build_issue_view_lem time now state identifier = (
  rw
      (
        any-running identifier (values state.running),
        any-retrying identifier (values state.retry_attempts),
      )
      (found_view-exists time identifier _ _),
  rw
      (
        any-running identifier (values state.running),
        any-retrying identifier (values state.retry_attempts),
      )
      (found_view_lem time identifier _ _),
  sym (length-map running_row (values state.running) ∙ length-values state.running),
  sym (length-map retry_row (values state.retry_attempts) ∙ length-values state.retry_attempts),
)
