-- ===== src/Daemon/Orchestrator/Dispatch/Eligibility.antt =====
-- Which issues `is_dispatch_eligible` lets through.
use sinfonia.Base.{
  ◌≡◌, ◌↔◌, refl, String, Bool, true, false, ◌&&◌, List, [], ◌∷◌, any, all, Any, All, any_iff,
  str_eq, is_empty_str, eq_ignore_ascii_case, unwrap_or, arith, Bool-cases, inl, inr, ◌⊎◌,
  if◌then◌else◌, is_empty,
}
use sinfonia.Domain.{Issue, BlockerRef}
use sinfonia.Daemon.Config.{ServiceConfig, DispatchAllowlist, permits}
use sinfonia.Daemon.Orchestrator.Dispatch.{is_dispatch_eligible, is_released, in_states}

-- The label allowlist is empty, or a required label is among the issue's, up to ASCII case.
abbrev pub Allowed : DispatchAllowlist → List String → Type 0
Allowed d labels =
    (is_empty d.require_labels ≡ true)
    ⊎ Any (λ req. Any (λ l. eq_ignore_ascii_case l req ≡ true) labels) d.require_labels

Any-map :
    {A : Type 0} (P Q : A → Type 0) (f : (x : A) → P x → Q x) (xs : List A) → Any P xs → Any Q xs
Any-map P Q f [] h = h
Any-map P Q f (x ∷ xs) (inl p) = inl (f x p)
Any-map P Q f (x ∷ xs) (inr r) = inr (Any-map P Q f xs r)

permits-Allowed :
    (d : DispatchAllowlist) (labels : List String) → permits d labels ≡ true → Allowed d labels
unfolding permits
permits-Allowed d labels h = elim (Bool-cases (is_empty d.require_labels)) [
  | inl e ↦ inl e
  | inr e ↦ inr (
      Any-map _ _ (λ req. (any_iff (λ l. eq_ignore_ascii_case l req) labels).0) d.require_labels
        ((any_iff _ d.require_labels).0 (rw e at h)))
]

Allowed-permits :
    (d : DispatchAllowlist) (labels : List String) → Allowed d labels → permits d labels ≡ true
unfolding permits
Allowed-permits d labels (inl e) = rw e
Allowed-permits d labels (inr r) = elim (Bool-cases (is_empty d.require_labels)) [
  | inl e ↦ rw e
  | inr e ↦ rw e (
      (any_iff _ d.require_labels).1 (
        Any-map _ _ (λ req. (any_iff (λ l. eq_ignore_ascii_case l req) labels).1) d.require_labels
          r))
]

unblocked_branch :
    (a b : Bool) {c : Bool} → (a ≡ true → b ≡ true → c ≡ true) → (if a && b then c else true) ≡ true
unblocked_branch true true h = h refl refl
unblocked_branch true false h = refl
unblocked_branch false b h = refl

module _ (to_lowercase : String → String) where
  -- A blocker holds an issue back no more: its state has a name, that of a terminal state.
  pub record IsDone (terminal_states : List String) (b : BlockerRef) : Type 0 where
    pub named : is_empty_str (to_lowercase (unwrap_or b.state "")) ≡ false
    pub terminal :
        in_states to_lowercase terminal_states (to_lowercase (unwrap_or b.state "")) ≡ true

  -- What the specification asks of an issue that is dispatched.
  pub record IsEligible (issue : Issue) (cfg : ServiceConfig) : Type 0 where
    pub has_id : is_empty_str issue.id ≡ false
    pub has_identifier : is_empty_str issue.identifier ≡ false
    pub has_title : is_empty_str issue.title ≡ false
    pub has_state : is_empty_str issue.state ≡ false
    pub active :
        Any
          (λ s. str_eq (to_lowercase s) (to_lowercase issue.state) ≡ true)
          cfg.tracker.active_states
    pub not_terminal :
        All
          (λ s. str_eq (to_lowercase s) (to_lowercase issue.state) ≡ false)
          cfg.tracker.terminal_states
    pub allowed : Allowed cfg.dispatch_allowlist issue.labels
    pub unblocked :
        Any (λ s. eq_ignore_ascii_case s "Todo" ≡ true) cfg.tracker.active_states
        → str_eq (to_lowercase issue.state) "todo" ≡ true
        → All (IsDone cfg.tracker.terminal_states) issue.blocked_by

  none_of : (p : String → Bool) (xs : List String) → any p xs ≡ false → All (λ x. p x ≡ false) xs
  none_of p [] h = tt
  none_of p (x ∷ xs) h = (ground arith, none_of p xs (ground arith))

  of_none : (p : String → Bool) (xs : List String) → All (λ x. p x ≡ false) xs → any p xs ≡ false
  of_none p [] h = refl
  of_none p (x ∷ xs) h = rw (h.0) (of_none p xs h.1)

  released_all :
      (ts : List String) (bs : List BlockerRef)
      → all (is_released to_lowercase ts) bs ≡ true
      → All (IsDone ts) bs
  unfolding is_released
  released_all ts [] h = tt
  released_all ts (b ∷ bs) h =
      (record { named = ground arith; terminal = ground arith }, released_all ts bs (ground arith))

  all_released :
      (ts : List String) (bs : List BlockerRef)
      → All (IsDone ts) bs
      → all (is_released to_lowercase ts) bs ≡ true
  unfolding is_released
  all_released ts [] h = refl
  all_released ts (b ∷ bs) h =
      let (d, ds) = h in ground (arith, d.named, d.terminal, all_released ts bs ds)

  is_dispatch_eligible-IsEligible :
      (issue : Issue) (cfg : ServiceConfig)
      → is_dispatch_eligible to_lowercase issue cfg ≡ true
      → IsEligible issue cfg
  unfolding is_dispatch_eligible
  is_dispatch_eligible-IsEligible issue cfg h = record {
    has_id = ground (arith, h);
    has_identifier = ground (arith, h);
    has_title = ground (arith, h);
    has_state = ground (arith, h);
    active = (any_iff _ cfg.tracker.active_states).0 (ground (arith, h));
    not_terminal = none_of _ cfg.tracker.terminal_states (ground (arith, h));
    allowed = permits-Allowed cfg.dispatch_allowlist issue.labels (ground (arith, h));
    unblocked = λ todo at_todo.
        let listed : any (λ s. eq_ignore_ascii_case s "Todo") cfg.tracker.active_states ≡ true =
          (any_iff _ cfg.tracker.active_states).1 todo in
        released_all cfg.tracker.terminal_states issue.blocked_by
          (ground (arith, h, listed, at_todo));
  }

  IsEligible-is_dispatch_eligible :
      (issue : Issue) (cfg : ServiceConfig)
      → IsEligible issue cfg
      → is_dispatch_eligible to_lowercase issue cfg ≡ true
  unfolding is_dispatch_eligible
  IsEligible-is_dispatch_eligible issue cfg e =
      let active : any (λ s. str_eq (to_lowercase s) (to_lowercase issue.state))
            cfg.tracker.active_states
          ≡ true =
        (any_iff _ cfg.tracker.active_states).1 e.active in
      let open_state : any (λ s. str_eq (to_lowercase s) (to_lowercase issue.state))
            cfg.tracker.terminal_states
          ≡ false =
        of_none _ cfg.tracker.terminal_states e.not_terminal in
      let allowed : permits cfg.dispatch_allowlist issue.labels ≡ true =
        Allowed-permits cfg.dispatch_allowlist issue.labels e.allowed in
      rw (e.has_id, e.has_identifier, e.has_title, e.has_state, active, open_state, allowed)
        (unblocked_branch (any (λ s. eq_ignore_ascii_case s "Todo") cfg.tracker.active_states)
          (str_eq (to_lowercase issue.state) "todo")
          (λ todo at_todo.
            all_released cfg.tracker.terminal_states issue.blocked_by
              (e.unblocked ((any_iff _ cfg.tracker.active_states).0 todo) at_todo)))

  -- An issue is eligible exactly when it is named, in an active state and in no terminal one,
  -- allowed by its labels, and, in a configured state Todo, free of blockers that are not done.
  pub is_dispatch_eligible_iff :
      (issue : Issue) (cfg : ServiceConfig)
      → (is_dispatch_eligible to_lowercase issue cfg ≡ true) ↔ IsEligible issue cfg
  is_dispatch_eligible_iff issue cfg =
      (is_dispatch_eligible-IsEligible issue cfg, IsEligible-is_dispatch_eligible issue cfg)
