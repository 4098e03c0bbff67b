-- ===== src/Bridge/Config/Validate/Rules.antt =====
-- What each section must satisfy for its checks to pass.
use sinfonia.Base.{
  ltb, ◌≤◌, ◌≡◌, ◌↔◌, ◌⊎◌, inl, inr, refl, String, Bool, true, false, ◌&&◌, ◌||◌, not, Option, none,
  some, List, [], ◌∷◌, All, is_blank, is_some, arith, str_eq, eq_iff, Bool-cases,
}
use sinfonia.Tracker.Config.{TrackerKind, linear, jira}
use sinfonia.Bridge.Types.{Result, ok, err, TrackerSection, GitHubSection, FeedbackLoopSection}
use sinfonia.Bridge.Config.Defaults.{◌>>=◌, ◌>>◌, refuse_if}
use sinfonia.Bridge.Config.Validate.{
  contains_str, check_github, check_tracker, is_merge_method, check_states, check_fields,
}

-- A chain of checks passes where each does.
pub refuse_if_iff : (b : Bool) (message : String) → (refuse_if b message ≡ ok tt) ↔ (b ≡ false)
refuse_if_iff true message = (λ h. cc h, λ h. cc h)
refuse_if_iff false message = (λ h. refl, λ h. refl)

pub then_iff : (m k : Result (Unit {0})) → ((m >> k) ≡ ok tt) ↔ ((m ≡ ok tt) × (k ≡ ok tt))
unfolding ◌>>=◌
then_iff (ok u) k = (λ h. (refl, h), λ h. h.1)
then_iff (err e) k = (λ h. cc h, λ h. cc (h.0))

-- One credential: a token, or an app with its key
abbrev pub Credential : GitHubSection → Type 0
Credential g =
    ((is_some g.pat ≡ true) × (g.app_id ≡ none))
    ⊎ ((g.pat ≡ none) × (is_some g.app_id ≡ true) × (is_some g.private_key ≡ true))

credential_cases :
    {P K : Type 0} {A : Type 0} (pat : Option P) (app_id : Option A) (key : Option K)
    → ((((is_some pat && is_some app_id) || not (is_some pat || is_some app_id)) ≡ false)
        × ((is_some app_id && not (is_some key)) ≡ false))
      ↔ (((is_some pat ≡ true) × (app_id ≡ none))
          ⊎ ((pat ≡ none) × (is_some app_id ≡ true) × (is_some key ≡ true)))
credential_cases none none key =
    (λ h. cc (h.0), λ h. elim h [ inl a ↦ cc (a.0) | inr b ↦ cc (b.1) ])
credential_cases none (some a) none =
    (λ h. cc (h.1), λ h. elim h [ inl a ↦ cc (a.0) | inr b ↦ cc (b.2) ])
credential_cases none (some a) (some k) = (λ h. inr (refl, refl, refl), λ h. (refl, refl))
credential_cases (some p) none key = (λ h. inl (refl, refl), λ h. (refl, refl))
credential_cases (some p) (some a) key =
    (λ h. cc (h.0), λ h. elim h [ inl a ↦ cc (a.1) | inr b ↦ cc (b.0) ])

pub check_github_iff : (g : GitHubSection) → (check_github g ≡ ok tt) ↔ Credential g
unfolding check_github
check_github_iff g =
    let both =
      then_iff
        (refuse_if ((is_some g.pat && is_some g.app_id) || not (is_some g.pat || is_some g.app_id))
          _)
        (refuse_if (is_some g.app_id && not (is_some g.private_key)) _) in
    let cases = credential_cases g.pat g.app_id g.private_key in
    (
      λ h. cases.0 ((refuse_if_iff _ _).0 (both.0 h).0, (refuse_if_iff _ _).0 (both.0 h).1),
      λ h. both.1 ((refuse_if_iff _ _).1 (cases.1 h).0, (refuse_if_iff _ _).1 (cases.1 h).1),
    )

-- A Jira has an address, and one in Atlassian's cloud an account.
abbrev pub Reachable : (String → String) → TrackerSection → Type 0
Reachable to_lowercase t =
    t.kind ≡ jira
    → (is_blank t.endpoint ≡ false)
      × (contains_str (to_lowercase t.endpoint) ".atlassian.net" ≡ true
          → is_some t.jira_email ≡ true)

cloud_iff :
    (cloud : Bool) {A : Type 0} (email : Option A)
    → ((cloud && not (is_some email)) ≡ false) ↔ (cloud ≡ true → is_some email ≡ true)
cloud_iff true none = (λ h. cc h, λ h. cc (h refl))
cloud_iff true (some e) = (λ h k. refl, λ h. refl)
cloud_iff false email = (λ h k. cc k, λ h. refl)

pub check_tracker_iff :
    (to_lowercase : String → String) (t : TrackerSection)
    → (check_tracker to_lowercase t ≡ ok tt) ↔ Reachable to_lowercase t
unfolding check_tracker
check_tracker_iff to_lowercase t = by_kind t.kind refl
  where
    by_kind :
        (k : TrackerKind)
        → t.kind ≡ k
        → (check_tracker to_lowercase t ≡ ok tt) ↔ Reachable to_lowercase t
    by_kind linear e = rw (e) (λ h k. cc k, λ h. refl)
    by_kind jira e =
        let both = then_iff (refuse_if (is_blank t.endpoint) _) (
          refuse_if
            (contains_str (to_lowercase t.endpoint) ".atlassian.net" && not (is_some t.jira_email))
            _) in
        let cloud =
          cloud_iff (contains_str (to_lowercase t.endpoint) ".atlassian.net") t.jira_email in
        rw (e) (
          λ h k. ((refuse_if_iff _ _).0 (both.0 h).0, cloud.0 ((refuse_if_iff _ _).0 (both.0 h).1)),
          λ h.
              both.1 ((refuse_if_iff _ _).1 (h refl).0, (refuse_if_iff _ _).1 (cloud.1 (h refl).1)),
        )

-- The methods by which GitHub merges
abbrev pub IsMethod : String → Type 0
IsMethod m = (m ≡ "rebase") ⊎ (m ≡ "squash") ⊎ (m ≡ "merge")

is_merge_method_iff : (m : String) → (is_merge_method m ≡ true) ↔ IsMethod m
is_merge_method_iff m = (
  λ h. elim (Bool-cases (str_eq m "rebase")) [
    | inl e ↦ inl ((eq_iff m "rebase").0 e)
    | inr e ↦ elim (Bool-cases (str_eq m "squash")) [
      | inl f ↦ inr (inl ((eq_iff m "squash").0 f))
      | inr f ↦ inr (inr ((eq_iff m "merge").0 (ground (arith, h, e, f))))
    ]
  ],
  λ h. elim h [
    | inl e ↦ rw ((eq_iff m "rebase").1 e) refl
    | inr r ↦ elim r [
      | inl e ↦ ground (arith, (eq_iff m "squash").1 e)
      | inr e ↦ ground (arith, (eq_iff m "merge").1 e)
    ]
  ],
)

-- The feedback loop has attempts, states and a method of merging.
pub record IsStaffed (f : FeedbackLoopSection) : Type 0 where
  pub attempts : 1 ≤ f.max_attempts
  pub needs_fixes : is_blank f.needs_fixes_state ≡ false
  pub blocked : is_blank f.blocked_state ≡ false
  pub merge_method : f.merge_coordinator.enabled ≡ true → IsMethod f.merge_coordinator.merge_method

method_iff :
    (enabled good : Bool) → ((enabled && not good) ≡ false) ↔ (enabled ≡ true → good ≡ true)
method_iff true true = (λ h k. refl, λ h. refl)
method_iff true false = (λ h. cc h, λ h. cc (h refl))
method_iff false good = (λ h k. cc k, λ h. refl)

pub check_states_iff : (f : FeedbackLoopSection) → (check_states f ≡ ok tt) ↔ IsStaffed f
unfolding check_states
check_states_iff f =
    let method =
      method_iff f.merge_coordinator.enabled (is_merge_method f.merge_coordinator.merge_method) in
    (
      λ h.
          let t = (then_iff _ _).0 h in
          let u = (then_iff _ _).0 t.0 in
          let v = (then_iff _ _).0 u.0 in
          let enough : ltb f.max_attempts 1 ≡ false = (refuse_if_iff _ _).0 v.0 in
          record {
            attempts = ground (arith, enough);
            needs_fixes = (refuse_if_iff _ _).0 v.1;
            blocked = (refuse_if_iff _ _).0 u.1;
            merge_method = λ k.
                (is_merge_method_iff f.merge_coordinator.merge_method).0
                  (method.0 ((refuse_if_iff _ _).0 t.1) k);
          },
      λ s. (then_iff _ _).1 (
        (then_iff _ _).1 (
          (then_iff _ _).1 (
            (refuse_if_iff _ _).1 (ground (arith, s.attempts)),
            (refuse_if_iff _ _).1 s.needs_fixes,
          ),
          (refuse_if_iff _ _).1 s.blocked,
        ),
        (refuse_if_iff _ _).1 (
            method.1
              (λ k. (is_merge_method_iff f.merge_coordinator.merge_method).1 (s.merge_method k))),
      ),
    )

pub check_fields_iff :
    (fields : List (String × String))
    → (check_fields fields ≡ ok tt) ↔ All (λ (f : String × String). is_blank f.1 ≡ false) fields
unfolding check_fields
check_fields_iff [] = (λ h. tt, λ h. refl)
check_fields_iff ((label, value) ∷ rest) =
    let later = check_fields_iff rest in
    (
      λ h. let t = (then_iff _ _).0 h in ((refuse_if_iff _ _).0 t.0, later.0 t.1),
      λ h. (then_iff _ _).1 ((refuse_if_iff _ _).1 h.0, later.1 h.1),
    )
