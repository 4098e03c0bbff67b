-- ===== src/Bridge/Config/Validate/Accepted.antt =====
-- What the validation accepts, told without its order.
use sinfonia.Base.{
  ◌≡◌, ◌↔◌, refl, ◌&&◌, String, Bool, true, false, All, is_blank, is_empty_str, is_some, unwrap_or,
}
use sinfonia.Bridge.Types.{ok, BridgeConfig, CustomFieldsSection}
use sinfonia.Bridge.Config.Validate.{check_telemetry, labelled, validate}
use sinfonia.Bridge.Config.Validate.Rules.{
  Credential, Reachable, IsStaffed, refuse_if_iff, then_iff, check_github_iff, check_tracker_iff,
  check_states_iff, check_fields_iff,
}
use sinfonia.Bridge.Config.Validate.Priorities.{Separated, check_priorities_iff}

-- Every custom field has a name.
abbrev pub Named : CustomFieldsSection → Type 0
Named c =
    (is_blank c.attempt_count ≡ false)
    × (is_blank c.last_failure_log ≡ false)
    × (is_blank c.max_attempts_override ≡ false)
    × (is_blank c.failure_category ≡ false)
    × (is_blank c.tokens_consumed ≡ false)
    × (is_blank c.cost_consumed_usd ≡ false)
    × (is_blank c.max_cost_override_usd ≡ false)

Named-iff :
    (c : CustomFieldsSection)
    → All (λ (f : String × String). is_blank f.1 ≡ false) (labelled c) ↔ Named c
Named-iff c = (
  λ (a, (b, (d, (e, (f, (g, (h, u))))))). (a, b, d, e, f, g, h),
  λ (a, b, d, e, f, g, h). (a, (b, (d, (e, (f, (g, (h, tt))))))),
)

pub record IsValid (to_lowercase : String → String) (cfg : BridgeConfig) : Type 0 where
  pub credential : Credential cfg.github
  pub reachable : Reachable to_lowercase cfg.tracker
  pub staffed : IsStaffed cfg.feedback_loop
  pub separated : Separated cfg.feedback_loop.failure_categories
  pub named : Named cfg.custom_fields
  pub secret :
      is_some cfg.telemetry.sinfonia_event_subscribe_url ≡ true
      → is_empty_str (unwrap_or cfg.telemetry.sinfonia_events_secret "") ≡ false

secret_iff : (url empty : Bool) → ((url && empty) ≡ false) ↔ (url ≡ true → empty ≡ false)
secret_iff true empty = (λ h k. h, λ h. h refl)
secret_iff false empty = (λ h k. cc k, λ h. refl)

-- A configuration passes exactly when it has one credential (an app with its key), reaches its Jira,
-- has attempts, states and a known merge method where it merges, names every custom field, has a
-- secret where it subscribes to events, and when of two categories that follow each other under one
-- priority one is `default`.
pub validate-IsValid :
    (to_lowercase : String → String) (cfg : BridgeConfig)
    → (validate to_lowercase cfg ≡ ok tt) ↔ IsValid to_lowercase cfg
unfolding validate check_telemetry
validate-IsValid to_lowercase cfg = (
  λ h.
      let t5 = (then_iff _ _).0 h in
      let t4 = (then_iff _ _).0 t5.0 in
      let t3 = (then_iff _ _).0 t4.0 in
      let t2 = (then_iff _ _).0 t3.0 in
      let t1 = (then_iff _ _).0 t2.0 in
      record {
        credential = (check_github_iff cfg.github).0 t1.0;
        reachable = (check_tracker_iff to_lowercase cfg.tracker).0 t1.1;
        staffed = (check_states_iff cfg.feedback_loop).0 t2.1;
        separated = (check_priorities_iff cfg.feedback_loop.failure_categories).0 t3.1;
        named =
            (Named-iff cfg.custom_fields).0
              ((check_fields_iff (labelled cfg.custom_fields)).0 t4.1);
        secret = (secret_iff _ _).0 ((check_telemetry_iff cfg).0 t5.1);
      },
  λ v. (then_iff _ _).1 (
    (then_iff _ _).1 (
      (then_iff _ _).1 (
        (then_iff _ _).1 (
          (then_iff _ _).1 (
            (check_github_iff cfg.github).1 v.credential,
            (check_tracker_iff to_lowercase cfg.tracker).1 v.reachable,
          ),
          (check_states_iff cfg.feedback_loop).1 v.staffed,
        ),
        (check_priorities_iff cfg.feedback_loop.failure_categories).1 v.separated,
      ),
      (check_fields_iff (labelled cfg.custom_fields)).1 ((Named-iff cfg.custom_fields).1 v.named),
    ),
    (check_telemetry_iff cfg).1 ((secret_iff _ _).1 v.secret),
  ),
)
  where
    check_telemetry_iff :
        (c : BridgeConfig)
        → (check_telemetry c.telemetry ≡ ok tt) ↔ (
            (is_some c.telemetry.sinfonia_event_subscribe_url
              && is_empty_str (unwrap_or c.telemetry.sinfonia_events_secret ""))
            ≡ false)
    check_telemetry_iff c = refuse_if_iff _ _
