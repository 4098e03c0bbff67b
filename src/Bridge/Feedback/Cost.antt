-- ===== src/Bridge/Feedback/Cost.antt =====
-- crates/sinfonia-bridge/src/feedback/cost.rs: what a session costs. `Decimal` is the decimal number of
-- a package: its type and its operations are parameters. A date is a number of days.
use Prim.Native.Char.{code}
use sinfonia.Base.{
  ℕ, ◌-◌, ltb, leb, ◌==◌, String, Bool, ◌||◌, Option, none, some, Map, lookup, str_eq,
  if◌then◌else◌,
}

-- `FRESHNESS_WARN_DAYS` and `COST_CAP_BLOCK_DAYS`
abbrev pub freshness_warn_days : ℕ
freshness_warn_days = 90

abbrev pub cost_cap_block_days : ℕ
cost_cap_block_days = 180

unfoldable pub normalize_provider : String → String
normalize_provider s =
    if str_eq s "claudecode" || str_eq s "anthropic"
    then "anthropic"
    else if str_eq s "openai" || str_eq s "openaicompatible"
    then "openai"
    else if str_eq s "google" || str_eq s "gemini"
    then "google"
    else if str_eq s "ollama" || str_eq s "local"
    then "ollama"
    else if str_eq s "codex"
    then "openai"
    else if str_eq s "opencode"
    then "opencode"
    else s

pub record Arithmetic (Decimal : Type 0) : Type 0 where
  pub zero_decimal : Decimal
  pub from_u64 : ℕ → Decimal
  pub plus : Decimal → Decimal → Decimal
  pub times : Decimal → Decimal → Decimal
  pub over : Decimal → Decimal → Decimal
  pub at_least : Decimal → Decimal → Bool
  pub is_zero : Decimal → Bool

pub record ModelCost (Decimal : Type 0) : Type 0 where
  pub input_per_million_usd : Decimal
  pub output_per_million_usd : Decimal

pub record CostTable (Decimal : Type 0) : Type 0 where
  pub verified_at : ℕ
  pub providers : Map (Map (ModelCost Decimal))

pub data LookupOutcome (Decimal : Type 0) : Type 0 where
  found : ModelCost Decimal → LookupOutcome Decimal
  unknown_provider unknown_model : LookupOutcome Decimal

-- `split_once('/')`, of which only the second part is used
unfoldable pub after_slash : String → Option String
after_slash String.[] = none
after_slash (String.◌∷◌ c rest) =
    let later = after_slash rest in if code c == 47 then some rest else later

unfoldable pub model_key : String → String
model_key model = elim (after_slash model) [ some m ↦ m | none ↦ model ]

module _ {Decimal : Type 0} (num : Arithmetic Decimal) (to_lowercase : String → String) where
  -- The source's number is negative for a table of the future: here it is 0, on the same side of both
  -- limits.
  unfoldable pub age_days : CostTable Decimal → ℕ → ℕ
  age_days table today = today - table.verified_at

  unfoldable pub is_stale_warn : CostTable Decimal → ℕ → Bool
  is_stale_warn table today = ltb freshness_warn_days (age_days table today)

  unfoldable pub accepts_cost_caps : CostTable Decimal → ℕ → Bool
  accepts_cost_caps table today = leb (age_days table today) cost_cap_block_days

  unfoldable pub lookup_cost : CostTable Decimal → String → String → LookupOutcome Decimal
  lookup_cost table provider model =
      elim (lookup (normalize_provider (to_lowercase provider)) table.providers) [
        | none ↦ unknown_provider
        | some models ↦ elim (lookup (model_key model) models) [
          | some c ↦ found c
          | none ↦ unknown_model
        ]
      ]

  unfoldable pub compute_cost : CostTable Decimal → String → String → ℕ → ℕ → Decimal
  compute_cost table provider model input_tokens output_tokens =
      elim (lookup_cost table provider model) [
        | found cost ↦
            num.plus
              (num.over (num.times cost.input_per_million_usd (num.from_u64 input_tokens))
                (num.from_u64 1000000))
              (num.over (num.times cost.output_per_million_usd (num.from_u64 output_tokens))
                (num.from_u64 1000000))
        | _ ↦ num.zero_decimal
      ]
