-- ===== src/Bridge/Webhook/App.antt =====
-- crates/sinfonia-bridge/src/webhook/mod.rs: `AppState`, what the handlers share, and their answers.
-- The trackers and GitHub are the environment. An answer is its status and the word under `status` of
-- its body (`error` for an error); what else the body repeats is left out.
use sinfonia.Base.{ℕ, String, Bool, Option, List, [], Map}
use sinfonia.Domain.{F64}
use sinfonia.Json.{Json}
use sinfonia.Bridge.Types.{BridgeConfig}
use sinfonia.Bridge.World.{Environment, World}
use sinfonia.Bridge.Labels.{LabelManager}
use sinfonia.Bridge.Feedback.Cost.{Arithmetic, CostTable}
use sinfonia.Bridge.Feedback.Budget.{TicketAccumulator}
use sinfonia.Bridge.Feedback.Evaluate.{CiOutcome}

-- The configuration, and the code of other packages: decimals with their conversions, the template
-- engine, the digest of a secret and a body, the parser of JSON, Unicode's lower case. `fetch_digest`
-- reads the manifest of a run.
pub record AppState (Decimal : Type 0) : Type 0 where
  pub config : BridgeConfig
  pub labels : LabelManager
  pub cost_table : CostTable Decimal
  pub accepts_cost_caps_today : Bool
  pub env : Environment
  pub num : Arithmetic Decimal
  pub from_f64 : F64 → Option Decimal
  pub cost_to_string : Decimal → String
  pub f64_of_u64 : ℕ → F64
  pub to_lowercase : String → String
  pub render : String → ℕ → ℕ → String → List String → String → String → String → String
  pub fetch_digest : String → ℕ → String → World → Option String × World
  pub hmac_sha256 : List ℕ → List ℕ → List ℕ
  pub parse_json : List ℕ → Option Json

-- What changes: the tables and the calls, and the accumulators of the budget
pub record State (Decimal : Type 0) : Type 0 where
  pub world : World
  pub tickets : Map (TicketAccumulator Decimal)

pub record Response : Type 0 where
  pub code : ℕ
  pub word : String
  pub outcomes : List CiOutcome

abbrev pub respond : ℕ → String → Response
respond code word = record { code = code; word = word; outcomes = [] }

abbrev pub Handler : Type 0 → Type 0
Handler Decimal = State Decimal → Response × State Decimal
