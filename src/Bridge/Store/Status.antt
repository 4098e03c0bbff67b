-- ===== src/Bridge/Store/Status.antt =====
-- The text of a landing's status in its column.
use sinfonia.Base.{◌≡◌, refl, String, some, arith, eq_iff}
use sinfonia.Bridge.Types.{
  LandingStatus, queued, updating, awaiting_ci, merging, conflict, failed, status_str, parse_status,
}

parse-status_str : (s : LandingStatus) → parse_status (status_str s) ≡ some s
unfolding parse_status status_str
parse-status_str queued = refl
parse-status_str updating = refl
parse-status_str awaiting_ci = refl
parse-status_str merging = refl
parse-status_str conflict = refl
parse-status_str failed = refl

status_str-parse : (t : String) (s : LandingStatus) → parse_status t ≡ some s → status_str s ≡ t
unfolding parse_status status_str
status_str-parse t s h = ground (
  arith,
  h,
  eq_iff t "queued",
  eq_iff t "updating",
  eq_iff t "awaiting_ci",
  eq_iff t "merging",
  eq_iff t "conflict",
  eq_iff t "failed",
)

-- The status that is written reads back, and a text that reads is the one written for its status.
pub status_round_trip :
    ((s : LandingStatus) → parse_status (status_str s) ≡ some s)
    × ((t : String) (s : LandingStatus) → parse_status t ≡ some s → status_str s ≡ t)
status_round_trip = (parse-status_str, status_str-parse)
