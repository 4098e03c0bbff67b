-- ===== src/Bridge/Store.antt =====
-- crates/sinfonia-bridge/src/storage.rs: the statements of the SQLite store over its tables. A row
-- of the landing queue keeps its status as such: Store/Status shows that the text in the column
-- reads back. A connection runs one statement at a time.
pub mod Rows
pub mod Status
use Prim.Native.Nat.{Ordering, compare as compare_nat}
use sinfonia.Base.{
  ℕ, suc, ◌==◌, String, Bool, true, false, ◌&&◌, Option, none, some, List, [], ◌∷◌, ◌++◌, member,
  find, filter, any, length, str_eq, not, if◌then◌else◌,
}
use sinfonia.Base.Order.{then_by, sort_by}
use sinfonia.Bridge.Types.{Error, storage, Result, ok, err, LandingRow, LandingStatus, queued}
use sinfonia.Bridge.World.{Environment, Tables, Action, execute, ◌>>=◌, pure}

-- `WHERE repo = ?1 AND pr_number = ?2`
abbrev pub is_row : String → ℕ → LandingRow → Bool
is_row repo pr r = str_eq r.repo repo && r.pr_number == pr

abbrev pub ticket_of : String → ℕ → List (String × ℕ × String) → Option String
ticket_of repo pr [] = none
ticket_of repo pr ((r, n, t) ∷ rest) =
    if str_eq r repo && n == pr then some t else ticket_of repo pr rest

unfoldable pub upsert_row :
    String → ℕ → String → List (String × ℕ × String) → List (String × ℕ × String)
upsert_row repo pr ticket [] = (repo, pr, ticket) ∷ []
upsert_row repo pr ticket ((r, n, t) ∷ rest) =
    if str_eq r repo && n == pr
    then (repo, pr, ticket) ∷ rest
    else (r, n, t) ∷ upsert_row repo pr ticket rest

unfoldable pub enqueue_row : ℕ → String → ℕ → String → String → List LandingRow → List LandingRow
enqueue_row now repo pr ticket sha rows =
    if any (is_row repo pr) rows
    then rows
    else rows
      ++ record {
        repo = repo;
        pr_number = pr;
        ticket_id = ticket;
        head_sha = sha;
        status = queued;
        attempt = 0;
        updated_at = now;
      }
        ∷ []

unfoldable pub update_rows :
    ℕ → String → ℕ → LandingStatus → String → ℕ → List LandingRow → List LandingRow
update_rows now repo pr status sha attempt [] = []
update_rows now repo pr status sha attempt (r ∷ rest) =
    (if is_row repo pr r
      then record r { status = status; head_sha = sha; attempt = attempt; updated_at = now }
      else r)
    ∷ update_rows now repo pr status sha attempt rest

unfoldable pub delete_rows : String → ℕ → List LandingRow → List LandingRow
delete_rows repo pr rows = filter (λ r. not (is_row repo pr r)) rows

-- `ORDER BY updated_at ASC, pr_number ASC`
abbrev pub landing_order : LandingRow → LandingRow → Ordering
landing_order a b =
    then_by (compare_nat a.updated_at b.updated_at) (compare_nat a.pr_number b.pr_number)

module _ (env : Environment) where
  -- The primary key refuses a delivery that is there.
  unfoldable pub record_delivery : String → Action (Unit {0})
  record_delivery delivery_id = execute env "record_delivery" λ now t.
      if member delivery_id t.processed_deliveries
      then (err (storage "duplicate"), t)
      else (ok tt, record t { processed_deliveries = delivery_id ∷ t.processed_deliveries })

  unfoldable pub upsert_pr_ticket : String → ℕ → String → Action (Unit {0})
  upsert_pr_ticket repo pr ticket =
      execute env "upsert_pr_ticket"
        λ now t. (ok tt, record t { pr_ticket_map = upsert_row repo pr ticket t.pr_ticket_map })

  unfoldable pub lookup_pr_ticket : String → ℕ → Action (Option String)
  lookup_pr_ticket repo pr =
      execute env "lookup_pr_ticket" λ now t. (ok (ticket_of repo pr t.pr_ticket_map), t)

  unfoldable pub enqueue_landing : String → ℕ → String → String → Action (Unit {0})
  enqueue_landing repo pr ticket sha = execute env "enqueue_landing" λ now t.
      (ok tt, record t { landing_queue = enqueue_row now repo pr ticket sha t.landing_queue })

  unfoldable pub get_landing : String → ℕ → Action (Option LandingRow)
  get_landing repo pr =
      execute env "get_landing" λ now t. (ok (find (is_row repo pr) t.landing_queue), t)

  unfoldable pub advance_landing : String → ℕ → LandingStatus → String → ℕ → Action ℕ
  advance_landing repo pr status sha attempt = execute env "advance_landing" λ now t. (
    ok (length (filter (is_row repo pr) t.landing_queue)),
    record t { landing_queue = update_rows now repo pr status sha attempt t.landing_queue },
  )

  unfoldable pub dequeue_landing : String → ℕ → Action (Unit {0})
  dequeue_landing repo pr =
      execute env "dequeue_landing"
        λ now t. (ok tt, record t { landing_queue = delete_rows repo pr t.landing_queue })

  unfoldable pub list_landings : Action (List LandingRow)
  list_landings =
      execute env "list_landings" λ now t. (ok (sort_by landing_order t.landing_queue), t)
