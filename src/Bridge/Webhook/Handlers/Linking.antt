-- ===== src/Bridge/Webhook/Handlers/Linking.antt =====
-- A pull request that names its ticket is linked to it.
use sinfonia.Base.{ℕ, ◌≡◌, ◌⊎◌, inl, inr, refl, String, some, arith, eq_refl}
use sinfonia.Bridge.Types.{Result, ok, err}
use sinfonia.Bridge.World.{sql, execute}
use sinfonia.Bridge.Store.{upsert_pr_ticket, ticket_of}
use sinfonia.Bridge.Store.Rows.{ticket_of-upsert}
use sinfonia.Json.{Json}
use sinfonia.Bridge.Webhook.App.{AppState, State, Response, respond}
use sinfonia.Bridge.Webhook.Handlers.{
  Response, respond, State, handle_pull_request, pull_request_of, link_pull_request, repo_of,
  action_of, number_of, combined, upserted,
}

-- The actions that write the mapping
abbrev pub IsLinking : String → Type 0
IsLinking action = (action ≡ "opened") ⊎ (action ≡ "synchronize") ⊎ (action ≡ "reopened")

module _ {Decimal : Type 0} (app : AppState Decimal) where
  -- What the mapping says after an answer of the database
  abbrev pub Linked :
      String → ℕ → String → State Decimal → Result (Unit {0}) → Response × State Decimal → Type 0
  Linked repo n ticket s (ok _) (r, t) =
      (r ≡ respond 202 "queued") × (ticket_of repo n t.world.tables.pr_ticket_map ≡ some ticket)
  Linked repo n ticket s (err e) (r, t) =
      (r ≡ respond 500 "error") × (t.world.tables ≡ s.world.tables)

  linked :
      (repo : String) (n : ℕ) (ticket : String) (s : State Decimal) (r : Result (Unit {0}))
      → app.env.perform s.world.calls (sql "upsert_pr_ticket") ≡ r
      → Linked repo n ticket s r (
          let (a, w) = upsert_pr_ticket app.env repo n ticket s.world in
          (upserted a, record s { world = w }))
  unfolding upsert_pr_ticket execute
  linked repo n ticket s (ok _) h = rw (h) (
    refl,
    rw (ticket_of-upsert repo repo n n ticket s.world.tables.pr_ticket_map, eq_refl repo)
        (ground arith),
  )
  linked repo n ticket s (err e) h = rw (h) (refl, refl)

  -- A pull request that is opened, reopened or pushed to, and whose body or title names a ticket, is
  -- answered 202 with the mapping leading to this ticket; where the database fails it is answered
  -- 500 and the tables stay.
  pub handle_pull_request-Linked :
      (now : ℕ) (payload : Json) (n : ℕ) (ticket : String) (s : State Decimal)
      → IsLinking (action_of payload)
      → number_of payload ≡ some n
      → app.config.feedback_loop.pr_link_pattern (combined payload) ≡ some ticket
      → Linked
          (repo_of payload)
          n
          ticket
          s
          (app.env.perform s.world.calls (sql "upsert_pr_ticket"))
          (handle_pull_request app now payload s)
  unfolding handle_pull_request pull_request_of link_pull_request
  handle_pull_request-Linked now payload n ticket s (inl e) numbered named =
      rw (numbered, e, named) (linked (repo_of payload) n ticket s _ refl)
  handle_pull_request-Linked now payload n ticket s (inr (inl e)) numbered named =
      rw (numbered, e, named) (linked (repo_of payload) n ticket s _ refl)
  handle_pull_request-Linked now payload n ticket s (inr (inr e)) numbered named =
      rw (numbered, e, named) (linked (repo_of payload) n ticket s _ refl)
