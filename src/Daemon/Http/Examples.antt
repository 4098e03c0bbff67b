-- ===== src/Daemon/Http/Examples.antt =====
-- The event channel at two subscribers, three events and a subscriber that is down for two attempts.
use sinfonia.Base.{ℕ, ◌==◌, ◌≡◌, none, List, [], ◌∷◌, pos, if◌then◌else◌}
use sinfonia.Json.{Json, integer}
use sinfonia.Daemon.Http.Events.{Subscriber, Reply, status, failed, deliver_with_retry}
use sinfonia.Daemon.Http.Events.Registry.{
  Change, added, removed, run, subscriber_at, latest, Distinct, registry_refines,
}
use sinfonia.Daemon.Http.Events.Recent.{push_all, last_of, push_all_lem}
use sinfonia.Daemon.Http.Events.Delivery.{Ends, deliver_with_retry-Ends}

abbrev first : Subscriber
first = record { id = "a"; callback_url = "http://a"; registered_at = 1 }

abbrev changes : List Change
changes = added first ∷ added (record first { id = "b" }) ∷ removed "http://c" ∷ []

registry_refines_example :
    (subscriber_at "http://a" (run changes []) ≡ latest "http://a" none changes)
    × Distinct (run changes [])
registry_refines_example = registry_refines "http://a" changes

abbrev three : List Json
three = integer (pos 1) ∷ integer (pos 2) ∷ integer (pos 3) ∷ []

push_all_lem_example : push_all three [] ≡ last_of three
push_all_lem_example = push_all_lem three

abbrev down_twice : ℕ → Reply
down_twice attempt =
    if attempt == 1 then failed "refused" else if attempt == 2 then status 503 else status 202

deliver_with_retry-Ends_example : Ends down_twice (deliver_with_retry down_twice)
deliver_with_retry-Ends_example = deliver_with_retry-Ends down_twice
