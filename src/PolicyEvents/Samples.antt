-- ===== src/PolicyEvents/Samples.antt =====
-- A store of two events (internal/policyevents/events.go).
use sandbox_codex.Common.{
  List, Str, [], arith, codes, length, pos, true, ℕ, ◌+◌, ◌<◌, ◌∷◌, ◌≡◌, ◌≤◌,
}
use sandbox_codex.PolicyEvents.{Event, add, new_store, since, stamp}
use sandbox_codex.PolicyEvents.Bounds.{
  IsBounded, add_all, add_all-IsBounded, added_events_bounds, new_store-IsBounded,
}
use sandbox_codex.PolicyEvents.Polling.{IsNumbered, since-add}

abbrev event : Str → Event
event code = record {
  sequence = 0;
  time = 0;
  policy_id = [];
  worker_name = [];
  run_id = [];
  source = [];
  destination = [];
  code = code;
}

abbrev three : List (ℕ × Event)
three = (10, event (codes "a")) ∷ (20, event (codes "b")) ∷ (30, event (codes "c")) ∷ []

added_events_bounds_example :
    (length (add_all three (new_store (pos 2) true)).events ≤ 2)
    × (length (add_all three (new_store (pos 2) true)).log ≤ 100001)
added_events_bounds_example = added_events_bounds (pos 2) true three

full_store-IsBounded : IsBounded (add_all three (new_store (pos 2) true))
full_store-IsBounded =
    add_all-IsBounded three (new_store (pos 2) true) (new_store-IsBounded (pos 2) true)

full_store-IsNumbered : IsNumbered (add_all three (new_store (pos 2) true))
unfolding add_all new_store
full_store-IsNumbered = (omega arith, (omega arith, tt))

full_store_room : (add_all three (new_store (pos 2) true)).last + 1 < 18446744073709551616
unfolding add_all new_store
full_store_room = omega arith

since-add_example :
    since
      (add_all three (new_store (pos 2) true)).last
      (add 40 (event (codes "d")) (add_all three (new_store (pos 2) true)))
    ≡ stamp ((add_all three (new_store (pos 2) true)).last + 1) 40 (event (codes "d")) ∷ []
since-add_example =
    since-add 40 (event (codes "d")) (add_all three (new_store (pos 2) true)) full_store_room
      full_store-IsBounded full_store-IsNumbered
