-- ===== src/Examples/Fleet.antt =====
-- Tests of the restarts of a project and of the retries of a delivery.
use herdr_harness_lite.Fleet.{
  FleetRestartPolicy, Decided, schedule_observer_retry, RetryEntry, decide_restart,
  decide_restart-Decided, schedule_observer_retry-bounds,
}
use herdr_harness_lite.Base.{◌≡◌, ◌∷◌, ◌+◌, ◌≤◌, []}

abbrev policy : FleetRestartPolicy
policy = record {
  initial_backoff_ms = 1000;
  max_backoff_ms = 60000;
  max_restarts = 5;
  window_ms = 600000;
  stable_after_ms = 300000;
}

decide_example :
    Decided policy
      (100 ∷ 800000 ∷ [])
      900000
      2000
      (decide_restart policy (100 ∷ 800000 ∷ []) 900000 2000)
decide_example = decide_restart-Decided policy (100 ∷ 800000 ∷ []) 900000 2000

abbrev entry : RetryEntry
entry = record { attempts = 2; next_attempt_at = 50 }

delivery_example :
    ((schedule_observer_retry entry 100).attempts ≡ 3)
    × (100 + 5000 ≤ (schedule_observer_retry entry 100).next_attempt_at)
    × ((schedule_observer_retry entry 100).next_attempt_at ≤ 100 + 1800000)
delivery_example = schedule_observer_retry-bounds entry 100
