-- ===== src/Examples/Timeouts.antt =====
-- Tests of the timeouts of a lane.
use herdr_harness_lite.Timeouts.{
  valid_timeout_ms, ConfiguredTimeouts, AllValid, configured_runtime_timeouts,
  configured_runtime_timeouts-AllValid, AreChosen,
}
use herdr_harness_lite.Base.{some, none, refl}
use herdr_harness_lite.Model.Snapshot.{worker}

abbrev configured : ConfiguredTimeouts
configured = record {
  worker = some (record { total_timeout_ms = some 60000; no_progress_timeout_ms = none });
  reviewer = none;
  termination = some (record { sigterm_grace_ms = some 2147483647; sigkill_grace_ms = none });
}

timeouts_example :
    AllValid (configured_runtime_timeouts configured worker)
    × AreChosen configured worker (configured_runtime_timeouts configured worker)
unfolding valid_timeout_ms
timeouts_example =
    configured_runtime_timeouts-AllValid configured worker (refl, refl, refl, refl, refl, refl)
