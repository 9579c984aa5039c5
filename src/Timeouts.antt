-- ===== src/Timeouts.antt =====
-- src/runtime-timeouts.ts: the times that a runtime is given. A timeout that stands in a snapshot is a natural
-- number; an absent field of the configuration is `none`.
use herdr_harness_lite.Base.{
  ℕ, ◌*◌, Option, Bool, ltb, ◌≡◌, true, ◌otherwise◌, some, refl, ◌&&◌, leb, none,
}
use herdr_harness_lite.Model.Snapshot.{ExecutionSnapshot, RuntimeTimeouts, Lane, worker, reviewer}

abbrev default_validation_timeout_ms : ℕ
default_validation_timeout_ms = 30 * 60 * 1000

abbrev max_timeout_ms : ℕ
max_timeout_ms = 2147483647

-- The options of a lane, and those of a termination.
pub record LaneOptions : Type 0 where
  pub total_timeout_ms : Option ℕ
  pub no_progress_timeout_ms : Option ℕ

pub record TerminationOptions : Type 0 where
  pub sigterm_grace_ms : Option ℕ
  pub sigkill_grace_ms : Option ℕ

-- The timeouts in the configuration
pub record ConfiguredTimeouts : Type 0 where
  pub worker : Option LaneOptions
  pub reviewer : Option LaneOptions
  pub termination : Option TerminationOptions

-- `DEFAULT_WORKER_TIMEOUTS`, `DEFAULT_REVIEWER_TIMEOUTS` and `DEFAULT_TERMINATION_TIMEOUTS`
unfoldable pub default_timeouts : Lane → RuntimeTimeouts
default_timeouts worker = record {
  total_timeout_ms = 90 * 60 * 1000;
  no_progress_timeout_ms = 15 * 60 * 1000;
  sigterm_grace_ms = 10000;
  sigkill_grace_ms = 5000;
}
default_timeouts reviewer = record {
  total_timeout_ms = 45 * 60 * 1000;
  no_progress_timeout_ms = 10 * 60 * 1000;
  sigterm_grace_ms = 10000;
  sigkill_grace_ms = 5000;
}

-- `options?.field`
abbrev pub field_of : {A : Type 0} → (A → Option ℕ) → Option A → Option ℕ
field_of field none = none
field_of field (some options) = field options

-- `configuredRuntimeTimeouts`
unfoldable pub configured_runtime_timeouts : ConfiguredTimeouts → Lane → RuntimeTimeouts
unfolding default_timeouts
configured_runtime_timeouts config lane =
    let defaults = default_timeouts lane in
    let configured : Option LaneOptions = elim lane [
      | worker ↦ config.worker
      | reviewer ↦ config.reviewer
    ] in
    record {
      total_timeout_ms =
          field_of (λ o. o.total_timeout_ms) configured otherwise defaults.total_timeout_ms;
      no_progress_timeout_ms =
          field_of (λ o. o.no_progress_timeout_ms) configured
          otherwise defaults.no_progress_timeout_ms;
      sigterm_grace_ms =
          field_of (λ o. o.sigterm_grace_ms) config.termination otherwise defaults.sigterm_grace_ms;
      sigkill_grace_ms =
          field_of (λ o. o.sigkill_grace_ms) config.termination otherwise defaults.sigkill_grace_ms;
    }

-- `snapshotRuntimeTimeouts`
unfoldable pub snapshot_runtime_timeouts : ExecutionSnapshot → Lane → RuntimeTimeouts
unfolding default_timeouts
snapshot_runtime_timeouts snapshot lane = snapshot.runtime_timeouts otherwise default_timeouts lane

-- `configuredValidationTimeoutMs`, on the field of the validation
unfoldable pub configured_validation_timeout_ms : Option ℕ → ℕ
configured_validation_timeout_ms configured = configured otherwise default_validation_timeout_ms

-- `validTimeoutMs`, on a natural number: an integer above the greatest timeout is refused anyway.
unfoldable pub valid_timeout_ms : ℕ → Bool
valid_timeout_ms value = ltb 0 value && leb value max_timeout_ms

-- The configured fields are valid timeouts, as the validation of the configuration demands.
abbrev pub is_valid : Option ℕ → Bool
is_valid none = true
is_valid (some value) = valid_timeout_ms value

-- All four timeouts are valid.
abbrev pub AllValid : RuntimeTimeouts → Type 0
AllValid t =
    (valid_timeout_ms t.total_timeout_ms ≡ true)
    × (valid_timeout_ms t.no_progress_timeout_ms ≡ true)
    × (valid_timeout_ms t.sigterm_grace_ms ≡ true)
    × (valid_timeout_ms t.sigkill_grace_ms ≡ true)

default_timeouts-AllValid : (lane : Lane) → AllValid (default_timeouts lane)
unfolding default_timeouts valid_timeout_ms
default_timeouts-AllValid worker = (refl, refl, refl, refl)
default_timeouts-AllValid reviewer = (refl, refl, refl, refl)

otherwise-valid :
    (o : Option ℕ) (value : ℕ)
    → is_valid o ≡ true
    → valid_timeout_ms value ≡ true
    → valid_timeout_ms (o otherwise value) ≡ true
otherwise-valid none value h k = k
otherwise-valid (some x) value h k = h

-- Every timeout in the configuration is absent or valid.
abbrev pub IsValidConfig : ConfiguredTimeouts → Type 0
IsValidConfig config =
    (is_valid (field_of (λ o. o.total_timeout_ms) config.worker) ≡ true)
    × (is_valid (field_of (λ o. o.no_progress_timeout_ms) config.worker) ≡ true)
    × (is_valid (field_of (λ o. o.total_timeout_ms) config.reviewer) ≡ true)
    × (is_valid (field_of (λ o. o.no_progress_timeout_ms) config.reviewer) ≡ true)
    × (is_valid (field_of (λ o. o.sigterm_grace_ms) config.termination) ≡ true)
    × (is_valid (field_of (λ o. o.sigkill_grace_ms) config.termination) ≡ true)

-- The timeout is the configured one, or the given number of milliseconds if none is configured.
abbrev pub IsChosen : Option ℕ → ℕ → ℕ → Type 0
IsChosen none default timeout = timeout ≡ default
IsChosen (some value) default timeout = timeout ≡ value

-- The timeouts of a lane are those that its own options and the termination's configure. Without them a
-- Worker has 90 minutes in all and 15 without progress, a Reviewer 45 and 10, and a termination gives 10
-- seconds and then 5.
abbrev pub AreChosen : ConfiguredTimeouts → Lane → RuntimeTimeouts → Type 0
AreChosen config lane t =
    elim lane [
      | worker ↦
          IsChosen (field_of (λ o. o.total_timeout_ms) config.worker) 5400000 t.total_timeout_ms
          × IsChosen (field_of (λ o. o.no_progress_timeout_ms) config.worker) 900000
              t.no_progress_timeout_ms
      | reviewer ↦
          IsChosen (field_of (λ o. o.total_timeout_ms) config.reviewer) 2700000 t.total_timeout_ms
          × IsChosen (field_of (λ o. o.no_progress_timeout_ms) config.reviewer) 600000
              t.no_progress_timeout_ms
    ]
    × IsChosen (field_of (λ o. o.sigterm_grace_ms) config.termination) 10000 t.sigterm_grace_ms
    × IsChosen (field_of (λ o. o.sigkill_grace_ms) config.termination) 5000 t.sigkill_grace_ms

otherwise-IsChosen : (o : Option ℕ) (default : ℕ) → IsChosen o default (o otherwise default)
otherwise-IsChosen none default = refl
otherwise-IsChosen (some value) default = refl

-- When every configured timeout is positive and at most 2147483647 milliseconds, so are the four of a lane.
-- Each of them is the one that the lane's own options, or those of the termination, configure, or else the
-- default of this lane or of the termination.
pub configured_runtime_timeouts-AllValid :
    (config : ConfiguredTimeouts) (lane : Lane)
    → IsValidConfig config
    → AllValid (configured_runtime_timeouts config lane)
      × AreChosen config lane (configured_runtime_timeouts config lane)
unfolding configured_runtime_timeouts default_timeouts
configured_runtime_timeouts-AllValid config worker (a, b, c, d, e, f) =
    let (p, q, r, t) = default_timeouts-AllValid worker in
    (
      (
        otherwise-valid _ _ a p,
        otherwise-valid _ _ b q,
        otherwise-valid _ _ e r,
        otherwise-valid _ _ f t,
      ),
      (
        (otherwise-IsChosen _ _, otherwise-IsChosen _ _),
        otherwise-IsChosen _ _,
        otherwise-IsChosen _ _,
      ),
    )
configured_runtime_timeouts-AllValid config reviewer (a, b, c, d, e, f) =
    let (p, q, r, t) = default_timeouts-AllValid reviewer in
    (
      (
        otherwise-valid _ _ c p,
        otherwise-valid _ _ d q,
        otherwise-valid _ _ e r,
        otherwise-valid _ _ f t,
      ),
      (
        (otherwise-IsChosen _ _, otherwise-IsChosen _ _),
        otherwise-IsChosen _ _,
        otherwise-IsChosen _ _,
      ),
    )
