-- ===== src/Fleet.antt =====
-- src/fleet/restart-policy.ts and src/observer/retry.ts: when a project is started again, and when a delivery
-- is tried again. A time is a natural number of milliseconds.
use herdr_harness_lite.Base.{
  ℕ, List, ◌≡◌, ◌+◌, ◌≤◌, if◌then◌else◌, leb, ◌*◌, ◌∷◌, arith, length, filter, ◌-◌, suc, ◌<◌, ◌++◌,
  ltb, ◌^◌, [], Bool-cases, zero, refl, inl, inr, ◌⊎◌,
}

pub record FleetRestartPolicy : Type 0 where
  pub initial_backoff_ms : ℕ
  pub max_backoff_ms : ℕ
  pub max_restarts : ℕ
  pub window_ms : ℕ
  pub stable_after_ms : ℕ

pub data RestartDecision : Type 0 where
  restart : List ℕ → ℕ → ℕ → RestartDecision
  trip : List ℕ → RestartDecision

-- The starts in the window before now: `timestamp >= now - window`, written without a negative number.
abbrev recent : FleetRestartPolicy → ℕ → List ℕ → List ℕ
recent policy time timestamps =
    filter (λ timestamp. leb time (timestamp + policy.window_ms)) timestamps

abbrev pub min : ℕ → ℕ → ℕ
min a b = if leb a b then a else b

abbrev pub history : FleetRestartPolicy → List ℕ → ℕ → ℕ → List ℕ
history policy timestamps time runtime =
    (if leb policy.stable_after_ms runtime then [] else recent policy time timestamps)
    ++ (time ∷ [])

-- `decideRestart`
unfoldable pub decide_restart : FleetRestartPolicy → List ℕ → ℕ → ℕ → RestartDecision
decide_restart policy timestamps time runtime =
    let starts = history policy timestamps time runtime in
    let backoff = min policy.max_backoff_ms (policy.initial_backoff_ms * 2 ^ (length starts - 1)) in
    if ltb policy.max_restarts (length starts)
    then trip starts
    else restart starts backoff (time + backoff)

-- The starts that lie in a window before a time, in their order.
pub data Recent (window time : ℕ) : List ℕ → List ℕ → Type 0 where
  no_starts : Recent window time [] []
  kept :
      (start : ℕ) (starts recents : List ℕ)
      → time ≤ start + window
      → Recent window time starts recents
      → Recent window time (start ∷ starts) (start ∷ recents)
  dropped :
      (start : ℕ) (starts recents : List ℕ)
      → start + window < time
      → Recent window time starts recents
      → Recent window time (start ∷ starts) recents

-- The starts that count: only this one after a stable run, and else the recent ones and this one.
abbrev pub Counted : FleetRestartPolicy → List ℕ → ℕ → ℕ → List ℕ → Type 0
Counted policy timestamps time runtime starts =
    ((policy.stable_after_ms ≤ runtime) × (starts ≡ time ∷ []))
    ⊎ ((runtime < policy.stable_after_ms)
        × ((recents : List ℕ) × Recent policy.window_ms time timestamps recents
            × (starts ≡ recents ++ (time ∷ []))))

-- What a decision promises: its starts are those that count; a restart stays within the number of restarts,
-- and waits for the doubled backoff or for the greatest one, whichever is less; a trip has gone over that
-- number.
abbrev pub Decided : FleetRestartPolicy → List ℕ → ℕ → ℕ → RestartDecision → Type 0
Decided policy timestamps time runtime (restart starts backoff next) =
    Counted policy timestamps time runtime starts
    × (1 ≤ length starts)
    × (length starts ≤ policy.max_restarts)
    × (backoff ≤ policy.max_backoff_ms)
    × (backoff ≤ policy.initial_backoff_ms * 2 ^ (length starts - 1))
    × ((backoff ≡ policy.max_backoff_ms)
        ⊎ (backoff ≡ policy.initial_backoff_ms * 2 ^ (length starts - 1)))
    × (next ≡ time + backoff)
Decided policy timestamps time runtime (trip starts) =
    Counted policy timestamps time runtime starts × (policy.max_restarts < length starts)

recent-Recent :
    (policy : FleetRestartPolicy) (time : ℕ) (timestamps : List ℕ)
    → Recent policy.window_ms time timestamps (recent policy time timestamps)
unfolding filter
recent-Recent policy time [] = no_starts
recent-Recent policy time (t ∷ ts) = elim (Bool-cases (leb time (t + policy.window_ms))) [
  | inl e ↦ rw e (kept t ts (recent policy time ts) (ground arith) (recent-Recent policy time ts))
  | inr e ↦
      rw e (dropped t ts (recent policy time ts) (ground arith) (recent-Recent policy time ts))
]

history-Counted :
    (policy : FleetRestartPolicy) (timestamps : List ℕ) (time runtime : ℕ)
    → Counted policy timestamps time runtime (history policy timestamps time runtime)
history-Counted policy timestamps time runtime =
    elim (Bool-cases (leb policy.stable_after_ms runtime)) [
      | inl e ↦ inl (ground arith, rw e refl)
      | inr e ↦ inr (
        ground arith,
        (recent policy time timestamps, recent-Recent policy time timestamps, rw e refl),
      )
    ]

length-append_one : (xs : List ℕ) (x : ℕ) → length (xs ++ (x ∷ [])) ≡ length xs + 1
length-append_one [] x = refl
length-append_one (y ∷ ys) x = ground (arith, length-append_one ys x)

min-bound : (a b : ℕ) → (min a b ≤ a) × (min a b ≤ b) × ((min a b ≡ a) ⊎ (min a b ≡ b))
min-bound a b = ground arith

decision-Decided :
    (policy : FleetRestartPolicy) (timestamps : List ℕ) (time runtime : ℕ) (starts : List ℕ)
    → Counted policy timestamps time runtime starts
    → 1 ≤ length starts
    → let backoff =
        min policy.max_backoff_ms (policy.initial_backoff_ms * 2 ^ (length starts - 1)) in
      Decided policy timestamps time runtime (
        if ltb policy.max_restarts (length starts)
        then trip starts
        else restart starts backoff (time + backoff))
decision-Decided policy timestamps time runtime starts counted some_start =
    let doubled = policy.initial_backoff_ms * 2 ^ (length starts - 1) in
    let (within, below, chosen) = min-bound policy.max_backoff_ms doubled in
    elim (Bool-cases (ltb policy.max_restarts (length starts))) [
      | inl e ↦ rw e (counted, ground arith)
      | inr e ↦ rw e (counted, some_start, ground arith, within, below, chosen, refl)
    ]

-- The starts of a decision are only this one if the run was stable, and else the given ones in the window
-- and this one. A restart has at most the allowed number of them, and waits from now for the lesser of the
-- doubled and the greatest backoff; a trip has more starts than are allowed.
pub decide_restart-Decided :
    (policy : FleetRestartPolicy) (timestamps : List ℕ) (time runtime : ℕ)
    → Decided policy timestamps time runtime (decide_restart policy timestamps time runtime)
unfolding decide_restart
decide_restart-Decided policy timestamps time runtime =
    let before = if leb policy.stable_after_ms runtime then [] else recent policy time timestamps in
    decision-Decided policy timestamps time runtime (history policy timestamps time runtime)
      (history-Counted policy timestamps time runtime)
      (ground (arith, length-append_one before time))

abbrev retry_delays : List ℕ
retry_delays = 5000 ∷ 30000 ∷ 120000 ∷ 600000 ∷ 1800000 ∷ []

pub record RetryEntry : Type 0 where
  pub attempts : ℕ
  pub next_attempt_at : ℕ

abbrev delay_at : ℕ → List ℕ → ℕ
delay_at n [] = 0
delay_at zero (d ∷ ds) = d
delay_at (suc n) (d ∷ ds) = delay_at n ds

-- `scheduleObserverRetry`, which changes its entry.
unfoldable pub schedule_observer_retry : RetryEntry → ℕ → RetryEntry
schedule_observer_retry entry time = record {
  attempts = entry.attempts + 1;
  next_attempt_at = time + delay_at (min (entry.attempts + 1 - 1) 4) retry_delays;
}

delay-bounds :
    (n : ℕ) → (5000 ≤ delay_at (min n 4) retry_delays) × (delay_at (min n 4) retry_delays ≤ 1800000)
delay-bounds zero = ground arith
delay-bounds (suc zero) = ground arith
delay-bounds (suc (suc zero)) = ground arith
delay-bounds (suc (suc (suc zero))) = ground arith
delay-bounds (suc (suc (suc (suc n)))) = last (min (suc (suc (suc (suc n)))) 4) (ground arith)
  where
    last : (m : ℕ) → m ≡ 4 → (5000 ≤ delay_at m retry_delays) × (delay_at m retry_delays ≤ 1800000)
    last m e = rw e (omega arith, omega arith)

-- A delivery that has failed is counted, and is tried again five seconds later at the earliest and half an
-- hour later at the latest.
pub schedule_observer_retry-bounds :
    (entry : RetryEntry) (time : ℕ)
    → ((schedule_observer_retry entry time).attempts ≡ entry.attempts + 1)
      × (time + 5000 ≤ (schedule_observer_retry entry time).next_attempt_at)
      × ((schedule_observer_retry entry time).next_attempt_at ≤ time + 1800000)
unfolding schedule_observer_retry
schedule_observer_retry-bounds entry time = ground (arith, delay-bounds (entry.attempts + 1 - 1))
