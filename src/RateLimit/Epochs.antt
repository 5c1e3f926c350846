-- ===== src/RateLimit/Epochs.antt =====
-- trace/rate_limit.go: what a new epoch does, and when it cannot.
use postman_insights_agent.Prelude.{ℕ, ◌+◌, ◌-◌, ◌≤◌, ◌<◌, ◌≡◌, ◌↔◌, refl, false, none, some, arith}
use postman_insights_agent.RateLimit.{Config, SharedRateLimit, start_new_epoch}

-- A new epoch panics exactly when the limiter has a measured estimate of its sampling interval and
-- it is not below the epoch's length.
pub start_new_epoch-panics :
    (config : Config) (int63n : ℕ → ℕ) (r : SharedRateLimit) (now : ℕ)
    → (start_new_epoch config int63n r now ≡ none)
      ↔ ((r.first_estimate ≡ false) × (config.epoch_time ≤ r.estimated_sample_interval))
unfolding start_new_epoch
start_new_epoch-panics config int63n r now = (λ e. ground arith, λ e. ground arith)

-- If rand.Int63n stays below its argument and there is an estimate below the epoch's length, then a
-- new epoch sets the timer, early enough for the estimated time of capture to end within the epoch,
-- and leaves the count of the interval alone.
pub start_new_epoch-fits :
    (config : Config) (int63n : ℕ → ℕ) (r : SharedRateLimit) (now : ℕ)
    → ((n : ℕ) → 0 < n → int63n n < n)
    → r.first_estimate ≡ false
    → r.estimated_sample_interval < config.epoch_time
    → (r' : SharedRateLimit) × (offset : ℕ) × (start_new_epoch config int63n r now ≡ some r')
      × (r'.interval_timer ≡ some offset)
      × (offset + r.estimated_sample_interval < config.epoch_time)
      × (r'.sample_interval_count ≡ r.sample_interval_count)
unfolding start_new_epoch
start_new_epoch-fits config int63n r now bound f l =
    let offset = int63n (config.epoch_time - r.estimated_sample_interval) in
    (
      record r { current_epoch_start = now; interval_timer = some offset },
      offset,
      ground arith,
      refl,
      omega (arith, bound (config.epoch_time - r.estimated_sample_interval)),
      refl,
    )
