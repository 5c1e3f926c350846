-- ===== src/RateLimit/Budget.antt =====
-- trace/rate_limit.go: how many requests an interval lets through.
use postman_insights_agent.Prelude.{
  ℕ, ◌+◌, ◌-◌, ◌<◌, min, ◌≡◌, ◌∙◌, true, List, [], ◌∷◌, arith, length, if◌then◌else◌, ltb,
}
use postman_insights_agent.RateLimit.{
  SharedRateLimit, start_interval, end_interval, allow_http_request, new_rate_limit,
}

-- While an interval is active, its budget is not used up; the budget is never empty.
pub record Inv (r : SharedRateLimit) : Type 0 where
  pub positive : 0 < r.witnesses_per_epoch
  pub within : r.sample_interval_active ≡ true → r.sample_interval_count < r.witnesses_per_epoch

-- The requests that arrive, by the times at which they do, and how many are let through.
pub allow_all : (ℕ → ℕ → ℕ) → SharedRateLimit → List ℕ → SharedRateLimit × ℕ
allow_all average r [] = (r, 0)
allow_all average r (now ∷ ts) =
    let (r', allowed) = allow_http_request average r now in
    let (r'', n) = allow_all average r' ts in (r'', (if allowed then 1 else 0) + n)

pub new_rate_limit-Inv : (limit now : ℕ) → Inv (new_rate_limit limit now)
unfolding new_rate_limit
new_rate_limit-Inv limit now = ground arith

pub start_interval-Inv : (r : SharedRateLimit) (start : ℕ) → Inv r → Inv (start_interval r start)
unfolding start_interval
start_interval-Inv r start h = ground arith

pub allow_http_request-Inv :
    (average : ℕ → ℕ → ℕ) (r : SharedRateLimit) (now : ℕ)
    → Inv r
    → Inv (allow_http_request average r now).0
unfolding allow_http_request end_interval
allow_http_request-Inv average r now h = ground arith

-- What is left of the budget of the interval.
abbrev pub budget : SharedRateLimit → ℕ
budget r = if r.sample_interval_active then r.witnesses_per_epoch - r.sample_interval_count else 0

-- One request: it is let through exactly when some budget is left, and uses one of it.
pub allow_http_request-budget :
    (average : ℕ → ℕ → ℕ) (r : SharedRateLimit) (now : ℕ)
    → Inv r
    → let (r', allowed) = allow_http_request average r now in
      (allowed ≡ ltb 0 (budget r)) × (budget r' ≡ budget r - 1)
unfolding allow_http_request end_interval
allow_http_request-budget average r now h = ground arith

-- If the limiter keeps its invariant, then whatever the times of the requests, as many are let through as the budget has, or all if they
-- are fewer; what they use is taken off the budget, and the invariant is kept.
pub allow_all-budget :
    (average : ℕ → ℕ → ℕ) (r : SharedRateLimit) (ts : List ℕ)
    → Inv r
    → let (r', n) = allow_all average r ts in
      (n ≡ min (length ts) (budget r)) × (budget r' ≡ budget r - length ts) × Inv r'
unfolding allow_all
allow_all-budget average r [] h = (omega arith, omega arith, h)
allow_all-budget average r (now ∷ ts) h =
    let r' = (allow_http_request average r now).0 in
    let one = allow_http_request-budget average r now h in
    let (n, b, i) = allow_all-budget average r' ts (allow_http_request-Inv average r now h) in
    (ground (arith, one.0, one.1, n), omega (arith, b, one.1), i)

active-budget : (r : SharedRateLimit) → Inv r → r.sample_interval_active ≡ ltb 0 (budget r)
active-budget r h = ground (arith, h.within)

-- If the limiter keeps its invariant, then from the start of an interval on exactly
-- `witnesses_per_epoch` requests are let through, or all of them if they are fewer, and the interval
-- is still active only in the second case.
pub allow_all-start_interval :
    (average : ℕ → ℕ → ℕ) (r : SharedRateLimit) (start : ℕ) (ts : List ℕ)
    → Inv r
    → ((allow_all average (start_interval r start) ts).1 ≡ min (length ts) r.witnesses_per_epoch)
      × ((allow_all average (start_interval r start) ts).0.sample_interval_active
          ≡ ltb (length ts) r.witnesses_per_epoch)
unfolding start_interval
allow_all-start_interval average r start ts h =
    let all = allow_all-budget average (start_interval r start) ts (start_interval-Inv r start h) in
    let after = (allow_all average (start_interval r start) ts).0 in
    (omega (arith, all.0), active-budget after all.2 ∙ ground (arith, all.1))
