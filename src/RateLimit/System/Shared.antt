-- ===== src/RateLimit/System/Shared.antt =====
-- trace/rate_limit.go: the limit holds for all collectors together.
use native.Mathlib.Nat.{add-mul}
use postman_insights_agent.Prelude.{
  ℕ, ◌+◌, ◌-◌, ◌*◌, ◌≤◌, ◌≡◌, refl, true, Option, none, some, ap, ◌∙◌, sym, subst, List, [], ◌∷◌,
  arith, nat_eq, ◌==◌, sum_by, All, if_cases, option_cases,
}
use postman_insights_agent.Prelude.Dict.{lookup}
use postman_insights_agent.Traffic.{Traffic, recorder}
use postman_insights_agent.RateLimit.{
  Config, SharedRateLimit, start_interval, start_new_epoch, new_rate_limit, new_limiter, process,
  key_eq,
}
use postman_insights_agent.RateLimit.Budget.{Inv, budget, new_rate_limit-Inv, start_interval-Inv}
use postman_insights_agent.RateLimit.System.{
  System, SystemEvent, interval_starts, epoch_starts, makes_collector, packet_arrives,
  closes_collector, stops, new_system, make_collector, packet_to, new_epoch, close_collector,
  step_running, system_step, system_run,
}
use postman_insights_agent.RateLimit.System.Spending.{
  is_request, handed, all_handed, handed_by, insert-handed, offer_epochs-handed, process-Spends,
}

abbrev pub starts_at : SystemEvent (List Traffic) → ℕ
starts_at (interval_starts _) = 1
starts_at _ = 0

-- A new collector's downstream has recorded nothing.
abbrev pub StartsEmpty : SystemEvent (List Traffic) → Type 0
StartsEmpty (makes_collector state) = state ≡ []
StartsEmpty _ = Unit

-- How many intervals were started.
abbrev pub starts : List (SystemEvent (List Traffic)) → ℕ
starts = sum_by starts_at

module _ (average : ℕ → ℕ → ℕ) (config : Config) (int63n : ℕ → ℕ) where
  -- From `s` to `s'`, with `n` intervals started in between.
  record Total (n : ℕ) (s s' : System (List Traffic)) : Type 0 where
    bounded :
        all_handed s'.collectors + budget s'.rate_limit
        ≤ all_handed s.collectors + budget s.rate_limit + n * s.rate_limit.witnesses_per_epoch
    same_budget : s'.rate_limit.witnesses_per_epoch ≡ s.rate_limit.witnesses_per_epoch
    inv : Inv s'.rate_limit

  abbrev Keeps : SharedRateLimit → Option SharedRateLimit → Type 0
  Keeps r none = Unit
  Keeps r (some r') =
      (budget r' ≡ budget r) × (r'.witnesses_per_epoch ≡ r.witnesses_per_epoch) × Inv r'

  start_new_epoch-Keeps :
      (r : SharedRateLimit) (clock : ℕ) → Inv r → Keeps r (start_new_epoch config int63n r clock)
  unfolding start_new_epoch
  start_new_epoch-Keeps r clock h =
      let inv : (timer : ℕ)
          → Keeps r (some (record r { current_epoch_start = clock; interval_timer = some timer })) =
        λ timer. (refl, refl, record { positive = h.positive; within = h.within }) in
      if_cases (Keeps r) r.first_estimate (λ _. inv 0)
        λ _.
          if_cases (Keeps r) (config.epoch_time - r.estimated_sample_interval == 0) (λ _. tt)
            λ _. inv (int63n (config.epoch_time - r.estimated_sample_interval))

  unchanged :
      (s s' : System (List Traffic))
      → all_handed s'.collectors ≡ all_handed s.collectors
      → s'.rate_limit ≡ s.rate_limit
      → Inv s.rate_limit
      → Total 0 s s'
  unchanged s s' handed same h = record {
    bounded = omega (arith, handed, ap budget same);
    same_budget = ap (λ r. r.witnesses_per_epoch) same;
    inv = subst Inv (sym same) h;
  }

  packet_to-Total :
      (s : System (List Traffic)) (id : ℕ) (t : Traffic) (clock : ℕ)
      → Inv s.rate_limit
      → Total 0 s (packet_to average config int63n recorder s id t clock)
  unfolding packet_to
  packet_to-Total s id t clock h =
      option_cases (Total 0 s) (lookup id s.collectors) (λ _. unchanged s s refl refl h)
        λ c e.
          (let (spent, kept, inv) = process-Spends average s.rate_limit c t clock h in
            let found = ap handed_by e in
            record {
              bounded = omega (
                arith,
                spent,
                found,
                insert-handed id (process average recorder s.rate_limit c t clock).1 s.collectors,
              );
              same_budget = kept;
              inv = inv;
            })

  new_epoch-Total :
      (s : System (List Traffic)) (epoch_start clock : ℕ)
      → Inv s.rate_limit
      → Total 0 s (new_epoch average config int63n recorder s epoch_start clock)
  unfolding new_epoch
  new_epoch-Total s epoch_start clock h =
      option_cases (Total 0 s) (start_new_epoch config int63n s.rate_limit clock)
        (λ _. unchanged s (record s { crashed = true }) refl refl h)
        λ r e.
          (let (left, kept, inv) : Keeps s.rate_limit (some r) =
              subst (Keeps s.rate_limit) e (start_new_epoch-Keeps s.rate_limit clock h) in
            record {
              bounded =
                  omega
                    (arith, left, offer_epochs-handed config epoch_start s.collectors s.children);
              same_budget = kept;
              inv = inv;
            })

  make_collector-Total :
      (s : System (List Traffic)) (state : List Traffic)
      → sum_by (λ t. is_request t.content) state ≡ 0
      → Inv s.rate_limit
      → Total 0 s (make_collector average config int63n recorder s state)
  unfolding make_collector new_limiter
  make_collector-Total s state fresh h = record {
    bounded = omega (
      arith,
      fresh,
      insert-handed s.next_collector_id (new_limiter average recorder state) s.collectors,
    );
    same_budget = refl;
    inv = h;
  }

  close_collector-Total :
      (s : System (List Traffic)) (id : ℕ)
      → Inv s.rate_limit
      → Total 0 s (close_collector average config int63n recorder s id)
  unfolding close_collector
  close_collector-Total s id h =
      option_cases (Total 0 s) (lookup id s.collectors) (λ _. unchanged s s refl refl h)
        λ c e.
          (let found = ap handed_by e in
            record {
              bounded = omega (arith, found, insert-handed id c s.collectors);
              same_budget = refl;
              inv = h;
            })

  start-Total :
      (s : System (List Traffic)) (start : ℕ)
      → Inv s.rate_limit
      → Total 1 s (record s { rate_limit = start_interval s.rate_limit start })
  unfolding start_interval
  start-Total s start h = record {
    bounded = omega arith;
    same_budget = refl;
    inv = start_interval-Inv s.rate_limit start h;
  }

  compose :
      (m n : ℕ) (s s' s'' : System (List Traffic))
      → Total m s s'
      → Total n s' s''
      → Total (m + n) s s''
  compose m n s s' s'' a b = record {
    bounded = omega (
      arith,
      a.bounded,
      b.bounded,
      ap (λ w. n * w) a.same_budget,
      add-mul m n s.rate_limit.witnesses_per_epoch,
    );
    same_budget = b.same_budget ∙ a.same_budget;
    inv = b.inv;
  }

  weaken : (s s' : System (List Traffic)) → Total 0 s s' → Total 1 s s'
  weaken s s' h = record {
    bounded = omega (arith, h.bounded);
    same_budget = h.same_budget;
    inv = h.inv;
  }

  step_running-Total :
      (s : System (List Traffic)) (e : SystemEvent (List Traffic))
      → StartsEmpty e
      → Inv s.rate_limit
      → Total (starts_at e) s (step_running average config int63n recorder s e)
  unfolding step_running
  step_running-Total s (interval_starts start) _ h =
      if_cases (Total 1 s) s.stopped (λ _. weaken s s (unchanged s s refl refl h))
        (λ _. start-Total s start h)
  step_running-Total s (epoch_starts epoch_start clock) _ h =
      if_cases (Total 0 s) s.stopped (λ _. unchanged s s refl refl h)
        (λ _. new_epoch-Total s epoch_start clock h)
  step_running-Total s (makes_collector state) empty h =
      make_collector-Total s state (ap (λ log. sum_by (λ t. is_request t.content) log) empty) h
  step_running-Total s (packet_arrives id t clock) _ h = packet_to-Total s id t clock h
  step_running-Total s (closes_collector id) _ h = close_collector-Total s id h
  step_running-Total s stops _ h = unchanged s (record s { stopped = true }) refl refl h

  system_step-Total :
      (s : System (List Traffic)) (e : SystemEvent (List Traffic))
      → StartsEmpty e
      → Inv s.rate_limit
      → Total (starts_at e) s (system_step average config int63n recorder s e)
  unfolding system_step
  system_step-Total s e empty h =
      if_cases (Total (starts_at e) s) s.crashed (λ _. at_least e (unchanged s s refl refl h))
        (λ _. step_running-Total s e empty h)
    where
      at_least : (x : SystemEvent (List Traffic)) → Total 0 s s → Total (starts_at x) s s
      at_least (interval_starts _) z = weaken s s z
      at_least (epoch_starts _ _) z = z
      at_least (makes_collector _) z = z
      at_least (packet_arrives _ _ _) z = z
      at_least (closes_collector _) z = z
      at_least stops z = z

  system_run-Total :
      (s : System (List Traffic)) (es : List (SystemEvent (List Traffic)))
      → All StartsEmpty es
      → Inv s.rate_limit
      → Total (starts es) s (system_run average config int63n recorder s es)
  unfolding system_run
  system_run-Total s [] empty h = unchanged s s refl refl h
  system_run-Total s (e ∷ es) empty h =
      let s' = system_step average config int63n recorder s e in
      let one = system_step-Total s e empty.0 h in
      compose (starts_at e) (starts es) s s' (system_run average config int63n recorder s' es) one
        (system_run-Total s' es empty.1 one.inv)

  -- In any history of a new limit and of the collectors that share it, with a downstream of each
  -- that only records and has recorded nothing before, the requests that all of them have handed on
  -- are at most the witnesses of an epoch for every interval that was started.
  pub all_handed-le :
      (witness_limit now : ℕ) (es : List (SystemEvent (List Traffic)))
      → All StartsEmpty es
      → let start = new_system average config int63n recorder witness_limit now in
        all_handed (system_run average config int63n recorder start es).collectors
        ≤ starts es * start.rate_limit.witnesses_per_epoch
  unfolding new_system new_rate_limit
  all_handed-le witness_limit now es empty =
      let start = new_system average config int63n recorder witness_limit now in
      omega
        (arith, (system_run-Total start es empty (new_rate_limit-Inv witness_limit now)).bounded)
