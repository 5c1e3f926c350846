-- ===== src/RateLimit/System.antt =====
-- trace/rate_limit.go: the shared limit with the collectors that share it, and the loop of `run`.
mod Spending
mod Shared
mod Tests
use postman_insights_agent.Prelude.{
  ℕ, suc, Bool, true, false, Option, none, some, List, [], ◌∷◌, ◌++◌, nat_eq, if◌then◌else◌, ◌==◌,
}
use postman_insights_agent.Prelude.Dict.{lookup, insert}
use postman_insights_agent.Traffic.{Error, Traffic, Collector}
use postman_insights_agent.RateLimit.{
  Config, SharedRateLimit, Limiter, start_interval, start_new_epoch, offer_epoch, new_rate_limit,
  new_limiter, process,
}

-- `collectors` holds every collector made so far, by the number of its allocation, and `children`
-- those that epochs are offered to. `crashed` is the panic of a goroutine, which ends the process.
pub record System (S : Type 0) : Type 0 where
  pub rate_limit : SharedRateLimit
  pub collectors : List (ℕ × Limiter S)
  pub next_collector_id : ℕ
  pub children : List ℕ
  pub stopped : Bool
  pub crashed : Bool

-- The first child that is the one closed is taken out.
on_collector_close : ℕ → List ℕ → List ℕ
on_collector_close closed [] = []
on_collector_close closed (c ∷ cs) =
    let rest = on_collector_close closed cs in if c == closed then cs else c ∷ rest

-- The loop over the children at the start of an epoch.
pub offer_epochs : {S : Type 0} → Config → ℕ → List (ℕ × Limiter S) → List ℕ → List (ℕ × Limiter S)
offer_epochs config epoch_start collectors [] = collectors
offer_epochs config epoch_start collectors (child ∷ children) =
    offer_epochs config epoch_start
      (elim (lookup child collectors) [
        | none ↦ collectors
        | some c ↦ insert child (offer_epoch config epoch_start c) collectors
      ])
      children

pub data SystemEvent (S : Type 0) : Type 0 where
  interval_starts : ℕ → SystemEvent S
  epoch_starts : ℕ → ℕ → SystemEvent S
  makes_collector : S → SystemEvent S
  packet_arrives : ℕ → Traffic → ℕ → SystemEvent S
  closes_collector : ℕ → SystemEvent S
  stops : SystemEvent S

module _ (average : ℕ → ℕ → ℕ) (config : Config) (int63n : ℕ → ℕ) (next : Collector) where
  pub new_system : ℕ → ℕ → System next.State
  new_system witness_limit now = record {
    rate_limit = new_rate_limit witness_limit now;
    collectors = [];
    next_collector_id = 0;
    children = [];
    stopped = false;
    crashed = false;
  }

  pub make_collector : System next.State → next.State → System next.State
  make_collector s state = record s {
    collectors = insert s.next_collector_id (new_limiter average next state) s.collectors;
    next_collector_id = suc s.next_collector_id;
    children = s.children ++ s.next_collector_id ∷ [];
  }

  pub packet_to : System next.State → ℕ → Traffic → ℕ → System next.State
  packet_to s id pnt now = elim (lookup id s.collectors) [
    | none ↦ s
    | some c ↦
        let (r', c') = process average next s.rate_limit c pnt now in
        record s { rate_limit = r'; collectors = insert id c' s.collectors }
  ]

  -- startNewEpoch with its loop; `now` is the clock, `epoch_start` what the ticker says.
  pub new_epoch : System next.State → ℕ → ℕ → System next.State
  unfolding offer_epochs
  new_epoch s epoch_start now = elim (start_new_epoch config int63n s.rate_limit now) [
    | none ↦ record s { crashed = true }
    | some r ↦ record s {
      rate_limit = r;
      collectors = offer_epochs config epoch_start s.collectors s.children;
    }
  ]

  -- Close, with that of the next collector.
  pub close_collector : System next.State → ℕ → System next.State
  unfolding on_collector_close
  close_collector s id = elim (lookup id s.collectors) [
    | none ↦ s
    | some c ↦ record s {
      children = on_collector_close id s.children;
      collectors = insert id (record c { next = (next.close c.next).0 }) s.collectors;
    }
  ]

  -- `run` reads the two timers until it is stopped.
  pub step_running : System next.State → SystemEvent next.State → System next.State
  unfolding make_collector packet_to new_epoch close_collector
  step_running s (interval_starts start) =
      if s.stopped then s else record s { rate_limit = start_interval s.rate_limit start }
  step_running s (epoch_starts epoch_start now) =
      if s.stopped then s else new_epoch s epoch_start now
  step_running s (makes_collector state) = make_collector s state
  step_running s (packet_arrives id pnt now) = packet_to s id pnt now
  step_running s (closes_collector id) = close_collector s id
  step_running s stops = record s { stopped = true }

  pub system_step : System next.State → SystemEvent next.State → System next.State
  unfolding step_running
  system_step s e = if s.crashed then s else step_running s e

  pub system_run : System next.State → List (SystemEvent next.State) → System next.State
  system_run s [] = s
  system_run s (e ∷ es) = system_run (system_step s e) es
