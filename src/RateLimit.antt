-- ===== src/RateLimit.antt =====
-- trace/rate_limit.go: one sampling interval in each epoch, shared by several collectors.
-- A method that holds the lock is a step; the wall clock, the random offset and the moving average
-- over floats are arguments. Clock readings do not run backwards (Go's monotonic clock), so that a
-- difference of times is a natural number.
pub mod Budget
pub mod Epochs
pub mod Pairing
pub mod System
mod Tests
use postman_insights_agent.Prelude.{
  ℕ, ◌+◌, ◌-◌, Bool, true, false, ◌&&◌, Option, none, some, List, [], ◌∷◌, Comparable, nat_beq, ltb,
  leb, ◌==◌, nat_eq, if◌then◌else◌, ◌≡◌, ◌↔◌, arith, map,
}
use postman_insights_agent.Prelude.Dict.{lookup, insert, delete}
use postman_insights_agent.Counts.{PacketCounts, zero_counts}
use postman_insights_agent.Traffic.{
  Error, HttpRequest, HttpResponse, Content, http_request, http_response, Traffic, Collector,
}

-- RateLimitEpochTime and RateLimitMaxDuration, in nanoseconds
pub record Config : Type 0 where
  pub epoch_time : ℕ
  pub max_duration : ℕ

-- `interval_timer` is the time after which the timer fires, if it is set.
pub record SharedRateLimit : Type 0 where
  pub current_epoch_start : ℕ
  pub sample_interval_start : ℕ
  pub sample_interval_active : Bool
  pub sample_interval_count : ℕ
  pub interval_timer : Option ℕ
  pub witnesses_per_epoch : ℕ
  pub estimated_sample_interval : ℕ
  pub first_estimate : Bool

-- StreamID and SequenceNumber
abbrev pub RequestKey : Type 0
RequestKey = ℕ × ℕ

abbrev key_beq : RequestKey → RequestKey → Bool
key_beq a b = nat_beq a.0 b.0 && nat_beq a.1 b.1

pub key_beq_iff : (a b : RequestKey) → (key_beq a b ≡ true) ↔ (a ≡ b)
key_beq_iff (a, b) (c, d) = ground arith

instance abbrev pub key_eq : Comparable RequestKey
key_eq = record { same = key_beq; same_iff = key_beq_iff }

-- `epoch_ch` is a channel with room for one value, `packet_count` what its consumer was handed,
-- the latest first.
pub record Limiter (S : Type 0) : Type 0 where
  pub next : S
  pub request_arrival_times : List (RequestKey × ℕ)
  pub epoch_ch : Option ℕ
  pub packet_count : List PacketCounts

pub start_interval : SharedRateLimit → ℕ → SharedRateLimit
start_interval r start = record r {
  sample_interval_start = start;
  sample_interval_count = 0;
  sample_interval_active = true;
  interval_timer = none;
}

-- `average` is (1-alpha)*float64(estimate) + alpha*float64(length), back as a duration.
pub end_interval : (ℕ → ℕ → ℕ) → SharedRateLimit → ℕ → SharedRateLimit
end_interval average r end =
    let interval_length = end - r.sample_interval_start in
    record r {
      sample_interval_active = false;
      sample_interval_count = 0;
      estimated_sample_interval =
          if r.first_estimate
          then interval_length
          else average r.estimated_sample_interval interval_length;
      first_estimate = false;
    }

pub allow_http_request : (ℕ → ℕ → ℕ) → SharedRateLimit → ℕ → SharedRateLimit × Bool
unfolding end_interval
allow_http_request average r now =
    if r.sample_interval_active
    then (let r' = record r { sample_interval_count = r.sample_interval_count + 1 } in
        (
          if leb r'.witnesses_per_epoch r'.sample_interval_count
              then end_interval average r' now
              else r',
          true,
        ))
    else (r, false)

pub allow_other : SharedRateLimit → Bool
allow_other r = r.sample_interval_active

-- `int63n` is rand.Int63n, which panics unless its argument is positive: `none`.
pub start_new_epoch : Config → (ℕ → ℕ) → SharedRateLimit → ℕ → Option SharedRateLimit
start_new_epoch config int63n r now =
    if r.first_estimate
    then some (record r { current_epoch_start = now; interval_timer = some 0 })
    else (let upper_bound = config.epoch_time - r.estimated_sample_interval in
        if upper_bound == 0
        then none
        else some
            (record r { current_epoch_start = now; interval_timer = some (int63n upper_bound) }))

-- What the new epoch offers each child, which keeps the value that it has not read yet.
pub offer_epoch : {S : Type 0} → Config → ℕ → Limiter S → Limiter S
offer_epoch config epoch_start child = elim child.epoch_ch [
  | none ↦ record child { epoch_ch = some (epoch_start - config.max_duration) }
  | some _ ↦ child
]

-- NewRateLimit, from int(witnessesPerMinute * minutes); a product below 1 is rounded up.
pub new_rate_limit : ℕ → ℕ → SharedRateLimit
new_rate_limit witness_limit now = record {
  current_epoch_start = now;
  sample_interval_start = 0;
  sample_interval_active = false;
  sample_interval_count = 0;
  interval_timer = some 0;
  witnesses_per_epoch = if ltb witness_limit 1 then 1 else witness_limit;
  estimated_sample_interval = 0;
  first_estimate = true;
}

-- The requests that came in before the threshold are forgotten.
pub expire_requests : ℕ → List (RequestKey × ℕ) → List (RequestKey × ℕ)
expire_requests threshold [] = []
expire_requests threshold ((k, v) ∷ m) =
    let rest = expire_requests threshold m in if ltb v threshold then rest else (k, v) ∷ rest

rate_limited : Traffic → HttpRequest → PacketCounts
rate_limited pnt c = record zero_counts {
  net_interface = pnt.net_interface;
  dst_host = c.host;
  src_port = pnt.src_port;
  dst_port = pnt.dst_port;
  http_requests_rate_limited = 1;
}

module _ (average : ℕ → ℕ → ℕ) (next_collector : Collector) where
  -- SharedRateLimit.NewCollector
  pub new_limiter : next_collector.State → Limiter next_collector.State
  new_limiter s = record {
    next = s;
    request_arrival_times = [];
    epoch_ch = none;
    packet_count = [];
  }

  -- NextCollector.Process, with its error dropped
  hand_on : Limiter next_collector.State → Traffic → Limiter next_collector.State
  hand_on c pnt = record c { next = (next_collector.process c.next pnt).0 }

  process_request :
      SharedRateLimit
      → Limiter next_collector.State
      → Traffic
      → HttpRequest
      → ℕ
      → SharedRateLimit × Limiter next_collector.State
  unfolding hand_on
  process_request r c pnt req now =
      let (r', allowed) = allow_http_request average r now in
      (
        r',
        if allowed
            then record (hand_on c pnt) {
              request_arrival_times =
                  insert (req.stream_id, req.seq) pnt.observation_time c.request_arrival_times;
            }
            else record c { packet_count = rate_limited pnt req ∷ c.packet_count },
      )

  process_response :
      Limiter next_collector.State → Traffic → HttpResponse → Limiter next_collector.State
  unfolding hand_on
  process_response c pnt resp = elim (lookup (resp.stream_id, resp.seq) c.request_arrival_times) [
    | none ↦ c
    | some _ ↦ record (hand_on c pnt) {
      request_arrival_times = delete (resp.stream_id, resp.seq) c.request_arrival_times;
    }
  ]

  process_content :
      SharedRateLimit
      → Limiter next_collector.State
      → Traffic
      → Content
      → ℕ
      → SharedRateLimit × Limiter next_collector.State
  unfolding process_request process_response hand_on
  process_content r c pnt (http_request req) now = process_request r c pnt req now
  process_content r c pnt (http_response resp) now = (r, process_response c pnt resp)
  process_content r c pnt _ now = (r, if allow_other r then hand_on c pnt else c)

  -- The non-blocking read of the channel.
  check_epoch : Limiter next_collector.State → Limiter next_collector.State
  check_epoch c = elim c.epoch_ch [
    | none ↦ c
    | some threshold ↦ record c {
      request_arrival_times = expire_requests threshold c.request_arrival_times;
      epoch_ch = none;
    }
  ]

  -- Always returns nil.
  pub process :
      SharedRateLimit
      → Limiter next_collector.State
      → Traffic
      → ℕ
      → SharedRateLimit × Limiter next_collector.State
  unfolding process_content check_epoch
  process r c pnt now =
      let (r', c') = process_content r c pnt pnt.content now in (r', check_epoch c')
