-- ===== src/Stats.antt =====
-- trace/stats.go: packet counts by host, port and interface, with a limit on the keys of each.
-- `add` is client_telemetry.PacketCounts.Add, and `sort_func` slices.SortFunc.
pub mod Conservation
mod Tests
use postman_insights_agent.Prelude.{
  ℕ, suc, String, min, Bool, true, false, not, ◌&&◌, Option, none, some, List, [], ◌∷◌, Comparable,
  ◌==◌, nat_eq, string_eq, length, take, leb, ltb, nat_beq, if◌then◌else◌, ◌+◌,
}
use postman_insights_agent.Prelude.Dict.{lookup, insert}
use postman_insights_agent.Counts.{PacketCounts, zero_counts}

abbrev pub max_keys : ℕ
max_keys = 10_000

pub record BoundedPacketCounter (K : Type 0) : Type 0 where
  pub limit : ℕ
  pub overflow : PacketCounts
  pub m : List (K × PacketCounts)

-- The literals &PacketCounts{Interface: …, SrcHost: …, SrcPort: …} of the code.
abbrev pub blank : String → String → ℕ → PacketCounts
blank interface_ host port = record zero_counts {
  net_interface = interface_;
  src_host = host;
  src_port = port;
}

pub new_bounded_packet_counter : {K : Type 0} → ℕ → BoundedPacketCounter K
new_bounded_packet_counter limit = record { limit = limit; overflow = blank "*" "" 0; m = [] }

pub has_reached_limit : {K : Type 0} → BoundedPacketCounter K → Bool
has_reached_limit bc = leb bc.limit (length bc.m)

pub get_overflow : {K : Type 0} → BoundedPacketCounter K → Option PacketCounts
unfolding has_reached_limit
get_overflow bc = if has_reached_limit bc then some bc.overflow else none

pub record PacketCounter : Type 0 where
  pub total : PacketCounts
  pub observation_window : PacketCounts
  pub by_port : BoundedPacketCounter ℕ
  pub by_interface : BoundedPacketCounter String
  pub by_host : BoundedPacketCounter String

unfoldable pub new_packet_counter : PacketCounter
unfolding new_bounded_packet_counter
new_packet_counter = record {
  total = zero_counts;
  observation_window = zero_counts;
  by_port = new_bounded_packet_counter max_keys;
  by_interface = new_bounded_packet_counter max_keys;
  by_host = new_bounded_packet_counter max_keys;
}

module _ (add : PacketCounts → PacketCounts → PacketCounts) where
  pub add_or_insert :
      {K : Type 0} ⦃e : Comparable K⦄
      → BoundedPacketCounter K
      → K
      → PacketCounts
      → (PacketCounts → PacketCounts)
      → BoundedPacketCounter K
  unfolding has_reached_limit
  add_or_insert bc key c make_new = elim (lookup key bc.m) [
    | some prev ↦ record bc { m = insert key (add prev c) bc.m }
    | none ↦
        if has_reached_limit bc
        then record bc { overflow = add bc.overflow c }
        else record bc { m = insert key (make_new c) bc.m }
  ]

  -- One of the two host updates; an empty host is not counted.
  count_host : BoundedPacketCounter String → String → PacketCounts → BoundedPacketCounter String
  unfolding add_or_insert
  count_host bc host c =
      if host == "" then bc else add_or_insert bc host c (λ c'. add (blank "*" host 0) c')

  count_port : BoundedPacketCounter ℕ → ℕ → PacketCounts → BoundedPacketCounter ℕ
  unfolding add_or_insert
  count_port bc port c = add_or_insert bc port c (λ c'. add (blank "*" "" port) c')

  count_interface : BoundedPacketCounter String → PacketCounts → BoundedPacketCounter String
  unfolding add_or_insert
  count_interface bc c =
      add_or_insert bc c.net_interface c (λ c'. add (blank c.net_interface "" 0) c')

  unfoldable pub update : PacketCounter → PacketCounts → PacketCounter
  unfolding count_host count_port count_interface
  update s c = record {
    total = add s.total c;
    observation_window = add s.observation_window c;
    by_port = count_port (count_port s.by_port c.src_port c) c.dst_port c;
    by_interface = count_interface s.by_interface c;
    by_host = count_host (count_host s.by_host c.src_host c) c.dst_host c;
  }

  pub update_all : PacketCounter → List PacketCounts → PacketCounter
  update_all s [] = s
  update_all s (c ∷ cs) = update_all (update s c) cs

unfoldable pub has_request_and_response : PacketCounter → Bool
has_request_and_response s = ltb 0 s.total.http_requests && ltb 0 s.total.http_responses

pub total_on_interface : PacketCounter → String → PacketCounts
total_on_interface s name = elim (lookup name s.by_interface.m) [
  | some count ↦ count
  | none ↦ blank name "" 0
]

pub total_on_port : PacketCounter → ℕ → PacketCounts
total_on_port s port = elim (lookup port s.by_port.m) [
  | some count ↦ count
  | none ↦ blank "*" "" port
]

pub total_on_host : PacketCounter → String → PacketCounts
total_on_host s host = elim (lookup host s.by_host.m) [
  | some count ↦ count
  | none ↦ blank "*" host 0
]

-- The comparison of TopN: by the projected count, the larger first, then by the key.
pub sorts_before :
    {K : Type 0} → (PacketCounts → ℕ) → (K → K → Bool) → K × PacketCounts → K × PacketCounts → Bool
sorts_before project key_less (ak, a) (bk, b) =
    if not (nat_beq (project a) (project b)) then ltb (project b) (project a) else key_less ak bk

pub top_n :
    {K : Type 0}
    → ((K × PacketCounts → K × PacketCounts → Bool)
        → List (K × PacketCounts)
        → List (K × PacketCounts))
    → (K → K → Bool)
    → BoundedPacketCounter K
    → ℕ
    → (PacketCounts → ℕ)
    → List (K × PacketCounts) × Option PacketCounts
unfolding get_overflow
top_n sort_func key_less bc n project =
    (take n (sort_func (sorts_before project key_less) bc.m), get_overflow bc)
