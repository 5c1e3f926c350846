-- ===== src/Stats/Tests.antt =====
-- trace/stats.go: three packets of two interfaces and hosts.
use postman_insights_agent.Prelude.{ℕ, ◌≡◌, refl, ◌+◌, ◌*◌, String, List, [], ◌∷◌, sum_by}
use postman_insights_agent.Counts.{PacketCounts, zero_counts}
use postman_insights_agent.Stats.{new_packet_counter, update_all}
use postman_insights_agent.Stats.Conservation.{
  IsCount, counted, hosts_share, update_all-new_packet_counter,
}

abbrev add : PacketCounts → PacketCounts → PacketCounts
add a b = record a {
  tcp_packets = a.tcp_packets + b.tcp_packets;
  http_requests = a.http_requests + b.http_requests;
}

abbrev count : PacketCounts → ℕ
count c = c.http_requests

count-IsCount : IsCount add count
count-IsCount = record { adds = λ a b. refl; blank_zero = λ i h p. refl }

abbrev seen : String → String → ℕ → PacketCounts
seen net_interface host requests = record zero_counts {
  net_interface = net_interface;
  src_host = host;
  src_port = 4000;
  dst_port = 80;
  http_requests = requests;
}

abbrev packets : List PacketCounts
packets = seen "eth0" "a.local" 2 ∷ seen "lo" "" 1 ∷ seen "eth0" "b.local" 4 ∷ []

update_all-new_packet_counter_example :
    let s = update_all add new_packet_counter packets in
    (count s.total ≡ sum_by count packets)
    × (counted add count count-IsCount s.by_port ≡ 2 * count s.total)
    × (counted add count count-IsCount s.by_interface ≡ count s.total)
    × (counted add count count-IsCount s.by_host ≡ hosts_share add count count-IsCount packets)
update_all-new_packet_counter_example =
    update_all-new_packet_counter add count count-IsCount packets
