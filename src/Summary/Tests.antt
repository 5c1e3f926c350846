-- ===== src/Summary/Tests.antt =====
-- apidump/summary.go: concrete summaries.
use postman_insights_agent.Prelude.{
  ℕ, ◌*◌, ◌/◌, ◌≤◌, ◌≡◌, refl, String, true, false, some, List, [], ◌∷◌, any, take, drop, sum_by,
}
use postman_insights_agent.Counts.{PacketCounts, zero_counts}
use postman_insights_agent.Stats.{new_packet_counter}
use postman_insights_agent.Summary.{
  Summary, print_up_to, host_entry_count, print_host_highlights, print_port_highlights,
  print_warnings, is_empty,
}
use postman_insights_agent.Summary.Hosts.{Stops, printed-share}
use postman_insights_agent.Summary.Ports.{line_packets, print_port_highlights-le}
use postman_insights_agent.Summary.Warnings.{says_no_calls, print_warnings-is_empty}

abbrev requests : ℕ → PacketCounts
requests n = record zero_counts { http_requests = n; tcp_packets = n }

-- One busy host, and one with little traffic.
abbrev hosts : List (String × PacketCounts)
hosts = ("api", requests 95) ∷ ("db", requests 5) ∷ []

-- Nothing is printed, since the first host alone has more than 80 percent.
busy_host :
    print_host_highlights (λ _ entries. entries) (λ _ _. false) new_packet_counter hosts ≡ some []
unfolding print_host_highlights
busy_host = refl

even_hosts :
    print_up_to 100 (("a", requests 50) ∷ ("b", requests 30) ∷ ("c", requests 20) ∷ []) 0 0 0 ≡ 2
unfolding print_up_to
even_hosts = refl

printed-share_example :
    let k = print_up_to 100 hosts 0 0 0 in
    (sum_by host_entry_count (take k hosts) * 100 / 100 ≤ 80)
    × Stops 100 (sum_by host_entry_count (take k hosts)) (drop k hosts) k
printed-share_example = printed-share 100 hosts

abbrev ports : List (ℕ × PacketCounts)
ports = (80, requests 60) ∷ (5000, requests 60) ∷ []

print_port_highlights-le_example :
    sum_by line_packets (print_port_highlights (λ _ entries. entries) new_packet_counter 100 ports)
    ≤ 100
print_port_highlights-le_example =
    print_port_highlights-le (λ _ entries. entries) new_packet_counter 100 ports

abbrev summary : Summary
summary = record {
  capturing_negation = false;
  num_user_filters = 0;
  filter_summary = new_packet_counter;
  prefilter_summary = new_packet_counter;
  negation_summary = new_packet_counter;
}

print_warnings-is_empty_example :
    any says_no_calls (print_warnings false true summary) ≡ is_empty summary
print_warnings-is_empty_example = print_warnings-is_empty false true summary
