-- ===== src/Summary/Ports.antt =====
-- apidump/summary.go: how much of the traffic the ports that are printed stand for.
use postman_insights_agent.Prelude.{ℕ, Bool, ◌+◌, ◌≤◌, List, [], ◌∷◌, arith, sum_by}
use postman_insights_agent.Counts.{PacketCounts}
use postman_insights_agent.Stats.{PacketCounter}
use postman_insights_agent.Summary.{PortLine, port_lines, print_port_highlights, port_before}

abbrev pub line_packets : ℕ × PacketCounts × PortLine → ℕ
line_packets (p, c, line) = c.tcp_packets

port_lines-le :
    (prefilter : PacketCounter) (total : ℕ) (ports : List (ℕ × PacketCounts)) (i listed : ℕ)
    → listed ≤ total
    → listed + sum_by line_packets (port_lines prefilter total ports i listed) ≤ total
unfolding port_lines
port_lines-le prefilter total [] i listed h = omega arith
port_lines-le prefilter total ((p, c) ∷ ports) i listed h =
    ground (arith, port_lines-le prefilter total ports (i + 1) (listed + c.tcp_packets))

-- However the ports are sorted, those that are listed have together no more packets than were counted
-- in all.
pub print_port_highlights-le :
    (sort_slice : (ℕ × PacketCounts → ℕ × PacketCounts → Bool)
      → List (ℕ × PacketCounts)
      → List (ℕ × PacketCounts))
    (prefilter : PacketCounter) (total : ℕ) (top_by_port : List (ℕ × PacketCounts))
    → sum_by line_packets (print_port_highlights sort_slice prefilter total top_by_port) ≤ total
unfolding print_port_highlights
print_port_highlights-le sort_slice prefilter total top_by_port =
    omega (arith, port_lines-le prefilter total (sort_slice port_before top_by_port) 0 0)
