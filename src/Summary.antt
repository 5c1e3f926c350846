-- ===== src/Summary.antt =====
-- apidump/summary.go: what is told about a capture, before the texts are formatted. Counts come from
-- trace.PacketCounter (Stats); `sort_slice` is sort.Slice; the maps of the summary are lists of their
-- entries in the order in which they are visited.
pub mod Hosts
pub mod Ports
pub mod Warnings
mod Tests
use postman_insights_agent.Prelude.{
  ℕ, zero, suc, ◌+◌, ◌*◌, ◌/◌, max, String, Bool, true, false, not, ◌&&◌, ◌||◌, Option, none, some,
  List, [], ◌∷◌, ◌++◌, take, ltb, leb, nat_beq, if◌then◌else◌, sum_by, length,
}
use postman_insights_agent.Counts.{PacketCounts}
use postman_insights_agent.Stats.{PacketCounter, total_on_port, total_on_host}

-- The fields of Summary that are read here.
pub record Summary : Type 0 where
  pub capturing_negation : Bool
  pub num_user_filters : ℕ
  pub filter_summary : PacketCounter
  pub prefilter_summary : PacketCounter
  pub negation_summary : PacketCounter

-- What printHostHighlights counts of a host, for the total and for the order.
abbrev pub host_count : PacketCounts → ℕ
host_count c = c.http_requests + c.http_responses + c.tls_hello

abbrev pub requests_and_hellos : PacketCounts → ℕ
requests_and_hellos c = c.http_requests + c.tls_hello

abbrev pub host_entry_count : String × PacketCounts → ℕ
host_entry_count (h, c) = host_count c

-- The comparison by which the hosts are sorted; `less` is that of texts.
pub host_before : (String → String → Bool) → String × PacketCounts → String × PacketCounts → Bool
host_before less (i, left) (j, right) =
    if not (nat_beq (requests_and_hellos left) (requests_and_hellos right))
    then ltb (requests_and_hellos right) (requests_and_hellos left)
    else if not (nat_beq left.http_requests right.http_requests)
    then ltb right.http_requests left.http_requests
    else if not (nat_beq left.tls_hello right.tls_hello)
    then ltb right.tls_hello left.tls_hello
    else less i j

-- The loop that decides how many hosts are printed: the hosts that are left, the index of the first
-- of them, the count so far and the last printUpTo. The total is not 0.
pub print_up_to : ℕ → List (String × PacketCounts) → ℕ → ℕ → ℕ → ℕ
print_up_to total [] i count_so_far found = found
print_up_to total ((h, c) ∷ hosts) i count_so_far found =
    let pct = host_count c * 100 / total in
    let so_far = count_so_far + host_count c in
    let pct_so_far = so_far * 100 / total in
    let rest = print_up_to total hosts (i + 1) so_far (i + 1) in
    if ltb 80 pct_so_far || ltb pct 3 && leb 2 i then found else rest

-- What is said about a host, by its counts and those before the filters.
pub data HostLine : Type 0 where
  traffic : (requests hellos : ℕ) (mixed : Bool) → HostLine
  filtered : (requests : ℕ) → HostLine
  encrypted : (hellos : ℕ) → HostLine
  unparsable : HostLine

pub host_line : PacketCounter → String × PacketCounts → HostLine
host_line prefilter (h, c) =
    let pre = total_on_host prefilter h in
    if ltb 0 (c.http_requests + c.http_responses)
    then traffic c.http_requests c.tls_hello (ltb 0 c.tls_hello)
    else if ltb 0 (pre.http_requests + pre.http_responses)
    then filtered pre.http_requests
    else if ltb 0 c.tls_hello
    then encrypted c.tls_hello
    else unparsable

-- The entry of each host that is printed, with what is said about it.
pub host_lines : PacketCounter → List (String × PacketCounts) → List (String × HostLine)
unfolding host_line
host_lines prefilter [] = []
host_lines prefilter ((h, c) ∷ hosts) = (h, host_line prefilter (h, c)) ∷ host_lines prefilter hosts

-- printHostHighlights; `none` is the panic of a division by 0.
pub print_host_highlights :
    ((String × PacketCounts → String × PacketCounts → Bool)
      → List (String × PacketCounts)
      → List (String × PacketCounts))
    → (String → String → Bool)
    → PacketCounter
    → List (String × PacketCounts)
    → Option (List (String × HostLine))
unfolding print_up_to host_lines host_before
print_host_highlights sort_slice less prefilter top_by_host =
    let hosts = sort_slice (host_before less) top_by_host in
    let total = sum_by host_entry_count top_by_host in
    if nat_beq total 0 && leb 1 (length hosts)
    then none
    else some (host_lines prefilter (take (print_up_to total hosts 0 0 0) hosts))

-- What is said about a port.
pub data PortLine : Type 0 where
  port_traffic : (mixed much_unparsed : Bool) (http2_prefaces : ℕ) → PortLine
  port_filtered : (requests responses : ℕ) → PortLine
  port_encrypted : (hellos : ℕ) → PortLine
  port_http2 : (prefaces : ℕ) → PortLine
  port_unparsable : PortLine

pub port_line : PacketCounter → ℕ × PacketCounts → PortLine
port_line prefilter (p, c) =
    let pre = total_on_port prefilter p in
    if ltb 0 (c.http_requests + c.http_responses)
    then port_traffic (ltb 0 c.tls_hello)
        (not (ltb 0 c.tls_hello) && ltb (c.tcp_packets * 3 / 10) c.unparsed) c.http2_prefaces
    else if ltb 0 (pre.http_requests + pre.http_responses)
    then port_filtered pre.http_requests pre.http_responses
    else if ltb 0 c.tls_hello
    then port_encrypted c.tls_hello
    else if ltb 0 c.http2_prefaces
    then port_http2 c.http2_prefaces
    else port_unparsable

abbrev pub port_before : ℕ × PacketCounts → ℕ × PacketCounts → Bool
port_before (p, left) (q, right) = ltb right.tcp_packets left.tcp_packets

-- The loop over the sorted ports: those left, the index of the first of them and what is listed so
-- far. The total is not 0.
pub port_lines :
    PacketCounter → ℕ → List (ℕ × PacketCounts) → ℕ → ℕ → List (ℕ × PacketCounts × PortLine)
unfolding port_line
port_lines prefilter total [] i listed = []
port_lines prefilter total ((p, c) ∷ ports) i listed =
    let pct = c.tcp_packets * 100 / total in
    let listed' = listed + c.tcp_packets in
    let rest = port_lines prefilter total ports (i + 1) listed' in
    if ltb total listed' || ltb pct 3 && leb 2 i
    then []
    else (p, c, port_line prefilter (p, c)) ∷ rest

-- printPortHighlights
pub print_port_highlights :
    ((ℕ × PacketCounts → ℕ × PacketCounts → Bool)
      → List (ℕ × PacketCounts)
      → List (ℕ × PacketCounts))
    → PacketCounter
    → ℕ
    → List (ℕ × PacketCounts)
    → List (ℕ × PacketCounts × PortLine)
unfolding port_lines
print_port_highlights sort_slice prefilter total top_by_port =
    port_lines prefilter total (sort_slice port_before top_by_port) 0 0

pub data Warning : Type 0 where
  assembly_problems no_tcp_packets no_matching_packets : Warning
  tls_only : (hellos packets : ℕ) → Warning
  unparsed_only : (packets unparsed : ℕ) → Warning
  all_filtered : (requests : ℕ) → Warning
  try_without_docker no_http_calls responses_only requests_only : Warning

-- Why there is nothing to show.
pub explanation : Summary → List Warning
explanation s =
    let total = s.filter_summary.total in
    if nat_beq total.tcp_packets 0
    then (if s.capturing_negation && nat_beq s.negation_summary.total.tcp_packets 0
        then no_tcp_packets ∷ []
        else no_matching_packets ∷ [])
    else if ltb 0 total.tls_hello
    then tls_only total.tls_hello total.tcp_packets ∷ []
    else if ltb 0 total.unparsed
    then unparsed_only total.tcp_packets total.unparsed ∷ []
    else if ltb 0 s.num_user_filters && not (nat_beq s.prefilter_summary.total.http_requests 0)
    then all_filtered s.prefilter_summary.total.http_requests ∷ []
    else []

-- PrintWarnings; `problems` tells whether one of the counters of pcap/stream.go is not 0, `in_docker`
-- what env.InDocker and env.HasDockerInternalHostAddress say.
pub print_warnings : (problems in_docker : Bool) → Summary → List Warning
unfolding explanation
print_warnings problems in_docker s =
    let total = s.filter_summary.total in
    (if problems then assembly_problems ∷ [] else [])
    ++ (if nat_beq total.http_requests 0 && nat_beq total.http_responses 0
        then explanation s
          ++ ((if in_docker then try_without_docker ∷ [] else []) ++ no_http_calls ∷ [])
        else (if nat_beq total.http_requests 0 then responses_only ∷ [] else [])
          ++ (if nat_beq total.http_responses 0 then requests_only ∷ [] else []))

pub is_empty : Summary → Bool
is_empty s =
    let total = s.filter_summary.total in
    nat_beq total.http_requests 0 && nat_beq total.http_responses 0
