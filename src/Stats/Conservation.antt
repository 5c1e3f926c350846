-- ===== src/Stats/Conservation.antt =====
-- trace/stats.go: what the counters hold after any list of packet counts, overflow included.
use postman_insights_agent.Prelude.{
  ℕ, ◌+◌, ◌*◌, String, ◌≡◌, Option, none, some, List, [], ◌∷◌, Comparable, ◌==◌, nat_eq, string_eq,
  arith, sum_by, if◌then◌else◌, option_cases, if_cases,
}
use postman_insights_agent.Prelude.Dict.{lookup, insert}
use postman_insights_agent.Counts.{PacketCounts}
use postman_insights_agent.Stats.{
  BoundedPacketCounter, PacketCounter, blank, has_reached_limit, add_or_insert, count_host,
  count_port, count_interface, update, update_all, new_packet_counter, new_bounded_packet_counter,
}

-- A count that Add sums up and that a new entry starts at 0, such as HTTPRequests.
pub record IsCount (add : PacketCounts → PacketCounts → PacketCounts) (count : PacketCounts → ℕ)
    : Type 0 where
  pub adds : (a b : PacketCounts) → count (add a b) ≡ count a + count b
  pub blank_zero : (i h : String) (p : ℕ) → count (blank i h p) ≡ 0

module _ (add : PacketCounts → PacketCounts → PacketCounts) (count : PacketCounts → ℕ)
    (laws : IsCount add count) where
  -- All that a bounded counter has counted, under a key or as overflow.
  abbrev pub counted : {K : Type 0} → BoundedPacketCounter K → ℕ
  counted bc = sum_by (λ entry. count entry.1) bc.m + count bc.overflow

  abbrev old_count : Option PacketCounts → ℕ
  old_count none = 0
  old_count (some c) = count c

  sum_by-insert :
      {K : Type 0} ⦃e : Comparable K⦄ (k : K) (v : PacketCounts) (m : List (K × PacketCounts))
      → sum_by (λ entry. count entry.1) (insert k v m) + old_count (lookup k m)
        ≡ sum_by (λ entry. count entry.1) m + count v
  unfolding insert lookup
  sum_by-insert k v [] = omega arith
  sum_by-insert k v ((j, w) ∷ m) = ground (arith, sum_by-insert k v m)

  add_or_insert-counted :
      {K : Type 0} ⦃e : Comparable K⦄ (bc : BoundedPacketCounter K) (key : K) (c : PacketCounts)
      (make_new : PacketCounts → PacketCounts)
      → count (make_new c) ≡ count c
      → counted (add_or_insert add bc key c make_new) ≡ counted bc + count c
  unfolding add_or_insert
  add_or_insert-counted bc key c make_new same =
      let full = record bc { overflow = add bc.overflow c } in
      let added = record bc { m = insert key (make_new c) bc.m } in
      option_cases (λ r. counted r ≡ counted bc + count c) (lookup key bc.m)
        {n = if has_reached_limit bc then full else added}
        {s = λ prev. record bc { m = insert key (add prev c) bc.m }}
        (λ missing.
          if_cases (λ r. counted r ≡ counted bc + count c) (has_reached_limit bc) {x = full}
            {y = added} (λ _. omega (arith, laws.adds bc.overflow c))
            (λ _. ground (arith, sum_by-insert key (make_new c) bc.m, missing, same)))
        (λ prev found. ground (arith, sum_by-insert key (add prev c) bc.m, laws.adds prev c, found))

  new_entry : (i h : String) (p : ℕ) (c : PacketCounts) → count (add (blank i h p) c) ≡ count c
  new_entry i h p c = omega (arith, laws.adds (blank i h p) c, laws.blank_zero i h p)

  host_share : String → ℕ → ℕ
  host_share host n = if host == "" then 0 else n

  count_host-counted :
      (bc : BoundedPacketCounter String) (host : String) (c : PacketCounts)
      → counted (count_host add bc host c) ≡ counted bc + host_share host (count c)
  unfolding count_host host_share
  count_host-counted bc host c =
      if_cases (λ r. counted r ≡ counted bc + host_share host (count c)) (host == "") {x = bc}
        {y = add_or_insert add bc host c (λ c'. add (blank "*" host 0) c')}
        (λ e. rw e (omega arith))
        (λ e. rw e (
          add_or_insert-counted bc host c (λ c'. add (blank "*" host 0) c')
            (new_entry "*" host 0 c)))

  -- How much of the packets counted has a host, twice if both sides do.
  pub hosts_share : List PacketCounts → ℕ
  hosts_share [] = 0
  hosts_share (c ∷ cs) =
      host_share c.src_host (count c) + host_share c.dst_host (count c) + hosts_share cs

  update-counted :
      (s : PacketCounter) (c : PacketCounts)
      → (count (update add s c).total ≡ count s.total + count c)
        × (counted (update add s c).by_port ≡ counted s.by_port + 2 * count c)
        × (counted (update add s c).by_interface ≡ counted s.by_interface + count c)
        × (counted (update add s c).by_host
            ≡ counted s.by_host + host_share c.src_host (count c) + host_share c.dst_host (count c))
  unfolding update count_port count_interface
  update-counted s c =
      let first =
        add_or_insert add s.by_port c.src_port c (λ c'. add (blank "*" "" c.src_port) c') in
      (
        laws.adds s.total c,
        omega (
          arith,
          add_or_insert-counted s.by_port c.src_port c (λ c'. add (blank "*" "" c.src_port) c')
              (new_entry "*" "" c.src_port c),
          add_or_insert-counted first c.dst_port c (λ c'. add (blank "*" "" c.dst_port) c')
              (new_entry "*" "" c.dst_port c),
        ),
        add_or_insert-counted s.by_interface c.net_interface c
            (λ c'. add (blank c.net_interface "" 0) c') (new_entry c.net_interface "" 0 c),
        omega (
          arith,
          count_host-counted s.by_host c.src_host c,
          count_host-counted (count_host add s.by_host c.src_host c) c.dst_host c,
        ),
      )

  update_all-counted :
      (s : PacketCounter) (cs : List PacketCounts)
      → (count (update_all add s cs).total ≡ count s.total + sum_by count cs)
        × (counted (update_all add s cs).by_port ≡ counted s.by_port + 2 * sum_by count cs)
        × (counted (update_all add s cs).by_interface ≡ counted s.by_interface + sum_by count cs)
        × (counted (update_all add s cs).by_host ≡ counted s.by_host + hosts_share cs)
  unfolding update_all hosts_share
  update_all-counted s [] = (omega arith, omega arith, omega arith, omega arith)
  update_all-counted s (c ∷ cs) =
      let (t, p, i, h) = update-counted s c in
      let (ts, ps, is, hs) = update_all-counted (update add s c) cs in
      (omega (arith, t, ts), omega (arith, p, ps), omega (arith, i, is), omega (arith, h, hs))

  -- For a count that Add sums up and of which new entries and the new counter's fields hold 0: once
  -- any list of packet counts has been given to Update on a new PacketCounter, the counts kept by
  -- port, overflow included, come to twice the total, those by interface to the total, and those by
  -- host to the share of the packets' non-empty hosts; and the total is the sum over the list.
  -- Nothing is lost when the limit on the keys is reached.
  pub update_all-new_packet_counter :
      (cs : List PacketCounts)
      → let s = update_all add new_packet_counter cs in
        (count s.total ≡ sum_by count cs)
        × (counted s.by_port ≡ 2 * count s.total)
        × (counted s.by_interface ≡ count s.total)
        × (counted s.by_host ≡ hosts_share cs)
  unfolding new_packet_counter new_bounded_packet_counter
  update_all-new_packet_counter cs =
      let (t, p, i, h) = update_all-counted new_packet_counter cs in
      let empty = laws.blank_zero "*" "" 0 in
      let zero = laws.blank_zero "" "" 0 in
      (
        omega (arith, t, zero),
        omega (arith, t, p, empty, zero),
        omega (arith, t, i, empty, zero),
        omega (arith, h, empty),
      )
