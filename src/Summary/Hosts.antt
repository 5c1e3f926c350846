-- ===== src/Summary/Hosts.antt =====
-- apidump/summary.go: how much of the traffic the hosts that are printed stand for.
use postman_insights_agent.Prelude.{
  ℕ, suc, ◌+◌, ◌-◌, ◌*◌, ◌/◌, ◌≤◌, ◌<◌, ◌≡◌, String, ◌&&◌, ◌||◌, List, [], ◌∷◌, arith, take, drop,
  ltb, ◌⊎◌, inl, inr, Bool-cases, leb, sum_by, if_cases, subst,
}
use native.Mathlib.Nat.{add-zero}
use postman_insights_agent.Counts.{PacketCounts}
use postman_insights_agent.Summary.{host_count, host_entry_count, print_up_to}

-- Why the loop ends before a list of hosts, after so many that have so much traffic: nothing is left,
-- or the next host takes the traffic past 80 percent, or it has less than 3 percent and comes after two.
abbrev pub Stops : ℕ → ℕ → List (String × PacketCounts) → ℕ → Type 0
Stops total so_far [] shown = Unit
Stops total so_far ((name, c) ∷ hosts) shown =
    (80 < (so_far + host_count c) * 100 / total) ⊎ ((2 ≤ shown) × (host_count c * 100 / total < 3))

-- From a share of at most 80 percent on, the hosts that are taken keep it.
abbrev Share : ℕ → List (String × PacketCounts) → ℕ → ℕ → ℕ → Type 0
Share total hosts i so_far k =
    (i ≤ k)
    × ((so_far + sum_by host_entry_count (take (k - i) hosts)) * 100 / total ≤ 80)
    × Stops total (so_far + sum_by host_entry_count (take (k - i) hosts)) (drop (k - i) hosts) k

Share-here :
    (total : ℕ) (hosts : List (String × PacketCounts)) (i so_far : ℕ)
    → so_far * 100 / total ≤ 80
    → Stops total so_far hosts i
    → Share total hosts i so_far i
Share-here total hosts i so_far h stops =
    let none_left : i - i ≡ 0 = omega arith in
    let nothing : so_far + sum_by host_entry_count (take (i - i) hosts) ≡ so_far =
      rw none_left (add-zero so_far) in
    (omega arith, rw nothing h, rw (nothing, none_left) stops)

Share-next :
    (total : ℕ) (name : String) (c : PacketCounts) (hosts : List (String × PacketCounts))
    (i so_far k : ℕ)
    → Share total hosts (i + 1) (so_far + host_count c) k
    → Share total ((name, c) ∷ hosts) i so_far k
Share-next total name c hosts i so_far k h =
    let one_more : k - i ≡ suc (k - (i + 1)) = omega arith in
    let rest = sum_by host_entry_count (take (k - (i + 1)) hosts) in
    let same : so_far + (host_count c + rest) ≡ so_far + host_count c + rest = omega arith in
    let (_, share, stops) = h in (omega arith, rw (one_more, same) share, rw (one_more, same) stops)

print_up_to-Share :
    (total : ℕ) (hosts : List (String × PacketCounts)) (i so_far : ℕ)
    → so_far * 100 / total ≤ 80
    → Share total hosts i so_far (print_up_to total hosts i so_far i)
unfolding print_up_to
print_up_to-Share total [] i so_far h = Share-here total [] i so_far h tt
print_up_to-Share total ((name, c) ∷ hosts) i so_far h =
    if_cases (Share total ((name, c) ∷ hosts) i so_far)
      (ltb 80 ((so_far + host_count c) * 100 / total)
        || ltb (host_count c * 100 / total) 3 && leb 2 i)
      (λ ends.
        Share-here total ((name, c) ∷ hosts) i so_far h
          (elim (Bool-cases (ltb 80 ((so_far + host_count c) * 100 / total))) [
            | inl past ↦ inl (ground (arith, past))
            | inr not_yet ↦ inr (ground (arith, not_yet, ends), ground (arith, not_yet, ends))
          ]))
      (λ more.
        Share-next total name c hosts i so_far _
          (print_up_to-Share total hosts (i + 1) (so_far + host_count c) (ground arith)))

-- In percents without their fraction: the hosts that are printed stand for no more than 80 percent of
-- the traffic; and if a host is left out, then the first of those would take them past 80 percent, or
-- it has less than 3 percent and comes after two at least.
pub printed-share :
    (total : ℕ) (hosts : List (String × PacketCounts))
    → let k = print_up_to total hosts 0 0 0 in
      (sum_by host_entry_count (take k hosts) * 100 / total ≤ 80)
      × Stops total (sum_by host_entry_count (take k hosts)) (drop k hosts) k
printed-share total hosts =
    let start : 0 * 100 / total ≤ 80 = grind arith in
    let k = print_up_to total hosts 0 0 0 in
    let (_, share, stops) = print_up_to-Share total hosts 0 0 start in
    let all_of : k - 0 ≡ k = omega arith in
    let sum : (n : ℕ) → 0 + n ≡ n = λ n. omega arith in
    subst (λ n. (n * 100 / total ≤ 80) × Stops total n (drop k hosts) k) (sum _)
      (subst
        (λ j.
          ((0 + sum_by host_entry_count (take j hosts)) * 100 / total ≤ 80)
          × Stops total (0 + sum_by host_entry_count (take j hosts)) (drop j hosts) k)
        all_of (share, stops))

-- If the first host of the order stands for more than 80 percent, then no host is printed.
pub first_host-hidden :
    (total : ℕ) (name : String) (c : PacketCounts) (hosts : List (String × PacketCounts))
    → 80 < host_count c * 100 / total
    → take (print_up_to total ((name, c) ∷ hosts) 0 0 0) ((name, c) ∷ hosts) ≡ []
unfolding print_up_to
first_host-hidden total name c hosts h = ground arith
