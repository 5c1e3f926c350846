-- ===== src/RateLimit/System/Spending.antt =====
-- trace/rate_limit.go: a packet takes from the budget what it adds to the requests handed on.
use postman_insights_agent.Prelude.{
  ℕ, ◌+◌, ◌≤◌, ◌≡◌, refl, Option, none, some, Option-cases, inl, inr, ap, ◌∙◌, List, [], ◌∷◌, arith,
  nat_eq, sum_by, if_cases, option_cases,
}
use postman_insights_agent.Prelude.Dict.{lookup, insert}
use postman_insights_agent.Traffic.{Content, http_request, http_response, Traffic, recorder}
use postman_insights_agent.RateLimit.{
  Config, SharedRateLimit, Limiter, offer_epoch, process, process_content, process_request,
  process_response, hand_on, key_eq, check_epoch, allow_http_request, allow_other, end_interval,
}
use postman_insights_agent.RateLimit.Budget.{
  Inv, allow_http_request-budget, budget, allow_http_request-Inv,
}
use postman_insights_agent.RateLimit.System.{offer_epochs}

abbrev pub Recording : Type 0
Recording = Limiter (List Traffic)

abbrev pub is_request : Content → ℕ
is_request (http_request _) = 1
is_request _ = 0

-- How many requests a collector has handed on.
abbrev pub handed : Recording → ℕ
handed c = sum_by (λ t. is_request t.content) c.next

abbrev pub all_handed : List (ℕ × Recording) → ℕ
all_handed = sum_by λ (_, c). handed c

abbrev pub handed_by : Option Recording → ℕ
handed_by none = 0
handed_by (some c) = handed c

pub insert-handed :
    (id : ℕ) (c : Recording) (collectors : List (ℕ × Recording))
    → all_handed (insert id c collectors) + handed_by (lookup id collectors)
      ≡ all_handed collectors + handed c
unfolding insert lookup
insert-handed id c [] = omega arith
insert-handed id c ((k, old) ∷ rest) = ground (arith, insert-handed id c rest)

-- An epoch is only noted.
offer_epoch-handed :
    (config : Config) (epoch_start : ℕ) (c : Recording)
    → handed (offer_epoch config epoch_start c) ≡ handed c
unfolding offer_epoch
offer_epoch-handed config epoch_start c = ground arith

pub offer_epochs-handed :
    (config : Config) (epoch_start : ℕ) (collectors : List (ℕ × Recording)) (children : List ℕ)
    → all_handed (offer_epochs config epoch_start collectors children) ≡ all_handed collectors
unfolding offer_epochs
offer_epochs-handed config start collectors [] = refl
offer_epochs-handed config start collectors (child ∷ children) =
    elim (Option-cases (lookup child collectors)) [
      | inl e ↦ rw e (offer_epochs-handed config start collectors children)
      | inr (c, e) ↦ rw e (
          offer_epochs-handed config start (insert child (offer_epoch config start c) collectors)
            children
          ∙ omega (
            arith,
            insert-handed child (offer_epoch config start c) collectors,
            ap handed_by e,
            offer_epoch-handed config start c,
          ))
    ]

-- What is handed on and what is left of the budget are together no more than before.
abbrev pub Spends : SharedRateLimit → Recording → SharedRateLimit × Recording → Type 0
Spends r c (r', c') =
    (handed c' + budget r' ≤ handed c + budget r)
    × (r'.witnesses_per_epoch ≡ r.witnesses_per_epoch)
    × Inv r'

module _ (average : ℕ → ℕ → ℕ) where
  allow_http_request-kept :
      (r : SharedRateLimit) (now : ℕ)
      → (allow_http_request average r now).0.witnesses_per_epoch ≡ r.witnesses_per_epoch
  unfolding allow_http_request end_interval
  allow_http_request-kept r now = ground arith

  process_content-Spends :
      (r : SharedRateLimit) (c : Recording) (t : Traffic) (content : Content) (now : ℕ)
      → t.content ≡ content
      → Inv r
      → Spends r c (process_content average recorder r c t content now)
  unfolding process_content process_request process_response hand_on allow_other
  process_content-Spends r c t (http_request req) now e h =
      let (allowed, left) = allow_http_request-budget average r now h in
      (
        if_cases
            (λ (c' : Recording).
              handed c' + budget (allow_http_request average r now).0 ≤ handed c + budget r)
            (allow_http_request average r now).1 (λ yes. rw e (ground (arith, allowed, left, yes)))
            (λ no. omega (arith, left)),
        allow_http_request-kept r now,
        allow_http_request-Inv average r now h,
      )
  process_content-Spends r c t (http_response resp) now e h = (
    option_cases (λ (c' : Recording). handed c' + budget r ≤ handed c + budget r)
        (lookup (resp.stream_id, resp.seq) c.request_arrival_times) (λ _. omega arith)
        (λ _ _. rw e (omega arith)),
    refl,
    h,
  )
  process_content-Spends r c t _ now e h = (
    if_cases (λ (c' : Recording). handed c' + budget r ≤ handed c + budget r)
        r.sample_interval_active (λ _. rw e (omega arith)) (λ _. omega arith),
    refl,
    h,
  )

  check_epoch-handed : (c : Recording) → handed (check_epoch average recorder c) ≡ handed c
  unfolding check_epoch
  check_epoch-handed c = ground arith

  pub process-Spends :
      (r : SharedRateLimit) (c : Recording) (t : Traffic) (now : ℕ)
      → Inv r
      → Spends r c (process average recorder r c t now)
  unfolding process
  process-Spends r c t now h =
      let (spent, kept, inv) = process_content-Spends r c t t.content now refl h in
      (
        omega (
          arith,
          spent,
          check_epoch-handed (process_content average recorder r c t t.content now).1,
        ),
        kept,
        inv,
      )
