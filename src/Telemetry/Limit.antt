-- ===== src/Telemetry/Limit.antt =====
-- telemetry/telemetry.go: RateLimitError, called any number of times, one call after another.
use postman_insights_agent.Prelude.{
  ℕ, ◌+◌, ◌≤◌, ◌≡◌, inl, inr, String, Option, none, some, List, [], ◌∷◌, ◌++◌, arith, if◌then◌else◌,
  ◌==◌, string_eq, Option-cases, sum_by,
}
use postman_insights_agent.Prelude.Dict.{lookup, lookup-insert}
use postman_insights_agent.Telemetry.{
  RateLimitMap, Call, TrackerImpl, Event, rate_limit_duration, new_record, load_or_store,
  after_load, rate_limit, rate_limit_error, run,
}

-- The errors of a context that wait to be counted by a later event.
abbrev pub backlog : String → RateLimitMap → ℕ
backlog context m = elim (lookup context m) [ none ↦ 0 | some r ↦ r.count ]

abbrev pub counted : String → Event → ℕ
counted context e = if e.operation == context then e.count else 0

abbrev pub called : String → Call → ℕ
called context call = if call.in_context == context then 1 else 0

-- What one call adds up to.
abbrev sent_count : Call → String → Option ℕ → ℕ
sent_count call context none = 0
sent_count call context (some n) = if call.in_context == context then n else 0

rate_limit-conserves :
    (context : String) (m : RateLimitMap) (call : Call)
    → sent_count call context (rate_limit m call).1 + backlog context (rate_limit m call).0
      ≡ backlog context m + called context call
unfolding rate_limit load_or_store after_load
rate_limit-conserves context m call = elim (Option-cases (lookup call.in_context m)) [
  | inl new ↦ ground (
    arith,
    new,
    lookup-insert call.in_context context (new_record call) m,
    string_eq.same_iff call.in_context context,
  )
  | inr (r, old) ↦ ground (
    arith,
    old,
    lookup-insert call.in_context context (new_record call) m,
    lookup-insert call.in_context context (record r { count = r.count + 1 }) m,
    string_eq.same_iff call.in_context context,
  )
]

-- Each error of a context is counted once: in an event that was sent, or in the backlog.
pub run-conserves :
    (context : String) (t : TrackerImpl) (calls : List Call)
    → sum_by (counted context) (run t calls).1 + backlog context (run t calls).0.rate_limit_map
      ≡ backlog context t.rate_limit_map + sum_by (called context) calls
unfolding run rate_limit_error
run-conserves context t [] = omega arith
run-conserves context t (call ∷ calls) = ground (
  arith,
  rate_limit-conserves context t.rate_limit_map call,
  run-conserves context (rate_limit_error t call).0 calls,
)

-- The clock: no call starts before one that was made earlier, nor is checked before it starts.
abbrev pub FollowsClock : ℕ → List Call → Type 0
FollowsClock now [] = Unit
FollowsClock now (call ∷ calls) =
    (now ≤ call.start) × (call.start ≤ call.checked) × FollowsClock call.checked calls

-- The next event of the context waits at least until the time.
abbrev Waits : String → ℕ → RateLimitMap → Type 0
Waits context time m = elim (lookup context m) [ none ↦ ⊥ | some r ↦ time ≤ r.next_send ]

-- After an event the next one waits a full period.
rate_limit-sends :
    (m : RateLimitMap) (call : Call) {n : ℕ}
    → (rate_limit m call).1 ≡ some n
    → Waits call.in_context (call.start + rate_limit_duration) (rate_limit m call).0
unfolding rate_limit load_or_store after_load
rate_limit-sends m call sent = ground (
  arith,
  lookup-insert call.in_context call.in_context (new_record call) m,
  string_eq.same_iff call.in_context call.in_context,
)

-- A later call keeps the wait, and sends an event of the context only when it is over.
rate_limit-Waits :
    (context : String) (time : ℕ) (m : RateLimitMap) (call : Call)
    → Waits context time m
    → time ≤ call.start + rate_limit_duration
    → Waits context time (rate_limit m call).0
unfolding rate_limit load_or_store after_load
rate_limit-Waits context time m call w h = elim (Option-cases (lookup call.in_context m)) [
  | inl new ↦ ground (
    arith,
    new,
    lookup-insert call.in_context context (new_record call) m,
    string_eq.same_iff call.in_context context,
  )
  | inr (r, old) ↦ ground (
    arith,
    old,
    lookup-insert call.in_context context (new_record call) m,
    lookup-insert call.in_context context (record r { count = r.count + 1 }) m,
    string_eq.same_iff call.in_context context,
  )
]

run-Waits :
    (context : String) (time now : ℕ) (t : TrackerImpl) (calls : List Call) (b : Call)
    → Waits context time t.rate_limit_map
    → FollowsClock now (calls ++ b ∷ [])
    → time ≤ now + rate_limit_duration
    → Waits context time (run t calls).0.rate_limit_map
unfolding run rate_limit_error
run-Waits context time now t [] b w f h = w
run-Waits context time now t (call ∷ calls) b w f h =
    run-Waits context time call.checked (rate_limit_error t call).0 calls b
      (rate_limit-Waits context time t.rate_limit_map call w (omega arith)) f.2 (omega arith)

rate_limit-waited :
    (time : ℕ) (m : RateLimitMap) (call : Call) {n : ℕ}
    → Waits call.in_context time m
    → (rate_limit m call).1 ≡ some n
    → time ≤ call.checked
unfolding rate_limit load_or_store after_load
rate_limit-waited time m call w sent = ground arith

sent_count? :
    (t : TrackerImpl) (call : Call) {e : Event}
    → (rate_limit_error t call).1 ≡ some e
    → (n : ℕ) × ((rate_limit t.rate_limit_map call).1 ≡ some n)
unfolding rate_limit_error
sent_count? t call sent = elim (Option-cases (rate_limit t.rate_limit_map call).1) [
  | inl nothing ↦ absurd (ground (arith, nothing))
  | inr (n, something) ↦ (n, something)
]

-- If the clock does not run backwards, two events of one context are a minute apart.
pub events-apart :
    (t : TrackerImpl) (now : ℕ) (a : Call) (calls : List Call) (b : Call) {e e' : Event}
    → FollowsClock now (a ∷ calls ++ b ∷ [])
    → b.in_context ≡ a.in_context
    → (rate_limit_error t a).1 ≡ some e
    → (rate_limit_error (run (rate_limit_error t a).0 calls).0 b).1 ≡ some e'
    → a.start + rate_limit_duration ≤ b.checked
unfolding rate_limit_error
events-apart t now a calls b f same first second =
    let (n, sent) = sent_count? t a first in
    let (n', sent') = sent_count? (run (rate_limit_error t a).0 calls).0 b second in
    let wait = rate_limit-sends t.rate_limit_map a sent in
    let waits =
      run-Waits a.in_context (a.start + rate_limit_duration) a.checked (rate_limit_error t a).0
        calls b wait f.2 (omega arith) in
    rate_limit-waited (a.start + rate_limit_duration)
      (run (rate_limit_error t a).0 calls).0.rate_limit_map b (rw same waits) sent'
