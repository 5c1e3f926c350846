-- ===== src/Filters.antt =====
-- trace/filters.go: requests that a filter rejects are dropped, and so are their responses.
-- A regular expression is its MatchString, and a witness identifier is made of a stream and a
-- sequence number by learn.ToWitnessID.
pub mod Dropping
mod Tests
use postman_insights_agent.Prelude.{
  ℕ, String, Bool, true, false, not, Option, none, some, List, [], ◌∷◌, any, nat_eq, ◌==◌,
  if◌then◌else◌,
}
use postman_insights_agent.Traffic.{
  Error, HttpRequest, HttpResponse, Url, Content, http_request, http_response, Traffic, Collector,
}

abbrev pub Matcher : Type 0
Matcher = String → Bool

abbrev matches : List Matcher → String → Bool
matches matchers s = any (λ m. m s) matchers

-- NewHTTPPathFilterCollector
pub path_filter : List Matcher → HttpRequest → Bool
path_filter matchers r = elim r.url [ none ↦ true | some url ↦ not (matches matchers url.path) ]

-- NewHTTPHostFilterCollector
pub host_filter : List Matcher → HttpRequest → Bool
host_filter matchers r = not (matches matchers r.host)

-- NewHTTPPathAllowlistCollector
pub path_allowlist : List Matcher → HttpRequest → Bool
path_allowlist matchers r = elim r.url [ none ↦ false | some url ↦ matches matchers url.path ]

-- NewHTTPHostAllowlistCollector
pub host_allowlist : List Matcher → HttpRequest → Bool
host_allowlist matchers r = matches matchers r.host

-- New3PTrackerFilterCollector; `is_tracker_domain` is the library's.
pub tracker_filter : (String → Bool) → HttpRequest → Bool
tracker_filter is_tracker_domain r = elim r.url [
  | none ↦ true
  | some url ↦ not (is_tracker_domain url.url_host)
]

-- genericRequestFilter: the next collector's state, and the set of the filtered identifiers.
pub record RequestFilter (S : Type 0) : Type 0 where
  pub next : S
  pub filtered_ids : List ℕ

module _ (to_witness_id : ℕ → ℕ → ℕ) (filter_func : HttpRequest → Bool) (col : Collector) where
  forward : RequestFilter col.State → Traffic → RequestFilter col.State × Option Error
  forward fc t = let (s, e) = col.process fc.next t in (record fc { next = s }, e)

  process_content :
      RequestFilter col.State → Traffic → Content → RequestFilter col.State × Option Error
  unfolding forward
  process_content fc t (http_request c) =
      if filter_func c
      then forward fc t
      else (record fc { filtered_ids = to_witness_id c.stream_id c.seq ∷ fc.filtered_ids }, none)
  process_content fc t (http_response c) =
      if any (λ id. id == to_witness_id c.stream_id c.seq) fc.filtered_ids
      then (fc, none)
      else forward fc t
  process_content fc t _ = forward fc t

  pub process : RequestFilter col.State → Traffic → RequestFilter col.State × Option Error
  unfolding process_content
  process fc t = process_content fc t t.content

  pub close : RequestFilter col.State → RequestFilter col.State × Option Error
  close fc = let (s, e) = col.close fc.next in (record fc { next = s }, e)

  abbrev pub request_filter : Collector
  request_filter = record { State = RequestFilter col.State; process = process; close = close }
