-- ===== src/Sampling.antt =====
-- trace/collector.go: the collector that samples by a hash, and the one that drops the agent's own
-- traffic and nginx's; the tests of the latter are util/util.go's. Hashes, identifiers as text,
-- http.Header.Get and the functions of strings are arguments.
pub mod Exchanges
mod Tests
use postman_insights_agent.Prelude.{
  ℕ, String, Bool, true, false, not, ◌&&◌, ◌||◌, Option, none, some, List, [], ◌∷◌, ltb, ◌==◌,
  string_eq, if◌then◌else◌, any,
}
use postman_insights_agent.Traffic.{
  Error, Header, HttpRequest, HttpResponse, Content, http_request, http_response, tcp_connection,
  tls_handshake, Traffic, Collector,
}

-- StreamID.String() + strconv.Itoa(Seq), akid.String, and xxhash's sum of 32 bits.
pub record KeyLibrary : Type 0 where
  pub message_key : ℕ → ℕ → String
  pub connection_key : ℕ → String
  pub sum32 : String → ℕ

-- `sample_threshold` is float64(math.MaxUint32) * sampleRate, rounded up: the comparisons with a
-- whole number are the same.
module _ (lib : KeyLibrary) (sample_threshold : ℕ) where
  pub include_sample : String → Bool
  include_sample key = ltb (lib.sum32 key) sample_threshold

  pub sample_key : Content → String
  sample_key (http_request c) = lib.message_key c.stream_id c.seq
  sample_key (http_response c) = lib.message_key c.stream_id c.seq
  sample_key (tcp_connection c) = lib.connection_key c.connection_id
  sample_key (tls_handshake c) = lib.connection_key c.connection_id
  sample_key _ = ""

  abbrev pub sampling_collector : Collector → Collector
  sampling_collector collector = record {
    State = collector.State;
    process =
        λ s t. if include_sample (sample_key t.content) then collector.process s t else (s, none);
    close = collector.close;
  }

  -- NewSamplingCollector; `whole` is whether the rate is 1.0.
  abbrev pub new_sampling_collector : Bool → Collector → Collector
  new_sampling_collector whole collector = if whole then collector else sampling_collector collector

-- `get` is http.Header.Get.
module _ (get : Header → String → String) where
  -- XAkitaCLIGitVersion and XAkitaRequestID are the constants of the library.
  contains_header : List String → Header → Bool
  contains_header names header = any (λ k. not (get header k == "")) names

  pub contains_cli_traffic : List String → Content → Bool
  unfolding contains_header
  contains_cli_traffic names (http_request c) = contains_header names c.header
  contains_cli_traffic names (http_response c) = contains_header names c.header
  contains_cli_traffic names _ = false

  pub contains_nginx_traffic : (String → String) → (String → String → Bool) → Content → Bool
  contains_nginx_traffic to_lower contains (http_request c) =
      contains (to_lower (get c.header "Server")) "nginx"
  contains_nginx_traffic to_lower contains (http_response c) =
      contains (to_lower (get c.header "Server")) "nginx"
  contains_nginx_traffic to_lower contains _ = false

-- The two tests are those above.
module _ (contains_cli contains_nginx : Content → Bool) (drop_dogfood drop_nginx : Bool) where
  abbrev pub user_traffic_collector : Collector → Collector
  user_traffic_collector collector = record {
    State = collector.State;
    process = λ s t.
        if drop_dogfood && contains_cli t.content
        then (s, none)
        else if drop_nginx && contains_nginx t.content
        then (s, none)
        else collector.process s t;
    close = collector.close;
  }
