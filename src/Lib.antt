-- ===== src/Lib.antt =====
-- The Postman Insights agent: a model of the program in trace/, tcp_conn_tracker/, tls_conn_tracker/,
-- pcap/, learn/, data_masks/, telemetry/, apidump/, cmd/supervisor.go and cmd/internal/kube/, and
-- theorems about it. Paths are from the root of the repository.
--
-- The program. The agent captures packets on network interfaces, in one process or, as a Kubernetes
-- daemonset, in one apidump process for each pod. Parsers turn the packets into
-- akinet.ParsedNetworkTraffic, which passes through a stack of collectors that apidump/apidump.go puts
-- together: packet counting, filters, sampling, the tracking of TCP and TLS connections and the rate
-- limit, down to the backend collector, which pairs requests with responses, masks their values and
-- uploads them. The daemonset agent follows the events of pods, decides which pods to capture and how
-- they are configured, and starts, stops and forgets their processes.
--
-- Shared modules. Prelude has the tests on numbers and texts, lists measured by native numbers, Go
-- maps as association lists (Prelude/Dict.antt) and texts as bytes (Prelude/Text.antt,
-- Prelude/Split.antt). Traffic has
-- the packets and the interface trace.Collector as a record of a state with `process` and `close`,
-- which the collectors take as a parameter `next_collector` and implement; `recorder` is the instance
-- that theorems observe. Counts has client_telemetry.PacketCounts, Witnesses the witnesses of
-- trace/backend_collector.go with learn.MergeWitness and computeProcessingLatency.
--
-- Capture.
--   TcpFlow      pcap/stream.go: tcpFlow, the bytes of one direction of a TCP connection on their way
--                from the reassembly to the parsers; TcpStream: tcpStream, the two flows of a
--                connection
--
-- Collectors.
--   Tcp          tcp_conn_tracker/tcp_conn_tracker.go: processTCP, augmentWith, flushConnection, Close
--   Tls          tls_conn_tracker/tls_conn_tracker.go: processTLSClientHello and -ServerHello,
--                flushConnection
--   RateLimit    trace/rate_limit.go: SharedRateLimit and rateLimitCollector; RateLimit/System.antt
--                has the collectors that share a limit and the loop of `run`
--   Sampling     trace/collector.go: SamplingCollector, UserTrafficCollector; tests of util/util.go
--   PacketCount  trace/collector.go: PacketCountCollector; Stats its consumer, trace/stats.go
--   Filters      trace/filters.go: genericRequestFilter and the functions that it is made with
--   Backend      trace/backend_collector.go: Process (`process`, `run_job`), flushPairCache (`visit`,
--                `run_job`, and `flush_pair_cache` with nothing in between) and queueUpload
--                (Backend/Queue.antt); trace/util.go in Backend/Capture.antt
--   ReportBuffer trace/report_buffer.go: Add, Flush and the goroutine that uploads
--   Redaction    data_masks/: what is sensitive, the rewriting of paths, and the updates of the user's
--                configuration
--   Luhn         learn/luhn.go: ValidLuhn
--   HttpParse    learn/parse_http.go and learn/parse_event_stream.go: ParseHTTP, with the data of
--                headers (HttpParse/Headers.antt), the bodies (HttpParse/Bodies.antt) and the decoded
--                values (HttpParse/Elements.antt)
--   JsonStrip    learn/json_preprocessor.go: the reader that takes out control characters
--
-- Around the capture.
--   Summary      apidump/summary.go: what is told about ports and hosts, and the warnings
--   Supervisor   cmd/supervisor.go: the loop that restarts the agent in a container
--   Telemetry    telemetry/telemetry.go: doInit, and RateLimitError
--
-- The daemonset agent, cmd/internal/kube/daemonset/.
--   PodArgs      pod_args.go: the state machine of a pod
--   Daemonset    daemonset.go, kube_events_worker.go, pods_healthcheck_worker.go, apidump_process.go:
--                the handlers over the map of pods
--   PodFilter    pod_filter.go: Evaluate and the names derived for a pod
--   PodConfig    kube_events_worker.go: inspectPodForEnvVars, applyDiscoveryModeConfig,
--                validateContainerConfig, selectMainContainer
--   EnvDefaults  daemonset.go: applyEnvVarDefaults, splitAndTrim and parseKeyValuePairs
--   KubeApis     integrations/kube_apis/: FilterPodsByContainerImage
--
-- How the code is read. A method that changes its receiver is a function from the state to the new
-- state; an error is a result, as `none` where it is nil. What runs at the same time (timers,
-- goroutines, the flush of the cache, the processes of pods) is a list of events, one for what is done
-- under a lock or in one operation on a concurrent map, and a theorem about a history holds for every
-- such list. In Daemonset alone an event is a whole handler, although the program runs handlers in
-- goroutines with a lock for each access: what overlapping handlers do is left out, and so is that the
-- third stop signal of a pod waits until its apidump process has taken one.
-- Objects that are shared through pointers are in a table, by the number of their allocation. A Go map that is ranged over is visited in an order that is a parameter, or is a list in
-- that order. Times are natural numbers of nanoseconds, ports wrap where the code converts them to 16
-- bits; other integers count things in memory, and are natural numbers without a bound.
-- Most loops go over a list. Three take fuel: Read of JsonStrip, one round more than there are bytes to
-- come, since each round but the last takes one; parseBody of HttpParse, one more than the body has
-- bytes, since a part of a multipart body is shorter than the body; and reassembledWithIgnore of
-- TcpFlow, two more than there are bytes, since a new parser uses some of its bytes.
--
-- Parameters stand for what is not in the repository: reassembled segments, the parsers of traffic,
-- parsers and encoders of formats (UUIDs, JSON, protobuf, base64), hashes, regular expressions as
-- their MatchString, the clocks and random numbers, decompression, character sets, primitive values
-- of the IR, analytics, the plugins, the batcher, the clients of Kubernetes and of the container
-- runtime, and the library that walks over a witness for data_masks/redactor.go.
--
-- Not modelled: packet capture and the reassembly of TCP streams, which are a library's, and what
-- gives it packets and parses those that are not TCP (the rest of pcap/), the walk of the visitors
-- of data_masks/ over a witness, the composition of a capture (apidump/apidump.go), and what only
-- calls the network, the operating system or the command line (rest/, cmd/, cfg/, printer/, usage/,
-- integrations/). In apidump/summary.go DumpPacketCounters, in trace/stats.go Summary and AllPorts
-- are left out; in trace/backend_collector.go, SwitchLearnSession.
pub mod Prelude
pub mod Traffic
pub mod Witnesses
pub mod Backend
pub mod ReportBuffer
pub mod Tcp
pub mod Tls
pub mod Counts
pub mod RateLimit
pub mod Sampling
pub mod PacketCount
pub mod PodArgs
pub mod Daemonset
pub mod Luhn
pub mod Redaction
pub mod KubeApis
pub mod PodFilter
pub mod PodConfig
pub mod Filters
pub mod Stats
pub mod Telemetry
pub mod Supervisor
pub mod JsonStrip
pub mod EnvDefaults
pub mod Summary
pub mod HttpParse
pub mod TcpFlow
pub mod TcpStream
