-- ===== src/Telemetry.antt =====
-- telemetry/telemetry.go: the set-up of the trackers, and the events that they send. The shared
-- client, which doInit assigns, is a value: the literal of the root tracker copies it. What is called
-- of the system (environment variables, accounts, the REST client) is in `Environment`.
pub mod Init
pub mod Limit
mod Tests
use postman_insights_agent.Prelude.{
  ℕ, ◌+◌, ◌*◌, String, Bool, true, false, ◌&&◌, Option, none, some, List, [], ◌∷◌, ◌++◌, ltb,
  if◌then◌else◌, ◌==◌, string_eq,
}
use postman_insights_agent.Prelude.Dict.{lookup, insert}

-- analytics.Client: analytics.NullClient{}, or the client that analytics.NewClient makes.
pub data Client : Type 0 where
  null_client amplitude_client : Client

pub record TrackingUser : Type 0 where
  pub user_id : String
  pub team_id : String

abbrev pub no_user : TrackingUser
no_user = record { user_id = ""; team_id = "" }

-- eventRecord. Times are nanoseconds.
pub record EventRecord : Type 0 where
  pub count : ℕ
  pub next_send : ℕ

abbrev pub RateLimitMap : Type 0
RateLimitMap = List (String × EventRecord)

pub record TrackerImpl : Type 0 where
  pub analytics_client : Client
  pub tracking_user : TrackingUser
  pub rate_limit_map : RateLimitMap

-- The package's variables that doInit assigns.
pub record Globals : Type 0 where
  pub shared_analytics_client : Client
  pub analytics_enabled : Bool
  pub root_tracker : TrackerImpl

-- What doInit and getUserIdentity ask for. `parse_bool` is strconv.ParseBool; `new_client_fails` that
-- analytics.NewClient returns an error; `user_by_api` the outcome of the GetUser call; `local_user`
-- and `local_host` those of user.Current and os.Hostname.
pub record Environment : Type 0 where
  pub parse_bool : String → Option Bool
  pub concat : String → String → String
  pub akita_disable_telemetry : String
  pub agent_disable_telemetry : String
  pub amplitude_write_key : String
  pub default_amplitude_key : String
  pub new_client_fails : Bool
  pub distinct_id : String
  pub credentials_present : Bool
  pub user_by_api : Option TrackingUser
  pub distinct_id_from_credentials : String
  pub local_user : Option String
  pub local_host : Option String

-- getUserIdentity: the user, and whether there was an error.
pub get_user_identity : Environment → Bool → TrackingUser × Bool
get_user_identity env enabled =
    if not_empty env.distinct_id
    then (named env.distinct_id, false)
    else elim (if env.credentials_present && enabled then env.user_by_api else none) [
      | some user ↦ (user, false)
      | none ↦
          if not_empty env.distinct_id_from_credentials
          then (named env.distinct_id_from_credentials, false)
          else elim env.local_user [
            | none ↦ (no_user, true)
            | some name ↦ elim env.local_host [
              | none ↦ (named name, true)
              | some host ↦ (named (env.concat (env.concat name "@") host), false)
            ]
          ]
    ]
  where
    not_empty : String → Bool
    not_empty text = if text == "" then false else true

    named : String → TrackingUser
    named id = record { user_id = id; team_id = "" }

-- The opt-out by an environment variable.
pub opted_out : Environment → Bool
opted_out env =
    let disable = env.concat env.akita_disable_telemetry env.agent_disable_telemetry in
    if disable == "" then false else elim (env.parse_bool disable) [ some val ↦ val | none ↦ false ]

-- The key that is compiled in serves if the environment names none.
pub amplitude_key : Environment → String
amplitude_key env =
    if env.amplitude_write_key == "" then env.default_amplitude_key else env.amplitude_write_key

-- doInit. `g` holds the variables before, with the rate limits of the package.
pub do_init : Environment → Globals → RateLimitMap → Globals
unfolding get_user_identity opted_out amplitude_key
do_init env g global_rate_limit_map =
    let g' : Globals = record g {
      root_tracker = record {
        analytics_client = g.shared_analytics_client;
        tracking_user = no_user;
        rate_limit_map = global_rate_limit_map;
      };
    } in
    if opted_out env
    then record g' { shared_analytics_client = null_client }
    else if amplitude_key env == ""
    then record g' { shared_analytics_client = null_client }
    else if env.new_client_fails
    then record g' { shared_analytics_client = null_client }
    else let (user, failed) = get_user_identity env true in
      if failed
      then record g' { shared_analytics_client = null_client; analytics_enabled = true }
      else record g' {
        shared_analytics_client = amplitude_client;
        analytics_enabled = true;
        root_tracker = record g'.root_tracker { tracking_user = user };
      }

-- The variables as they are declared, before doInit.
abbrev pub declared : Globals
declared = record {
  shared_analytics_client = null_client;
  analytics_enabled = false;
  root_tracker = record {
    analytics_client = null_client;
    tracking_user = no_user;
    rate_limit_map = [];
  };
}

pub new_scoped : Globals → TrackingUser → TrackerImpl
new_scoped g user = record {
  analytics_client = g.shared_analytics_client;
  tracking_user = user;
  rate_limit_map = [];
}

-- An event as it is handed to Track; the properties are those of the one call that counts, and the
-- user's.
pub record Event : Type 0 where
  pub client : Client
  pub distinct_id : String
  pub team : Option String
  pub event_name : String
  pub operation : String
  pub count : ℕ

-- tryTrackingEvent
pub try_tracking_event : TrackerImpl → String → String → ℕ → Event
try_tracking_event t name operation count = record {
  client = t.analytics_client;
  distinct_id = t.tracking_user.user_id;
  team = if t.tracking_user.team_id == "" then none else some t.tracking_user.team_id;
  event_name = name;
  operation = operation;
  count = count;
}

abbrev pub rate_limit_duration : ℕ
rate_limit_duration = 60 * 1_000_000_000

-- One call of RateLimitError: the context, the time of its first and of its second time.Now.
pub record Call : Type 0 where
  pub in_context : String
  pub start : ℕ
  pub checked : ℕ

abbrev pub new_record : Call → EventRecord
new_record call = record { count = 0; next_send = call.start + rate_limit_duration }

-- LoadOrStore: the record that was there, and the map with one.
pub load_or_store : RateLimitMap → Call → Option EventRecord × RateLimitMap
load_or_store m call = elim (lookup call.in_context m) [
  | some existing ↦ (some existing, m)
  | none ↦ (none, insert call.in_context (new_record call) m)
]

-- The rest of RateLimitError, given what LoadOrStore returned; the count is that of the event sent.
pub after_load : Option EventRecord → RateLimitMap → Call → RateLimitMap × Option ℕ
after_load none m call = (m, some 1)
after_load (some existing) m call =
    if ltb call.checked existing.next_send
    then (insert call.in_context (record existing { count = existing.count + 1 }) m, none)
    else (insert call.in_context (new_record call) m, some (existing.count + 1))

pub rate_limit : RateLimitMap → Call → RateLimitMap × Option ℕ
unfolding load_or_store after_load
rate_limit m call = let (existing, m') = load_or_store m call in after_load existing m' call

-- RateLimitError
pub rate_limit_error : TrackerImpl → Call → TrackerImpl × Option Event
unfolding try_tracking_event
rate_limit_error t call =
    let (m, sent) = rate_limit t.rate_limit_map call in
    (
      record t { rate_limit_map = m },
      elim sent [
        | none ↦ none
        | some count ↦ some (try_tracking_event t "Operation - Rate Limited" call.in_context count)
      ],
    )

-- The calls of a tracker, one after another, and the events that they send.
pub run : TrackerImpl → List Call → TrackerImpl × List Event
run t [] = (t, [])
run t (call ∷ calls) =
    let (t', sent) = rate_limit_error t call in
    let (t'', events) = run t' calls in
    (t'', elim sent [ none ↦ events | some event ↦ event ∷ events ])
