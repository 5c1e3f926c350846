-- ===== src/Backend/Capture.antt =====
-- trace/util.go: whether the payload of a witness is kept, and the hostnames of the cloud API
-- (trace/backend_collector.go). A Go map or set is a list in the order in which it is visited; a
-- compiled regular expression is its MatchString.
use postman_insights_agent.Prelude.{
  ℕ, String, Bool, false, ◌&&◌, Option, none, some, List, [], ◌∷◌, map, string_eq, ◌==◌, ltb, leb,
  if◌then◌else◌, any, all,
}
use postman_insights_agent.Prelude.Dict.{lookup}
use postman_insights_agent.Witnesses.{HttpMeta, Method}

pub record PortkeyMetadata : Type 0 where
  pub organization : String
  pub environment : String

-- What is called of other packages: strings.ToLower and Split, the names of the HTTP methods, the
-- key of HTTPHeaderFromData, the protobuf getters and json.Unmarshal.
pub record CaptureLibrary (Data : Type 0) : Type 0 where
  pub to_lower : String → String
  pub split_spaces : String → List String
  pub get_method : String
  pub post_method : String
  pub put_method : String
  pub matches_environment : String → Bool
  pub header_key : Data → Option String
  pub string_value : Data → Option String
  pub response_code : Data → ℕ
  pub unmarshal_metadata : String → Option PortkeyMetadata

abbrev internal_postman_team_id_map : List (String × String)
internal_postman_team_id_map = ("beta", "1") ∷ ("stage", "2482") ∷ ("production", "6029") ∷ []

module _ {Data : Type 0} (lib : CaptureLibrary Data) where
  -- `env` is XXX_INSIGHTS_AGENT_CLOUD_API_HOSTNAMES.
  pub cloud_api_hostnames : String → List String
  cloud_api_hostnames env =
      "api.getpostman-stage.com"
      ∷ "api.getpostman.com"
      ∷ "api.postman.com"
      ∷ map lib.to_lower (lib.split_spaces env)

  -- The cases of the switch, in order.
  excluded_endpoint : HttpMeta → Bool
  excluded_endpoint meta =
      if meta.method == lib.get_method
      then lib.matches_environment meta.path_template
      else if meta.method == lib.post_method
      then meta.path_template == "/environments"
      else if meta.method == lib.put_method
      then lib.matches_environment meta.path_template
      else false

  pub exclude_witness_from_repro_mode : String → Method Data → Bool
  unfolding excluded_endpoint cloud_api_hostnames
  exclude_witness_from_repro_mode env m =
      any (λ name. name == lib.to_lower m.meta.host) (cloud_api_hostnames env)
      && excluded_endpoint m.meta

  pub has_matching_path : List (String → Bool) → Method Data → Bool
  has_matching_path paths m = any (λ path_re. path_re m.meta.path_template) paths

  -- Whether a metadata header that can be read decides, and what it says.
  internal_team_of : Data → Option Bool
  internal_team_of arg = elim (lib.header_key arg) [
    | none ↦ none
    | some key ↦
        if lib.to_lower key == "x-portkey-metadata"
        then elim (lib.string_value arg) [
          | none ↦ none
          | some value ↦ elim (lib.unmarshal_metadata value) [
            | none ↦ none
            | some metadata ↦ elim (lookup metadata.environment internal_postman_team_id_map) [
              | none ↦ none
              | some team_id ↦ some (metadata.organization == team_id)
            ]
          ]
        ]
        else none
  ]

  first_internal_team : List (String × Data) → Bool
  unfolding internal_team_of
  first_internal_team [] = false
  first_internal_team (arg ∷ rest_args) =
      let rest = first_internal_team rest_args in
      elim (internal_team_of arg.1) [ none ↦ rest | some verdict ↦ verdict ]

  abbrev of_map : Option (List (String × Data)) → List (String × Data)
  of_map none = []
  of_map (some m) = m

  pub is_postman_internal_team : Method Data → Bool
  unfolding first_internal_team
  is_postman_internal_team m = first_internal_team (of_map m.args)

  abbrev pub is_error_code : ℕ → Bool
  is_error_code response_code = leb 400 response_code && ltb response_code 600

  pub has_only_error_responses : Method Data → Bool
  has_only_error_responses m = elim (of_map m.responses) [
    | [] ↦ false
    | r ∷ rs ↦ all (λ response. is_error_code (lib.response_code response.1)) (r ∷ rs)
  ]

  pub should_capture_payload : String → List (String → Bool) → Method Data → Bool
  should_capture_payload env paths m =
      if exclude_witness_from_repro_mode env m
      then false
      else if has_matching_path paths m
      then is_postman_internal_team m
      else has_only_error_responses m
