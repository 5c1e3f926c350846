-- ===== src/Redaction.antt =====
-- data_masks/: what the redactor takes for sensitive, the paths that it rewrites, and the user's part
-- of its configuration (user_redaction_config.go). Texts are byte strings, sets are lists, a compiled
-- regular expression is its text. The walk over a method is a library's.
mod Paths
mod Updates
mod Tests
use postman_insights_agent.Prelude.{
  ℕ, zero, suc, Bool, true, false, not, ◌&&◌, ◌||◌, Option, none, some, List, [], ◌∷◌, ◌++◌, map,
  nat_eq, if◌then◌else◌, ◌==◌, any, all,
}
use postman_insights_agent.Prelude.Text.{codes, bytes_eq}
use postman_insights_agent.Prelude.Split.{split, join}
use postman_insights_agent.Traffic.{Bytes}

-- regexp.Regexp, by the text that it was compiled from.
abbrev pub Regexp : Type 0
Regexp = Bytes

-- What is called of the standard library: MatchString of a regular expression, and strings.ToLower.
pub record TextLibrary : Type 0 where
  pub match_string : Regexp → Bytes → Bool
  pub to_lower : Bytes → Bytes

-- userRedactionConfig
pub record UserConfig : Type 0 where
  pub field_names : List Bytes
  pub string_regexps : List Regexp

-- FieldsToRedact of api_schema.ServiceAgentConfig
pub record AgentConfig : Type 0 where
  pub field_names : List Bytes
  pub field_name_regexps : List Regexp

pub record Redactor : Type 0 where
  pub sensitive_data_keys : List Bytes
  pub sensitive_data_value_patterns : List Regexp
  pub user_config : UserConfig

abbrev pub contains : List Bytes → Bytes → Bool
contains names name = any (λ n. n == name) names

module _ (lib : TextLibrary) where
  abbrev pub matches : List Regexp → Bytes → Bool
  matches res v = any (λ re. lib.match_string re v) res

  pub new_user_config : AgentConfig → UserConfig
  new_user_config config = record {
    field_names = map lib.to_lower config.field_names;
    string_regexps = config.field_name_regexps;
  }

  pub user_redact_fields_named : UserConfig → Bytes → Bool
  user_redact_fields_named c field_name =
      contains c.field_names (lib.to_lower field_name) || matches c.string_regexps field_name

  -- sanitizeConfigData, with the keys in the order in which they are handed over.
  pub sanitize_keys : List Bytes → List Bytes
  sanitize_keys keys = map lib.to_lower keys

  pub redact_fields_named : Redactor → Bytes → Bool
  redact_fields_named o field_name =
      contains o.sensitive_data_keys (lib.to_lower field_name)
      || user_redact_fields_named o.user_config field_name

  -- slices.Filter, with the regular expressions that are not empty.
  pub not_empty : List Regexp → List Regexp
  not_empty [] = []
  not_empty (re ∷ res) = let rest = not_empty res in if re == [] then rest else re ∷ rest

  -- sets.Set.Equals
  pub same_names : List Bytes → List Bytes → Bool
  same_names a b = all (contains b) a && all (contains a) b

  -- slices.EqualFunc on the texts
  pub same_regexps : List Regexp → List Regexp → Bool
  same_regexps [] [] = true
  same_regexps [] (_ ∷ _) = false
  same_regexps (_ ∷ _) [] = false
  same_regexps (r1 ∷ rs1) (r2 ∷ rs2) = r1 == r2 && same_regexps rs1 rs2

  pub update : UserConfig → AgentConfig → UserConfig
  unfolding not_empty same_names same_regexps
  update c config =
      let names = map lib.to_lower config.field_names in
      let regexps = not_empty config.field_name_regexps in
      if same_names names c.field_names && same_regexps c.string_regexps regexps
      then c
      else record { field_names = names; string_regexps = regexps }

pub is_sensitive_string : TextLibrary → Redactor → Bytes → Bool
is_sensitive_string lib o v =
    matches lib o.sensitive_data_value_patterns v || matches lib o.user_config.string_regexps v

abbrev pub redaction_string : Bytes
redaction_string = codes "*REDACTED*"

abbrev pub slash : ℕ
slash = b'/'

pub redact_segment : TextLibrary → Redactor → Bytes → Bytes
redact_segment lib o segment =
    if is_sensitive_string lib o segment then redaction_string else segment

-- EnterHTTPMethodMeta, which both visitors have.
pub redact_path : TextLibrary → Redactor → Bytes → Bytes
redact_path lib o path_template =
    join slash (map (redact_segment lib o) (split slash path_template))

-- The value types of the visitor's context that are told apart.
pub data ValueType : Type 0 where
  auth_value cookie_value other_value : ValueType

-- What EnterData of redactSensitiveInfoVisitor does with a node: it redacts every primitive in it,
-- or only the primitive that it is, or goes on to its children.
pub data Action : Type 0 where
  redact_all redact_primitive visit_children : Action

-- The context's value type and innermost field name, and the node's value if it is a string.
pub enter_data : TextLibrary → Redactor → ValueType → Option Bytes → Option Bytes → Action
enter_data lib o auth_value field value = redact_all
enter_data lib o cookie_value field value = redact_all
enter_data lib o other_value field value =
    let sensitive : Bool = elim value [ none ↦ false | some v ↦ is_sensitive_string lib o v ] in
    let named : Bool = elim field [ none ↦ false | some name ↦ redact_fields_named lib o name ] in
    if sensitive then redact_primitive else if named then redact_all else visit_children
