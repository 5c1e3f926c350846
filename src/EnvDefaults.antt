-- ===== src/EnvDefaults.antt =====
-- cmd/internal/kube/daemonset/daemonset.go: the defaults that discovery mode takes from the
-- environment. Texts are ASCII bytes; `equal_fold` is strings.EqualFold.
pub mod Parsing
mod Tests
use postman_insights_agent.Prelude.{
  ℕ, Bool, true, false, not, ◌&&◌, ◌||◌, Option, none, some, List, [], ◌∷◌, leb, nat_beq, ◌==◌,
  if◌then◌else◌,
}
use postman_insights_agent.Prelude.Dict.{insert}
use postman_insights_agent.Prelude.Split.{split}
use postman_insights_agent.Prelude.Text.{codes, bytes_eq}
use postman_insights_agent.Traffic.{Bytes}

-- unicode.IsSpace on an ASCII byte.
abbrev pub is_space : ℕ → Bool
is_space c = nat_beq c 32 || leb 9 c && leb c 13

-- strings.TrimSpace
unfoldable pub trim_left : Bytes → Bytes
trim_left [] = []
trim_left (c ∷ cs) = let rest = trim_left cs in if is_space c then rest else c ∷ cs

unfoldable pub trim_right : Bytes → Bytes
trim_right [] = []
trim_right (c ∷ cs) = elim (trim_right cs) [
  | [] ↦ if is_space c then [] else c ∷ []
  | d ∷ ds ↦ c ∷ d ∷ ds
]

unfoldable pub trim_space : Bytes → Bytes
trim_space text = trim_right (trim_left text)

abbrev pub comma : ℕ
comma = b','

abbrev pub equals : ℕ
equals = b'='

-- The loop of splitAndTrim.
pub trim_parts : List Bytes → List Bytes
unfolding trim_space trim_left trim_right
trim_parts [] = []
trim_parts (p ∷ parts) =
    let rest = trim_parts parts in if trim_space p == [] then rest else trim_space p ∷ rest

pub split_and_trim : Bytes → List Bytes
unfolding trim_parts split
split_and_trim s = trim_parts (split comma s)

-- strings.Cut at a byte.
unfoldable pub cut : ℕ → Bytes → Option (Bytes × Bytes)
cut separator [] = none
cut separator (c ∷ cs) =
    let rest = cut separator cs in
    if nat_beq c separator
    then some ([], cs)
    else elim rest [ none ↦ none | some (before, after) ↦ some (c ∷ before, after) ]

-- The loop of parseKeyValuePairs.
pub parse_pairs : List Bytes → List (Bytes × Bytes) → List (Bytes × Bytes)
unfolding cut insert trim_space
parse_pairs [] result = result
parse_pairs (pair ∷ pairs) result = parse_pairs pairs (elim (cut equals pair) [
  | none ↦ result
  | some (k, v) ↦ insert (trim_space k) (trim_space v) result
])

pub parse_key_value_pairs : Bytes → List (Bytes × Bytes)
unfolding parse_pairs split_and_trim
parse_key_value_pairs s = parse_pairs (split_and_trim s) []

-- The parts of DaemonsetArgs that have defaults.
pub record DaemonsetArgs : Type 0 where
  pub discovery_mode : Bool
  pub include_namespaces : List Bytes
  pub exclude_namespaces : List Bytes
  pub include_labels : List (Bytes × Bytes)
  pub exclude_labels : List (Bytes × Bytes)

-- What os.Getenv returns for the variables, empty where one is not set.
pub record EnvVars : Type 0 where
  pub insights_discovery_mode : Bytes
  pub insights_include_namespaces : Bytes
  pub insights_exclude_namespaces : Bytes
  pub insights_include_labels : Bytes
  pub insights_exclude_labels : Bytes

abbrev pub is_empty_list {ℓ} : {A : Type ℓ} → List A → Bool
is_empty_list [] = true
is_empty_list (_ ∷ _) = false

-- A flag that is set is kept; else a variable that is set is parsed.
abbrev pub or_default : {A : Type 0} → (Bytes → List A) → List A → Bytes → List A
or_default parse flag v = if is_empty_list flag && not (v == []) then parse v else flag

pub apply_env_var_defaults : (Bytes → Bytes → Bool) → EnvVars → DaemonsetArgs → DaemonsetArgs
unfolding split_and_trim parse_key_value_pairs
apply_env_var_defaults equal_fold env a =
    let discovery_mode : Bool =
      a.discovery_mode || equal_fold env.insights_discovery_mode (codes "true") in
    if discovery_mode
    then record {
      discovery_mode = true;
      include_namespaces =
          or_default split_and_trim a.include_namespaces env.insights_include_namespaces;
      exclude_namespaces =
          or_default split_and_trim a.exclude_namespaces env.insights_exclude_namespaces;
      include_labels =
          or_default parse_key_value_pairs a.include_labels env.insights_include_labels;
      exclude_labels =
          or_default parse_key_value_pairs a.exclude_labels env.insights_exclude_labels;
    }
    else a
