-- ===== src/EnvDefaults/Tests.antt =====
-- cmd/internal/kube/daemonset/daemonset.go: labels as a user writes them.
use postman_insights_agent.Prelude.{◌≡◌, refl, true, false, List, [], ◌∷◌, map, nat_eq}
use postman_insights_agent.Prelude.Split.{join}
use postman_insights_agent.Prelude.Text.{codes, bytes_eq}
use postman_insights_agent.Traffic.{Bytes}
use postman_insights_agent.EnvDefaults.{
  DaemonsetArgs, EnvVars, apply_env_var_defaults, parse_key_value_pairs, comma,
}
use postman_insights_agent.EnvDefaults.Parsing.{
  Entry, entry_text, assign, parse_key_value_pairs-entries,
}

abbrev entries : List Entry
entries =
    record { before = []; word = codes "app=web"; after = codes " " }
    ∷ record { before = codes "  "; word = codes "tier="; after = [] }
    ∷ []

abbrev pairs : List (Bytes × Bytes)
pairs = (codes "app", codes "web") ∷ (codes "tier", []) ∷ []

parse_key_value_pairs-entries_example :
    parse_key_value_pairs (join comma (map entry_text entries)) ≡ assign pairs []
parse_key_value_pairs-entries_example =
    parse_key_value_pairs-entries entries pairs
      (
        (record {
          blank_before = refl;
          a_word = refl;
          some_word = λ e. cc;
          one_entry = refl;
          blank_after = refl;
        }),
        (
          (record {
            blank_before = refl;
            a_word = refl;
            some_word = λ e. cc;
            one_entry = refl;
            blank_after = refl;
          }),
          tt,
        ),
      )
      ((refl, refl, refl), ((refl, refl, refl), tt)) refl

-- An entry without an equals sign is passed over, and a flag is kept.
abbrev args : DaemonsetArgs
args = record {
  discovery_mode = true;
  include_namespaces = codes "shop" ∷ [];
  exclude_namespaces = [];
  include_labels = [];
  exclude_labels = [];
}

abbrev env : EnvVars
env = record {
  insights_discovery_mode = [];
  insights_include_namespaces = codes "other";
  insights_exclude_namespaces = codes "a, ,b";
  insights_include_labels = codes "app = web,broken";
  insights_exclude_labels = [];
}

defaults : apply_env_var_defaults (λ _ _. false) env args ≡ record {
  discovery_mode = true;
  include_namespaces = codes "shop" ∷ [];
  exclude_namespaces = codes "a" ∷ codes "b" ∷ [];
  include_labels = (codes "app", codes "web") ∷ [];
  exclude_labels = [];
}
unfolding apply_env_var_defaults
defaults = refl
