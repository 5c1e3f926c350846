-- ===== src/Redaction/Tests.antt =====
-- data_masks/: a redactor for the texts that contain the byte 88.
use postman_insights_agent.Prelude.{◌≡◌, refl, [], ◌∷◌, nat_eq, ◌==◌, any}
use postman_insights_agent.Prelude.Text.{codes, bytes_eq}
use postman_insights_agent.Redaction.{
  TextLibrary, UserConfig, AgentConfig, Redactor, redact_path, redact_segment, slash, update,
  user_redact_fields_named, is_sensitive_string,
}
use postman_insights_agent.Prelude.Split.{split, join}
use postman_insights_agent.Redaction.Paths.{redact_path-segments, Redacted}
use postman_insights_agent.Redaction.Updates.{incoming, update-redact_fields_named}

-- A regular expression of one byte, found anywhere.
abbrev library : TextLibrary
library = record { match_string = λ text v. any (λ c. (c ∷ []) == text) v; to_lower = λ v. v }

abbrev user_config : UserConfig
user_config = record { field_names = codes "key" ∷ []; string_regexps = codes "X" ∷ [] }

abbrev redactor : Redactor
redactor = record {
  sensitive_data_keys = [];
  sensitive_data_value_patterns = codes "X" ∷ [];
  user_config = user_config;
}

redacted : redact_path library redactor (codes "/a/Xy/b") ≡ codes "/a/*REDACTED*/b"
unfolding redact_path split join redact_segment is_sensitive_string
redacted = refl

redact_path-segments_example :
    Redacted library redactor
      (split slash (codes "/a/Xy"))
      (split slash (redact_path library redactor (codes "/a/Xy")))
redact_path-segments_example = redact_path-segments library redactor (codes "/a/Xy")

abbrev config : AgentConfig
config = record { field_names = codes "key" ∷ []; field_name_regexps = [] }

update-redact_fields_named_example :
    user_redact_fields_named library (update library user_config config) (codes "key")
    ≡ user_redact_fields_named library (incoming library config) (codes "key")
update-redact_fields_named_example =
    update-redact_fields_named library user_config config (codes "key")
