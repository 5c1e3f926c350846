-- ===== src/Redaction/Updates.antt =====
-- data_masks/user_redaction_config.go: a new configuration from the back end.
use postman_insights_agent.Prelude.{
  ◌≡◌, refl, sym, ap, subst, ◌∙◌, inl, inr, true, ◌&&◌, ◌||◌, List, [], ◌∷◌, map, arith, ◌==◌, all,
  if_cases, Bool-cases,
}
use postman_insights_agent.Prelude.Text.{bytes_eq, bytes_beq_iff}
use postman_insights_agent.Traffic.{Bytes}
use postman_insights_agent.Redaction.{
  TextLibrary, Regexp, UserConfig, AgentConfig, contains, matches, user_redact_fields_named,
  not_empty, same_names, same_regexps, update,
}

contains_trans :
    (a b : List Bytes) (x : Bytes)
    → all (contains b) a ≡ true
    → contains a x ≡ true
    → contains b x ≡ true
contains_trans [] b x h c = absurd (cc)
contains_trans (y ∷ ys) b x h c = elim (Bool-cases (y == x)) [
  | inl e ↦ subst (λ z. contains b z ≡ true) ((bytes_beq_iff y x).0 e) (ground (arith, h))
  | inr e ↦ contains_trans ys b x (ground (arith, h)) (ground (arith, c, e))
]

contains-equal :
    (a b : List Bytes) (x : Bytes)
    → all (contains b) a ≡ true
    → all (contains a) b ≡ true
    → contains a x ≡ contains b x
contains-equal a b x ab ba = elim (Bool-cases (contains a x)) [
  | inl here ↦ here ∙ sym (contains_trans a b x ab here)
  | inr missing ↦ elim (Bool-cases (contains b x)) [
    | inl there ↦ absurd (ground (arith, missing, contains_trans b a x ba there))
    | inr missing' ↦ missing ∙ sym missing'
  ]
]

module _ (lib : TextLibrary) where
  matches-equal :
      (rs1 rs2 : List Regexp) (v : Bytes)
      → same_regexps lib rs1 rs2 ≡ true
      → matches lib rs1 v ≡ matches lib rs2 v
  unfolding same_regexps
  matches-equal [] [] v e = refl
  matches-equal [] (_ ∷ _) v e = absurd (cc)
  matches-equal (_ ∷ _) [] v e = absurd (cc)
  matches-equal (r1 ∷ rs1) (r2 ∷ rs2) v e =
      let first = ap (λ r. lib.match_string r v) ((bytes_beq_iff r1 r2).0 (ground (arith, e))) in
      ground (arith, first, matches-equal rs1 rs2 v (ground (arith, e)))

  -- The names and regular expressions that an update is to put in place.
  abbrev pub incoming : AgentConfig → UserConfig
  incoming config = record {
    field_names = map lib.to_lower config.field_names;
    string_regexps = not_empty lib config.field_name_regexps;
  }

  -- After an update, whatever the
  -- configuration before and whether or not the update found it to be the same, a field is redacted
  -- exactly if the incoming configuration without its empty regular expressions says so.
  pub update-redact_fields_named :
      (c : UserConfig) (config : AgentConfig) (field_name : Bytes)
      → user_redact_fields_named lib (update lib c config) field_name
        ≡ user_redact_fields_named lib (incoming config) field_name
  unfolding update user_redact_fields_named same_names
  update-redact_fields_named c config field_name =
      if_cases
        (λ (c' : UserConfig).
          (contains c'.field_names (lib.to_lower field_name)
            || matches lib c'.string_regexps field_name)
          ≡ (contains (incoming config).field_names (lib.to_lower field_name)
              || matches lib (incoming config).string_regexps field_name))
        (same_names lib (incoming config).field_names c.field_names
          && same_regexps lib c.string_regexps (incoming config).string_regexps)
        (λ same.
          (let names =
              contains-equal (incoming config).field_names c.field_names (lib.to_lower field_name)
                (ground (arith, same)) (ground (arith, same)) in
            let regexps =
              matches-equal c.string_regexps (incoming config).string_regexps field_name
                (ground (arith, same)) in
            ground (arith, names, regexps)))
        λ _. refl
