-- ===== src/Redaction/Paths.antt =====
-- data_masks/redactor.go: the segments of a path template.
use postman_insights_agent.Prelude.{
  ◌≡◌, refl, sym, subst, ◌↔◌, ◌⊎◌, inl, inr, true, List, [], ◌∷◌, map, nat_eq, All, if_cases,
  Bool-cases, arith,
}
use postman_insights_agent.Prelude.Text.{codes}
use mathlib.Core.List.{Memᴰ}
use mathlib.Core.List.Memᴰ
use postman_insights_agent.Traffic.{Bytes}
use postman_insights_agent.Redaction.{
  TextLibrary, Regexp, matches, Redactor, is_sensitive_string, redact_segment, redact_path, slash,
}
use postman_insights_agent.Prelude.Split.{
  split, join, IsSegment, is_cons, split-cons, split-join, split-Segments,
}

redact_segment-IsSegment :
    (lib : TextLibrary) (o : Redactor) (segment : Bytes)
    → IsSegment slash segment
    → IsSegment slash (redact_segment lib o segment)
unfolding redact_segment
redact_segment-IsSegment lib o segment h =
    if_cases (IsSegment slash) (is_sensitive_string lib o segment) (λ _. refl) (λ _. h)

map-Segments :
    (lib : TextLibrary) (o : Redactor) (segments : List Bytes)
    → All (IsSegment slash) segments
    → All (IsSegment slash) (map (redact_segment lib o) segments)
map-Segments lib o [] h = tt
map-Segments lib o (x ∷ xs) h = (redact_segment-IsSegment lib o x h.0, map-Segments lib o xs h.1)

resplit :
    (lib : TextLibrary) (o : Redactor) (segments : List Bytes)
    → is_cons segments ≡ true
    → All (IsSegment slash) segments
    → split slash (join slash (map (redact_segment lib o) segments))
      ≡ map (redact_segment lib o) segments
resplit lib o [] e h = absurd (cc)
resplit lib o (x ∷ xs) e h =
    split-join slash (redact_segment lib o x) (map (redact_segment lib o) xs)
      (map-Segments lib o (x ∷ xs) h)

any_iff :
    (lib : TextLibrary) (v : Bytes) (res : List Regexp)
    → (matches lib res v ≡ true) ↔ ((re : Regexp) × Memᴰ re res × (lib.match_string re v ≡ true))
any_iff lib v [] = (λ e. absurd (cc), λ (re, m, _). elim m [ ])
any_iff lib v (x ∷ xs) = (
  λ e. elim (Bool-cases (lib.match_string x v)) [
    | inl hit ↦ (x, Memᴰ.head refl, hit)
    | inr miss ↦
        let (re, m, h) = (any_iff lib v xs).0 (ground (arith, e, miss)) in (re, Memᴰ.tail m, h)
  ],
  λ (re, m, h). elim (Memᴰ.cases_cons m) [
    | inl same ↦ let h' : lib.match_string x v ≡ true = cc in ground (arith, h')
    | inr m' ↦ ground (arith, (any_iff lib v xs).1 (re, m', h))
  ],
)

-- A regular expression for sensitive values, or of the user's configuration, matches.
abbrev pub IsSensitive : TextLibrary → Redactor → Bytes → Type 0
IsSensitive lib o v =
    (re : Regexp) × (Memᴰ re o.sensitive_data_value_patterns ⊎ Memᴰ re o.user_config.string_regexps)
    × (lib.match_string re v ≡ true)

is_sensitive_string-IsSensitive :
    (lib : TextLibrary) (o : Redactor) (v : Bytes)
    → (is_sensitive_string lib o v ≡ true) ↔ IsSensitive lib o v
unfolding is_sensitive_string
is_sensitive_string-IsSensitive lib o v = (
  λ e. elim (Bool-cases (matches lib o.sensitive_data_value_patterns v)) [
    | inl hit ↦
        let (re, m, h) = (any_iff lib v o.sensitive_data_value_patterns).0 hit in (re, inl m, h)
    | inr miss ↦
        let (re, m, h) = (any_iff lib v o.user_config.string_regexps).0 (ground (arith, e, miss)) in
        (re, inr m, h)
  ],
  λ (re, m, h). elim m [
    | inl m' ↦ ground (arith, (any_iff lib v o.sensitive_data_value_patterns).1 (re, m', h))
    | inr m' ↦ ground (arith, (any_iff lib v o.user_config.string_regexps).1 (re, m', h))
  ],
)

-- Segment by segment: what is sensitive is replaced, and what is not is the same.
abbrev pub Redacted : TextLibrary → Redactor → List Bytes → List Bytes → Type 0
Redacted lib o [] [] = Unit
Redacted lib o (x ∷ xs) (y ∷ ys) =
    ((IsSensitive lib o x × (y ≡ codes "*REDACTED*")) ⊎ ((IsSensitive lib o x → ⊥) × (y ≡ x)))
    × Redacted lib o xs ys
Redacted lib o _ _ = ⊥

map-Redacted :
    (lib : TextLibrary) (o : Redactor) (segments : List Bytes)
    → Redacted lib o segments (map (redact_segment lib o) segments)
unfolding redact_segment
map-Redacted lib o [] = tt
map-Redacted lib o (x ∷ xs) = (
  elim (Bool-cases (is_sensitive_string lib o x)) [
    | inl hit ↦ inl ((is_sensitive_string-IsSensitive lib o x).0 hit, rw hit refl)
    | inr miss ↦
        inr (λ h. ground (arith, miss, (is_sensitive_string-IsSensitive lib o x).1 h), rw miss refl)
  ],
  map-Redacted lib o xs,
)

-- A path that is redacted has the same number of segments in the same places: those that a regular
-- expression for sensitive values or one of the user's configuration matches are replaced by
-- *REDACTED*, and the others are as they were.
pub redact_path-segments :
    (lib : TextLibrary) (o : Redactor) (path_template : Bytes)
    → Redacted lib o (split slash path_template) (split slash (redact_path lib o path_template))
unfolding redact_path
redact_path-segments lib o t =
    subst (Redacted lib o (split slash t))
      (sym (resplit lib o (split slash t) (split-cons slash t) (split-Segments slash t)))
      (map-Redacted lib o (split slash t))
