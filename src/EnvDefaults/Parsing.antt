-- ===== src/EnvDefaults/Parsing.antt =====
-- cmd/internal/kube/daemonset/daemonset.go: splitAndTrim and parseKeyValuePairs on what is written for
-- them, with any whitespace around names, keys and values.
use postman_insights_agent.Prelude.{
  ℕ, ◌≡◌, ◌≢◌, refl, ap, ◌∙◌, true, false, some, List, [], ◌∷◌, ◌++◌, map, arith, if◌then◌else◌,
  All, all, ◌==◌,
}
use postman_insights_agent.Prelude.Dict.{insert}
use postman_insights_agent.Prelude.Split.{join, IsSegment, split-join}
use postman_insights_agent.Prelude.Text.{avoids, bytes_eq}
use postman_insights_agent.Traffic.{Bytes}
use postman_insights_agent.EnvDefaults.{
  is_space, trim_left, trim_right, trim_space, comma, equals, trim_parts, split_and_trim, cut,
  parse_pairs, parse_key_value_pairs,
}

abbrev pub IsBlank : Bytes → Type 0
IsBlank pad = all is_space pad ≡ true

-- A word has no whitespace in it.
abbrev pub IsWord : Bytes → Type 0
IsWord word = all (λ c. if is_space c then false else true) word ≡ true

trim_left-pad : (pad text : Bytes) → IsBlank pad → trim_left (pad ++ text) ≡ trim_left text
unfolding trim_left
trim_left-pad [] text b = refl
trim_left-pad (c ∷ cs) text b = ground (arith, trim_left-pad cs text)

trim_left-word :
    (word rest : Bytes) → IsWord word → word ≢ [] → trim_left (word ++ rest) ≡ word ++ rest
unfolding trim_left
trim_left-word [] rest w n = absurd (n refl)
trim_left-word (c ∷ cs) rest w n = ground arith

trim_right-blank : (pad : Bytes) → IsBlank pad → trim_right pad ≡ []
unfolding trim_right
trim_right-blank [] b = refl
trim_right-blank (c ∷ cs) b = ground (arith, trim_right-blank cs)

trim_right-pad : (text pad : Bytes) → IsBlank pad → trim_right (text ++ pad) ≡ trim_right text
unfolding trim_right
trim_right-pad [] pad b = trim_right-blank pad b
trim_right-pad (c ∷ cs) pad b = rw (trim_right-pad cs pad b)

trim_right-word : (word : Bytes) → IsWord word → trim_right word ≡ word
unfolding trim_right
trim_right-word [] w = refl
trim_right-word (c ∷ cs) w = ground (arith, trim_right-word cs)

-- Whitespace around a word is taken off.
trim_space-word :
    (before word after : Bytes)
    → IsBlank before
    → IsWord word
    → word ≢ []
    → IsBlank after
    → trim_space (before ++ (word ++ after)) ≡ word
unfolding trim_space
trim_space-word before word after b w n a =
    ap trim_right (trim_left-pad before (word ++ after) b ∙ trim_left-word word after w n)
    ∙ trim_right-pad word after a
    ∙ trim_right-word word w

-- An entry of a list as it is written: a word between two runs of whitespace.
pub record Entry : Type 0 where
  pub before : Bytes
  pub word : Bytes
  pub after : Bytes

abbrev pub entry_text : Entry → Bytes
entry_text e = e.before ++ (e.word ++ e.after)

abbrev pub entry_word : Entry → Bytes
entry_word e = e.word

pub record IsClean (e : Entry) : Type 0 where
  pub blank_before : IsBlank e.before
  pub a_word : IsWord e.word
  pub some_word : e.word ≢ []
  pub one_entry : avoids comma e.word ≡ true
  pub blank_after : IsBlank e.after

avoids-append :
    (c : ℕ) (xs ys : Bytes) → avoids c xs ≡ true → avoids c ys ≡ true → avoids c (xs ++ ys) ≡ true
avoids-append c [] ys h k = k
avoids-append c (x ∷ xs) ys h k = ground (arith, avoids-append c xs ys)

blank-avoids-comma : (pad : Bytes) → IsBlank pad → avoids comma pad ≡ true
blank-avoids-comma [] b = refl
blank-avoids-comma (c ∷ cs) b = ground (arith, blank-avoids-comma cs)

entry-IsSegment : (e : Entry) → IsClean e → IsSegment comma (entry_text e)
entry-IsSegment e h =
    avoids-append comma e.before (e.word ++ e.after) (blank-avoids-comma e.before h.blank_before)
      (avoids-append comma e.word e.after h.one_entry (blank-avoids-comma e.after h.blank_after))

entries-Segments :
    (entries : List Entry) → All IsClean entries → All (IsSegment comma) (map entry_text entries)
entries-Segments [] h = tt
entries-Segments (e ∷ entries) h = (entry-IsSegment e h.0, entries-Segments entries h.1)

word-not_empty : (word : Bytes) → word ≢ [] → (word == []) ≡ false
word-not_empty [] n = absurd (n refl)
word-not_empty (c ∷ cs) n = refl

trim_parts-entries :
    (entries : List Entry)
    → All IsClean entries
    → trim_parts (map entry_text entries) ≡ map entry_word entries
unfolding trim_parts
trim_parts-entries [] h = refl
trim_parts-entries (e ∷ entries) h =
    let v = h.0 in
    rw
      (
        trim_space-word e.before e.word e.after v.blank_before v.a_word v.some_word v.blank_after,
        word-not_empty e.word v.some_word,
      )
      (ap (◌∷◌ e.word) (trim_parts-entries entries h.1))

-- Non-empty words without commas, written with commas between and any whitespace around each, are
-- read back.
pub split_and_trim-entries :
    (entries : List Entry)
    → All IsClean entries
    → split_and_trim (join comma (map entry_text entries)) ≡ map entry_word entries
unfolding split_and_trim join
split_and_trim-entries [] h = refl
split_and_trim-entries (e ∷ entries) h =
    ap trim_parts
      (split-join comma (entry_text e) (map entry_text entries) (entries-Segments (e ∷ entries) h))
    ∙ trim_parts-entries (e ∷ entries) h

-- A key and a value, written with an equals sign.
abbrev pub pair_word : Bytes × Bytes → Bytes
pair_word (k, v) = k ++ equals ∷ v

cut-pair : (k v : Bytes) → avoids equals k ≡ true → cut equals (k ++ equals ∷ v) ≡ some (k, v)
unfolding cut
cut-pair [] v h = refl
cut-pair (c ∷ cs) v h = ground (arith, cut-pair cs v)

abbrev pub IsPair : Bytes × Bytes → Type 0
IsPair (k, v) = IsWord k × IsWord v × (avoids equals k ≡ true)

trim_space-IsWord : (word : Bytes) → IsWord word → trim_space word ≡ word
unfolding trim_space trim_left
trim_space-IsWord [] w = trim_right-word [] w
trim_space-IsWord (c ∷ cs) w = ap trim_right (ground arith) ∙ trim_right-word (c ∷ cs) w

-- The assignments to a map, in order.
pub assign : List (Bytes × Bytes) → List (Bytes × Bytes) → List (Bytes × Bytes)
assign [] m = m
assign ((k, v) ∷ pairs) m = assign pairs (insert k v m)

parse_pairs-words :
    (pairs m : List (Bytes × Bytes))
    → All IsPair pairs
    → parse_pairs (map pair_word pairs) m ≡ assign pairs m
unfolding parse_pairs assign
parse_pairs-words [] m h = refl
parse_pairs-words ((k, v) ∷ pairs) m h = ground (
  arith,
  cut-pair k v h.0.2,
  trim_space-IsWord k h.0.0,
  trim_space-IsWord v h.0.1,
  parse_pairs-words pairs (insert k v m) h.1,
)

-- Keys and values without whitespace and commas, the keys without equals signs, written with an equals
-- sign between them, commas between the pairs and any whitespace around each pair, are read back: the
-- map is the one that assigning the values to the keys in this order makes.
pub parse_key_value_pairs-entries :
    (entries : List Entry) (pairs : List (Bytes × Bytes))
    → All IsClean entries
    → All IsPair pairs
    → map entry_word entries ≡ map pair_word pairs
    → parse_key_value_pairs (join comma (map entry_text entries)) ≡ assign pairs []
unfolding parse_key_value_pairs
parse_key_value_pairs-entries entries pairs h k same =
    ap (λ words. parse_pairs words []) (split_and_trim-entries entries h ∙ same)
    ∙ parse_pairs-words pairs [] k
