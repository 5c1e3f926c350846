-- ===== src/HttpParse/Elements/Paths.antt =====
-- learn/parse_http.go: what parseElem puts at each place of the data.
use postman_insights_agent.Prelude.{
  ℕ, zero, suc, ◌≡◌, refl, ap, ◌∙◌, Option, none, some, List, [], ◌∷◌, arith, ◌==◌, if◌then◌else◌,
  option_cases,
}
use postman_insights_agent.Prelude.Text.{bytes_eq, bytes_beq_iff}
use postman_insights_agent.Traffic.{Bytes}
use postman_insights_agent.HttpParse.Elements.{
  IrLibrary, Interpret, Data, Fields, Elems, datum, struct, list_of, no_fields, field, no_elems,
  elem_of, Top, Entries, TextEntries, Items, any_map, text_map, array, json_number, scalar,
  no_entries, entry, no_text_entries, text_entry, no_items, item, put_field, parse_elem,
  parse_entries, parse_data_struct, parse_data_list, primitive_data,
}

-- A step into a value: to the value of a key, or to an element.
pub data Into : Type 0 where
  key : Bytes → Into
  index : ℕ → Into

pub find_field : {P : Type 0} → Bytes → Fields P → Option (Data P)
find_field k no_fields = none
find_field k (field j d fs) = if j == k then some d else find_field k fs

pub find_elem : {P : Type 0} → ℕ → Elems P → Option (Data P)
find_elem i no_elems = none
find_elem zero (elem_of d ds) = some d
find_elem (suc i) (elem_of d ds) = find_elem i ds

-- The datum at a path.
pub data_at : {P : Type 0} → List Into → Data P → Option (Data P)
unfolding find_field find_elem
data_at [] d = some d
data_at (key k ∷ path) (datum (struct fs) m) = elim (find_field k fs) [
  | none ↦ none
  | some d ↦ data_at path d
]
data_at (index i ∷ path) (datum (list_of ds) m) = elim (find_elem i ds) [
  | none ↦ none
  | some d ↦ data_at path d
]
data_at (_ ∷ _) _ = none

find_field-put_field :
    {P : Type 0} (j k : Bytes) (d : Data P) (fs : Fields P)
    → find_field k (put_field j d fs) ≡ (if j == k then some d else find_field k fs)
unfolding find_field put_field
find_field-put_field j k d no_fields = refl
find_field-put_field j k d (field i e fs) =
    ground (
      arith,
      bytes_beq_iff i j,
      bytes_beq_iff i k,
      bytes_beq_iff j k,
      find_field-put_field j k d fs,
    )

module _ (lib : IrLibrary) where
  open lib use {P, K, S, sprint}

  -- A later entry comes before an earlier one of the same text.
  pub find_entry : Bytes → Entries K S → Option (Top K S)
  find_entry k no_entries = none
  find_entry k (entry j v es) = elim (find_entry k es) [
    | some w ↦ some w
    | none ↦ if sprint j == k then some v else none
  ]

  pub find_text_entry : Bytes → TextEntries K S → Option (Top K S)
  find_text_entry k no_text_entries = none
  find_text_entry k (text_entry j v es) = if j == k then some v else find_text_entry k es

  pub find_item : ℕ → Items K S → Option (Top K S)
  find_item i no_items = none
  find_item zero (item x xs) = some x
  find_item (suc i) (item x xs) = find_item i xs

  -- The decoded value at a path.
  pub top_at : List Into → Top K S → Option (Top K S)
  unfolding find_entry find_text_entry find_item
  top_at [] t = some t
  top_at (key k ∷ path) (any_map es) = elim (find_entry k es) [
    | none ↦ none
    | some t ↦ top_at path t
  ]
  top_at (key k ∷ path) (text_map es) = elim (find_text_entry k es) [
    | none ↦ none
    | some t ↦ top_at path t
  ]
  top_at (index i ∷ path) (array xs) = elim (find_item i xs) [
    | none ↦ none
    | some t ↦ top_at path t
  ]
  top_at (_ ∷ _) _ = none

  abbrev pub parsed : Interpret → Option (Top K S) → Option (Data P)
  parsed interpret none = none
  parsed interpret (some t) = some (parse_elem lib interpret t)

  find_field-parse_entries :
      (interpret : Interpret) (k : Bytes) (es : Entries K S) (fs : Fields P)
      → find_field k (parse_entries lib interpret es fs) ≡ (elim (find_entry k es) [
        | some v ↦ some (parse_elem lib interpret v)
        | none ↦ find_field k fs
      ])
  unfolding parse_entries find_entry
  find_field-parse_entries interpret k no_entries fs = refl
  find_field-parse_entries interpret k (entry j v es) fs =
      let d = parse_elem lib interpret v in
      ground (
        arith,
        find_field-parse_entries interpret k es (put_field (sprint j) d fs),
        find_field-put_field (sprint j) k d fs,
      )

  find_field-parse_data_struct :
      (interpret : Interpret) (k : Bytes) (es : TextEntries K S)
      → find_field k (parse_data_struct lib interpret es) ≡ parsed interpret (find_text_entry k es)
  unfolding find_field parse_data_struct find_text_entry
  find_field-parse_data_struct interpret k no_text_entries = refl
  find_field-parse_data_struct interpret k (text_entry j v es) =
      ground (arith, find_field-parse_data_struct interpret k es)

  find_elem-parse_data_list :
      (interpret : Interpret) (i : ℕ) (xs : Items K S)
      → find_elem i (parse_data_list lib interpret xs) ≡ parsed interpret (find_item i xs)
  unfolding find_elem parse_data_list find_item
  find_elem-parse_data_list interpret i no_items = refl
  find_elem-parse_data_list interpret zero (item x xs) = refl
  find_elem-parse_data_list interpret (suc i) (item x xs) = find_elem-parse_data_list interpret i xs

  below :
      (interpret : Interpret) (path : List Into)
      → ((t : Top K S)
          → data_at path (parse_elem lib interpret t) ≡ parsed interpret (top_at path t))
      → (o : Option (Top K S))
      → elim (parsed interpret o) [ none ↦ none | some d ↦ data_at path d ]
        ≡ parsed interpret (elim o [ none ↦ none | some t ↦ top_at path t ])
  below interpret path ih none = refl
  below interpret path ih (some t) = ih t

  below_primitive :
      (interpret : Interpret) (into : Into) (path : List Into) (s : S)
      → data_at (into ∷ path) (primitive_data lib s interpret) ≡ none
  unfolding data_at primitive_data
  below_primitive interpret (key k) path s =
      option_cases (λ (d : Data P). data_at (key k ∷ path) d ≡ none)
        (lib.to_primitive_value s interpret) (λ _. refl) λ p _. refl
  below_primitive interpret (index i) path s =
      option_cases (λ (d : Data P). data_at (index i ∷ path) d ≡ none)
        (lib.to_primitive_value s interpret) (λ _. refl) λ p _. refl

  parsed_lem :
      (interpret : Interpret) (o : Option (Top K S))
      → elim o [ some v ↦ some (parse_elem lib interpret v) | none ↦ none ] ≡ parsed interpret o
  parsed_lem interpret none = refl
  parsed_lem interpret (some v) = refl

  abbrev go_on : List Into → Option (Data P) → Option (Data P)
  go_on path o = elim o [ none ↦ none | some d ↦ data_at path d ]

  -- At every path of keys and indices stands the parse of what stands there in the decoded value, and
  -- nothing where there is nothing.
  pub data_at-parse_elem :
      (interpret : Interpret) (path : List Into) (t : Top K S)
      → data_at path (parse_elem lib interpret t) ≡ parsed interpret (top_at path t)
  unfolding data_at parse_elem top_at
  data_at-parse_elem interpret [] t = refl
  data_at-parse_elem interpret (key k ∷ path) (any_map es) =
      ap (go_on path)
        (find_field-parse_entries interpret k es no_fields ∙ parsed_lem interpret (find_entry k es))
      ∙ below interpret path (λ t. data_at-parse_elem interpret path t) (find_entry k es)
  data_at-parse_elem interpret (key k ∷ path) (text_map es) =
      ap (go_on path) (find_field-parse_data_struct interpret k es)
      ∙ below interpret path (λ t. data_at-parse_elem interpret path t) (find_text_entry k es)
  data_at-parse_elem interpret (key k ∷ path) (array xs) = refl
  data_at-parse_elem interpret (key k ∷ path) (json_number x) =
      below_primitive interpret (key k) path _
  data_at-parse_elem interpret (key k ∷ path) (scalar s) = below_primitive interpret (key k) path s
  data_at-parse_elem interpret (index i ∷ path) (any_map es) = refl
  data_at-parse_elem interpret (index i ∷ path) (text_map es) = refl
  data_at-parse_elem interpret (index i ∷ path) (array xs) =
      ap (go_on path) (find_elem-parse_data_list interpret i xs)
      ∙ below interpret path (λ t. data_at-parse_elem interpret path t) (find_item i xs)
  data_at-parse_elem interpret (index i ∷ path) (json_number x) =
      below_primitive interpret (index i) path _
  data_at-parse_elem interpret (index i ∷ path) (scalar s) =
      below_primitive interpret (index i) path s
