-- ===== src/HttpParse/Headers.antt =====
-- learn/parse_http.go: the data that are read from headers, cookies and the query, parseRequest and
-- parseResponse.
pub mod Secrets
use postman_insights_agent.Prelude.{
  ℕ, zero, suc, Bool, true, false, ◌&&◌, Option, none, some, List, [], ◌∷◌, ◌++◌, map, nat_beq,
  ◌==◌, if◌then◌else◌, length, drop,
}
use postman_insights_agent.Prelude.Dict.{lookup}
use postman_insights_agent.Prelude.Text.{codes, bytes_eq}
use postman_insights_agent.Traffic.{Bytes}
use postman_insights_agent.HttpParse.Elements.{
  IrLibrary, AuthType, bearer, basic, unknown_auth, Location, at_query, at_header, at_cookie,
  at_auth, Meta, http_meta, Data, datum, primitive,
}

-- A map from texts to lists of texts: http.Header, url.Values.
abbrev pub Values : Type 0
Values = List (Bytes × List Bytes)

-- sort.Strings and strings.ToLower.
pub record TextLibrary : Type 0 where
  pub sort_strings : List Bytes → List Bytes
  pub to_lower : Bytes → Bytes

pub record Cookie : Type 0 where
  pub name : Bytes
  pub value : Bytes

-- strings.HasPrefix
pub has_prefix : Bytes → Bytes → Bool
has_prefix text [] = true
has_prefix [] (_ ∷ _) = false
has_prefix (x ∷ xs) (p ∷ ps) = nat_beq x p && has_prefix xs ps

-- The code of an optional response code, 0 for a request.
abbrev pub code_of : Option ℕ → ℕ
code_of none = 0
code_of (some n) = n

-- What the switch over the header's name in lower case tells apart.
pub data HeaderKind : Type 0 where
  cookie_header content_type_header authorization_header plain_header : HeaderKind

pub header_kind : Bytes → HeaderKind
header_kind name =
    if name == codes "cookie"
    then cookie_header
    else if name == codes "set-cookie"
    then cookie_header
    else if name == codes "content-type"
    then content_type_header
    else if name == codes "authorization"
    then authorization_header
    else plain_header

-- The type of an Authorization header's value, given also in lower case, and its token.
pub auth_token : Bytes → Bytes → AuthType × Bytes
unfolding has_prefix
auth_token lv v =
    if has_prefix lv (codes "bearer ")
    then (bearer, drop 7 v)
    else if has_prefix lv (codes "basic ")
    then (basic, drop 6 v)
    else (unknown_auth, v)

module _ (text : TextLibrary) (lib : IrLibrary) where
  open lib use {P, categorize, obfuscated}

  -- The body of parseHeader's loop for a header with a value.
  pub header_data : Option ℕ → Bytes → Bytes → List (Data P)
  unfolding header_kind auth_token
  header_data response_code k v =
      let plain =
        datum (primitive (categorize v)) (http_meta (at_header k) (code_of response_code)) ∷ [] in
      elim (header_kind (text.to_lower k)) [
        | cookie_header ↦ []
        | content_type_header ↦ []
        | authorization_header ↦ elim response_code [
          | some _ ↦ plain
          | none ↦
              let (auth_type, token) = auth_token (text.to_lower v) v in
              datum (primitive (obfuscated token)) (http_meta (at_auth auth_type) 0) ∷ []
        ]
        | plain_header ↦ plain
      ]

  -- The loop over the sorted names. Only the first value of a name counts.
  pub parse_headers : Values → Option ℕ → List Bytes → List (Data P)
  unfolding header_data
  parse_headers header response_code [] = []
  parse_headers header response_code (k ∷ ks) =
      (elim (lookup k header) [
        | none ↦ []
        | some [] ↦ []
        | some (v ∷ _) ↦ header_data response_code k v
      ])
      ++ parse_headers header response_code ks

  abbrev pub names : Values → List Bytes
  names [] = []
  names ((k, vs) ∷ values) = k ∷ names values

  unfoldable pub parse_header : Values → Option ℕ → List (Data P)
  unfolding parse_headers
  parse_header header response_code =
      parse_headers header response_code (text.sort_strings (names header))

  pub parse_cookies : List Cookie → Option ℕ → List (Data P)
  parse_cookies [] response_code = []
  parse_cookies (c ∷ cs) response_code =
      datum (primitive (categorize c.value)) (http_meta (at_cookie c.name) (code_of response_code))
      ∷ parse_cookies cs response_code

  -- The loop of parseQuery over the sorted names.
  parse_params : Values → List Bytes → List (Data P)
  parse_params params [] = []
  parse_params params (k ∷ ks) =
      (elim (lookup k params) [
        | none ↦ []
        | some [] ↦ []
        | some (v ∷ _) ↦ datum (primitive (categorize v)) (http_meta (at_query k) 0) ∷ []
      ])
      ++ parse_params params ks

  -- parseQuery, with what Query returns of a URL.
  pub parse_query : Option Values → List (Data P)
  unfolding parse_params
  parse_query none = []
  parse_query (some params) = parse_params params (text.sort_strings (names params))

  -- The data of parseRequest.
  pub parse_request : Option Values → Values → List Cookie → List (Data P)
  unfolding parse_query parse_header parse_cookies
  parse_request params header cookies =
      parse_query params ++ (parse_header header none ++ parse_cookies cookies none)

  -- parseResponse
  pub parse_response : Values → List Cookie → ℕ → List (Data P)
  unfolding parse_header parse_cookies
  parse_response header cookies status_code =
      parse_header header (some status_code) ++ parse_cookies cookies (some status_code)
