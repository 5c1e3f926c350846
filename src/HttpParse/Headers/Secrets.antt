-- ===== src/HttpParse/Headers/Secrets.antt =====
-- learn/parse_http.go: what of the headers of a request gets into the data.
use postman_insights_agent.Prelude.{
  ◌≡◌, ◌≢◌, refl, arith, drop, nat_beq_iff, ◌↔◌, ◌++◌, if_cases, true, ◌⊎◌, inl, inr, Option, none,
  some, List, [], ◌∷◌, All, All-append,
}
use postman_insights_agent.Prelude.Dict.{lookup}
use postman_insights_agent.Prelude.Text.{codes, bytes_eq}
use postman_insights_agent.Traffic.{Bytes}
use postman_insights_agent.HttpParse.Elements.{
  IrLibrary, AuthType, bearer, basic, unknown_auth, at_header, at_auth, http_meta, Data, datum,
  primitive,
}
use postman_insights_agent.HttpParse.Headers.{
  TextLibrary, Values, HeaderKind, header_kind, cookie_header, content_type_header,
  authorization_header, plain_header, header_data, parse_headers, parse_header, auth_token, names,
  has_prefix,
}

HeaderKind-cases :
    (kind : HeaderKind)
    → (kind ≡ cookie_header)
      ⊎ (kind ≡ content_type_header)
      ⊎ (kind ≡ authorization_header)
      ⊎ (kind ≡ plain_header)
HeaderKind-cases cookie_header = inl refl
HeaderKind-cases content_type_header = inr (inl refl)
HeaderKind-cases authorization_header = inr (inr (inl refl))
HeaderKind-cases plain_header = inr (inr (inr refl))

header_kind-plain :
    (n : Bytes)
    → header_kind n ≡ plain_header
    → (n ≢ codes "authorization")
      × (n ≢ codes "cookie")
      × (n ≢ codes "set-cookie")
      × (n ≢ codes "content-type")
unfolding header_kind
header_kind-plain n h = (
  λ e. ground (arith, h, bytes_eq.same_iff n (codes "authorization"), e),
  λ e. ground (arith, h, bytes_eq.same_iff n (codes "cookie"), e),
  λ e. ground (arith, h, bytes_eq.same_iff n (codes "set-cookie"), e),
  λ e. ground (arith, h, bytes_eq.same_iff n (codes "content-type"), e),
)

header_kind-authorization :
    (n : Bytes) → header_kind n ≡ authorization_header → n ≡ codes "authorization"
unfolding header_kind
header_kind-authorization n h = ground (arith, h, bytes_eq.same_iff n (codes "authorization"))

-- A text that starts with another.
abbrev pub Starts : Bytes → Bytes → Type 0
Starts v front = (rest : Bytes) × (v ≡ front ++ rest)

has_prefix_iff : (v front : Bytes) → (has_prefix v front ≡ true) ↔ Starts v front
unfolding has_prefix
has_prefix_iff v [] = (λ _. (v, refl), λ _. refl)
has_prefix_iff [] (p ∷ ps) = (λ e. absurd (cc), λ (rest, e). absurd (cc))
has_prefix_iff (x ∷ xs) (p ∷ ps) = (
  λ e.
      let (rest, same) = (has_prefix_iff xs ps).0 (ground (arith, e)) in
      let first : x ≡ p = (nat_beq_iff x p).0 (ground (arith, e)) in (rest, cc),
  λ (rest, e).
      let first : x ≡ p = cc in
      let others : xs ≡ ps ++ rest = cc in
      ground (arith, (has_prefix_iff xs ps).1 (rest, others), (nat_beq_iff x p).1 first),
)

-- The type and the token of an authorization's value, which is also given in lower case.
abbrev pub IsToken : Bytes → Bytes → AuthType → Bytes → Type 0
IsToken lv v t token =
    (Starts lv (codes "bearer ") × (t ≡ bearer) × (token ≡ drop 7 v))
    ⊎ (Starts lv (codes "basic ") × (t ≡ basic) × (token ≡ drop 6 v))
    ⊎ ((Starts lv (codes "bearer ") → ⊥)
        × (Starts lv (codes "basic ") → ⊥)
        × (t ≡ unknown_auth)
        × (token ≡ v))

auth_token-IsToken : (lv v : Bytes) → IsToken lv v (auth_token lv v).0 (auth_token lv v).1
unfolding auth_token
auth_token-IsToken lv v =
    let Token = λ (r : AuthType × Bytes). IsToken lv v r.0 r.1 in
    let bearer_iff = has_prefix_iff lv (codes "bearer ") in
    let basic_iff = has_prefix_iff lv (codes "basic ") in
    if_cases Token (has_prefix lv (codes "bearer ")) (λ h. inl (bearer_iff.0 h, refl, refl))
      (λ n.
        if_cases Token (has_prefix lv (codes "basic ")) (λ h. inr (inl (basic_iff.0 h, refl, refl)))
          (λ m. inr (
            inr (
              (λ z. ground (arith, n, bearer_iff.1 z)),
              (λ z. ground (arith, m, basic_iff.1 z)),
              refl,
              refl,
            ))))

module _ (text : TextLibrary) (lib : IrLibrary) where
  open lib use {P, categorize, obfuscated}

  -- The first value of a header.
  abbrev pub IsFirst : Values → Bytes → Bytes → Type 0
  IsFirst header k v = (vs : List Bytes) × (lookup k header ≡ some (v ∷ vs))

  -- A datum of a request's headers: the first value of a header of none of four names, filed under its
  -- name; or, filed as authorization, the obfuscated token of the first value of an Authorization header.
  abbrev pub IsHarmless : Values → Data P → Type 0
  IsHarmless header (datum x (http_meta (at_header k) code)) =
      (v : Bytes) × IsFirst header k v
      × (x ≡ primitive (categorize v))
      × (text.to_lower k ≢ codes "authorization")
      × (text.to_lower k ≢ codes "cookie")
      × (text.to_lower k ≢ codes "set-cookie")
      × (text.to_lower k ≢ codes "content-type")
  IsHarmless header (datum x (http_meta (at_auth t) code)) =
      (k : Bytes) × (v : Bytes) × (token : Bytes) × IsFirst header k v
      × (text.to_lower k ≡ codes "authorization")
      × IsToken (text.to_lower v) v t token
      × (x ≡ primitive (obfuscated token))
  IsHarmless header _ = ⊥

  header_data-IsHarmless :
      (header : Values) (k v : Bytes)
      → IsFirst header k v
      → All (IsHarmless header) (header_data text lib none k v)
  unfolding header_data
  header_data-IsHarmless header k v first =
      elim (HeaderKind-cases (header_kind (text.to_lower k))) [
        | inl cookie ↦ rw (cookie, All) tt
        | inr (inl content_type) ↦ rw (content_type, All) tt
        | inr (inr (inl authorization)) ↦
            let named = header_kind-authorization (text.to_lower k) authorization in
            rw (authorization, All)
              (
                (
                  k,
                  v,
                  (auth_token (text.to_lower v) v).1,
                  first,
                  named,
                  auth_token-IsToken (text.to_lower v) v,
                  refl,
                ),
                tt,
              )
        | inr (inr (inr plain)) ↦
            let (a, b, c, d) = header_kind-plain (text.to_lower k) plain in
            rw (plain, All) ((v, first, refl, a, b, c, d), tt)
      ]

  first_value-IsHarmless :
      (header : Values) (k : Bytes)
      → All (IsHarmless header) (elim (lookup k header) [
        | none ↦ []
        | some [] ↦ []
        | some (v ∷ _) ↦ header_data text lib none k v
      ])
  first_value-IsHarmless header k = go (lookup k header) refl
    where
      go :
          (values : Option (List Bytes))
          → lookup k header ≡ values
          → All (IsHarmless header) (elim values [
            | none ↦ []
            | some [] ↦ []
            | some (v ∷ _) ↦ header_data text lib none k v
          ])
      go none e = tt
      go (some []) e = tt
      go (some (v ∷ vs)) e = header_data-IsHarmless header k v (vs, e)

  parse_headers-IsHarmless :
      (header : Values) (ks : List Bytes)
      → All (IsHarmless header) (parse_headers text lib header none ks)
  unfolding parse_headers
  parse_headers-IsHarmless header [] = tt
  parse_headers-IsHarmless header (k ∷ ks) =
      All-append (IsHarmless header) _ (parse_headers text lib header none ks)
        (first_value-IsHarmless header k) (parse_headers-IsHarmless header ks)

  -- Every datum of a request's headers is one of two: the first value of a header whose name in lower
  -- case is none of authorization, cookie, set-cookie and content-type, filed under that name; or, filed
  -- as authorization, the obfuscated token of the first value of a header whose name in lower case is
  -- authorization: what follows "bearer " or "basic ", where the value in lower case starts with one,
  -- and otherwise the whole value, of unknown type.
  pub parse_header-IsHarmless :
      (header : Values) → All (IsHarmless header) (parse_header text lib header none)
  unfolding parse_header
  parse_header-IsHarmless header =
      parse_headers-IsHarmless header (text.sort_strings (names text lib header))
