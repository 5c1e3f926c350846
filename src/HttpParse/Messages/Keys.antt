-- ===== src/HttpParse/Messages/Keys.antt =====
-- learn/parse_http.go: the map of a witness's data, filed under their hashes.
use postman_insights_agent.Prelude.{
  ◌≡◌, refl, ◌∙◌, subst, inl, inr, true, none, some, List, [], ◌∷◌, arith, Option-cases, Bool-cases,
  ◌==◌, All,
}
use postman_insights_agent.Prelude.Dict.{lookup, insert, lookup-insert}
use postman_insights_agent.Prelude.Text.{bytes_eq, bytes_beq_iff}
use postman_insights_agent.Traffic.{Bytes}
use postman_insights_agent.HttpParse.Elements.{IrLibrary, Data}
use postman_insights_agent.HttpParse.Headers.{TextLibrary}
use postman_insights_agent.HttpParse.Bodies.{BodyLibrary}
use postman_insights_agent.HttpParse.Messages.{KeyLibrary, fill_map}

module _ (text : TextLibrary) (ir : IrLibrary) (lib : BodyLibrary ir) (keys : KeyLibrary ir)
    -- proto.Equal is reflexive, symmetric and transitive.
    (equal_refl : (d : Data ir.P) → keys.equal d d ≡ true)
    (equal_sym : (d e : Data ir.P) → keys.equal d e ≡ true → keys.equal e d ≡ true)
    (equal_trans : (d e f : Data ir.P)
      → keys.equal d e ≡ true
      → keys.equal e f ≡ true
      → keys.equal d f ≡ true) where
  open ir use {P}
  open keys use {hash, equal}

  -- A datum is in the map, up to what proto.Equal does not tell apart.
  abbrev pub IsFiled : List (Bytes × Data P) → Data P → Type 0
  IsFiled m d = elim (lookup (hash d) m) [ none ↦ ⊥ | some e ↦ equal d e ≡ true ]

  -- Another datum of the same hash is equal.
  abbrev Fits : List (Bytes × Data P) → Data P → Type 0
  Fits m d = elim (lookup (hash d) m) [ none ↦ Unit | some e ↦ equal d e ≡ true ]

  -- The same hash, so that what is filed there is equal to both.
  same_hash :
      (d e : Data P) (m : List (Bytes × Data P))
      → hash e ≡ hash d
      → Fits m e
      → IsFiled m d
      → equal d e ≡ true
  same_hash d e m same fit h = elim (Option-cases (lookup (hash d) m)) [
    | inl missing ↦ absurd (rw (missing, IsFiled) at h)
    | inr (f, there) ↦
        let df : equal d f ≡ true = ground (arith, there, h) in
        let ef : equal e f ≡ true = ground (arith, same ∙ refl, there, fit) in
        equal_trans d f e df (equal_sym e f ef)
  ]

  insert-IsFiled :
      (d e : Data P) (m : List (Bytes × Data P))
      → Fits m e
      → IsFiled m d
      → IsFiled (insert (hash e) e m) d
  insert-IsFiled d e m fit h = elim (Bool-cases (hash e == hash d)) [
    | inl same ↦
        let eq = same_hash d e m ((bytes_beq_iff (hash e) (hash d)).0 same) fit h in
        ground (arith, same, lookup-insert (hash e) (hash d) e m, eq)
    | inr differs ↦ ground (arith, differs, lookup-insert (hash e) (hash d) e m, h)
  ]

  filed : (d : Data P) (m : List (Bytes × Data P)) → IsFiled (insert (hash d) d m) d
  filed d m =
      ground
        (arith, lookup-insert (hash d) (hash d) d m, bytes_beq_iff (hash d) (hash d), equal_refl d)

  fill_map-step :
      (d : Data P) (ds : List (Data P)) (m : List (Bytes × Data P)) {m' : List (Bytes × Data P)}
      → fill_map text ir lib keys (d ∷ ds) m ≡ some m'
      → Fits m d × (fill_map text ir lib keys ds (insert (hash d) d m) ≡ some m')
  unfolding fill_map
  fill_map-step d ds m e = elim (Option-cases (lookup (hash d) m)) [
    | inl missing ↦ ground (arith, missing)
    | inr (f, there) ↦ ground (arith, there)
  ]

  fill_map-IsFiled :
      (ds : List (Data P)) (m : List (Bytes × Data P)) {m' : List (Bytes × Data P)} (d : Data P)
      → fill_map text ir lib keys ds m ≡ some m'
      → IsFiled m d
      → IsFiled m' d
  unfolding fill_map
  fill_map-IsFiled [] m {m'} d e h = let same : m ≡ m' = cc in subst (λ x. IsFiled x d) same h
  fill_map-IsFiled (d' ∷ ds) m d e h =
      let (fit, rest) = fill_map-step d' ds m e in
      fill_map-IsFiled ds (insert (hash d') d' m) d rest (insert-IsFiled d d' m fit h)

  -- If the keys do not collide, then every datum is in the map under its hash.
  pub fill_map-All :
      (ds : List (Data P)) (m : List (Bytes × Data P)) {m' : List (Bytes × Data P)}
      → fill_map text ir lib keys ds m ≡ some m'
      → All (IsFiled m') ds
  fill_map-All [] m e = tt
  fill_map-All (d ∷ ds) m e =
      let (fit, rest) = fill_map-step d ds m e in
      (
        fill_map-IsFiled ds (insert (hash d) d m) d rest (filed d m),
        fill_map-All ds (insert (hash d) d m) rest,
      )
