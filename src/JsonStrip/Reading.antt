-- ===== src/JsonStrip/Reading.antt =====
-- learn/json_preprocessor.go: Read, on any reader that it wraps and with buffers of any length.
use postman_insights_agent.Prelude.{
  ℕ, zero, suc, ◌-◌, ◌≤◌, ◌<◌, ◌≡◌, refl, ap, Bool, false, Option, none, some, List, [], ◌∷◌, ◌++◌,
  arith, ltb, length, length-append, subst, if_cases, option_cases,
}
use mathlib.Core.List.{append_assoc}
use postman_insights_agent.Traffic.{Bytes}
use postman_insights_agent.JsonStrip.{
  Reader, Stripper, strip_bytes, read_loop, read_stripped, read_all, new_stripper,
}
use postman_insights_agent.JsonStrip.Chunks.{
  strip_bytes-append, length-strip_bytes, IsText, strip_bytes-IsText,
}

module _ (lib : Reader) where
  open lib use {State, read, contents, takes, fits}

  -- The bytes `consumed` came off the front of the wrapped reader, and `written` is what is left of
  -- them.
  pub record Strips (r : Stripper lib) (written : Bytes) (r' : Stripper lib) : Type 0 where
    pub consumed : Bytes
    pub taken : contents r.wrapped ≡ consumed ++ contents r'.wrapped
    pub stripped :
        strip_bytes r.has_preceding_backslash consumed ≡ (r'.has_preceding_backslash, written)

  Strips-refl : (r : Stripper lib) → Strips r [] r
  unfolding strip_bytes
  Strips-refl r = record { consumed = []; taken = refl; stripped = refl }

  Strips-trans :
      (r r' r'' : Stripper lib) (w w' : Bytes)
      → Strips r w r'
      → Strips r' w' r''
      → Strips r (w ++ w') r''
  Strips-trans r r' r'' w w' s t = record {
    consumed = s.consumed ++ t.consumed;
    taken = simp (s.taken, t.taken, append_assoc);
    stripped = rw (
      strip_bytes-append r.has_preceding_backslash s.consumed t.consumed,
      s.stripped,
      t.stripped,
    );
  }

  -- What a call comes to.
  abbrev pub Reads : ℕ → Stripper lib → Option (Bytes × Bool × Stripper lib) → Type 0
  Reads n r none = ⊥
  Reads n r (some (written, failed, r')) = Strips r written r' × (length written ≤ n)

  -- A call that goes on after its first round.
  Reads-more :
      (n : ℕ) (r r' : Stripper lib) (w : Bytes) (o : Option (Bytes × Bool × Stripper lib))
      → Strips r w r'
      → length w ≤ n
      → Reads (n - length w) r' o
      → Reads n r
          (elim o [ none ↦ none | some (more, failed, r'') ↦ some (w ++ more, failed, r'') ])
  Reads-more n r r' w none s l h = h
  Reads-more n r r' w (some (more, failed, r'')) s l h =
      (Strips-trans r r' r'' w more s h.0, omega (arith, length-append w more))

  read_loop-Reads :
      (fuel n : ℕ) (r : Stripper lib)
      → length (contents r.wrapped) < fuel
      → Reads n r (read_loop lib fuel n r)
  unfolding read_loop
  read_loop-Reads zero n r h = absurd (omega arith)
  read_loop-Reads (suc fuel) zero r h = (Strips-refl r, omega arith)
  read_loop-Reads (suc fuel) (suc room) r h =
      let chunk = (read r.wrapped (suc room)).0 in
      let after = strip_bytes r.has_preceding_backslash chunk in
      let r' : Stripper lib = record {
        has_preceding_backslash = after.0;
        wrapped = (read r.wrapped (suc room)).2;
      } in
      let first : Strips r after.1 r' = record {
        consumed = chunk;
        taken = takes r.wrapped (suc room);
        stripped = refl;
      } in
      let short = length-strip_bytes r.has_preceding_backslash chunk in
      let fit = fits r.wrapped (suc room) in
      let total = ap length (takes r.wrapped (suc room)) in
      let parts = length-append chunk (contents (read r.wrapped (suc room)).2) in
      if_cases (Reads (suc room) r) (read r.wrapped (suc room)).1 (λ _. (first, omega arith))
        (λ _.
          if_cases (Reads (suc room) r) (ltb (length chunk) (suc room)) (λ _. (first, omega arith))
            (λ full. Reads-more (suc room) r r' after.1 _ first (omega arith) (
              read_loop-Reads fuel (suc room - length after.1) r'
                (let all_room : suc room ≤ length chunk = ground arith in omega arith))))

  -- A call of Read ends, writes at most as much as the buffer holds, and writes what is left of the
  -- bytes that it took.
  pub read_stripped-Reads : (r : Stripper lib) (n : ℕ) → Reads n r (read_stripped lib r n)
  unfolding read_stripped
  read_stripped-Reads r n = read_loop-Reads (suc (length (contents r.wrapped))) n r (omega arith)

  abbrev pub StripsAll : Stripper lib → Option (Bytes × Stripper lib) → Type 0
  StripsAll r none = ⊥
  StripsAll r (some (written, r')) = Strips r written r'

  StripsAll-more :
      (r r' : Stripper lib) (w : Bytes) (o : Option (Bytes × Stripper lib))
      → Strips r w r'
      → StripsAll r' o
      → StripsAll r (elim o [ none ↦ none | some (more, r'') ↦ some (w ++ more, r'') ])
  StripsAll-more r r' w none s h = h
  StripsAll-more r r' w (some (more, r'')) s h = Strips-trans r r' r'' w more s h

  -- However the stream comes in and whatever the lengths of the buffers, the calls end, and what they
  -- write together is what one pass over the bytes taken leaves of them.
  pub read_all-strips : (r : Stripper lib) (sizes : List ℕ) → StripsAll r (read_all lib r sizes)
  unfolding read_all
  read_all-strips r [] = Strips-refl r
  read_all-strips r (n ∷ sizes) =
      option_cases (StripsAll r) (read_stripped lib r n)
        (λ stuck. subst (Reads n r) stuck (read_stripped-Reads r n))
        (λ out e.
          StripsAll-more r out.2 out.0 (read_all lib out.2 sizes)
            (subst (Reads n r) e (read_stripped-Reads r n)).0 (read_all-strips out.2 sizes))

  -- So too from a new reader, and what they write is free of control characters.
  StripsAll-new :
      (s : State) (o : Option (Bytes × Stripper lib))
      → StripsAll (new_stripper lib s) o
      → (written : Bytes) × (r' : Stripper lib) × (consumed : Bytes) × (o ≡ some (written, r'))
        × (contents s ≡ consumed ++ contents r'.wrapped)
        × ((strip_bytes false consumed).1 ≡ written)
        × IsText written
  unfolding new_stripper
  StripsAll-new s none h = absurd h
  StripsAll-new s (some (written, r')) h =
      let same = ap (λ (p : Bool × Bytes). p.1) h.stripped in
      (
        written,
        r',
        h.consumed,
        refl,
        h.taken,
        same,
        subst IsText same (strip_bytes-IsText false h.consumed),
      )

  -- Calls of Read on a new reader end, however the stream comes in and whatever the lengths of the
  -- buffers; what they write together is what one pass leaves of the bytes that were taken off the
  -- stream, and it holds no control character.
  pub read_all-new_stripper :
      (s : State) (sizes : List ℕ)
      → (written : Bytes) × (r' : Stripper lib) × (consumed : Bytes) × (read_all lib
            (new_stripper lib s)
            sizes
          ≡ some (written, r'))
        × (contents s ≡ consumed ++ contents r'.wrapped)
        × ((strip_bytes false consumed).1 ≡ written)
        × IsText written
  read_all-new_stripper s sizes =
      StripsAll-new s (read_all lib (new_stripper lib s) sizes)
        (read_all-strips (new_stripper lib s) sizes)
