-- ===== src/JsonStrip/Chunks.antt =====
-- learn/json_preprocessor.go: what the inner loop does to the bytes, however they are cut in pieces.
use postman_insights_agent.Prelude.{
  ◌≤◌, ◌<◌, ◌≡◌, refl, Bool, true, false, [], ◌∷◌, ◌++◌, arith, length, All,
}
use postman_insights_agent.Traffic.{Bytes}
use postman_insights_agent.JsonStrip.{strip_bytes, strip_byte}

-- Two pieces, one after the other.
pub strip_bytes-append :
    (preceding : Bool) (xs ys : Bytes)
    → strip_bytes preceding (xs ++ ys) ≡ (
      (strip_bytes (strip_bytes preceding xs).0 ys).0,
      (strip_bytes preceding xs).1 ++ (strip_bytes (strip_bytes preceding xs).0 ys).1,
    )
unfolding strip_bytes
strip_bytes-append preceding [] ys = refl
strip_bytes-append preceding (c ∷ cs) ys =
    ground (arith, strip_bytes-append (strip_byte preceding c).0 cs ys)

pub length-strip_bytes :
    (preceding : Bool) (xs : Bytes) → length (strip_bytes preceding xs).1 ≤ length xs
unfolding strip_bytes
length-strip_bytes preceding [] = omega arith
length-strip_bytes preceding (c ∷ cs) =
    ground (arith, length-strip_bytes true cs, length-strip_bytes false cs)

abbrev pub IsText : Bytes → Type 0
IsText = All λ c. 0x1f < c

-- What is written holds no control character, whatever was read.
pub strip_bytes-IsText : (preceding : Bool) (xs : Bytes) → IsText (strip_bytes preceding xs).1
unfolding strip_bytes
strip_bytes-IsText preceding [] = tt
strip_bytes-IsText preceding (c ∷ cs) =
    ground (arith, strip_bytes-IsText true cs, strip_bytes-IsText false cs)

-- A text without control characters is written as it is.
pub strip_bytes-text :
    (preceding : Bool) (xs : Bytes) → IsText xs → (strip_bytes preceding xs).1 ≡ xs
unfolding strip_bytes
strip_bytes-text preceding [] h = refl
strip_bytes-text preceding (c ∷ cs) h =
    ground (arith, strip_bytes-text true cs h.1, strip_bytes-text false cs h.1)
