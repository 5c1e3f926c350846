-- ===== src/JsonStrip/Tests.antt =====
-- learn/json_preprocessor.go: a stream that comes in one piece, read with buffers of two bytes.
use postman_insights_agent.Prelude.{
  ℕ, zero, suc, ◌≤◌, ◌≡◌, refl, true, false, some, [], ◌∷◌, ◌++◌, arith, length, take, drop,
  take-drop,
}
use postman_insights_agent.Traffic.{Bytes}
use postman_insights_agent.JsonStrip.{
  Reader, Stripper, strip_bytes, read_stripped, read_all, new_stripper,
}
use postman_insights_agent.JsonStrip.Chunks.{IsText}
use postman_insights_agent.JsonStrip.Reading.{Reads, read_stripped-Reads, read_all-new_stripper}

length-take : (n : ℕ) (xs : Bytes) → length (take n xs) ≤ n
length-take zero xs = omega arith
length-take (suc n) [] = omega arith
length-take (suc n) (x ∷ xs) = omega (arith, length-take n xs)

-- bytes.Reader: as much as the buffer holds, and io.EOF at the end.
abbrev bytes_reader : Reader
bytes_reader = record {
  State = Bytes;
  read = λ s n. (take n s, elim s [ [] ↦ true | _ ∷ _ ↦ false ], drop n s);
  contents = λ s. s;
  takes = λ s n. take-drop n s;
  fits = λ s n. length-take n s;
}

-- A quote, an escaped line feed, a line feed and a letter.
abbrev stream : Bytes
stream = 34 ∷ 92 ∷ 10 ∷ 10 ∷ 97 ∷ []

stripped : (strip_bytes false stream).1 ≡ 34 ∷ 92 ∷ 92 ∷ 97 ∷ []
unfolding strip_bytes
stripped = refl

read_stripped-Reads_example :
    Reads bytes_reader 3
      (new_stripper bytes_reader stream)
      (read_stripped bytes_reader (new_stripper bytes_reader stream) 3)
read_stripped-Reads_example = read_stripped-Reads bytes_reader (new_stripper bytes_reader stream) 3

read_all-new_stripper_example :
    (written : Bytes) × (r' : Stripper bytes_reader) × (consumed : Bytes) × (read_all bytes_reader
        (new_stripper bytes_reader stream)
        (2 ∷ 2 ∷ 2 ∷ [])
      ≡ some (written, r'))
    × (stream ≡ consumed ++ r'.wrapped)
    × ((strip_bytes false consumed).1 ≡ written)
    × IsText written
read_all-new_stripper_example = read_all-new_stripper bytes_reader stream (2 ∷ 2 ∷ 2 ∷ [])
