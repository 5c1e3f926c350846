-- ===== src/JsonStrip.antt =====
-- learn/json_preprocessor.go: the reader that takes control characters out of a stream. The reader that
-- it wraps is a parameter, with what io.Reader documents of it.
pub mod Chunks
pub mod Reading
mod Tests
use postman_insights_agent.Prelude.{
  ℕ, zero, suc, ◌-◌, ◌≤◌, ◌≡◌, Bool, true, false, not, Option, none, some, List, [], ◌∷◌, ◌++◌, leb,
  ltb, nat_beq, if◌then◌else◌, length,
}
use postman_insights_agent.Traffic.{Bytes}

-- io.Reader: a call with a buffer of a length gives the bytes that it read, whether it returned an
-- error (io.EOF is one), and the state after it. `contents` are the bytes that are still to come; each
-- call takes some off the front, and no more than the buffer holds.
pub record Reader : Type 1 where
  pub State : Type 0
  pub read : State → ℕ → Bytes × Bool × State
  pub contents : State → Bytes
  pub takes : (s : State) (n : ℕ) → contents s ≡ (read s n).0 ++ contents (read s n).2
  pub fits : (s : State) (n : ℕ) → length (read s n).0 ≤ n

abbrev pub backslash : ℕ
backslash = 0x5c

-- The body of the inner loop for one byte: the new hasPrecedingBackslash, and what is written.
strip_byte : Bool → ℕ → Bool × Option ℕ
strip_byte preceding c =
    if leb c 0x1f
    then (if preceding then (false, some backslash) else (false, none))
    else if nat_beq c backslash
    then (not preceding, some c)
    else (false, some c)

-- The inner loop, over the bytes of one call.
pub strip_bytes : Bool → Bytes → Bool × Bytes
unfolding strip_byte
strip_bytes preceding [] = (preceding, [])
strip_bytes preceding (c ∷ cs) =
    let (preceding', written) = strip_byte preceding c in
    let (after, rest) = strip_bytes preceding' cs in
    (after, elim written [ none ↦ rest | some w ↦ w ∷ rest ])

module _ (lib : Reader) where
  open lib use {State, read, contents}

  -- stripControlCharactersReader
  pub record Stripper : Type 0 where
    pub has_preceding_backslash : Bool
    pub wrapped : State

  pub new_stripper : State → Stripper
  new_stripper s = record { has_preceding_backslash = false; wrapped = s }

  -- The loop of Read, with room for `remaining` bytes more: what is written, the error, and the
  -- reader. `none` is for fuel that runs out.
  pub read_loop : ℕ → ℕ → Stripper → Option (Bytes × Bool × Stripper)
  unfolding strip_bytes
  read_loop zero remaining r = none
  read_loop (suc fuel) zero r = some ([], false, r)
  read_loop (suc fuel) (suc room) r =
      let (chunk, failed, wrapped) = read r.wrapped (suc room) in
      let (preceding, written) = strip_bytes r.has_preceding_backslash chunk in
      let r' : Stripper = record { has_preceding_backslash = preceding; wrapped = wrapped } in
      let rest = read_loop fuel (suc room - length written) r' in
      if failed
      then some (written, failed, r')
      else if ltb (length chunk) (suc room)
      then some (written, failed, r')
      else elim rest [
        | none ↦ none
        | some (more, failed', r'') ↦ some (written ++ more, failed', r'')
      ]

  -- Read, with a buffer of a length. Each round takes a byte at least, so there are fewer rounds than
  -- bytes to come, and one.
  pub read_stripped : Stripper → ℕ → Option (Bytes × Bool × Stripper)
  unfolding read_loop
  read_stripped r n = read_loop (suc (length (contents r.wrapped))) n r

  -- Calls of Read with buffers of any lengths, and all that they wrote.
  pub read_all : Stripper → List ℕ → Option (Bytes × Stripper)
  read_all r [] = some ([], r)
  read_all r (n ∷ sizes) = elim (read_stripped r n) [
    | none ↦ none
    | some (written, failed, r') ↦ elim (read_all r' sizes) [
      | none ↦ none
      | some (more, r'') ↦ some (written ++ more, r'')
    ]
  ]
