-- ===== src/Prelude/Dict.antt =====
-- A Go map as an association list. `delete` takes out every entry of its key.
use Prim.Native.Nat.{suc}
use mathlib.Core.Path.{◌≡◌, refl, sym, subst}
use mathlib.Core.Logic.{◌⊎◌, ◌≢◌, inl, inr}
use mathlib.Core.Bool.{true}
use mathlib.Core.List.{List, [], ◌∷◌}
use mathlib.Core.Option.{Option, none, some}
use native.Mathlib.Omega.{arith}
use postman_insights_agent.Prelude.Tests.{Comparable, ◌==◌, if◌then◌else◌, Bool-cases}
use postman_insights_agent.Prelude.Lists.{length, All}

pub beq_refl {ℓ} : {K : Type ℓ} ⦃e : Comparable K⦄ (k : K) → (k == k) ≡ true
beq_refl ⦃e⦄ k = (e.same_iff k k).1 refl

module _ {ℓ κ} {K : Type ℓ} {V : Type κ} ⦃e : Comparable K⦄ where
  unfoldable pub lookup : K → List (K × V) → Option V
  lookup wanted [] = none
  lookup wanted ((key, value) ∷ rest) = if key == wanted then some value else lookup wanted rest

  unfoldable pub insert : K → V → List (K × V) → List (K × V)
  insert new value [] = (new, value) ∷ []
  insert new value ((key, old) ∷ rest) =
      if key == new then (new, value) ∷ rest else (key, old) ∷ insert new value rest

  unfoldable pub delete : K → List (K × V) → List (K × V)
  delete gone [] = []
  delete gone ((key, value) ∷ rest) =
      let others = delete gone rest in if key == gone then others else (key, value) ∷ others

  -- Reading after a write, and after a removal.
  pub lookup-insert :
      (new wanted : K) (value : V) (dict : List (K × V))
      → lookup wanted (insert new value dict)
        ≡ (if new == wanted then some value else lookup wanted dict)
  unfolding lookup insert
  lookup-insert new wanted value [] = refl
  lookup-insert new wanted value ((key, old) ∷ rest) = ground (
    arith,
    lookup-insert new wanted value rest,
    e.same_iff key new,
    e.same_iff key wanted,
    e.same_iff new wanted,
  )

  pub lookup-delete :
      (gone wanted : K) (dict : List (K × V))
      → lookup wanted (delete gone dict) ≡ (if gone == wanted then none else lookup wanted dict)
  unfolding lookup delete
  lookup-delete gone wanted [] = ground arith
  lookup-delete gone wanted ((key, value) ∷ rest) = ground (
    arith,
    lookup-delete gone wanted rest,
    e.same_iff key gone,
    e.same_iff key wanted,
    e.same_iff gone wanted,
  )

  pub delete-insert : (k : K) (v : V) (m : List (K × V)) → delete k (insert k v m) ≡ delete k m
  unfolding delete insert
  delete-insert k v [] = rw (beq_refl k)
  delete-insert k v ((j, w) ∷ m) = ground (arith, e.same_iff j k, beq_refl k, delete-insert k v m)

  pub insert-insert :
      (k : K) (v w : V) (m : List (K × V)) → insert k v (insert k w m) ≡ insert k v m
  unfolding insert
  insert-insert k v w [] = rw (beq_refl k)
  insert-insert k v w ((j, x) ∷ m) = ground (arith, beq_refl k, insert-insert k v w m)

  -- Storing under a key that is taken keeps the size; a new key adds one.
  pub length-insert :
      (k : K) (v : V) (m : List (K × V))
      → length (insert k v m) ≡ (elim (lookup k m) [ none ↦ suc (length m) | some _ ↦ length m ])
  unfolding lookup insert
  length-insert k v [] = refl
  length-insert k v ((j, w) ∷ m) = ground (arith, length-insert k v m)

  -- No key has two entries.
  abbrev pub Distinct : List (K × V) → Type κ
  Distinct [] = Unit
  Distinct ((k, v) ∷ m) = (lookup k m ≡ none) × Distinct m

  pub insert-Distinct : (k : K) (v : V) (m : List (K × V)) → Distinct m → Distinct (insert k v m)
  unfolding lookup insert
  insert-Distinct k v [] d = (refl, tt)
  insert-Distinct k v ((j, w) ∷ m) d =
      ground
        (arith, e.same_iff j k, e.same_iff k j, insert-Distinct k v m d.1, lookup-insert k j v m)

  pub delete-Distinct : (k : K) (m : List (K × V)) → Distinct m → Distinct (delete k m)
  unfolding delete
  delete-Distinct k [] d = tt
  delete-Distinct k ((j, w) ∷ m) d = ground (arith, delete-Distinct k m d.1, lookup-delete k j m)

  -- A predicate of every entry.
  pub insert-All {μ} :
      (P : K × V → Type μ) (k : K) (v : V) (m : List (K × V))
      → P (k, v)
      → All P m
      → All P (insert k v m)
  unfolding insert
  insert-All P k v [] p h = (p, tt)
  insert-All P k v ((j, w) ∷ m) p h = ground (arith, insert-All P k v m p h.1)

  pub delete-All {μ} :
      (P : K × V → Type μ) (k : K) (m : List (K × V)) → All P m → All P (delete k m)
  unfolding delete
  delete-All P k [] h = tt
  delete-All P k ((j, w) ∷ m) h = ground (arith, delete-All P k m h.1)

  pub lookup-All {μ} :
      (P : K × V → Type μ) (k : K) (m : List (K × V)) {v : V}
      → All P m
      → lookup k m ≡ some v
      → P (k, v)
  unfolding lookup
  lookup-All P k [] h q = absurd (cc)
  lookup-All P k ((j, w) ∷ m) {v} h q = elim (Bool-cases (j == k)) [
    | inl same ↦
        let jk : j ≡ k = (e.same_iff j k).0 same in
        let wv : w ≡ v = ground arith in subst (λ i. P (i, v)) jk (subst (λ x. P (j, x)) wv h.0)
    | inr other ↦ lookup-All P k m h.1 (ground arith)
  ]

  -- What is found after a write is what was written, or was there before under another key.
  pub insert-cases :
      (k j : K) (v : V) (m : List (K × V)) {x : V}
      → lookup j (insert k v m) ≡ some x
      → ((j ≡ k) × (v ≡ x)) ⊎ ((j ≢ k) × (lookup j m ≡ some x))
  insert-cases k j v m h = elim (Bool-cases (k == j)) [
    | inl same ↦ inl (sym ((e.same_iff k j).0 same), ground (arith, lookup-insert k j v m))
    | inr other ↦ inr (λ p. cc ((e.same_iff k j).1 (sym p)), ground (arith, lookup-insert k j v m))
  ]

  pub delete-cases :
      (k j : K) (m : List (K × V)) {x : V}
      → lookup j (delete k m) ≡ some x
      → (j ≢ k) × (lookup j m ≡ some x)
  delete-cases k j m h = elim (Bool-cases (k == j)) [
    | inl same ↦ absurd (ground (arith, lookup-delete k j m))
    | inr other ↦ (λ p. cc ((e.same_iff k j).1 (sym p)), ground (arith, lookup-delete k j m))
  ]
