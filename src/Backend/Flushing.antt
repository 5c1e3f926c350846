-- ===== src/Backend/Flushing.antt =====
-- trace/backend_collector.go: what the flush at the end leaves behind.
use postman_insights_agent.Prelude.{
  ℕ, ◌<◌, ◌≡◌, refl, ap, ◌∙◌, inl, inr, true, none, some, List, [], ◌∷◌, map, arith, nat_eq, ◌==◌,
  ltb, lt→ltb, All, Bool-cases, if_cases,
}
use postman_insights_agent.Prelude.Dict.{lookup, insert, delete, lookup-insert, Distinct, beq_refl}
use postman_insights_agent.Witnesses.{WitnessWithInfo}
use postman_insights_agent.Backend.Queue.{
  Backend, Setup, store, add_report, queue_upload, flushed_with, transformed, mask,
}
use postman_insights_agent.Backend.{flush_entry, flush_entries, flush_pair_cache}

delete-absent : (k : ℕ) (m : List (ℕ × ℕ)) → lookup k m ≡ none → delete k m ≡ m
unfolding lookup delete
delete-absent k [] e = refl
delete-absent k ((j, v) ∷ m) e = ground (arith, delete-absent k m)

lookup-first : (k v : ℕ) (m : List (ℕ × ℕ)) → lookup k ((k, v) ∷ m) ≡ some v
unfolding lookup
lookup-first k v m = rw (beq_refl k)

delete-first : (k v : ℕ) (m : List (ℕ × ℕ)) → lookup k m ≡ none → delete k ((k, v) ∷ m) ≡ m
unfolding delete
delete-first k v m e = rw (beq_refl k) (delete-absent k m e)

module _ {Data : Type 0} where
  -- The cached witness has an object, and was observed before the time given.
  abbrev pub Stale : ℕ → List (ℕ × WitnessWithInfo Data) → ℕ × ℕ → Type 0
  Stale cutoff_time objects (key, ref) =
      (w : WitnessWithInfo Data) × (lookup ref objects ≡ some w)
      × (w.observation_time < cutoff_time)

  abbrev pub Flushed : List (ℕ × WitnessWithInfo Data) → ℕ × ℕ → Type 0
  Flushed objects (key, ref) =
      (w : WitnessWithInfo Data) × (lookup ref objects ≡ some w) × (w.witness_flushed ≡ true)

  -- Writing an object that is flagged, and as old as before, makes nothing less stale or flushed.
  insert-Stale :
      (cutoff_time ref : ℕ) (w w' : WitnessWithInfo Data)
      (objects : List (ℕ × WitnessWithInfo Data))
      → w'.observation_time < cutoff_time
      → (entries : List (ℕ × ℕ)) → All (Stale cutoff_time objects) entries
      → All (Stale cutoff_time (insert ref w' objects)) entries
  insert-Stale cutoff_time ref w w' objects old [] h = tt
  insert-Stale cutoff_time ref w w' objects old ((key, r) ∷ entries) h = (
    elim (Bool-cases (ref == r)) [
      | inl e ↦ (w', ground (arith, e, lookup-insert ref r w' objects), old)
      | inr e ↦ (h.0.0, ground (arith, e, h.0.1, lookup-insert ref r w' objects), h.0.2)
    ],
    insert-Stale cutoff_time ref w w' objects old entries h.1,
  )

  insert-Flushed :
      (ref : ℕ) (w' : WitnessWithInfo Data) (objects : List (ℕ × WitnessWithInfo Data))
      → w'.witness_flushed ≡ true
      → (entry : ℕ × ℕ) → Flushed objects entry
      → Flushed (insert ref w' objects) entry
  insert-Flushed ref w' objects flag (key, r) (w, found, flushed) = elim (Bool-cases (ref == r)) [
    | inl e ↦ (w', ground (arith, e, lookup-insert ref r w' objects), flag)
    | inr e ↦ (w, ground (arith, e, found, lookup-insert ref r w' objects), flushed)
  ]

module _ {Data : Type 0} (setup : Setup Data) where
  abbrev Stores : Backend Data → ℕ → WitnessWithInfo Data → Backend Data → Type 0
  Stores s ref w after =
      (w' : WitnessWithInfo Data) × (after.objects ≡ insert ref w' s.objects)
      × (w'.witness_flushed ≡ true)
      × (w'.observation_time ≡ w.observation_time)

  queue_upload-Stores :
      (s : Backend Data) (ref : ℕ) (w : WitnessWithInfo Data)
      → Stores s ref w (queue_upload setup s ref w)
  unfolding queue_upload store add_report flushed_with
  queue_upload-Stores s ref w =
      let (m, ok) = transformed setup w in
      if_cases (Stores s ref w) w.witness_flushed (λ e. (w, refl, e, refl))
        λ _.
          if_cases (Stores s ref w) ok
            (λ _. (flushed_with setup w (mask setup m), refl, refl, refl))
            λ _. (flushed_with setup w m, refl, refl, refl)

  flush_entry-found :
      (cutoff_time : ℕ) (s : Backend Data) (key ref : ℕ) (w : WitnessWithInfo Data)
      → lookup key s.pair_cache ≡ some ref
      → lookup ref s.objects ≡ some w
      → ltb w.observation_time cutoff_time ≡ true
      → flush_entry setup cutoff_time s key
        ≡ record (queue_upload setup s ref w) { pair_cache = delete key s.pair_cache }
  unfolding flush_entry
  flush_entry-found cutoff_time s key ref w here found old = ground (arith, here, found, old)

  -- What the callback does with an entry that is stale.
  flush_entry-Stale :
      (cutoff_time : ℕ) (s : Backend Data) (key ref : ℕ) (rest : List (ℕ × ℕ))
      → s.pair_cache ≡ (key, ref) ∷ rest
      → lookup key rest ≡ none
      → (stale : Stale cutoff_time s.objects (key, ref))
      → Stores s ref stale.0 (flush_entry setup cutoff_time s key)
        × ((flush_entry setup cutoff_time s key).pair_cache ≡ rest)
  flush_entry-Stale cutoff_time s key ref rest cached absent (w, found, old) =
      let here : lookup key s.pair_cache ≡ some ref = rw cached (lookup-first key ref rest) in
      let gone : delete key s.pair_cache ≡ rest = rw cached (delete-first key ref rest absent) in
      let (w', stored, flag, same) = queue_upload-Stores s ref w in
      let e = flush_entry-found cutoff_time s key ref w here found (lt→ltb _ _ old) in
      ((w', ap (λ x. x.objects) e ∙ stored, flag, same), ap (λ x. x.pair_cache) e ∙ gone)

  -- The loop over entries that are stale.
  flush_entries-Stale :
      (cutoff_time : ℕ) (entries : List (ℕ × ℕ)) (s : Backend Data)
      → s.pair_cache ≡ entries
      → Distinct entries
      → All (Stale cutoff_time s.objects) entries
      → let after = flush_entries setup cutoff_time s (map (λ entry. entry.0) entries) in
        (after.pair_cache ≡ [])
        × All (Flushed after.objects) entries
        × ((entry : ℕ × ℕ) → Flushed s.objects entry → Flushed after.objects entry)
  unfolding flush_entries
  flush_entries-Stale cutoff_time [] s cached d h = (cached, tt, λ entry f. f)
  flush_entries-Stale cutoff_time ((key, ref) ∷ rest) s cached d h =
      let s' = flush_entry setup cutoff_time s key in
      let ((w', stored, flag, same), cached') =
        flush_entry-Stale cutoff_time s key ref rest cached d.0 h.0 in
      let old : w'.observation_time < cutoff_time = omega (arith, same, h.0.2) in
      let stale' : All (Stale cutoff_time s'.objects) rest =
        rw stored (insert-Stale cutoff_time ref h.0.0 w' s.objects old rest h.1) in
      let now : Flushed s'.objects (key, ref) =
        (w', rw (stored, lookup-insert ref ref w' s.objects, beq_refl ref) refl, flag) in
      let (emptied, others, still) = flush_entries-Stale cutoff_time rest s' cached' d.1 stale' in
      (
        emptied,
        (still (key, ref) now, others),
        λ entry f. still entry (rw stored (insert-Flushed ref w' s.objects flag entry f)),
      )

  -- If every cached witness was observed before the cutoff, as at the end, then a flush with no
  -- other goroutine at work leaves the cache empty and every witness that was in it flushed.
  pub flush_pair_cache-empties :
      (cutoff_time : ℕ) (s : Backend Data)
      → Distinct s.pair_cache
      → All (Stale cutoff_time s.objects) s.pair_cache
      → let after = flush_pair_cache setup cutoff_time s in
        (after.pair_cache ≡ []) × All (Flushed after.objects) s.pair_cache
  unfolding flush_pair_cache
  flush_pair_cache-empties cutoff_time s d h =
      let (emptied, flushed, _) = flush_entries-Stale cutoff_time s.pair_cache s refl d h in
      (emptied, flushed)
