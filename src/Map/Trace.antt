-- ===== src/Map/Trace.antt =====
-- Sequences of operations of `GenericMap` (src/generic_map.rs) against the same sequences on an
-- abstract map.
use optimap.Prelude.{ℕ, ◌+◌, ◌≤◌, ◌≡◌, Option, none, some, List, [], ◌∷◌, refl, ap, arith}
use mathlib.Core.Path.{ap₂}
use optimap.Map.{get, insert, remove, or_insert}
use optimap.Map.Entries.{or_default, or_insert-Inserted}
use optimap.Map.Laws.{get-value, remove-value}
use optimap.Raw.Api.{RawTableApi, RawTableLaws, Assoc, put, most, nothing}
use optimap.Raw.Key.{Key}
use optimap.Raw.Run.{Run, done, Returns, ◌>>=◌}

-- A call of the map, of those that a sequence is made of.
pub data Call {ℓ} (K V : Type ℓ) : Type ℓ where
  call_get call_remove : K → Call K V
  call_insert call_or_insert : K → V → Call K V
  call_clear : Call K V

-- The number of calls.
unfoldable pub calls {ℓ} : {A : Type ℓ} → List A → ℕ
calls [] = 0
calls (x ∷ xs) = calls xs + 1

module _ {ℓ} {K V : Type ℓ} ⦃key : Key K⦄ where
  -- What a call does to an abstract map, and what it returns.
  unfoldable pub spec_call : Assoc K V → Call K V → Option V × Assoc K V
  spec_call m (call_get k) = (m k, m)
  spec_call m (call_remove k) = (m k, put k none m)
  spec_call m (call_insert k v) = (m k, put k (some v) m)
  spec_call m (call_or_insert k v) =
      (some (or_default (m k) v), put k (some (or_default (m k) v)) m)
  spec_call m call_clear = (none, nothing)

  unfoldable pub spec_calls : Assoc K V → List (Call K V) → List (Option V) × Assoc K V
  spec_calls m [] = ([], m)
  spec_calls m (c ∷ cs) =
      let (o, m') = spec_call m c in let (os, m'') = spec_calls m' cs in (o ∷ os, m'')

module _ {ℓ} {K V T : Type ℓ} ⦃key : Key K⦄ (api : RawTableApi K V T) where
  -- The value that a pair has, if there is one.
  value_at : Option (K × V) → Option V
  value_at none = none
  value_at (some (k, v)) = some v

  unfoldable pub run_call : T → Call K V → Run (Option V × T)
  unfolding value_at
  run_call t (call_get k) = do o ← get api t k; done (o, t)
  run_call t (call_remove k) = remove api t k
  run_call t (call_insert k v) = insert api t k v
  run_call t (call_or_insert k v) = do
    (t', (gi, si)) ← or_insert api t k v
    done (value_at (api.bucket t' gi si), t')
  run_call t call_clear = done (none, api.clear t)

  unfoldable pub run_calls : T → List (Call K V) → Run (List (Option V) × T)
  run_calls t [] = done ([], t)
  run_calls t (c ∷ cs) = do (o, t') ← run_call t c; (os, t'') ← run_calls t' cs; done (o ∷ os, t'')

  module _ (Slot : T → ℕ → ℕ → Type 0) (Models : T → Assoc K V → Type ℓ)
      (laws : RawTableLaws api Slot Models) where
    abbrev Called : T → Assoc K V → Call K V → Option V × T → Type ℓ
    Called t m c r =
        (r.0 ≡ (spec_call m c).0) × Models r.1 (spec_call m c).1 × (api.len r.1 ≤ api.len t + 1)

    run_call-Called :
        (t : T) (m : Assoc K V) (c : Call K V)
        → Models t m
        → api.len t ≤ most
        → Returns (run_call t c) (Called t m c)
    unfolding run_call spec_call insert value_at
    run_call-Called t m (call_get k) mo few = (
      (m k, t),
      rw (get-value api Slot Models laws t m k mo, ◌>>=◌) refl,
      (refl, mo, omega arith),
    )
    run_call-Called t m (call_remove k) mo few =
        let (r, run, (a, b, c)) = remove-value api Slot Models laws t m k mo in
        (r, run, (a, b, omega (arith, c)))
    run_call-Called t m (call_insert k v) mo few = laws.insert_law t m k v mo few
    run_call-Called t m (call_or_insert k v) mo few =
        let (r, run, (a, b, c)) = or_insert-Inserted api Slot Models laws t m k mo few v in
        ((value_at (api.bucket r.0 r.1.0 r.1.1), r.0), rw (run, ◌>>=◌) refl, (ap value_at b, a, c))
    run_call-Called t m call_clear mo few =
        let (a, b) = laws.clear_law t m mo in
        ((none, api.clear t), refl, (refl, a, omega (arith, b)))

    -- Any sequence of the calls get, remove, insert, or_insert and clear of a generic map, over a
    -- backend that keeps the laws of RawTableLaws, ends without a panic, returns exactly what the same calls return on the abstract map, and leaves a table that
    -- models the abstract map after them. The pairs at the start and the calls are together at most
    -- 2 ^ 62.
    pub run_calls-spec_calls :
        (cs : List (Call K V)) (t : T) (m : Assoc K V)
        → Models t m
        → api.len t + calls cs ≤ most
        → Returns
            (run_calls t cs)
            (λ r. (r.0 ≡ (spec_calls m cs).0) × Models r.1 (spec_calls m cs).1)
    unfolding run_calls spec_calls calls
    run_calls-spec_calls [] t m mo few = (([], t), refl, (refl, mo))
    run_calls-spec_calls (c ∷ cs) t m mo few =
        let (r, run, (a, b, n)) = run_call-Called t m c mo (omega (arith, few)) in
        let (r', run', (a', b')) =
          run_calls-spec_calls cs r.1 (spec_call m c).1 b (omega (arith, few, n)) in
        ((r.0 ∷ r'.0, r'.1), rw (run, run', ◌>>=◌) refl, (ap₂ (λ o os. o ∷ os) a a', b'))
