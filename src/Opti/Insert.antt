-- ===== src/Opti/Insert.antt =====
-- `insert` of `OptiMap` (src/optimap.rs) on the abstract map.
use optimap.Prelude.{
  ℕ, ◌+◌, ◌≤◌, ◌≡◌, ◌==◌, Option, none, some, refl, ◌∙◌, inl, inr, arith, Bool-cases,
}
use optimap.Opti.Laws.{MapLaws, OptiModels, Kept}
use optimap.Opti.Transition.{dispatch_insert-Filled, on_backend, maybe_transition_after_grow-Filled}
use optimap.Opti.{
  MapApi, Backend, auto_backend, pinned_backend, OptiMap, len, capacity, dispatch_insert,
  after_insert, insert_auto, insert,
}
use optimap.Policy.{MapType}
use optimap.Raw.Api.{Assoc, put, most, most_reserved}
use optimap.Raw.Key.{Key}
use optimap.Raw.Run.{done, Returns, ◌>>=◌}

module _ {ℓ} {K V : Type ℓ} ⦃key : Key K⦄ {T : MapType → Type ℓ}
    (api : (b : MapType) → MapApi K V (T b)) (Models : (b : MapType) → T b → Assoc K V → Type ℓ)
    (Used : MapType → Type 0) (laws : (b : MapType) → Used b → MapLaws (api b) (Models b)) where
  after_insert-Kept :
      (o : OptiMap T) (m : Assoc K V) (cap_before : ℕ) (result : Option V)
      → OptiModels api Models Used o m
      → len api o ≤ most
      → capacity api o ≤ most_reserved
      → Returns
          (after_insert api cap_before result o)
          (λ r. (r.0 ≡ result) × Kept api Models Used m (len api o) o.backend r.1)
  unfolding after_insert
  after_insert-Kept o m cap_before (some old) mo few small =
      ((some old, o), refl, (refl, (mo, omega arith, refl)))
  after_insert-Kept o m cap_before none mo few small =
      elim (Bool-cases (capacity api o == cap_before)) [
        | inl e ↦ ((none, o), rw (e, ◌>>=◌) refl, (refl, (mo, omega arith, refl)))
        | inr e ↦
            let (r, run, (a, b, c, d)) =
              maybe_transition_after_grow-Filled api Models Used laws o m (capacity api o) mo few
                small in
            ((none, r), rw (e, run, ◌>>=◌) refl, (refl, (a, b, c)))
      ]

  insert_auto-Kept :
      (o : OptiMap T) (m : Assoc K V) (k : K) (v : V)
      → OptiModels api Models Used o m
      → len api o + 1 ≤ most
      → ((r : Option V × OptiMap T)
          → dispatch_insert api o k v ≡ done r
          → capacity api r.1 ≤ most_reserved)
      → Returns
          (insert_auto api o k v)
          (λ r. (r.0 ≡ m k) × Kept api Models Used (put k (some v) m) (len api o + 1) o.backend r.1)
  unfolding insert_auto
  insert_auto-Kept o m k v mo few small =
      let (r, run, (a, (b, c, d, e))) =
        dispatch_insert-Filled api Models Used laws o m k v mo (omega (arith, few)) in
      let (u, run', (a', (b', c', d'))) =
        after_insert-Kept r.1 (put k (some v) m) (capacity api o) r.0 b (omega (arith, c, few))
          (small r run) in
      (u, rw (run, ◌>>=◌) run', (a' ∙ a, (b', omega (arith, c', c), d' ∙ d)))

  -- `insert` on an `OptiMap` that models an abstract map, pinned or with a policy, ends without a
  -- panic, returns the key's old value, and leaves an `OptiMap` that models the map with the new
  -- value, also when it moves the pairs to another map on the way; the length grows by at most one
  -- and the backend stays. The maps keep the laws of MapLaws, and neither the length nor the capacity
  -- after the insertion is above 2 ^ 62.
  pub insert-Kept :
      (o : OptiMap T) (m : Assoc K V) (k : K) (v : V)
      → OptiModels api Models Used o m
      → len api o + 1 ≤ most
      → ((r : Option V × OptiMap T)
          → dispatch_insert api o k v ≡ done r
          → capacity api r.1 ≤ most_reserved)
      → Returns
          (insert api o k v)
          (λ r. (r.0 ≡ m k) × Kept api Models Used (put k (some v) m) (len api o + 1) o.backend r.1)
  unfolding insert
  insert-Kept o m k v mo few small = go o.backend refl
    where
      go :
          (b : Backend)
          → o.backend ≡ b
          → Returns (insert api o k v) (λ r.
            (r.0 ≡ m k) × Kept api Models Used (put k (some v) m) (len api o + 1) o.backend r.1)
      go pinned_backend e =
          let (r, run, (a, (b, c, d, f))) =
            dispatch_insert-Filled api Models Used laws o m k v mo (omega (arith, few)) in
          (r, on_backend api Models Used laws o.backend pinned_backend _ _ e ∙ run, (a, (b, c, d)))
      go (auto_backend p) e =
          let (r, run, kept) = insert_auto-Kept o m k v mo few small in
          (r, on_backend api Models Used laws o.backend (auto_backend p) _ _ e ∙ run, kept)
