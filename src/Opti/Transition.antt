-- ===== src/Opti/Transition.antt =====
-- `transition_to` and `maybe_transition_after_grow` of src/optimap.rs: the pairs that are carried
-- over, and the map they end up in.
use optimap.Prelude.{
  ℕ, ◌+◌, ◌≤◌, ◌≡◌, some, List, [], ◌∷◌, refl, sym, ap, ◌∙◌, inl, inr, arith, subst, Bool-cases,
}
use optimap.Opti.Laws.{MapLaws, same_type-equal, OptiModels, Picks, chosen, Filled}
use optimap.Opti.{
  MapApi, Backend, auto_backend, pinned_backend, OptiMap, same_type, build_inner, map_type, len,
  dispatch_insert, insert_entries, transition_to, maybe_transition_after_grow,
}
use optimap.Policy.{MapType, Policy, backend_for}
use optimap.Raw.Api.{Assoc, put, nothing, most, most_reserved}
use optimap.Raw.Key.{Key}
use optimap.Raw.Pairs.{length, put_all}
use optimap.Raw.Run.{Returns, ◌>>=◌}

module _ {ℓ} {K V : Type ℓ} ⦃key : Key K⦄ {T : MapType → Type ℓ}
    (api : (b : MapType) → MapApi K V (T b)) (Models : (b : MapType) → T b → Assoc K V → Type ℓ)
    (Used : MapType → Type 0) (laws : (b : MapType) → Used b → MapLaws (api b) (Models b)) where
  pub dispatch_insert-Filled :
      (o : OptiMap T) (m : Assoc K V) (k : K) (v : V)
      → OptiModels api Models Used o m
      → len api o ≤ most
      → Returns (dispatch_insert api o k v) (λ r.
        (r.0 ≡ m k)
        × Filled api Models Used (put k (some v) m) (len api o + 1) o.backend (map_type api o) r.1)
  unfolding dispatch_insert len map_type
  dispatch_insert-Filled o m k v mo few =
      let (r, run, (a, b, c)) = (laws o.inner.0 mo.used).insert_law o.inner.1 m k v mo.models few in
      (
        (r.0, record o { inner = (o.inner.0, r.1) }),
        rw (run, ◌>>=◌) refl,
        (a, (record { used = mo.used; models = b; picks = mo.picks }, c, refl, refl)),
      )

  insert_entries-Filled :
      (o : OptiMap T) (m : Assoc K V) (es : List (K × V))
      → OptiModels api Models Used o m
      → len api o + length es ≤ most
      → Returns
          (insert_entries api o es)
          (Filled api Models Used (put_all es m) (len api o + length es) o.backend (map_type api o))
  unfolding insert_entries put_all length
  insert_entries-Filled o m [] mo few = (o, refl, (mo, omega arith, refl, refl))
  insert_entries-Filled o m ((k, v) ∷ es) mo few =
      let (r, run, (a, (b, c, d, e))) = dispatch_insert-Filled o m k v mo (omega (arith, few)) in
      let (u, run', (a', b', c', d')) =
        insert_entries-Filled r.1 (put k (some v) m) es b (omega (arith, c, few)) in
      (u, rw (run, ◌>>=◌) run', (a', omega (arith, b', c), c' ∙ d, d' ∙ e))

  -- The map that `transition_to` builds has the wanted map type, at most as many pairs as the old
  -- one, and models the same abstract map.
  pub transition_to-Filled :
      (o : OptiMap T) (m : Assoc K V) (desired : MapType) (cap : ℕ)
      → Used desired
      → OptiModels api Models Used o m
      → len api o ≤ most
      → cap ≤ most_reserved
      → Returns
          (transition_to api o desired cap)
          (Filled api Models Used m (len api o) o.backend desired)
  unfolding transition_to build_inner len map_type
  transition_to-Filled o m desired cap used mo few small =
      let (es, run, (same, n)) = (laws o.inner.0 mo.used).drain_law o.inner.1 m mo.models in
      let (empty, zero) = (laws desired used).with_capacity_law cap small in
      let (r, run', (a, b, c, d)) =
        insert_entries-Filled (record o { inner = build_inner api desired cap }) nothing es
          (record { used = used; models = empty; picks = mo.picks })
          (omega (arith, zero, n, few)) in
      (
        r,
        rw (run, ◌>>=◌) run',
        (subst (OptiModels api Models Used r) same a, omega (arith, b, zero, n), c, d),
      )

  -- A call that depends on the backend, once that is known.
  pub on_backend {κ} :
      {A : Type κ} (b c : Backend) (pinned : A) (auto : Policy → A)
      → b ≡ c
      → (elim b [ pinned_backend ↦ pinned | auto_backend q ↦ auto q ])
        ≡ (elim c [ pinned_backend ↦ pinned | auto_backend q ↦ auto q ])
  on_backend {A} b c pinned auto e =
      ap (λ b'. elim b' as (λ d. A) [ pinned_backend ↦ pinned | auto_backend q ↦ auto q ]) e

  abbrev pub PolicyPicks : Backend → Type 0
  PolicyPicks = Picks api Models Used

  pub chosen_pinned :
      (o : OptiMap T) (n : ℕ)
      → o.backend ≡ pinned_backend
      → map_type api o ≡ chosen api Models Used o.backend (map_type api o) n
  chosen_pinned o n e = ap (λ b. chosen api Models Used b (map_type api o) n) (sym e)

  pub chosen_auto :
      (o : OptiMap T) (p : Policy) (n : ℕ)
      → o.backend ≡ auto_backend p
      → backend_for p n ≡ chosen api Models Used o.backend (map_type api o) n
  chosen_auto o p n e = ap (λ b. chosen api Models Used b (map_type api o) n) (sym e)

  transition_auto :
      (o : OptiMap T) (m : Assoc K V) (p : Policy) (new_cap : ℕ)
      → OptiModels api Models Used o m
      → len api o ≤ most
      → new_cap ≤ most_reserved
      → o.backend ≡ auto_backend p
      → Returns
          (maybe_transition_after_grow api o new_cap)
          (Filled api Models Used m (len api o) (auto_backend p) (backend_for p new_cap))
  unfolding maybe_transition_after_grow
  transition_auto o m p new_cap mo few small auto =
      elim (Bool-cases (same_type (backend_for p new_cap) (map_type api o))) [
        | inl e ↦ (
          o,
          on_backend o.backend (auto_backend p) _ _ auto ∙ rw (e) refl,
          (mo, omega arith, auto, sym (same_type-equal (backend_for p new_cap) (map_type api o) e)),
        )
        | inr e ↦
            let (r, run, (a, b, c, d)) =
              transition_to-Filled o m (backend_for p new_cap) new_cap
                (subst PolicyPicks auto mo.picks new_cap) mo few small in
            (r, on_backend o.backend (auto_backend p) _ _ auto ∙ rw (e) run, (a, b, c ∙ auto, d))
      ]

  -- After a growth to a capacity of at most 2 ^ 60, `maybe_transition_after_grow` on an `OptiMap` of
  -- at most 2 ^ 62 pairs that models an abstract map ends without a panic, keeps the abstract map and
  -- the backend, does not add to the length, and leaves the map type that the policy has for the new
  -- capacity, or the old one if it is pinned. The maps keep the laws of MapLaws.
  pub maybe_transition_after_grow-Filled :
      (o : OptiMap T) (m : Assoc K V) (new_cap : ℕ)
      → OptiModels api Models Used o m
      → len api o ≤ most
      → new_cap ≤ most_reserved
      → Returns (maybe_transition_after_grow api o new_cap) (
          Filled api Models Used m
            (len api o)
            o.backend
            (chosen api Models Used o.backend (map_type api o) new_cap))
  unfolding maybe_transition_after_grow
  maybe_transition_after_grow-Filled o m new_cap mo few small = go o.backend refl
    where
      go :
          (b : Backend)
          → o.backend ≡ b
          → Returns (maybe_transition_after_grow api o new_cap) (
              Filled api Models Used m
                (len api o)
                o.backend
                (chosen api Models Used o.backend (map_type api o) new_cap))
      go pinned_backend e = (
        o,
        on_backend o.backend pinned_backend _ _ e,
        (mo, omega arith, refl, chosen_pinned o new_cap e),
      )
      go (auto_backend p) e =
          let (r, run, (a, b, c, d)) = transition_auto o m p new_cap mo few small e in
          (r, run, (a, b, c ∙ sym e, d ∙ chosen_auto o p new_cap e))
