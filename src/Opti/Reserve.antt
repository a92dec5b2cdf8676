-- ===== src/Opti/Reserve.antt =====
-- `reserve` of `OptiMap` (src/optimap.rs) on the abstract map.
use optimap.Prelude.{ℕ, ◌+◌, ◌≤◌, ◌≡◌, refl, sym, ◌∙◌, inl, inr, arith, Bool-cases, subst}
use optimap.Opti.Laws.{MapLaws, same_type-equal, OptiModels, chosen, Filled}
use optimap.Opti.Transition.{
  transition_to-Filled, on_backend, chosen_pinned, chosen_auto, PolicyPicks,
}
use optimap.Opti.{
  MapApi, Backend, auto_backend, pinned_backend, OptiMap, same_type, map_type, len,
  dispatch_reserve, reserve,
}
use optimap.Policy.{MapType, Policy, backend_for}
use optimap.Raw.Api.{Assoc, most_reserved}
use optimap.Raw.Key.{Key}
use optimap.Raw.Run.{Returns, ◌>>=◌}

module _ {ℓ} {K V : Type ℓ} ⦃key : Key K⦄ {T : MapType → Type ℓ}
    (api : (b : MapType) → MapApi K V (T b)) (Models : (b : MapType) → T b → Assoc K V → Type ℓ)
    (Used : MapType → Type 0) (laws : (b : MapType) → Used b → MapLaws (api b) (Models b)) where
  dispatch_reserve-Filled :
      (o : OptiMap T) (m : Assoc K V) (additional : ℕ)
      → OptiModels api Models Used o m
      → len api o + additional ≤ most_reserved
      → Returns
          (dispatch_reserve api o additional)
          (Filled api Models Used m (len api o) o.backend (map_type api o))
  unfolding dispatch_reserve len map_type
  dispatch_reserve-Filled o m additional mo few =
      let (t, run, (a, b)) =
        (laws o.inner.0 mo.used).reserve_law o.inner.1 m additional mo.models few in
      (
        record o { inner = (o.inner.0, t) },
        rw (run, ◌>>=◌) refl,
        (record { used = mo.used; models = a; picks = mo.picks }, omega (arith, b), refl, refl),
      )

  reserve_auto :
      (o : OptiMap T) (m : Assoc K V) (p : Policy) (additional : ℕ)
      → OptiModels api Models Used o m
      → len api o + additional ≤ most_reserved
      → o.backend ≡ auto_backend p
      → Returns
          (reserve api o additional)
          (Filled api Models Used m (len api o) o.backend (backend_for p (len api o + additional)))
  unfolding reserve
  reserve_auto o m p additional mo few auto =
      let new_cap = len api o + additional in
      elim (Bool-cases (same_type (backend_for p new_cap) (map_type api o))) [
        | inl e ↦
            let (r, run, (a, b, c, d)) = dispatch_reserve-Filled o m additional mo few in
            (
              r,
              on_backend api Models Used laws o.backend (auto_backend p) _ _ auto ∙ rw (e) run,
              (a, b, c, d ∙ sym (same_type-equal (backend_for p new_cap) (map_type api o) e)),
            )
        | inr e ↦
            let (r, run, kept) =
              transition_to-Filled api Models Used laws o m (backend_for p new_cap) new_cap
                (subst (PolicyPicks api Models Used laws) auto mo.picks new_cap) mo
                (omega (arith, few)) few in
            (
              r,
              on_backend api Models Used laws o.backend (auto_backend p) _ _ auto ∙ rw (e) run,
              kept,
            )
      ]

  -- `reserve` on an `OptiMap` that models an abstract map ends without a panic, keeps the abstract
  -- map and the backend, does not add to the length, and leaves the map type that the policy has for
  -- the new capacity, or the old one if it is pinned. The maps keep the laws of MapLaws, and the new
  -- capacity is at most 2 ^ 60.
  pub reserve-Filled :
      (o : OptiMap T) (m : Assoc K V) (additional : ℕ)
      → OptiModels api Models Used o m
      → len api o + additional ≤ most_reserved
      → Returns (reserve api o additional) (
          Filled api Models Used m
            (len api o)
            o.backend
            (chosen api Models Used o.backend (map_type api o) (len api o + additional)))
  unfolding reserve
  reserve-Filled o m additional mo few = go o.backend refl
    where
      go :
          (b : Backend)
          → o.backend ≡ b
          → Returns (reserve api o additional) (
              Filled api Models Used m
                (len api o)
                o.backend
                (chosen api Models Used o.backend (map_type api o) (len api o + additional)))
      go pinned_backend e =
          let (r, run, (a, b, c, d)) = dispatch_reserve-Filled o m additional mo few in
          (
            r,
            on_backend api Models Used laws o.backend pinned_backend _ _ e ∙ run,
            (a, b, c, d ∙ chosen_pinned api Models Used laws o (len api o + additional) e),
          )
      go (auto_backend p) e =
          let (r, run, (a, b, c, d)) = reserve_auto o m p additional mo few e in
          (r, run, (a, b, c, d ∙ chosen_auto api Models Used laws o p (len api o + additional) e))
