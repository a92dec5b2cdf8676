-- ===== src/Opti/Tombstone.antt =====
-- `OptiMap` of src/optimap.rs over the two tombstone maps among its variants, `Ipo` and `Tomb`:
-- `InPlaceOverflow` (src/in_place_overflow/map.rs) and `HighTag128_TombMap` (src/lib.rs). The maps of
-- the other variants, and their calls, are parameters of which nothing is asked.
use optimap.Prelude.{refl, ℕ, ◌+◌, ◌≤◌, ◌≡◌, Option, some}
use optimap.Map.{get, insert, remove}
use optimap.Map.Laws.{get-value}
use optimap.Opti
use optimap.Opti.{
  MapApi, OptiMap, map_type, len, capacity, dispatch_insert, maybe_transition_after_grow,
  with_policy_and_capacity, build_inner,
}
use optimap.Opti.Insert.{insert-Kept}
use optimap.Opti.Laws.{MapLaws, OptiModels, Kept, Filled, chosen}
use optimap.Opti.Transition.{maybe_transition_after_grow-Filled}
use optimap.Policy.{
  backend_for, Policy, MapType, ufm, splitsies, ipo, tomb, gaps, ipo64, flat_btree,
}
use optimap.Raw.Api.{Assoc, nothing, put, most, most_reserved}
use optimap.Raw.Key.{Key}
use optimap.Raw.Run.{Returns, done}
use optimap.Raw.Tag.{TombstoneKind}
use optimap.Tomb
use optimap.Tomb.{Table}
use optimap.Tomb.Backend.{tombstone_api}
use optimap.Tomb.Drain.{drain, drain-Drained}
use optimap.Tomb.Inv.{InTable}
use optimap.Tomb.Ops.{with_capacity, clear, reserve}
use optimap.Tomb.Refines.{tombstone-RawTableLaws}
use optimap.Tomb.Reserve.{with_capacity-Models, reserve-Same}
use optimap.Tomb.View.{Models}

-- The variants with a tombstone map.
abbrev pub IsTombstone : MapType → Type 0
IsTombstone ufm = ⊥
IsTombstone splitsies = ⊥
IsTombstone ipo = Unit {0}
IsTombstone tomb = Unit {0}
IsTombstone gaps = ⊥
IsTombstone ipo64 = ⊥
IsTombstone flat_btree = ⊥

module _ {ℓ} {K V : Type ℓ} ⦃key : Key K⦄ where
  -- `GenericMap` over the tombstone table.
  abbrev pub tombstone_map : TombstoneKind → MapApi K V (Table K V)
  tombstone_map tag = record {
    with_capacity = with_capacity;
    len = λ t. t.len;
    capacity = Tomb.capacity;
    get = get (tombstone_api tag);
    insert = insert (tombstone_api tag);
    remove = remove (tombstone_api tag);
    clear = clear;
    reserve = reserve tag;
    drain = drain;
  }

  -- The tombstone map keeps the laws that `OptiMap` asks of its maps.
  pub tombstone-MapLaws : (tag : TombstoneKind) → MapLaws (tombstone_map tag) (Models tag)
  unfolding insert
  tombstone-MapLaws tag =
      let laws = tombstone-RawTableLaws {K = K} {V = V} tag in
      record {
        with_capacity_law = λ c small. with_capacity-Models tag c small;
        get_law = λ t m k mo. get-value (tombstone_api tag) InTable (Models tag) laws t m k mo;
        insert_law = λ t m k v mo few. laws.insert_law t m k v mo few;
        reserve_law = λ t m n mo few. reserve-Same tag t m n mo few;
        drain_law = λ t m mo. drain-Drained tag t m mo;
      }

module _ {ℓ} (K V : Type ℓ) ⦃key : Key K⦄ (Other : MapType → Type ℓ) where
  -- The map of each variant.
  abbrev pub Maps : MapType → Type ℓ
  Maps ufm = Other ufm
  Maps splitsies = Other splitsies
  Maps ipo = Table K V
  Maps tomb = Table K V
  Maps gaps = Other gaps
  Maps ipo64 = Other ipo64
  Maps flat_btree = Other flat_btree

  module _ (other : (b : MapType) → MapApi K V (Other b)) where
    abbrev pub maps : (b : MapType) → MapApi K V (Maps b)
    maps ufm = other ufm
    maps splitsies = other splitsies
    maps ipo = tombstone_map TombstoneKind.high_tomb
    maps tomb = tombstone_map TombstoneKind.tomb_high_tag128
    maps gaps = other gaps
    maps ipo64 = other ipo64
    maps flat_btree = other flat_btree

    -- Nothing is said of the other maps.
    abbrev pub MapModels : (b : MapType) → Maps b → Assoc K V → Type ℓ
    MapModels ufm t m = Unit
    MapModels splitsies t m = Unit
    MapModels ipo t m = Models TombstoneKind.high_tomb t m
    MapModels tomb t m = Models TombstoneKind.tomb_high_tag128 t m
    MapModels gaps t m = Unit
    MapModels ipo64 t m = Unit
    MapModels flat_btree t m = Unit

    maps-MapLaws : (b : MapType) → IsTombstone b → MapLaws (maps b) (MapModels b)
    maps-MapLaws ufm u = absurd u
    maps-MapLaws splitsies u = absurd u
    maps-MapLaws ipo u = tombstone-MapLaws TombstoneKind.high_tomb
    maps-MapLaws tomb u = tombstone-MapLaws TombstoneKind.tomb_high_tag128
    maps-MapLaws gaps u = absurd u
    maps-MapLaws ipo64 u = absurd u
    maps-MapLaws flat_btree u = absurd u

    -- The map of an `OptiMap` is a tombstone map that models the abstract map, and its policy picks
    -- tombstone maps only.
    abbrev pub TombModels : OptiMap Maps → Assoc K V → Type ℓ
    TombModels = OptiModels maps MapModels IsTombstone

    -- A new `OptiMap` with a policy of tombstone maps and a capacity of at most 2 ^ 60 models the empty
    -- map, has the length 0, and has the map type that the policy has for the capacity.
    pub opti_with_policy-TombModels :
        (p : Policy) (c : ℕ)
        → ((n : ℕ) → IsTombstone (backend_for p n))
        → c ≤ most_reserved
        → TombModels (with_policy_and_capacity maps p c) nothing
          × (len maps (with_policy_and_capacity maps p c) ≡ 0)
          × (map_type maps (with_policy_and_capacity maps p c) ≡ backend_for p c)
    unfolding with_policy_and_capacity build_inner len map_type
    opti_with_policy-TombModels p c picks small =
        let (empty, zero) = (maps-MapLaws (backend_for p c) (picks c)).with_capacity_law c small in
        (record { used = picks c; models = empty; picks = picks }, zero, refl)

    -- `insert` on an `OptiMap` over the tombstone maps that models an abstract map, pinned or with a
    -- policy of tombstone maps, ends without a panic, returns the key's old value, and leaves an
    -- `OptiMap` that models the map with the new value, also when it moves the pairs to the other map
    -- on the way; the length grows by at most one and the backend stays. It has less than 2 ^ 62
    -- pairs, and the capacity after the insertion is at most 2 ^ 60.
    pub opti_insert-Kept :
        (o : OptiMap Maps) (m : Assoc K V) (k : K) (v : V)
        → TombModels o m
        → len maps o + 1 ≤ most
        → ((r : Option V × OptiMap Maps)
            → dispatch_insert maps o k v ≡ done r
            → capacity maps r.1 ≤ most_reserved)
        → Returns (Opti.insert maps o k v) (λ r.
          (r.0 ≡ m k)
          × Kept maps MapModels IsTombstone (put k (some v) m) (len maps o + 1) o.backend r.1)
    opti_insert-Kept = insert-Kept maps MapModels IsTombstone maps-MapLaws

    -- After a growth to a capacity of at most 2 ^ 60, `maybe_transition_after_grow` on an `OptiMap`
    -- over the tombstone maps of at most 2 ^ 62 pairs that models an abstract map, pinned or with a
    -- policy of tombstone maps, ends without a panic, keeps the abstract map and the backend, does
    -- not add to the length, and leaves the map type that the policy has for the new capacity, or the
    -- old one if it is pinned.
    pub opti_transition-Filled :
        (o : OptiMap Maps) (m : Assoc K V) (new_cap : ℕ)
        → TombModels o m
        → len maps o ≤ most
        → new_cap ≤ most_reserved
        → Returns (maybe_transition_after_grow maps o new_cap) (
            Filled maps MapModels IsTombstone m
              (len maps o)
              o.backend
              (chosen maps MapModels IsTombstone o.backend (map_type maps o) new_cap))
    opti_transition-Filled =
        maybe_transition_after_grow-Filled maps MapModels IsTombstone maps-MapLaws
