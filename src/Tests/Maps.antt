-- ===== src/Tests/Maps.antt =====
-- Concrete `OptiMap`s of src/optimap.rs over tombstone maps, and the theorems about `OptiMap` at them.
use optimap.Prelude.{
  ℕ, ◌+◌, ◌≤◌, ◌≡◌, Option, some, [], ◌∷◌, refl, ap, arith, leb, Bool-cases, inl, inr, true,
}
use optimap.Tests.{number_key}
use optimap.Opti.{
  MapApi, OptiMap, auto_backend, map_type, len, capacity, insert, dispatch_insert,
  maybe_transition_after_grow, with_policy_and_capacity,
}
use optimap.Opti.Laws.{Filled, Kept}
use optimap.Opti.Tombstone.{
  tombstone_map, Maps, maps, MapModels, IsTombstone, TombModels, opti_insert-Kept,
  opti_transition-Filled, opti_with_policy-TombModels,
}
use optimap.Policy.{
  MapType, Policy, ipo, tomb, backend_for, partition_point, get_band, or_splitsies,
}
use optimap.Raw.Api.{put, most_reserved}
use optimap.Raw.Run.{Run, done, spin, panic, Returns}
use optimap.Raw.Tag.{TombstoneKind}
use optimap.Tomb.{Table, new, is_allocated, allocate, group_index, fill_slot}
use optimap.Tomb.Refines.{tombstone-RawTableLaws}
use optimap.Map
use optimap.Tomb
use optimap.Tomb.Ops.{insert_or_replace, insert_fast}
use optimap.Tomb.Group.{match_byte_and_empty}
use optimap.Raw.Group.{first_where}
use optimap.Raw.Bitmask.{to_list, lowest_set_bit}
use optimap.Raw.Bitmask.Positions.{word}
use optimap.Raw.Tag.{reduced_hash}
use optimap.Tests.Tombs.{one_pair, one_map, one_pair-Models, one_pair-len, no_pairs}

-- The maps of the other variants: a tombstone map, too.
abbrev Other : MapType → Type 0
Other b = Table ℕ ℕ

abbrev other : (b : MapType) → MapApi ℕ ℕ (Other b)
other b = tombstone_map TombstoneKind.low_tomb

abbrev all : (b : MapType) → MapApi ℕ ℕ (Maps ℕ ℕ Other b)
all = maps ℕ ℕ Other other

-- From a capacity of 16 on the other tombstone map is picked.
abbrev policy : Policy
policy = (0, ipo) ∷ (16, tomb) ∷ []

policy-IsTombstone : (n : ℕ) → IsTombstone (backend_for policy n)
unfolding backend_for partition_point get_band or_splitsies
policy-IsTombstone n =
    let low : leb 0 n ≡ true = ground arith in
    elim (Bool-cases (leb 16 n)) [ inl e ↦ rw (low, e) tt | inr e ↦ rw (low, e) tt ]

-- A new map: the first insertion gives it a capacity of 16.
abbrev empty_map : OptiMap (Maps ℕ ℕ Other)
empty_map = record { inner = (ipo, new); backend = auto_backend policy }

empty_map-TombModels : TombModels ℕ ℕ Other other empty_map no_pairs
empty_map-TombModels = record {
  used = tt;
  models = (tombstone-RawTableLaws TombstoneKind.high_tomb).new_law.0;
  picks = policy-IsTombstone;
}

empty_map-len : len all empty_map ≡ 0
unfolding len new
empty_map-len = refl

capacity_of : Run (Option ℕ × OptiMap (Maps ℕ ℕ Other)) → ℕ
capacity_of (done r) = capacity all r.1
capacity_of spin = 0
capacity_of panic = 0

capacity_of-insert : capacity_of (dispatch_insert all empty_map 5 50) ≡ 16
unfolding capacity_of dispatch_insert capacity Map.insert insert_or_replace is_allocated new
    allocate insert_fast first_where to_list match_byte_and_empty word group_index number_key
    reduced_hash lowest_set_bit fill_slot Tomb.capacity
capacity_of-insert = refl

after-capacity :
    (r : Option ℕ × OptiMap (Maps ℕ ℕ Other))
    → dispatch_insert all empty_map 5 50 ≡ done r
    → capacity all r.1 ≤ most_reserved
unfolding capacity_of
after-capacity r e = omega (arith, capacity_of-insert, ap capacity_of e)

opti_insert-Kept_example : Returns (insert all empty_map 5 50) (λ r.
    (r.0 ≡ no_pairs 5)
    × Kept all
        (MapModels ℕ ℕ Other other)
        IsTombstone
        (put 5 (some 50) no_pairs)
        (len all empty_map + 1)
        empty_map.backend
        r.1)
opti_insert-Kept_example =
    opti_insert-Kept ℕ ℕ Other other empty_map no_pairs 5 50 empty_map-TombModels
      (omega (arith, empty_map-len)) after-capacity

-- A map with the one pair 5, 50.
abbrev one_pair_map : OptiMap (Maps ℕ ℕ Other)
one_pair_map = record { inner = (ipo, one_pair); backend = auto_backend policy }

one_pair_map-TombModels : TombModels ℕ ℕ Other other one_pair_map one_map
one_pair_map-TombModels = record { used = tt; models = one_pair-Models; picks = policy-IsTombstone }

one_pair_map-len : len all one_pair_map ≤ 1
unfolding len
one_pair_map-len = one_pair-len

-- The pairs move to the other map.
opti_transition-Filled_example : Returns (maybe_transition_after_grow all one_pair_map 16) (
    Filled all
      (MapModels ℕ ℕ Other other)
      IsTombstone
      one_map
      (len all one_pair_map)
      one_pair_map.backend
      tomb)
unfolding backend_for partition_point get_band or_splitsies
opti_transition-Filled_example =
    opti_transition-Filled ℕ ℕ Other other one_pair_map one_map 16 one_pair_map-TombModels
      (omega (arith, one_pair_map-len)) (omega arith)

opti_with_policy-TombModels_example :
    TombModels ℕ ℕ Other other (with_policy_and_capacity all policy 20) no_pairs
    × (len all (with_policy_and_capacity all policy 20) ≡ 0)
    × (map_type all (with_policy_and_capacity all policy 20) ≡ backend_for policy 20)
opti_with_policy-TombModels_example =
    opti_with_policy-TombModels ℕ ℕ Other other policy 20 policy-IsTombstone (omega arith)
