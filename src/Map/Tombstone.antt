-- ===== src/Map/Tombstone.antt =====
-- `GenericMap` of src/generic_map.rs over the tombstone table of src/in_place_overflow/raw/mod.rs.
use optimap.Prelude.{◌≤◌, ◌≡◌, List, arith}
use optimap.Map.Trace.{Call, calls, spec_calls, run_calls, run_calls-spec_calls}
use optimap.Raw.Api.{most, nothing}
use optimap.Raw.Key.{Key}
use optimap.Raw.Run.{Returns}
use optimap.Raw.Tag.{TombstoneKind}
use optimap.Tomb.{new}
use optimap.Tomb.Backend.{tombstone_api}
use optimap.Tomb.Inv.{InTable}
use optimap.Tomb.Refines.{tombstone-RawTableLaws}
use optimap.Tomb.View.{Models}

module _ {ℓ} {K V : Type ℓ} (tag : TombstoneKind) ⦃key : Key K⦄ where
  -- Any sequence of at most 2 ^ 62 calls of get, remove, insert, or_insert and clear on a new map
  -- over the tombstone table ends without a panic and returns exactly what the same calls return on
  -- an empty abstract map.
  pub tombstone_calls-spec_calls :
      (cs : List (Call K V))
      → calls cs ≤ most
      → Returns (run_calls (tombstone_api tag) new cs) (λ r. r.0 ≡ (spec_calls nothing cs).0)
  unfolding new
  tombstone_calls-spec_calls cs few =
      let laws = tombstone-RawTableLaws {K = K} {V = V} tag in
      let (r, run, (a, b)) =
        run_calls-spec_calls (tombstone_api tag) InTable (Models tag) laws cs new nothing
          laws.new_law.0 (omega (arith, laws.new_law.1, few)) in
      (r, run, a)
