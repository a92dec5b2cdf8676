-- ===== src/Tomb/Refines.antt =====
-- The tombstone table keeps the laws of `RawTableApi`: src/in_place_overflow/raw/mod.rs against
-- src/raw/table_api.rs.
use optimap.Prelude.{◌+◌, ◌≡◌, false, refl, arith}
use optimap.Raw.Api.{RawTableLaws, Assoc}
use optimap.Raw.Key.{Key}
use optimap.Raw.Run.{Returns}
use optimap.Raw.Table.Ops.{next_power_of_two}
use optimap.Raw.Tag.{TombstoneKind}
use optimap.Tomb.{Table, new, allocate, is_allocated}
use optimap.Tomb.Backend.{
  tombstone_api, find_for_entry-Located, ensure_capacity-Same, put_in-StoredAt,
}
use optimap.Tomb.Erase.{replace_value-Models}
use optimap.Tomb.Fresh.{new-IsSound, clear-IsSound, allocate-fields}
use optimap.Tomb.Inv.{InTable}
use optimap.Tomb.Laws.{allocate-Models, insert_or_replace-Stored, remove_by_hash-Models}
use optimap.Tomb.Ops.{reserve, groups_for_capacity}
use optimap.Tomb.Store.{find_by_hash-Located}
use optimap.Tomb.View.{Models, value-Absent}
use optimap.Tomb.Reserve.{reserve-Same}

one_group : groups_for_capacity 1 ≡ 1
unfolding groups_for_capacity next_power_of_two
one_group = refl

module _ {ℓ} {K V : Type ℓ} (tag : TombstoneKind) ⦃key : Key K⦄ where
  -- The first reservation of one place allocates one group.
  reserve-Models :
      (t : Table K V) (m : Assoc K V)
      → Models tag t m
      → is_allocated t ≡ false
      → Returns (reserve tag t 1) (λ r. Models tag r m × (r.len ≡ t.len))
  unfolding reserve
  reserve-Models t m mo e =
      let (ma, z) = allocate-Models tag t m mo e in
      let needed : t.len + 1 ≡ 1 = omega (arith, z) in
      (allocate t 1, rw (reserve, e, needed, one_group) refl, (ma, (allocate-fields t 1).1))

  -- The tombstone table keeps the laws of RawTableLaws over the abstract map that it models. `new`
  -- and `clear` model the empty map. `find_by_hash` finds the key's pair or none; a value written at
  -- the pair's slot replaces the key's value. `insert_or_replace` and `remove_by_hash` return what
  -- the key had and change its value alone. `find_for_entry` finds the key, or prepares an insertion
  -- that puts in any value for it. `ensure_capacity`, and `reserve` for at most 2 ^ 60 pairs, keep
  -- the map, as the first `reserve` of one place does; `insert_no_check` after `ensure_capacity` puts
  -- in a key that the map does not have. All of them end without a panic, and those that may grow the
  -- table have at most 2 ^ 62 pairs to start with.
  pub tombstone-RawTableLaws : RawTableLaws {K = K} {V = V} (tombstone_api tag) InTable (Models tag)
  unfolding new
  tombstone-RawTableLaws = record {
    new_law =
        let (s, gone) = new-IsSound tag in
        (record { sound = s; agrees = λ k v h. gone k v h }, refl);
    clear_law = λ t m mo.
        let (s, gone, n, a, b) = clear-IsSound tag t mo.sound in
        (record { sound = s; agrees = λ k v h. gone k v h }, n);
    find_law = λ t m k mo. find_by_hash-Located tag t m k mo;
    write_law = λ t m gi si k old v mo inside e.
        let (a, b, c, d) = replace_value-Models tag t m mo gi si k old inside e v in (a, b, c);
    insert_law = λ t m k v mo few. insert_or_replace-Stored tag t m k v mo few;
    remove_law = λ t m k mo. remove_by_hash-Models tag t m k mo;
    entry_law = λ t m k mo few. find_for_entry-Located tag t m k mo few;
    ensure_law = λ t m mo few. ensure_capacity-Same tag t m mo few;
    put_in_law =
        λ t m k v mo few e. put_in-StoredAt tag t m k mo few (value-Absent tag t m mo k e) v;
    reserve_law = λ t m n mo few. reserve-Same tag t m n mo few;
    first_reserve_law = λ t m mo e. reserve-Models t m mo e;
  }
