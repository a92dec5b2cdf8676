-- ===== src/Tomb/Rehash.antt =====
-- `rehash_with` and `grow_or_rehash` of src/in_place_overflow/raw/mod.rs.
use optimap.Prelude.{ℕ, ◌+◌, ◌*◌, leb, if◌then◌else◌, not, none, List}
use optimap.Raw.Bitmask.{to_list}
use optimap.Raw.Key.{Key}
use optimap.Raw.Run.{Run, done, ◌>>=◌}
use optimap.Raw.Tag.{TombstoneKind}
use optimap.Raw.Transfer.{transfer_groups}
use optimap.Tomb.{
  Table, allocate, empty_sentinel, meta_ptr, bucket_index, minus, is_allocated, group_size,
  max_load_for_capacity,
}
use optimap.Tomb.Group.{match_occupied}
use optimap.Tomb.Insert.{insert_after_resize}

module _ {ℓ} {K V : Type ℓ} where
  -- `Group::match_occupied(group_meta)`, iterated
  unfoldable pub occupied_slots : Table K V → ℕ → List ℕ
  occupied_slots t gi = to_list (match_occupied t.ctrl (meta_ptr gi))

  -- The number of groups that `grow_or_rehash` asks for.
  unfoldable pub groups_to_grow : Table K V → ℕ
  groups_to_grow t =
      if not (is_allocated t)
      then 1
      else (if leb (max_load_for_capacity ((t.mask + 1) * group_size)) t.len
          then (t.mask + 1) * 2
          else t.mask + 1)

  module _ (tag : TombstoneKind) ⦃key : Key K⦄ where
    -- The two loops over the occupied slots of all groups of the old table.
    unfoldable pub move_groups : Table K V → Table K V → Run (Table K V)
    move_groups old t =
        transfer_groups (λ gi si. old.buckets (bucket_index gi si)) (occupied_slots old)
          (λ u k v. insert_after_resize tag u (key.hash k) k v) 0 (old.mask + 1) t

    unfoldable pub rehash_with : Table K V → ℕ → Run (Table K V)
    rehash_with t new_num_groups =
        let reset : Table K V = record {
          mask = 0;
          ctrl = empty_sentinel;
          buckets = λ i. none;
          len = 0;
          growth_left = t.growth_left;
          max_load = 0;
        } in
        let fresh = allocate reset new_num_groups in
        if not (is_allocated t) then done fresh else (do
          moved ← move_groups t fresh
          left ← minus moved.growth_left t.len
          done (record moved { len = t.len; growth_left = left }))

    unfoldable pub grow_or_rehash : Table K V → Run (Table K V)
    grow_or_rehash t = rehash_with t (groups_to_grow t)
