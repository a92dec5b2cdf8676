-- ===== src/Raw/Table/Rehash.antt =====
-- Moving every pair to a new allocation: `rehash_with_impl` and `grow_and_rehash` of
-- src/raw/overflow_table.rs.
pub mod Laws
pub mod Moved
use optimap.Prelude.{
  ℕ, zero, suc, ◌+◌, ◌*◌, ◌==◌, ltb, if◌then◌else◌, Bool, true, false, Option, none, some, List, [],
  ◌∷◌,
}
use optimap.Raw.Bitmask.{to_list}
use optimap.Raw.Group.{match_non_empty}
use optimap.Raw.Key.{Key}
use optimap.Raw.Layout.{Layout, bucket_index}
use optimap.Raw.Layout.Memory.{meta_ptr}
use optimap.Raw.Run.{Run, done, ◌>>=◌}
use optimap.Raw.Table.{Table, allocate, empty_sentinel}
use optimap.Raw.Table.Insert.{insert_no_check}

module _ {ℓ} {K V : Type ℓ} (l : Layout) where
  -- `match_non_empty(group_meta)`, iterated
  unfoldable pub occupied_slots : Table K V → ℕ → List ℕ
  occupied_slots t gi = to_list (match_non_empty l.meta_stride l.slot_mask t.ctrl (meta_ptr l gi))

  module _ ⦃key : Key K⦄ where
    -- The inner loop, over the occupied slots of group `gi` of the old table.
    unfoldable pub move_slots : Table K V → ℕ → List ℕ → Table K V → Run (Table K V)
    move_slots old gi [] t = done t
    move_slots old gi (si ∷ sis) t = elim (old.buckets (bucket_index l gi si)) [
      | none ↦ move_slots old gi sis t
      | some (k, v) ↦ do (t', pos) ← insert_no_check l t (key.hash k) k v; move_slots old gi sis t'
    ]

    -- The outer loop, over the `n` groups from `gi` on.
    unfoldable pub move_groups : Table K V → ℕ → ℕ → Table K V → Run (Table K V)
    unfolding move_slots occupied_slots
    move_groups old gi zero t = done t
    move_groups old gi (suc n) t =
        move_slots old gi (occupied_slots old gi) t >>= move_groups old (gi + 1) n

    unfoldable pub rehash_with : Table K V → ℕ → Run (Table K V)
    unfolding move_groups
    rehash_with t new_num_groups =
        let reset : Table K V = record t {
          ctrl = empty_sentinel;
          buckets = λ i. none;
          mask = 0;
          len = 0;
          max_load = 0;
        } in
        let fresh = allocate l reset new_num_groups in
        if ltb 0 t.max_load then move_groups t 0 (t.mask + 1) fresh else done fresh

    unfoldable pub grow_and_rehash : Table K V → Run (Table K V)
    unfolding rehash_with
    grow_and_rehash t = rehash_with t (if t.max_load == 0 then 1 else (t.mask + 1) * 2)
