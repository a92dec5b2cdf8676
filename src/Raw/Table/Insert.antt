-- ===== src/Raw/Table/Insert.antt =====
-- `insert_no_check_impl` and `insert_at_impl` of src/raw/overflow_table.rs.
pub mod Laws
pub mod Sound
use optimap.Prelude.{
  ℕ, zero, suc, ◌+◌, ◌/◌, ◌%◌, ◌==◌, bit_and, if◌then◌else◌, Bool, true, false, not, Option, none,
  some,
}
use optimap.Raw.Bitmask.{lowest_set_bit}
use optimap.Raw.Group.{match_empty}
use optimap.Raw.Layout.{Layout}
use optimap.Raw.Layout.Memory.{meta_ptr}
use optimap.Raw.Probe.{next_group}
use optimap.Raw.Run.{Run, done, spin}
use optimap.Raw.Table.{Table, group_index, fill_slot, mark_overflow}
use optimap.Raw.Tag.{tag}

module _ {ℓ} {K V : Type ℓ} (l : Layout) where
  unfoldable pub empty_in_group : Table K V → ℕ → Option ℕ
  empty_in_group t gi =
      lowest_set_bit (match_empty l.meta_stride l.slot_mask t.ctrl (meta_ptr l gi))

  unfoldable pub insert_no_check_loop :
      Table K V → ℕ → K → V → ℕ → ℕ → ℕ → Run (Table K V × (ℕ × ℕ))
  insert_no_check_loop t h key value zero gi probe = spin
  insert_no_check_loop t h key value (suc f) gi probe = elim (empty_in_group t gi) [
    | some si ↦ done (fill_slot l t gi si (tag l.feature l.tag_kind h) key value, (gi, si))
    | none ↦
        insert_no_check_loop (mark_overflow l t gi h) h key value f
          (next_group t.mask gi (probe + 1)) (probe + 1)
  ]

  unfoldable pub insert_no_check : Table K V → ℕ → K → V → Run (Table K V × (ℕ × ℕ))
  insert_no_check t h key value =
      insert_no_check_loop t h key value (t.mask + 1) (group_index l t h) 0

  -- The `while mask != 0` loop over the bits of a `u8`.
  unfoldable pub mark_path : Table K V → ℕ → ℕ → ℕ → ℕ → ℕ → Table K V
  mark_path t h zero set_gi set_probe mask = t
  mark_path t h (suc f) set_gi set_probe mask = elim (mask == 0) [
    | true ↦ t
    | false ↦
        mark_path (if bit_and mask 1 == 0 then t else mark_overflow l t set_gi h) h f
          (next_group t.mask set_gi (set_probe + 1)) (set_probe + 1) (mask / 2)
  ]

  unfoldable pub insert_at : Table K V → ℕ → ℕ → ℕ → K → V → ℕ → Table K V
  unfolding mark_path
  insert_at t h gi si key value full_mask =
      let marked = if full_mask == 0 then t else mark_path t h 8 (group_index l t h) 0 full_mask in
      fill_slot l marked gi si (tag l.feature l.tag_kind h) key value
