-- ===== src/Raw/Table/Find.antt =====
-- `find_by_hash_impl` of src/raw/overflow_table.rs.
pub mod Laws
pub mod Miss
use optimap.Prelude.{ℕ, zero, suc, ◌+◌, Bool, true, false, Option, none, some}
use optimap.Raw.Bitmask.{to_list}
use optimap.Raw.Group.{match_byte, first_where}
use optimap.Raw.Layout.{Layout, bucket_index}
use optimap.Raw.Layout.Memory.{meta_ptr, has_at}
use optimap.Raw.Probe.{next_group}
use optimap.Raw.Run.{Run, done, spin}
use optimap.Raw.Table.{Table, group_index}
use optimap.Raw.Tag.{tag}

module _ {ℓ} {K V : Type ℓ} (l : Layout) where
  -- `eq(&*self.key_ptr_impl(gi, si))`. The code reads a key only where the slot has a tag, which
  -- is where the bucket holds a pair.
  unfoldable pub key_test : Table K V → (K → Bool) → ℕ → ℕ → Bool
  key_test t eq gi si = elim (t.buckets (bucket_index l gi si)) [
    | none ↦ false
    | some (key, value) ↦ eq key
  ]

  -- The first slot of the group with the tag whose key passes the test.
  unfoldable pub match_in_group : Table K V → ℕ → (K → Bool) → ℕ → Option ℕ
  match_in_group t reduced eq gi =
      first_where (to_list (match_byte l.meta_stride l.slot_mask t.ctrl (meta_ptr l gi) reduced))
        (key_test t eq gi)

  -- The loop, with a number of rounds. `probe` is the number of the round.
  unfoldable pub find_loop : Table K V → ℕ → (K → Bool) → ℕ → ℕ → ℕ → Run (Option (ℕ × ℕ))
  find_loop t h eq zero gi probe = spin
  find_loop t h eq (suc f) gi probe = elim (match_in_group t (tag l.feature l.tag_kind h) eq gi) [
    | some si ↦ done (some (gi, si))
    | none ↦ elim (has_at l t.mask t.ctrl gi h) [
      | false ↦ done none
      | true ↦ find_loop t h eq f (next_group t.mask gi (probe + 1)) (probe + 1)
    ]
  ]

  -- One round for each group of the table.
  unfoldable pub find_by_hash : Table K V → ℕ → (K → Bool) → Run (Option (ℕ × ℕ))
  find_by_hash t h eq = find_loop t h eq (t.mask + 1) (group_index l t h) 0
