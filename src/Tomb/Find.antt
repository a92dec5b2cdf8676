-- ===== src/Tomb/Find.antt =====
-- `find_by_hash` of src/in_place_overflow/raw/mod.rs.
use optimap.Prelude.{ℕ, zero, suc, ◌+◌, Bool, true, false, Option, none, some}
use optimap.Raw.Bitmask.{to_list, any_set}
use optimap.Raw.Group.{first_where}
use optimap.Raw.Probe.{next_group}
use optimap.Raw.Run.{Run, done, spin}
use optimap.Raw.Tag.{TombstoneKind, reduced_hash}
use optimap.Tomb.{Table, group_index, meta_ptr, bucket_index}
use optimap.Tomb.Group.{match_byte, match_empty}

module _ {ℓ} {K V : Type ℓ} (tag : TombstoneKind) where
  -- `eq(key)` of the key at a slot. The code reads a key only where the slot has a tag, which is
  -- where the bucket holds a pair.
  unfoldable pub key_test : Table K V → (K → Bool) → ℕ → ℕ → Bool
  unfolding bucket_index
  key_test t eq gi si = elim (t.buckets (bucket_index gi si)) [
    | none ↦ false
    | some (key, value) ↦ eq key
  ]

  -- `for si in matches { if eq(key) { return .. } }`
  unfoldable pub match_in_group : Table K V → ℕ → (K → Bool) → ℕ → Option ℕ
  unfolding key_test match_byte
  match_in_group t reduced eq gi =
      first_where (to_list (match_byte t.ctrl (meta_ptr gi) reduced)) (key_test t eq gi)

  -- The loop, with a number of rounds. `probe` is the number of the round.
  unfoldable pub find_loop : Table K V → ℕ → (K → Bool) → ℕ → ℕ → ℕ → Run (Option (ℕ × ℕ))
  unfolding match_in_group match_empty
  find_loop t h eq zero gi probe = spin
  find_loop t h eq (suc f) gi probe = elim (match_in_group t (reduced_hash tag h) eq gi) [
    | some si ↦ done (some (gi, si))
    | none ↦ elim (any_set (match_empty t.ctrl (meta_ptr gi))) [
      | true ↦ done none
      | false ↦ find_loop t h eq f (next_group t.mask gi (probe + 1)) (probe + 1)
    ]
  ]

  -- One round for each group of the table.
  unfoldable pub find_by_hash : Table K V → ℕ → (K → Bool) → Run (Option (ℕ × ℕ))
  unfolding find_loop
  find_by_hash t h eq = find_loop t h eq (t.mask + 1) (group_index t h) 0
