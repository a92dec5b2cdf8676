-- ===== src/Tomb/Insert.antt =====
-- `insert_no_check`, `insert_after_resize` and `insert_at` of src/in_place_overflow/raw/mod.rs.
use optimap.Prelude.{ℕ, zero, suc, ◌+◌, ◌==◌, Bool, true, false, Option, none, some}
use optimap.Raw.Bitmask.{lowest_set_bit}
use optimap.Raw.Group.{empty, get_meta}
use optimap.Raw.Probe.{next_group}
use optimap.Raw.Run.{Run, done, spin, ◌>>=◌}
use optimap.Raw.Tag.{TombstoneKind, reduced_hash}
use optimap.Tomb.{Table, group_index, meta_ptr, tombstone, write_slot, fill_slot}
use optimap.Tomb.Group.{match_byte, match_empty}

-- The slot that takes the pair, and whether it was EMPTY: the first tombstone, if there was one.
unfoldable pub choose_slot : Option (ℕ × ℕ) → ℕ → ℕ → ℕ × ℕ × Bool
choose_slot none gi si = (gi, si, true)
choose_slot (some (tgi, tsi)) gi si = (tgi, tsi, false)

module _ {ℓ} {K V : Type ℓ} where
  -- `if first_tombstone.is_none() && let Some(si) = .. { first_tombstone = Some((gi, si)) }`
  unfoldable pub track_tombstone : Table K V → ℕ → Option (ℕ × ℕ) → Option (ℕ × ℕ)
  track_tombstone t gi (some p) = some p
  track_tombstone t gi none = elim (lowest_set_bit (match_byte t.ctrl (meta_ptr gi) tombstone)) [
    | none ↦ none
    | some si ↦ some (gi, si)
  ]

module _ {ℓ} {K V : Type ℓ} (tag : TombstoneKind) where
  unfoldable pub insert_no_check_loop :
      Table K V → ℕ → K → V → Option (ℕ × ℕ) → ℕ → ℕ → ℕ → Run (Table K V × (ℕ × ℕ))
  insert_no_check_loop t h key value first_tombstone zero gi probe = spin
  insert_no_check_loop t h key value first_tombstone (suc f) gi probe =
      let first = track_tombstone t gi first_tombstone in
      elim (lowest_set_bit (match_empty t.ctrl (meta_ptr gi))) [
        | some si ↦ do
          let (ins_gi, ins_si, decrement) = choose_slot first gi si
          t' ← fill_slot t ins_gi ins_si (reduced_hash tag h) key value decrement
          done (t', (ins_gi, ins_si))
        | none ↦
            insert_no_check_loop t h key value first f (next_group t.mask gi (probe + 1))
              (probe + 1)
      ]

  unfoldable pub insert_no_check : Table K V → ℕ → K → V → Run (Table K V × (ℕ × ℕ))
  insert_no_check t h key value =
      insert_no_check_loop t h key value none (t.mask + 1) (group_index t h) 0

  unfoldable pub insert_after_resize_loop : Table K V → ℕ → K → V → ℕ → ℕ → ℕ → Run (Table K V)
  insert_after_resize_loop t h key value zero gi probe = spin
  insert_after_resize_loop t h key value (suc f) gi probe =
      elim (lowest_set_bit (match_empty t.ctrl (meta_ptr gi))) [
        | some si ↦ done (write_slot t gi si (reduced_hash tag h) (some (key, value)))
        | none ↦
            insert_after_resize_loop t h key value f (next_group t.mask gi (probe + 1)) (probe + 1)
      ]

  unfoldable pub insert_after_resize : Table K V → ℕ → K → V → Run (Table K V)
  insert_after_resize t h key value =
      insert_after_resize_loop t h key value (t.mask + 1) (group_index t h) 0

  -- The last argument, `_full_mask`, is not read.
  unfoldable pub insert_at : Table K V → ℕ → ℕ → ℕ → K → V → ℕ → Run (Table K V)
  insert_at t h gi si key value full_mask =
      fill_slot t gi si (reduced_hash tag h) key value (get_meta t.ctrl (meta_ptr gi) si == empty)
