-- ===== src/Tomb/Locate.antt =====
-- `find_or_locate`, its slow path, and `find_for_entry` of src/in_place_overflow/raw/mod.rs.
use optimap.Prelude.{ℕ, zero, suc, ◌+◌, ◌==◌, Bool, true, false, Option, none, some, if◌then◌else◌}
use optimap.Raw.Api.{EntryProbe, entry_found, vacant}
use optimap.Raw.Bitmask.{to_list, lowest_set_bit, any_set}
use optimap.Raw.Group.{first_where}
use optimap.Raw.Probe.{next_group}
use optimap.Raw.Run.{Run, done, spin, ◌>>=◌}
use optimap.Raw.Tag.{TombstoneKind, reduced_hash}
use optimap.Tomb.{Table, group_index, meta_ptr, tombstone}
use optimap.Tomb.Find.{key_test, find_by_hash}
use optimap.Tomb.Group.{match_byte, match_byte_and_empty}
use optimap.Tomb.Insert.{track_tombstone}

pub data ProbeResult : Type 0 where
  found : ℕ → ℕ → ProbeResult
  insert_slot : ℕ → ℕ → ℕ → ProbeResult
  not_found : ProbeResult

unfoldable pub to_probe_result : Option (ℕ × ℕ) → ProbeResult
to_probe_result (some (gi, si)) = ProbeResult.insert_slot gi si 0
to_probe_result none = ProbeResult.not_found

unfoldable pub to_entry_probe : ProbeResult → EntryProbe
to_entry_probe (ProbeResult.found gi si) = entry_found gi si
to_entry_probe (ProbeResult.insert_slot gi si mask) = vacant (some (gi, si, mask))
to_entry_probe ProbeResult.not_found = vacant none

module _ {ℓ} {K V : Type ℓ} where
  -- The first available slot: a tombstone of the group before an EMPTY slot of it.
  unfoldable pub track_available : Table K V → ℕ → ℕ → Option (ℕ × ℕ) → Option (ℕ × ℕ)
  track_available t gi empties (some p) = some p
  track_available t gi empties none =
      elim (lowest_set_bit (match_byte t.ctrl (meta_ptr gi) tombstone)) [
        | some tsi ↦ some (gi, tsi)
        | none ↦ elim (lowest_set_bit empties) [ some si ↦ some (gi, si) | none ↦ none ]
      ]

module _ {ℓ} {K V : Type ℓ} (tag : TombstoneKind) where
  unfoldable pub locate_loop :
      Table K V → (K → Bool) → ℕ → Option (ℕ × ℕ) → ℕ → ℕ → ℕ → Run ProbeResult
  locate_loop t eq reduced first_available zero gi probe = spin
  locate_loop t eq reduced first_available (suc f) gi probe =
      let (matches, empties) = match_byte_and_empty t.ctrl (meta_ptr gi) reduced in
      elim (first_where (to_list matches) (key_test tag t eq gi)) [
        | some si ↦ done (ProbeResult.found gi si)
        | none ↦
            let first = track_available t gi empties first_available in
            elim (any_set empties) [
              | true ↦ done (to_probe_result first)
              | false ↦
                  locate_loop t eq reduced first f (next_group t.mask gi (probe + 1)) (probe + 1)
            ]
      ]

  -- The rounds after the one for the home group.
  unfoldable pub find_or_locate_overflow :
      Table K V → (K → Bool) → ℕ → ℕ → Option (ℕ × ℕ) → Run ProbeResult
  find_or_locate_overflow t eq reduced home_gi first_available =
      locate_loop t eq reduced first_available t.mask (next_group t.mask home_gi 1) 1

  unfoldable pub find_or_locate : Table K V → ℕ → (K → Bool) → Run ProbeResult
  find_or_locate t h eq =
      let reduced = reduced_hash tag h in
      let gi = group_index t h in
      let (matches, empties) = match_byte_and_empty t.ctrl (meta_ptr gi) reduced in
      elim (first_where (to_list matches) (key_test tag t eq gi)) [
        | some si ↦ done (ProbeResult.found gi si)
        | none ↦ elim (lowest_set_bit empties) [
          | some si ↦ elim (lowest_set_bit (match_byte t.ctrl (meta_ptr gi) tombstone)) [
            | some tsi ↦ done (ProbeResult.insert_slot gi tsi 0)
            | none ↦ done (ProbeResult.insert_slot gi si 0)
          ]
          | none ↦ find_or_locate_overflow t eq reduced gi (track_tombstone t gi none)
        ]
      ]

  unfoldable pub find_for_entry : Table K V → ℕ → (K → Bool) → Run EntryProbe
  find_for_entry t h eq =
      if t.growth_left == 0
      then (do
        pos ← find_by_hash tag t h eq
        elim pos [ some (gi, si) ↦ done (entry_found gi si) | none ↦ done (vacant none) ])
      else let gi = group_index t h in
        let (matches, empties) = match_byte_and_empty t.ctrl (meta_ptr gi) (reduced_hash tag h) in
        elim (first_where (to_list matches) (key_test tag t eq gi)) [
          | some si ↦ done (entry_found gi si)
          | none ↦ elim (lowest_set_bit empties) [
            | some si ↦ done (vacant (some (gi, si, 0)))
            | none ↦ do r ← find_or_locate t h eq; done (to_entry_probe r)
          ]
        ]
