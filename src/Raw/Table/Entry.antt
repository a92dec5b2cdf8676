-- ===== src/Raw/Table/Entry.antt =====
-- The searches behind the entry API: `find_or_locate_impl`, `find_or_locate_overflow` and
-- `find_for_entry` of src/raw/overflow_table.rs.
use optimap.Prelude.{
  ℕ, zero, suc, ◌+◌, ◌^◌, bit_or, ltb, leb, if◌then◌else◌, Bool, true, false, not, Option, none,
  some,
}
use optimap.Raw.Api.{EntryProbe, entry_found, vacant}
use optimap.Raw.Bitmask.{lowest_set_bit, to_list}
use optimap.Raw.Group.{match_byte_and_empty, first_where}
use optimap.Raw.Key.{Key}
use optimap.Raw.Layout.{Layout}
use optimap.Raw.Layout.Memory.{meta_ptr, has_at}
use optimap.Raw.Probe.{next_group}
use optimap.Raw.Run.{Run, done, spin, ◌>>=◌}
use optimap.Raw.Table.{Table, group_index}
use optimap.Raw.Table.Find.{find_by_hash, key_test}
use optimap.Raw.Tag.{tag}

pub data FindOrLocateResult : Type 0 where
  found : ℕ → ℕ → FindOrLocateResult
  insert_slot : ℕ → ℕ → ℕ → FindOrLocateResult
  not_found : FindOrLocateResult

-- The end of the search at a group without the overflow bit.
located : Option (ℕ × ℕ) → ℕ → FindOrLocateResult
located none full_mask = not_found
located (some (gi, si)) full_mask = insert_slot gi si full_mask

-- `match self.find_or_locate_impl(..)`
as_probe : FindOrLocateResult → EntryProbe
as_probe (found gi si) = entry_found gi si
as_probe (insert_slot gi si mask) = vacant (some (gi, si, mask))
as_probe not_found = vacant none

module _ {ℓ} {K V : Type ℓ} (l : Layout) where
  -- The loop of `find_or_locate_overflow`, with a number of rounds.
  unfoldable pub locate_loop :
      Table K V → ℕ → (K → Bool) → ℕ → ℕ → ℕ → Option (ℕ × ℕ) → ℕ → Run FindOrLocateResult
  unfolding located
  locate_loop t h eq zero gi probe first_empty full_mask = spin
  locate_loop t h eq (suc f) gi probe first_empty full_mask =
      let (matches, empties) =
        match_byte_and_empty l.meta_stride l.slot_mask t.ctrl (meta_ptr l gi)
          (tag l.feature l.tag_kind h) in
      let first_empty' : Option (ℕ × ℕ) = elim first_empty [
        | some pos ↦ some pos
        | none ↦ elim (lowest_set_bit empties) [ some si ↦ some (gi, si) | none ↦ none ]
      ] in
      let full_mask' : ℕ = elim first_empty [
        | some pos ↦ full_mask
        | none ↦ elim (lowest_set_bit empties) [
          | some si ↦ full_mask
          | none ↦ if ltb probe 8 then bit_or full_mask (2 ^ probe) else full_mask
        ]
      ] in
      elim (first_where (to_list matches) (key_test l t eq gi)) [
        | some si ↦ done (found gi si)
        | none ↦ elim (has_at l t.mask t.ctrl gi h) [
          | false ↦ done (located first_empty' full_mask')
          | true ↦
              locate_loop t h eq f (next_group t.mask gi (probe + 1)) (probe + 1) first_empty'
                full_mask'
        ]
      ]

  unfoldable pub find_or_locate : Table K V → ℕ → (K → Bool) → Run FindOrLocateResult
  find_or_locate t h eq =
      let gi = group_index l t h in
      let (matches, empties) =
        match_byte_and_empty l.meta_stride l.slot_mask t.ctrl (meta_ptr l gi)
          (tag l.feature l.tag_kind h) in
      elim (first_where (to_list matches) (key_test l t eq gi)) [
        | some si ↦ done (found gi si)
        | none ↦ elim (lowest_set_bit empties) [
          | some si ↦
              if not (has_at l t.mask t.ctrl gi h)
              then done (insert_slot gi si 0)
              else locate_loop t h eq (t.mask + 1) (next_group t.mask gi 1) 1 (some (gi, si)) 0
          | none ↦
              if not (has_at l t.mask t.ctrl gi h)
              then done not_found
              else locate_loop t h eq (t.mask + 1) (next_group t.mask gi 1) 1 none 1
        ]
      ]

  unfoldable pub find_for_entry : ⦃key : Key K⦄ → Table K V → K → Run EntryProbe
  unfolding as_probe
  find_for_entry ⦃key⦄ t k =
      let h = key.hash k in
      let gi = group_index l t h in
      let (matches, empties) =
        match_byte_and_empty l.meta_stride l.slot_mask t.ctrl (meta_ptr l gi)
          (tag l.feature l.tag_kind h) in
      let search = find_or_locate t h (key.equal k) >>= (λ r. done (as_probe r)) in
      if leb t.max_load t.len
      then find_by_hash l t h (key.equal k)
        >>= (λ r. elim r [ some (gi', si) ↦ done (entry_found gi' si) | none ↦ done (vacant none) ])
      else elim (first_where (to_list matches) (key_test l t (key.equal k) gi)) [
        | some si ↦ done (entry_found gi si)
        | none ↦ elim (lowest_set_bit empties) [
          | none ↦ search
          | some si ↦
              if not (has_at l t.mask t.ctrl gi h) then done (vacant (some (gi, si, 0))) else search
        ]
      ]
