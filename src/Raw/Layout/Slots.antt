-- ===== src/Raw/Layout/Slots.antt =====
-- The masks of a group of a table in terms of its tags: src/raw/group_layout.rs.
use optimap.Prelude.{ℕ, ◌≤◌, ◌<◌, ◌==◌, not, true, none, some, ◌≡◌, ◌≢◌, arith, ap, ◌∙◌, ==_iff}
use optimap.Raw.Bitmask.{to_list, lowest_set_bit}
use optimap.Raw.Bitmask.Positions.{positions}
use optimap.Raw.Group.{Bytes, match_byte, match_empty, match_non_empty, first_where}
use optimap.Raw.Group.Slots.{
  to_list-match_byte, to_list-match_non_empty, lowest_first, match_empty-match_byte,
  first_where-eq-some, first_where-eq-none,
}
use optimap.Raw.Layout.{Layout, IsLayout}
use optimap.Raw.Layout.Memory.{meta_ptr, tag_at}

module _ (l : Layout) (ok : IsLayout l) (m : Bytes) (gi : ℕ) where
  fits : l.group_size ≤ l.meta_stride
  fits = omega (arith, ok.slots_fit)

  pub matches :
      (v : ℕ)
      → to_list (match_byte l.meta_stride l.slot_mask m (meta_ptr l gi) v)
        ≡ positions (λ i. tag_at l m gi i == v) l.group_size
  unfolding tag_at
  matches v =
      ap (λ s. to_list (match_byte l.meta_stride s m (meta_ptr l gi) v)) ok.mask_slots
      ∙ to_list-match_byte l.meta_stride l.group_size fits ok.width m (meta_ptr l gi) v

  pub occupied :
      to_list (match_non_empty l.meta_stride l.slot_mask m (meta_ptr l gi))
      ≡ positions (λ i. not (tag_at l m gi i == 0)) l.group_size
  unfolding tag_at
  occupied =
      ap (λ s. to_list (match_non_empty l.meta_stride s m (meta_ptr l gi))) ok.mask_slots
      ∙ to_list-match_non_empty l.meta_stride l.group_size fits ok.width m (meta_ptr l gi)

  empties :
      lowest_set_bit (match_empty l.meta_stride l.slot_mask m (meta_ptr l gi))
      ≡ first_where (positions (λ i. tag_at l m gi i == 0) l.group_size) (λ _. true)
  empties =
      ap lowest_set_bit (match_empty-match_byte l.meta_stride l.slot_mask m (meta_ptr l gi))
      ∙ (lowest_first (match_byte l.meta_stride l.slot_mask m (meta_ptr l gi) 0)
          ∙ ap (λ xs. first_where xs (λ _. true)) (matches 0))

  -- The lowest empty slot that a group offers is a slot with the tag EMPTY.
  pub empty_some :
      (si : ℕ)
      → lowest_set_bit (match_empty l.meta_stride l.slot_mask m (meta_ptr l gi)) ≡ some si
      → (si < l.group_size) × (tag_at l m gi si ≡ 0)
  empty_some si h =
      let (a, b, c) =
        first_where-eq-some l.group_size (λ i. tag_at l m gi i == 0) (λ _. true) si
          (rw empties at h) in
      (a, (==_iff _ _).0 b)

  -- A group that offers no empty slot has none.
  pub empty_none :
      lowest_set_bit (match_empty l.meta_stride l.slot_mask m (meta_ptr l gi)) ≡ none
      → (si : ℕ) → si < l.group_size
      → tag_at l m gi si ≢ 0
  empty_none h si p e = cc (
      first_where-eq-none l.group_size (λ i. tag_at l m gi i == 0) (λ _. true) (rw empties at h) si
        p ((==_iff _ _).1 e))
