-- ===== src/Tests/Tables.antt =====
-- The theorems on whole tables, applied at the table with one pair and at a table of one group.
use optimap.Prelude.{◌<◌, ℕ, ◌^◌, ◌≤◌, ◌==◌, ◌≡◌, true, none, some, refl, ◌∙◌, arith, subst}
use optimap.Raw.Layout.Named.{layout}
use optimap.Raw.Layout.Memory.{has_at}
use optimap.Raw.Run.{done, spin, Returns}
use optimap.Raw.Table.{Table, new, allocate, fill_slot, mark_overflow}
use optimap.Raw.Table.Fresh.{empty-IsSound}
use optimap.Raw.Table.Inv.{IsSound, InTable, bucket_at, Absent}
use optimap.Raw.Table.Insert.Laws.{Inserted, insert_no_check-Inserted}
use optimap.Raw.Tag.{channel_index}
use optimap.Raw.Layout.Memory.{tag_at}
use optimap.Raw.Table.Ops.{
  shrink_to_fit, ensure_capacity, with_capacity, groups_for_capacity, insert_or_replace,
  remove_by_hash,
}
use optimap.Raw.Table.Ops.Cold.{Stores}
use optimap.Raw.Table.Ops.Capacity.{with_capacity-IsValid}
use optimap.Raw.Table.Ops.Ensure.{Roomy, ensure_capacity-Roomy}
use optimap.Raw.Table.Ops.Shrink.{Shrunk, shrink_to_fit-Shrunk}
use optimap.Raw.Table.Ops.Insert.{insert_or_replace-Stores}
use optimap.Raw.Table.Ops.Remove.{Removes, remove_by_hash-Removes}
use optimap.Raw.Table.Ops.Valid.{Stops, IsValid}
use optimap.Raw.Table.Find.{find_by_hash}
use optimap.Tests.{
  number_key, l16, l16-IsLayout, one_group, one_group-IsSound, one_group-mask, one_group-groups,
  one_group-load, one_group-Absent, one_group-has_at, one_group-tag, home, one_item,
  one_item-Inserted, one_item-IsSound, one_item-mask, one_item-has_at, one_item-IsValid,
  one_item-inside, one_item-pair,
}
use optimap.Raw.Table.Clone.{clone_table, clone_table-tags}
use optimap.Raw.Table.Find.Laws.{find_by_hash-hit, find_by_hash-Holds}
use optimap.Raw.Table.Find.Miss.{find_by_hash-miss, find_loop-spin}
use optimap.Raw.Table.Find.{find_loop}
use optimap.Raw.Table.Insert.{insert_no_check}
use optimap.Raw.Table.Rehash.{rehash_with}
use optimap.Raw.Table.Rehash.Laws.{Rehashed, rehash_with-Rehashed}
use optimap.Raw.Table.{group_index}
use optimap.Raw.Layout.Memory.{
  same_bit, shares, has_at-put_overflow, tag_at-put_overflow, IsBytes-put_overflow,
}

insert_or_replace-Stores_example :
    Returns (insert_or_replace l16 one_item 5 60) (Stores l16 l16-IsLayout one_item 5 60)
unfolding number_key layout new allocate fill_slot mark_overflow
insert_or_replace-Stores_example =
    insert_or_replace-Stores l16 l16-IsLayout one_item 5 60 one_item-IsValid
      (0, omega arith, one_item-has_at 5) (omega (arith, one_item-mask))

remove_by_hash-Removes_example :
    Returns (remove_by_hash l16 one_item 5 (λ x. 5 == x)) (Removes l16 l16-IsLayout one_item 5)
unfolding number_key layout new allocate fill_slot mark_overflow
remove_by_hash-Removes_example =
    remove_by_hash-Removes l16 l16-IsLayout one_item 5 one_item-IsValid
      (0, omega arith, one_item-has_at 5)

find_by_hash-hit_example : find_by_hash l16 one_item 5 (λ x. 5 == x) ≡ done (some (home, 0))
unfolding number_key layout new allocate fill_slot mark_overflow
find_by_hash-hit_example =
    find_by_hash-hit l16 l16-IsLayout one_item one_item-IsSound 5 50 home 0 one_item-inside
      one_item-pair

find_by_hash-Holds_example :
    (v : ℕ) × InTable l16 one_item home 0 × (bucket_at l16 one_item home 0 ≡ some (5, v))
unfolding number_key layout new allocate fill_slot mark_overflow
find_by_hash-Holds_example =
    find_by_hash-Holds l16 l16-IsLayout one_item one_item-IsSound 5 home 0 (
      find_by_hash-hit l16 l16-IsLayout one_item one_item-IsSound 5 50 home 0 one_item-inside
        one_item-pair)

find_by_hash-miss_example : find_by_hash l16 one_group 7 (λ x. 7 == x) ≡ done none
unfolding number_key layout new allocate fill_slot mark_overflow
find_by_hash-miss_example =
    find_by_hash-miss l16 l16-IsLayout one_group one_group-IsSound 7 (one_group-Absent 7) 0
      (omega arith) (one_group-has_at 7)

-- A table of one group without pairs, with the overflow bit that an earlier pair left.
abbrev marked : Table ℕ ℕ
marked = mark_overflow l16 one_group 0 7

marked-Absent : (x : ℕ) → Absent l16 marked x
unfolding number_key layout new allocate fill_slot mark_overflow
marked-Absent x gi si v p e = one_group-Absent x gi si v p e

marked-IsSound : IsSound l16 marked
unfolding number_key layout new allocate fill_slot mark_overflow
marked-IsSound =
    empty-IsSound l16 l16-IsLayout one_group 0 (omega arith) (omega arith) marked one_group-mask
      (IsBytes-put_overflow l16 l16-IsLayout one_group.mask one_group.ctrl 0 7
        one_group-IsSound.bytes)
      refl (λ i. refl) marked-tag
  where
    marked-tag : (gi si : ℕ) → InTable l16 marked gi si → tag_at l16 marked.ctrl gi si ≡ 0
    marked-tag gi si p =
        let first : 0 ≡ gi = omega (arith, one_group-mask, p.0) in
        tag_at-put_overflow l16 l16-IsLayout one_group.mask one_group.ctrl 0 gi si 7 (omega arith)
          p.0 p.1
        ∙ subst (λ g. tag_at l16 one_group.ctrl g si ≡ 0) first (one_group-tag si p.1)

marked-bit : (g : ℕ) → g ≤ marked.mask → has_at l16 marked.mask marked.ctrl g 7 ≡ true
unfolding number_key layout new allocate fill_slot mark_overflow same_bit shares channel_index
marked-bit g p =
    let first : 0 ≡ g = omega (arith, one_group-mask, p) in
    subst (λ g. has_at l16 marked.mask marked.ctrl g 7 ≡ true) first
      (has_at-put_overflow l16 l16-IsLayout one_group.mask one_group.ctrl 0 0 7 7
          one_group-IsSound.bytes
        ∙ rw (one_group-has_at 7) refl)

find_loop-spin_example :
    find_loop l16 marked 7 (λ x. 7 == x) 1000 (group_index l16 marked 7) 0 ≡ spin
unfolding number_key layout new allocate fill_slot mark_overflow
find_loop-spin_example =
    find_loop-spin l16 l16-IsLayout marked marked-IsSound 7 (marked-Absent 7) marked-bit 1000

rehash_with-Rehashed_example :
    Returns (rehash_with l16 one_item (2 ^ 1)) (λ r. Rehashed l16 one_item r (2 ^ 1))
unfolding number_key layout new allocate fill_slot mark_overflow
rehash_with-Rehashed_example =
    rehash_with-Rehashed l16 l16-IsLayout one_item 1 one_item-IsSound
      (omega (arith, one_item-Inserted.max_load, one_group-load)) (omega arith)
      (omega (arith, one_item-Inserted.len, one_group-load))

insert_no_check-Inserted_example :
    Returns
      (insert_no_check l16 one_group 5 5 50)
      (λ r. Inserted l16 one_group r.0 5 5 50 r.1.0 r.1.1)
unfolding number_key layout new allocate fill_slot mark_overflow
insert_no_check-Inserted_example =
    insert_no_check-Inserted l16 l16-IsLayout one_group 0 one_group-groups (omega arith) 5 5 50 0 3
      one_group-IsSound.bytes (omega arith) (one_group-tag 3 (omega arith))

clone_table-tags_example :
    ((clone_table l16 (λ p. p) one_group).mask ≡ one_group.mask)
    × ((gi si : ℕ)
        → gi ≤ one_group.mask
        → si < l16.group_size
        → tag_at l16 (clone_table l16 (λ p. p) one_group).ctrl gi si
          ≡ tag_at l16 one_group.ctrl gi si)
    × ((gi h : ℕ)
        → gi ≤ one_group.mask
        → has_at l16 one_group.mask (clone_table l16 (λ p. p) one_group).ctrl gi h
          ≡ has_at l16 one_group.mask one_group.ctrl gi h)
unfolding layout new allocate
clone_table-tags_example = clone_table-tags l16 l16-IsLayout (λ p. p) one_group refl

with_capacity-IsValid_example :
    IsValid {K = ℕ} {V = ℕ} l16 (with_capacity l16 20)
    × ((h : ℕ) → Stops {K = ℕ} {V = ℕ} l16 (with_capacity l16 20) h)
    × (20 ≤ (with_capacity {K = ℕ} {V = ℕ} l16 20).max_load)
unfolding layout groups_for_capacity
with_capacity-IsValid_example =
    with_capacity-IsValid l16 l16-IsLayout 20 (omega arith) (omega arith) (omega arith)

ensure_capacity-Roomy_example : Returns (ensure_capacity l16 one_item) (Roomy l16 one_item)
ensure_capacity-Roomy_example =
    ensure_capacity-Roomy l16 l16-IsLayout one_item one_item-IsValid (omega (arith, one_item-mask))

shrink_to_fit-Shrunk_example : Returns (shrink_to_fit l16 one_item) (Shrunk l16 one_item)
unfolding layout new allocate fill_slot
shrink_to_fit-Shrunk_example =
    shrink_to_fit-Shrunk l16 l16-IsLayout one_item one_item-IsValid (omega arith)
