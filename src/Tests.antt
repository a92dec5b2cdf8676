-- ===== src/Tests.antt =====
-- Concrete keys, a layout and small tables, for the instances of the theorems below this module.
pub mod Maps
pub mod Tables
pub mod Parts
pub mod Policies
pub mod Tombs
use optimap.Prelude.{
  ℕ, zero, suc, ◌+◌, ◌-◌, ◌*◌, ◌/◌, ◌^◌, ◌≤◌, ◌<◌, ◌==◌, ◌≡◌, ◌≢◌, ◌↔◌, ◌⊎◌, ◌||◌, ◌&&◌,
  if◌then◌else◌, Bool, true, false, not, Option, none, some, refl, sym, ap, ◌∙◌, arith, ==_iff,
  subst, map, List, [], ◌∷◌, bit_and,
}
use optimap.Raw.Key.{Key}
use optimap.Raw.Layout.{Layout, IsLayout}
use optimap.Raw.Layout.Named.{layout, Family, plain16, layout-IsLayout, byte, bit}
use optimap.Raw.Layout.Memory.{has_at}
use optimap.Raw.Run.{Run, done, spin, panic, Returns}
use optimap.Raw.Table.{Table, new, allocate, fill_slot, mark_overflow}
use optimap.Raw.Table.Fresh.{
  allocate-IsSound, allocate-Absent, allocate-has_at, tag_at-zero, empty-IsSound,
}
use optimap.Raw.Table.Walk.{walk, walk-le}
use optimap.Raw.Table.Inv.{IsSound, InTable, bucket_at, Absent, Holds}
use optimap.Raw.Table.Insert.Laws.{Inserted, Inserted-fill, Marked-start, insert_no_check-Inserted}
use optimap.Raw.Table.Insert.Sound.{Inserted-IsSound}
use optimap.Raw.Tag.{tag}
use optimap.Raw.Layout.Memory.{tag_at, has_at-put_tag, IsBytes}
use optimap.Raw.Table.Ops.{insert_or_replace, remove_by_hash, clear}
use optimap.Raw.Table.Ops.Cold.{Stores}
use optimap.Raw.Table.Ops.Empty.{new-IsValid}
use optimap.Raw.Table.Ops.Insert.{insert_or_replace-Stores}
use optimap.Raw.Table.Ops.Remove.{Removes, remove_by_hash-Removes}
use optimap.Raw.Table.Ops.Valid.{IsValid, Stops}
use optimap.Raw.Table.Find.{find_by_hash}
use optimap.Raw.Tag.{HashFeature, TagKind}

-- Numbers as keys, each its own hash.
instance pub number_key : Key ℕ
number_key = record { equal = λ a b. a == b; equal_iff = ==_iff; hash = λ a. a }

abbrev pub l16 : Layout
l16 = layout HashFeature.reduced_hash_asm TagKind.low_tag255 (plain16 byte)

pub l16-IsLayout : IsLayout l16
l16-IsLayout = layout-IsLayout HashFeature.reduced_hash_asm TagKind.low_tag255 (plain16 byte)

-- A table of one group, without pairs, and what it satisfies.
abbrev pub one_group : Table ℕ ℕ
one_group = allocate l16 new 1

pub one_group-IsSound : IsSound l16 one_group
unfolding number_key layout new allocate fill_slot
one_group-IsSound = allocate-IsSound l16 l16-IsLayout new 0 (omega arith) (omega arith) refl

pub one_group-mask : one_group.mask ≡ 0
unfolding number_key layout new allocate fill_slot
one_group-mask = refl

pub one_group-groups : one_group.mask + 1 ≡ 2 ^ 0
unfolding number_key layout new allocate fill_slot
one_group-groups = refl

pub one_group-load : (one_group.max_load ≡ 14) × (one_group.len ≡ 0)
unfolding number_key layout new allocate fill_slot
one_group-load = (refl, refl)

pub one_group-Absent : (x : ℕ) → Absent l16 one_group x
unfolding number_key layout new allocate fill_slot
one_group-Absent = allocate-Absent l16 l16-IsLayout new 0 (omega arith) (omega arith)

pub one_group-has_at : (h : ℕ) → has_at l16 one_group.mask one_group.ctrl 0 h ≡ false
unfolding number_key layout new allocate fill_slot
one_group-has_at h =
    allocate-has_at {K = ℕ} {V = ℕ} l16 l16-IsLayout new 0 (omega arith) (omega arith) 0 h
      (omega arith)

pub one_group-tag : (si : ℕ) → si < 16 → tag_at l16 one_group.ctrl 0 si ≡ 0
unfolding number_key layout new allocate fill_slot
one_group-tag si h = tag_at-zero l16 l16-IsLayout 1 _ 0 si (omega arith) h

-- The table with the one pair 5, 50, in slot 0.
abbrev pub home : ℕ
home = walk l16 one_group 5 0

pub home-zero : home ≡ 0
unfolding number_key layout new allocate fill_slot
home-zero =
    omega (arith, walk-le l16 one_group 0 one_group-groups (omega arith) 5 0, one_group-mask)

abbrev pub one_item : Table ℕ ℕ
one_item =
    fill_slot l16 one_group home 0 (tag HashFeature.reduced_hash_asm TagKind.low_tag255 5) 5 50

pub one_item-Inserted : Inserted l16 one_group one_item 5 5 50 home 0
unfolding number_key layout new allocate fill_slot
one_item-Inserted =
    Inserted-fill l16 l16-IsLayout one_group 0 one_group-groups (omega arith) 5 5 50 0
      one_group.ctrl 0 (omega arith) (Marked-start l16 one_group 5 one_group-IsSound.bytes)
      (omega arith)
      (ap (λ g. tag_at l16 one_group.ctrl g 0) home-zero ∙ one_group-tag 0 (omega arith))

pub one_item-IsSound : IsSound l16 one_item
unfolding number_key layout new allocate fill_slot
one_item-IsSound =
    Inserted-IsSound l16 l16-IsLayout one_group one_item 5 50 home 0 one_group-IsSound
      one_item-Inserted (one_group-Absent 5)

pub one_item-mask : one_item.mask ≡ 0
unfolding number_key layout new allocate fill_slot
one_item-mask = one_item-Inserted.mask ∙ one_group-mask

pub one_item-has_at : (h : ℕ) → has_at l16 one_item.mask one_item.ctrl 0 h ≡ false
unfolding number_key layout new allocate fill_slot
one_item-has_at h =
    has_at-put_tag l16 l16-IsLayout one_group.mask one_group.ctrl home 0
      (tag HashFeature.reduced_hash_asm TagKind.low_tag255 5) 0 h (omega (arith, home-zero))
      (omega arith) (omega arith)
    ∙ one_group-has_at h

pub one_item-IsValid : IsValid l16 one_item
unfolding number_key layout new allocate fill_slot
one_item-IsValid = record {
  sound = one_item-IsSound;
  within = omega (arith, one_item-Inserted.len, one_item-Inserted.max_load, one_group-load);
  limit = omega (
    arith,
    ap (λ m. (m + 1) * 16 * 7 / 8) one_item-mask,
    one_item-Inserted.max_load,
    one_group-load,
  );
}

pub one_item-inside : InTable l16 one_item home 0
unfolding number_key layout new allocate fill_slot
one_item-inside = omega (arith, home-zero, one_item-mask)

pub one_item-pair : bucket_at l16 one_item home 0 ≡ some (5, 50)
unfolding number_key layout new allocate fill_slot
one_item-pair =
    let here : (home == home && 0 == 0) ≡ true = ground arith in
    one_item-Inserted.buckets home 0 one_item-Inserted.inside ∙ rw here refl
