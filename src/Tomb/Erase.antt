-- ===== src/Tomb/Erase.antt =====
-- Emptying a bucket and replacing a value, on the abstract map: `erase_slot` and the writes through
-- `value_ptr` of src/in_place_overflow/raw/mod.rs.
use optimap.Prelude.{
  none-ne-some, some_pair, if◌then◌else◌, ℕ, ◌+◌, ◌-◌, ◌≤◌, ◌<◌, ◌==◌, ◌≡◌, ◌≢◌, to_nat, not,
  Option, none, some, refl, sym, ap, ◌∙◌, arith,
}
use optimap.Prelude.Tally.{tally-pos}
use optimap.Raw.Api.{Assoc, put}
use optimap.Raw.Key.{Key}
use optimap.Raw.Run.{Returns, ◌>>=◌}
use optimap.Raw.Table.Inv.{is_live}
use optimap.Raw.Tag.{TombstoneKind}
use optimap.Raw.Tag.Bounds.{reduced_hash_bounds}
use optimap.Tomb.{Table, group_size, tombstone, write_slot, max_load_for_capacity, bucket_index}
use optimap.Tomb.Change.{
  Replaces, change-IsPlaced, change-key, change-written, change-other, change-back,
}
use optimap.Tomb.Inv.{cell, tag_at, InTable, Holds, live_test, used, IsSound}
use optimap.Tomb.Ops.{erase_slot, replace_value}
use optimap.Tomb.Place.{minus-done}
use optimap.Tomb.View.{Models, Models-put}
use optimap.Tomb.Write.{
  cell_here, Written, write_slot-Written, value-Written, recount, used_change, live_change,
}

module _ {ℓ} {K V : Type ℓ} (tag : TombstoneKind) ⦃key : Key K⦄ (t : Table K V) (m : Assoc K V)
    (mo : Models tag t m) (gi si : ℕ) (k : K) (old : V) (inside : InTable t gi si)
    (here : cell t gi si ≡ some (k, old)) where
  -- A table with a pair counts it.
  pub len_pos : 0 < t.len
  len_pos = omega (
    arith,
    mo.sound.counted,
    tally-pos (t.mask + 1) group_size (live_test t) gi si (omega (arith, inside.0)) inside.1
        (ap is_live here),
  )

  old_tag : 2 ≤ tag_at t gi si
  old_tag = omega (
    arith,
    mo.sound.placed.tagged gi si k old inside here,
    (reduced_hash_bounds tag (key.hash k)).0,
  )

  module _ (u : Table K V) (v : ℕ) (e : Option (K × V)) (w : Written t u gi si v e)
      (r : Replaces t gi si v k e) (load : u.max_load ≡ t.max_load)
      (left : u.growth_left ≡ t.growth_left) where
    used_same : used u ≡ used t
    used_same = account (tag_at t gi si) v old_tag r.marked (used_change t u gi si v e w)
      where
        account :
            (a b : ℕ)
            → 2 ≤ a
            → b ≢ 0
            → used u + to_nat (not (a == 0)) ≡ used t + to_nat (not (b == 0))
            → used u ≡ used t
        account a b p q h = ground arith

    -- The invariant, when the count follows.
    changed-IsSound : u.len + 1 ≡ t.len + to_nat (is_live e) → IsSound tag u
    unfolding max_load_for_capacity
    changed-IsSound n = record {
      placed = change-IsPlaced tag t u gi si v e mo.sound.placed w k old here r;
      counted = omega (
        arith,
        n,
        mo.sound.counted,
        live_change t u gi si v e w,
        ap (λ o. to_nat (is_live o)) here,
      );
      room = omega (arith, mo.sound.room, used_same, left, w.mask);
      unallocated = λ z. absurd (omega (arith, len_pos, (mo.sound.unallocated (sym load ∙ z)).0));
    }

    others : (x : K) (y : V) → x ≢ k → (Holds t x y → Holds u x y) × (Holds u x y → Holds t x y)
    others x y ne = (
      change-other tag t u gi si v e mo.sound.placed w k old here r x y ne,
      change-back tag t u gi si v e mo.sound.placed w k old here r x y ne,
    )

  -- Emptying the bucket takes the key out of the map.
  pub erase_slot-Models :
      Returns (erase_slot t gi si) (λ u. Models tag u (put k none m) × (u.len + 1 ≡ t.len))
  unfolding erase_slot write_slot
  erase_slot-Models =
      let n = t.len - 1 in
      let u : Table K V = record (write_slot t gi si tombstone none) { len = n } in
      let w : Written t u gi si tombstone none =
        recount t (write_slot t gi si tombstone none) gi si tombstone n t.growth_left none
          (write_slot-Written t gi si tombstone none inside) in
      let r : Replaces t gi si tombstone k none = record {
        marked = λ z. absurd (omega (arith, z));
        erased = λ z. omega arith;
        same = λ x y z. cc;
      } in
      (
        u,
        rw (minus-done t.len 1 (omega (arith, len_pos)), ◌>>=◌) refl,
        (
          Models-put tag t u m k none
              (changed-IsSound u tombstone none w r refl refl (omega (arith, len_pos))) mo
              (λ y h.
                none-ne-some
                  (change-key tag t u gi si tombstone none mo.sound.placed w k old here r y h))
              (others u tombstone none w r refl refl),
          omega (arith, len_pos),
        ),
      )

  -- Replacing the value changes the map at the key, and returns the old value.
  pub replace_value-Models :
      (v : V)
      → ((replace_value t gi si v).0 ≡ some old)
        × Models tag (replace_value t gi si v).1 (put k (some v) m)
        × ((replace_value t gi si v).1.len ≡ t.len)
        × (cell (replace_value t gi si v).1 gi si ≡ some (k, v))
  unfolding replace_value
  replace_value-Models v =
      let u : Table K V = record t {
        buckets = λ i. if i == bucket_index gi si then some (k, v) else t.buckets i;
      } in
      let w : Written t u gi si (tag_at t gi si) (some (k, v)) =
        value-Written t gi si (some (k, v)) inside in
      let r : Replaces t gi si (tag_at t gi si) k (some (k, v)) = record {
        marked = λ z. absurd (omega (arith, z, old_tag));
        erased = λ z. cc;
        same = λ x y z. (sym (some_pair z).0, refl);
      } in
      let holds =
        change-written tag t u gi si (tag_at t gi si) (some (k, v)) mo.sound.placed w k old here r k
          v refl in
      rw (replace_value, here)
        (
          refl,
          Models-put tag t u m k (some v)
              (changed-IsSound u (tag_at t gi si) (some (k, v)) w r refl refl refl) mo holds
              (others u (tag_at t gi si) (some (k, v)) w r refl refl),
          refl,
          cell_here t u gi si (tag_at t gi si) (some (k, v)) w,
        )
