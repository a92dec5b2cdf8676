-- ===== src/Tomb/Moved.antt =====
-- The table that `rehash_with` of src/in_place_overflow/raw/mod.rs leaves.
use optimap.Prelude.{
  ℕ, ◌+◌, ◌*◌, ◌≤◌, ◌<◌, ◌≡◌, ◌↔◌, ◌==◌, leb, not, false, none, some, refl, sym, ap, ◌∙◌, arith,
  Option-cases, inl, inr, subst, to_nat,
}
use optimap.Prelude.Tally.{tally_room}
use optimap.Raw.Group.Scan.{Scan, positions-Scan}
use optimap.Raw.Key.{Key}
use optimap.Raw.Run.{done, Returns}
use optimap.Raw.Tag.{TombstoneKind, reduced_hash}
use optimap.Raw.Tag.Bounds.{reduced_hash_bounds}
use optimap.Raw.Transfer.Moved.{Added, transfer_groups-all}
use optimap.Tomb.{Table, group_size, write_slot, meta_ptr}
use optimap.Tomb.Fill.{Holds-new, Holds-old, Holds-cases, fill-IsPlaced, fill-live, fill-used}
use optimap.Tomb.Group.{to_list-match_occupied}
use optimap.Tomb.Insert.{insert_after_resize}
use optimap.Tomb.Inv.{cell, tag_at, InTable, Holds, live, used, used_test, IsPlaced, IsSound}
use optimap.Tomb.Rehash.{occupied_slots, move_groups}
use optimap.Tomb.Resize.{insert_after_resize-Resized}
use optimap.Tomb.Search.{HasEmpty}
use optimap.Tomb.Write.{write_slot-Written}

-- A table with fewer used slots than slots has an EMPTY slot.
pub used-HasEmpty {ℓ} :
    {K V : Type ℓ} (t : Table K V) → used t < (t.mask + 1) * group_size → HasEmpty t
used-HasEmpty t h =
    let (gi, si, p, q, e) = tally_room (t.mask + 1) group_size (used_test t) h in
    (gi, si, (omega arith, q), is_zero (tag_at t gi si) e)
  where
    is_zero : (x : ℕ) → not (x == 0) ≡ false → x ≡ 0
    is_zero x e = ground arith

module _ {ℓ} {K V : Type ℓ} (tag : TombstoneKind) ⦃key : Key K⦄ where
  -- A table without tombstones that is being filled: its mask, and its counters, which stay.
  abbrev pub Filling : ℕ → ℕ → ℕ → Table K V → ℕ → Type ℓ
  Filling mask left load u m =
      IsPlaced tag u
      × (live u ≡ m)
      × (used u ≡ m)
      × (u.mask ≡ mask)
      × (u.growth_left ≡ left)
      × (u.max_load ≡ load)

  module _ (mask left load total : ℕ) (room : total ≤ (mask + 1) * group_size) where
    resize_step :
        (u : Table K V) (k : K) (v : V) (m : ℕ)
        → Filling mask left load u m
        → m < total
        → ((y : V) → Holds u k y → ⊥)
        → Returns
            (insert_after_resize tag u (key.hash k) k v)
            (λ r. Filling mask left load r (m + 1) × Added Holds u r k v)
    unfolding write_slot
    resize_step u k v m (s, a, b, c, d, e) lt gone =
        let free = used-HasEmpty u (omega (arith, b, ap (λ n. (n + 1) * group_size) c)) in
        let (r, run, (gi, si, fr, z, same)) =
          insert_after_resize-Resized u (key.hash k) s.exponent s.groups s.small tag k v free in
        let reduced = reduced_hash tag (key.hash k) in
        let w = write_slot-Written u gi si reduced (some (k, v)) fr.inside in
        let u' = write_slot u gi si reduced (some (k, v)) in
        (
          u',
          run ∙ ap done same,
          (
            (
              fill-IsPlaced tag u u' gi si s k v reduced refl w fr.unused gone fr.way,
              fill-live tag u u' gi si s k v reduced refl w fr.unused ∙ ap (λ x. x + 1) a,
              fill-used tag u u' gi si s k v reduced refl w fr.unused
                  ∙ omega (arith, b, empty_one z),
              c,
              d,
              e,
            ),
            record {
              new = Holds-new tag u u' gi si s k v reduced refl w fr.unused;
              old = Holds-old tag u u' gi si s k v reduced refl w fr.unused;
              cases = Holds-cases tag u u' gi si s k v reduced refl w fr.unused;
            },
          ),
        )
      where
        empty_one : {x : ℕ} → x ≡ 0 → to_nat (x == 0) ≡ 1
        empty_one e = rw e refl

  module _ (t : Table K V) (s : IsSound tag t) where
    -- The slots that the inner loop visits leave out only dead ones.
    pub slots-Scan :
        (gi : ℕ) → gi ≤ t.mask → Scan (λ j. cell t gi j ≡ none) group_size 0 (occupied_slots t gi)
    unfolding occupied_slots
    slots-Scan gi p = rw (to_list-match_occupied t.ctrl (meta_ptr gi)) (
        positions-Scan (λ j. cell t gi j ≡ none) group_size (λ i. leb 2 (tag_at t gi i))
          (λ i q e. tag_dead gi i (p, q) e))
      where
        tag_dead :
            (gi si : ℕ) → InTable t gi si → leb 2 (tag_at t gi si) ≡ false → cell t gi si ≡ none
        tag_dead gi si p e = elim (Option-cases (cell t gi si)) [
          | inl f ↦ f
          | inr ((k, v), f) ↦ absurd (
              too_high (tag_at t gi si) (reduced_hash tag (key.hash k))
                (s.placed.tagged gi si k v p f) (reduced_hash_bounds tag (key.hash k)).0 e)
        ]
          where
            too_high : (a b : ℕ) → a ≡ b → 2 ≤ b → leb 2 a ≡ false → ⊥
            too_high a b e h f = ground arith

    -- All pairs of the table are moved to a table without pairs.
    pub move_groups-Filling :
        (u : Table K V) (mask left load : ℕ)
        → Filling mask left load u 0
        → ((x : K) (y : V) → Holds u x y → ⊥)
        → t.len ≤ (mask + 1) * group_size
        → Returns
            (move_groups tag t u)
            (λ r. Filling mask left load r t.len × ((x : K) (y : V) → Holds t x y ↔ Holds r x y))
    unfolding move_groups
    move_groups-Filling u mask left load filling gone room =
        let (r, run, (good, from, into)) =
          transfer_groups-all (cell t) (t.mask + 1) group_size Holds (Filling mask left load)
            (λ gi si gj sj k v y p q p' q' e f.
              s.placed.once gi si gj sj k v y (omega arith, q) (omega arith, q') e f)
            (λ u k v. insert_after_resize tag u (key.hash k) k v)
            (resize_step mask left load (live t) (omega (arith, s.counted))) (occupied_slots t)
            (λ gi p. slots-Scan gi (omega arith)) u filling gone in
        (
          r,
          run,
          (
            subst (Filling mask left load r) (sym s.counted) good,
            λ x y. (
              λ h. into h.group h.slot x y (omega (arith, h.inside.0)) h.inside.1 h.pair,
              λ h.
                  let (gj, sj, p, q, e) = from x y h in
                  record { group = gj; slot = sj; inside = (omega arith, q); pair = e },
            ),
          ),
        )
