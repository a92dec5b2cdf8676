-- ===== src/Raw/Table/Ops/Shrink.antt =====
-- `shrink_to_fit` of src/raw/overflow_table.rs.
use optimap.Prelude.{
  ℕ, ◌+◌, ◌-◌, ◌*◌, ◌/◌, ◌^◌, ◌≤◌, ◌<◌, ◌==◌, ◌≡◌, ◌↔◌, ltb, true, false, refl, ap, ◌∙◌, arith,
  Bool-cases, inl, inr, subst,
}
use native.Mathlib.Nat.{mul-pos}
use optimap.Prelude.Mod.{pow_two_pos}
use optimap.Raw.Key.{Key}
use optimap.Raw.Layout.{Layout, IsLayout}
use optimap.Raw.Run.{done, Returns}
use optimap.Raw.Table.{Table, new}
use optimap.Raw.Table.Inv.{Holds}
use optimap.Raw.Table.Ops.{groups_for_capacity, shrink_to_fit}
use optimap.Raw.Table.Ops.Capacity.{groups-bounds}
use optimap.Raw.Table.Ops.Empty.{new-IsValid}
use optimap.Raw.Table.Ops.Valid.{IsValid, len-zero-Absent, load-lt}
use optimap.Raw.Table.Rehash.{rehash_with}
use optimap.Raw.Table.Rehash.Laws.{Rehashed, rehash_with-Rehashed}

-- `r` is a valid table with the pairs of `t`, and no more groups.
pub record Shrunk {ℓ} {K V : Type ℓ} ⦃key : Key K⦄ (l : Layout) (t r : Table K V) : Type ℓ where
  pub valid : IsValid l r
  pub smaller : r.mask ≤ t.mask
  pub keeps : (x : K) (w : V) → Holds l t x w ↔ Holds l r x w

module _ {ℓ} {K V : Type ℓ} ⦃key : Key K⦄ (l : Layout) (ok : IsLayout l) (t : Table K V) where
  shrink-empty : (t.len == 0) ≡ true → shrink_to_fit l t ≡ done new
  unfolding shrink_to_fit
  shrink-empty e = rw e refl

  shrink-moved :
      (t.len == 0) ≡ false
      → ltb (groups_for_capacity l t.len) (t.mask + 1) ≡ true
      → shrink_to_fit l t ≡ rehash_with l t (groups_for_capacity l t.len)
  unfolding shrink_to_fit
  shrink-moved e f = rw (e, f) refl

  shrink-kept :
      (t.len == 0) ≡ false
      → ltb (groups_for_capacity l t.len) (t.mask + 1) ≡ false
      → shrink_to_fit l t ≡ done t
  unfolding shrink_to_fit
  shrink-kept e f = rw (e, f) refl

  new-Shrunk : IsValid l t → t.len ≡ 0 → Shrunk l t new
  unfolding new
  new-Shrunk valid e = record {
    valid = new-IsValid l ok;
    smaller = omega arith;
    keeps = λ x w. (
      λ h. absurd (len-zero-Absent l ok t valid.sound e x h.group h.slot w h.inside h.pair),
      λ h. absurd (nothing h),
    );
  }
    where
      nothing : {x : K} {w : V} → Holds l new x w → ⊥
      nothing h = cc (h.pair)

  moved-Shrunk :
      (r : Table K V) (n : ℕ)
      → n ≤ t.mask
      → t.len ≤ n * l.group_size * l.load_factor_num / l.load_factor_den
      → Rehashed l t r n
      → Shrunk l t r
  moved-Shrunk r n less room re = record {
    valid = record {
      sound = re.sound;
      within = omega (arith, re.len, re.max_load, room);
      limit = omega (
        arith,
        re.max_load,
        ap (λ m. m * l.group_size * l.load_factor_num / l.load_factor_den) re.groups,
      );
    };
    smaller = omega (arith, re.groups);
    keeps = re.keeps;
  }

  -- On a valid table for whose number of pairs the products and sums of `groups_for_capacity`, with
  -- one group more, fit a word, `shrink_to_fit` ends, and leaves a valid table with the same pairs
  -- and at most as many groups.
  pub shrink_to_fit-Shrunk :
      IsValid l t
      → t.len * l.load_factor_den + l.load_factor_num - 1 + l.group_size < 2 ^ 64
      → Returns (shrink_to_fit l t) (Shrunk l t)
  shrink_to_fit-Shrunk valid fits = elim (Bool-cases (t.len == 0)) [
    | inl e ↦ (new, shrink-empty e, new-Shrunk valid (ground arith))
    | inr e ↦ elim (Bool-cases (ltb (groups_for_capacity l t.len) (t.mask + 1))) [
      | inr f ↦ (
        t,
        shrink-kept e f,
        record { valid = valid; smaller = omega arith; keeps = λ x w. (λ h. h, λ h. h) },
      )
      | inl f ↦
          let ((k, q), room) = groups-bounds l ok t.len fits in
          let less : groups_for_capacity l t.len < t.mask + 1 = ground arith in
          let some_len : 0 < t.len = ground arith in
          let room' : t.len ≤ 2 ^ k * l.group_size * l.load_factor_num / l.load_factor_den =
            subst (λ n. t.len ≤ n * l.group_size * l.load_factor_num / l.load_factor_den) q room in
          let (r, run, re) =
            rehash_with-Rehashed l ok t k valid.sound (omega (arith, valid.within))
              (omega (arith, less, q, valid.sound.groups, valid.sound.small))
              (omega (
                arith,
                room',
                load-lt (2 ^ k * l.group_size) l.load_factor_num l.load_factor_den
                    (mul-pos (pow_two_pos k) ok.slots_pos) ok.num_lt_den,
              )) in
          (
            r,
            shrink-moved e f ∙ (ap (rehash_with l t) q ∙ run),
            moved-Shrunk r (2 ^ k) (omega (arith, less, q)) room' re,
          )
    ]
  ]
