-- ===== src/Raw/Table/Ops/Ensure.antt =====
-- `ensure_capacity` of src/raw/overflow_table.rs: room for one more pair.
use optimap.Prelude.{
  ℕ, ◌+◌, ◌*◌, ◌/◌, ◌^◌, ◌≤◌, ◌<◌, ◌==◌, ◌≡◌, ◌↔◌, ltb, leb, true, false, none, refl, sym, ap, ◌∙◌,
  arith, Bool-cases, inl, inr,
}
use optimap.Raw.Key.{Key}
use optimap.Raw.Layout.{Layout, IsLayout}
use optimap.Raw.Run.{done, Returns}
use optimap.Raw.Table.{Table, allocate, empty_sentinel}
use optimap.Raw.Table.Fresh.{allocate-IsSound, allocate-Absent}
use optimap.Raw.Table.Inv.{Holds}
use optimap.Raw.Table.Ops.{ensure_capacity}
use optimap.Raw.Table.Ops.Cold.{grow-Rehashed, grow_and_rehash-eq}
use optimap.Raw.Table.Ops.Valid.{IsValid, len-zero-Absent}
use optimap.Raw.Table.Rehash.{rehash_with}
use optimap.Raw.Table.Rehash.Laws.{Rehashed}

-- `r` is a valid table with the pairs of `t` and room for one more.
pub record Roomy {ℓ} {K V : Type ℓ} ⦃key : Key K⦄ (l : Layout) (t r : Table K V) : Type ℓ where
  pub valid : IsValid l r
  pub room : r.len < r.max_load
  pub keeps : (x : K) (w : V) → Holds l t x w ↔ Holds l r x w

module _ {ℓ} {K V : Type ℓ} ⦃key : Key K⦄ (l : Layout) (ok : IsLayout l) (reset : Table K V) where
  allocated : reset.len ≡ 0 → IsValid l (allocate l reset 1)
  unfolding allocate
  allocated z = record {
    sound = allocate-IsSound l ok reset 0 (omega arith) (omega arith) z;
    within = omega arith;
    limit = omega arith;
  }

  load : reset.len ≡ 0 → (allocate l reset 1).len < (allocate l reset 1).max_load
  unfolding allocate
  load z =
      let one : 1 * l.group_size ≡ l.group_size = omega arith in rw one (omega (arith, ok.load_pos))

module _ {ℓ} {K V : Type ℓ} ⦃key : Key K⦄ (l : Layout) (ok : IsLayout l) (t : Table K V) where
  Rehashed-Roomy : (r : Table K V) (n : ℕ) → Rehashed l t r n → r.len < r.max_load → Roomy l t r
  Rehashed-Roomy r n re less = record {
    valid = record {
      sound = re.sound;
      within = omega arith;
      limit = omega (
        arith,
        re.max_load,
        ap (λ m. m * l.group_size * l.load_factor_num / l.load_factor_den) re.groups,
      );
    };
    room = less;
    keeps = re.keeps;
  }

  -- The first allocation, through a rehash of a table without one.
  first-Roomy : IsValid l t → (t.max_load == 0) ≡ true → Returns (rehash_with l t 1) (Roomy l t)
  unfolding rehash_with
  first-Roomy valid e =
      let reset : Table K V = record t {
        ctrl = empty_sentinel;
        buckets = λ i. none;
        mask = 0;
        len = 0;
        max_load = 0;
      } in
      let zero_load : t.max_load ≡ 0 = ground arith in
      let off : ltb 0 t.max_load ≡ false = ground arith in
      (allocate l reset 1, rw off refl, first valid zero_load reset refl)
    where
      first :
          IsValid l t
          → t.max_load ≡ 0
          → (reset : Table K V) → reset.len ≡ 0
          → Roomy l t (allocate l reset 1)
      first valid e reset z = record {
        valid = allocated l ok reset z;
        room = load l ok reset z;
        keeps = λ x w. (
          λ h. absurd (
              len-zero-Absent l ok t valid.sound (omega (arith, valid.within, e)) x h.group h.slot w
                h.inside h.pair),
          λ h. absurd (
              allocate-Absent l ok reset 0 (omega arith) (omega arith) x h.group h.slot w h.inside
                h.pair),
        );
      }

  ensure-full :
      (t.max_load == 0) ≡ false
      → leb t.max_load t.len ≡ true
      → ensure_capacity l t ≡ rehash_with l t ((t.mask + 1) * 2)
  unfolding ensure_capacity
  ensure-full e f = rw (f, e) refl

  ensure-first :
      (t.max_load == 0) ≡ true
      → leb t.max_load t.len ≡ true
      → ensure_capacity l t ≡ rehash_with l t 1
  unfolding ensure_capacity
  ensure-first e f = rw (f, e) refl

  ensure-kept : leb t.max_load t.len ≡ false → ensure_capacity l t ≡ done t
  unfolding ensure_capacity
  ensure-kept f = rw f refl

  -- On a valid table of at most 2 ^ 61 groups `ensure_capacity` ends, and leaves a valid table with
  -- the same pairs and room for one more, whether it allocates, doubles the table or does nothing.
  pub ensure_capacity-Roomy :
      IsValid l t → (t.mask + 1) * 2 ≤ 2 ^ 62 → Returns (ensure_capacity l t) (Roomy l t)
  ensure_capacity-Roomy valid small = elim (Bool-cases (leb t.max_load t.len)) [
    | inr less ↦ (
      t,
      ensure-kept less,
      record { valid = valid; room = ground arith; keeps = λ x w. (λ h. h, λ h. h) },
    )
    | inl full ↦ elim (Bool-cases (t.max_load == 0)) [
      | inl e ↦ let (r, run, roomy) = first-Roomy valid e in (r, ensure-first e full ∙ run, roomy)
      | inr e ↦
          let alive : 0 < t.max_load = ground arith in
          let (r, run, (re, less)) = grow-Rehashed l ok t valid alive small in
          (
            r,
            ensure-full e full ∙ (sym (grow_and_rehash-eq l ok t alive) ∙ run),
            Rehashed-Roomy r _ re less,
          )
    ]
  ]
