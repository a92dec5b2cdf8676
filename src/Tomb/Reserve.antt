-- ===== src/Tomb/Reserve.antt =====
-- Making room ahead: `groups_for_capacity`, `with_capacity` and `reserve` of
-- src/in_place_overflow/raw/mod.rs, on the abstract map.
use optimap.Prelude.{
  ℕ, ◌+◌, ◌-◌, ◌*◌, ◌/◌, ◌%◌, ◌^◌, ◌≤◌, ◌==◌, ◌≡◌, leb, ltb, false, ◌&&◌, refl, ap, ◌∙◌, arith,
  Bool-cases, inl, inr,
}
use optimap.Raw.Api.{Assoc, nothing}
use optimap.Raw.Key.{Key}
use optimap.Raw.Run.{Returns}
use optimap.Raw.Table.Ops.Capacity.{next_power_of_two-le, next_power_of_two-bound}
use optimap.Raw.Tag.{TombstoneKind}
use optimap.Tomb.{Table, new, allocate, is_allocated, group_size, max_load_for_capacity}
use optimap.Tomb.Fresh.{
  new-IsSound, allocate-IsSound, allocate-Blank, allocate-fields, Blank-Holds, len_zero-Holds,
  not_allocated,
}
use optimap.Tomb.Ops.{groups_for_capacity, with_capacity, reserve}
use optimap.Tomb.Regrow.{rehash_with-Refilled}
use optimap.Tomb.Rehash.{rehash_with}
use optimap.Tomb.View.{Models, Models-keeps}

-- What a number of pairs asks for: a power of two groups, at most 2 ^ 62, with that load limit.
abbrev Enough : ℕ → ℕ → Type 0
Enough c n = (k : ℕ) × (n ≡ 2 ^ k) × (2 ^ k ≤ 2 ^ 62) × (c ≤ 2 ^ k * group_size * 7 / 8)

groups_for_capacity-Enough : (c : ℕ) → c ≤ 2 ^ 60 → Enough c (groups_for_capacity c)
unfolding groups_for_capacity
groups_for_capacity-Enough c small =
    let whole : (c * 8 + 7 - 1) % 2 ^ 64 ≡ c * 8 + 7 - 1 = omega (arith, small) in
    let min_slots = (c * 8 + 7 - 1) / 7 in
    let whole' : (min_slots + group_size - 1) % 2 ^ 64 ≡ min_slots + group_size - 1 =
      omega (arith, small) in
    let x = (min_slots + group_size - 1) / group_size in
    let ((k, q), up) = next_power_of_two-le x (omega (arith, small)) in
    let bound = next_power_of_two-bound x (2 ^ 62) (omega arith) (omega (arith, small)) in
    rw (whole, whole') (k, q, omega (arith, q, bound), omega (arith, q, up))

module _ {ℓ} {K V : Type ℓ} (tag : TombstoneKind) ⦃key : Key K⦄ where
  -- A first allocation does not change the map.
  allocated-Models :
      (t : Table K V) (m : Assoc K V) (k : ℕ)
      → Models tag t m
      → 2 ^ k ≤ 2 ^ 62
      → t.len ≡ 0
      → Models tag (allocate t (2 ^ k)) m
  allocated-Models t m k mo small z =
      Models-keeps tag t (allocate t (2 ^ k)) m (allocate-IsSound tag t k small z)
        (λ x y. (
          λ h. absurd (len_zero-Holds tag t mo.sound z x y h),
          λ h. absurd (Blank-Holds tag _ (allocate-Blank t k small) x y h),
        ))
        mo

  new-Models : Models {K = K} {V = V} tag new nothing
  new-Models = let (s, gone) = new-IsSound tag in record { sound = s; agrees = λ k v h. gone k v h }

  pub with_capacity-Models :
      (c : ℕ)
      → c ≤ 2 ^ 60
      → Models {K = K} {V = V} tag (with_capacity c) nothing
        × ((with_capacity {K = K} {V = V} c).len ≡ 0)
  unfolding with_capacity new
  with_capacity-Models c small = elim (Bool-cases (c == 0)) [
    | inl e ↦ rw e (new-Models, refl)
    | inr e ↦
        let (k, q, few, room) = groups_for_capacity-Enough c small in
        rw (e, q)
          (allocated-Models new nothing k new-Models few refl, (allocate-fields new (2 ^ k)).1)
  ]

  module _ (t : Table K V) (m : Assoc K V) (additional : ℕ) (mo : Models tag t m)
      (few : t.len + additional ≤ 2 ^ 60) where
    abbrev Same : Table K V → Type ℓ
    Same r = Models tag r m × (r.len ≡ t.len)

    rehashed-Same : Returns (rehash_with tag t (groups_for_capacity (t.len + additional))) Same
    rehashed-Same =
        let (k, q, small, room) = groups_for_capacity-Enough (t.len + additional) few in
        let (r, run, h) = rehash_with-Refilled tag t mo.sound k small (omega (arith, room)) in
        (r, ap (rehash_with tag t) q ∙ run, (Models-keeps tag t r m h.sound h.keeps mo, h.len))

    first-Same : t.len ≡ 0 → Same (allocate t (groups_for_capacity (t.len + additional)))
    first-Same z =
        let (k, q, small, room) = groups_for_capacity-Enough (t.len + additional) few in
        rw q (allocated-Models t m k mo small z, (allocate-fields t (2 ^ k)).1)

    no_overflow : leb (2 ^ 64) (t.len + additional) ≡ false
    no_overflow = ground (arith, few)

    -- `reserve` keeps the abstract map and the length.
    pub reserve-Same : Returns (reserve tag t additional) Same
    unfolding reserve
    reserve-Same = elim (Bool-cases (is_allocated t)) [
      | inr e ↦ elim (Bool-cases (ltb 0 additional)) [
        | inl f ↦ (
          _,
          rw (no_overflow, e, f) refl,
          first-Same (mo.sound.unallocated (not_allocated t e)).0,
        )
        | inr f ↦ (t, rw (no_overflow, e, f) refl, (mo, refl))
      ]
      | inl e ↦
          elim (Bool-cases (
            ltb (max_load_for_capacity ((t.mask + 1) * group_size)) (t.len + additional)
            && ltb (t.mask + 1) (groups_for_capacity (t.len + additional)))) [
              | inl f ↦ let (r, run, h) = rehashed-Same in (r, rw (no_overflow, e, f) run, h)
              | inr f ↦ (t, rw (no_overflow, e, f) refl, (mo, refl))
            ]
    ]
