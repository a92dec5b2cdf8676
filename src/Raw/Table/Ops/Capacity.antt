-- ===== src/Raw/Table/Ops/Capacity.antt =====
-- `with_capacity` and `groups_for_capacity` of src/raw/overflow_table.rs.
use optimap.Prelude.{
  ℕ, zero, suc, ◌+◌, ◌-◌, ◌*◌, ◌/◌, ◌%◌, ◌^◌, ◌≤◌, ◌<◌, ◌==◌, ◌≡◌, leb, refl, ap, arith, Bool-cases,
  inl, inr,
}
use native.Mathlib.Nat.{
  pow-suc, le-div_iff_mul-le, mul-le-mul_right, div-add-mod', mod-lt, div-le_self, mod-eq_of_lt,
}
use optimap.Prelude.Mod.{pow_two_pos}
use optimap.Raw.Key.{Key}
use optimap.Raw.Layout.{Layout, IsLayout}
use optimap.Raw.Table.{new, allocate, max_load_for_capacity}
use optimap.Raw.Table.Fresh.{allocate-IsSound, allocate-has_at}
use optimap.Raw.Table.Ops.{power_from, next_power_of_two, groups_for_capacity, with_capacity}
use optimap.Raw.Table.Ops.Valid.{IsValid, Stops}

power_from-pow : (f j x : ℕ) → (k : ℕ) × (power_from f (2 ^ j) x ≡ 2 ^ k)
unfolding power_from
power_from-pow zero j x = (j, refl)
power_from-pow (suc f) j x = elim (Bool-cases (leb x (2 ^ j))) [
  | inl e ↦ (j, rw e refl)
  | inr e ↦
      let twice : 2 * 2 ^ j ≡ 2 ^ suc j = omega (arith, pow-suc 2 j) in
      let (k, q) = power_from-pow f (suc j) x in (k, rw (e, twice) q)
]

power_from-le : (f p x : ℕ) → x ≤ 2 ^ f * p → x ≤ power_from f p x
unfolding power_from
power_from-le zero p x h = omega arith
power_from-le (suc f) p x h = elim (Bool-cases (leb x p)) [
  | inl e ↦ rw e (ground arith)
  | inr e ↦
      let more : 2 ^ suc f * p ≡ 2 ^ f * (2 * p) =
        omega (arith, ap (λ (t : ℕ). t * p) (pow-suc 2 f)) in
      rw e (power_from-le f (2 * p) x (omega (arith, more)))
]

-- Rounding up to a power of two.
pub next_power_of_two-le :
    (x : ℕ) → x ≤ 2 ^ 64 → ((k : ℕ) × (next_power_of_two x ≡ 2 ^ k)) × (x ≤ next_power_of_two x)
unfolding next_power_of_two
next_power_of_two-le x h = (power_from-pow 64 0 x, power_from-le 64 1 x (omega arith))

power_from-bound : (f p x b : ℕ) → p ≤ b → 2 * x ≤ b → power_from f p x ≤ b
unfolding power_from
power_from-bound zero p x b h g = h
power_from-bound (suc f) p x b h g = elim (Bool-cases (leb x p)) [
  | inl e ↦ rw e h
  | inr e ↦ let less : p < x = ground arith in rw e (power_from-bound f (2 * p) x b (omega arith) g)
]

-- No further than to twice the number.
pub next_power_of_two-bound : (x b : ℕ) → 1 ≤ b → 2 * x ≤ b → next_power_of_two x ≤ b
unfolding next_power_of_two
next_power_of_two-bound x b h g = power_from-bound 64 1 x b h g

-- A quotient rounded up, times the divisor.
pub ceiling : (a d : ℕ) → 0 < d → a ≤ (a + d - 1) / d * d
ceiling a d p = omega (arith, div-add-mod' (a + d - 1) d, mod-lt (a + d - 1) p)

module _ (l : Layout) (ok : IsLayout l) (capacity : ℕ) where
  -- The slots that the capacity needs, by the load factor.
  abbrev min_slots : ℕ
  min_slots = (capacity * l.load_factor_den + l.load_factor_num - 1) / l.load_factor_num

  pub groups-bounds :
      (fits : capacity * l.load_factor_den + l.load_factor_num - 1 + l.group_size < 2 ^ 64)
      → ((k : ℕ) × (groups_for_capacity l capacity ≡ 2 ^ k))
        × (capacity
            ≤ groups_for_capacity l capacity * l.group_size * l.load_factor_num / l.load_factor_den)
  unfolding groups_for_capacity
  groups-bounds fits =
      let product = capacity * l.load_factor_den + l.load_factor_num - 1 in
      let fewer = div-le_self product l.load_factor_num in
      let whole : product % 2 ^ 64 ≡ product = mod-eq_of_lt (omega (arith, fits)) in
      let whole' : (min_slots + l.group_size - 1) % 2 ^ 64 ≡ min_slots + l.group_size - 1 =
        mod-eq_of_lt (omega (arith, fits, fewer)) in
      let x = (min_slots + l.group_size - 1) / l.group_size in
      let (pow, up) =
        next_power_of_two-le x
          (omega (arith, fits, fewer, div-le_self (min_slots + l.group_size - 1) l.group_size)) in
      let a = ceiling (capacity * l.load_factor_den) l.load_factor_num ok.num_pos in
      let b = ceiling min_slots l.group_size ok.slots_pos in
      let c = mul-le-mul_right l.group_size up in
      let slots : min_slots ≤ next_power_of_two x * l.group_size = omega (arith, b, c) in
      let d = mul-le-mul_right l.load_factor_num slots in
      rw (whole, whole')
        (pow, (le-div_iff_mul-le (omega (arith, ok.num_lt_den))).1 (omega (arith, a, d)))

module _ {ℓ} {K V : Type ℓ} ⦃key : Key K⦄ (l : Layout) (ok : IsLayout l) where
  allocated-IsValid :
      (k : ℕ)
      → 2 ^ k ≤ 2 ^ 62
      → IsValid {K = K} {V = V} l (allocate l new (2 ^ k))
        × ((h : ℕ) → Stops {K = K} {V = V} l (allocate l new (2 ^ k)) h)
  unfolding allocate new max_load_for_capacity
  allocated-IsValid k small =
      let mask : 2 ^ k - 1 + 1 ≡ 2 ^ k = omega (arith, pow_two_pos k) in
      (
        record {
          sound = allocate-IsSound l ok new k small (pow_two_pos k) refl;
          within = omega arith;
          limit = rw mask (omega arith);
        },
        λ h. (
          0,
          omega arith,
          allocate-has_at {K = K} {V = V} l ok new k small (pow_two_pos k) 0 h (pow_two_pos k),
        ),
      )

  -- `with_capacity` of a capacity above 0 gives a valid table in which every search comes to an end,
  -- with a load limit of at least the capacity. The products and sums of the source, with one group
  -- more, fit a word, and the number of groups is at most 2 ^ 62.
  pub with_capacity-IsValid :
      (capacity : ℕ)
      → 0 < capacity
      → capacity * l.load_factor_den + l.load_factor_num - 1 + l.group_size < 2 ^ 64
      → groups_for_capacity l capacity ≤ 2 ^ 62
      → IsValid {K = K} {V = V} l (with_capacity l capacity)
        × ((h : ℕ) → Stops {K = K} {V = V} l (with_capacity l capacity) h)
        × (capacity ≤ (with_capacity {K = K} {V = V} l capacity).max_load)
  unfolding with_capacity allocate max_load_for_capacity
  with_capacity-IsValid capacity some_capacity fits small = elim (Bool-cases (capacity == 0)) [
    | inl e ↦ absurd (ground arith)
    | inr e ↦
        let ((k, q), room) = groups-bounds l ok capacity fits in
        let (valid, stops) = allocated-IsValid k (omega (arith, q, small)) in
        rw (e, q)
          (
            valid,
            stops,
            omega
                (arith, room, ap (λ n. n * l.group_size * l.load_factor_num / l.load_factor_den) q),
          )
  ]
