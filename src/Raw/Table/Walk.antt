-- ===== src/Raw/Table/Walk.antt =====
-- The probe sequence of a hash in a `RawTable` with 2 ^ k groups: src/raw/overflow_table.rs.
use optimap.Prelude.{ℕ, suc, ◌+◌, ◌-◌, ◌/◌, ◌%◌, ◌^◌, ◌≤◌, ◌<◌, ◌≡◌, refl, arith, bit_and, ap, ◌∙◌}
use optimap.Prelude.Mod.{pow_two_pos}
use optimap.Prelude.Bits.{bit_and_mask}
use native.Mathlib.Nat.{mod-lt}
use optimap.Raw.Layout.{Layout, HashRegion}
use optimap.Raw.Probe.{visited, visited-lt, visited_onto, next_group}
use optimap.Raw.Table.{Table, group_index}

-- The group of round `i` of every probe loop.
abbrev pub walk {ℓ} : {K V : Type ℓ} → Layout → Table K V → ℕ → ℕ → ℕ
walk l t h i = visited t.mask (group_index l t h) i

module _ {ℓ} {K V : Type ℓ} (l : Layout) (t : Table K V) where
  -- One step of a loop is one step of the walk.
  pub walk_step : (h i : ℕ) → next_group t.mask (walk l t h i) (i + 1) ≡ walk l t h (suc i)
  unfolding visited
  walk_step h i = ap (next_group t.mask (walk l t h i)) (omega arith)

  pub walk_start : (h : ℕ) → walk l t h 0 ≡ group_index l t h
  unfolding visited
  walk_start h = refl

  module _ (k : ℕ) (groups : t.mask + 1 ≡ 2 ^ k) (small : 2 ^ k ≤ 2 ^ 62) where
    ones : t.mask ≡ 2 ^ k - 1
    ones = omega arith

    masked-lt : (x : ℕ) → bit_and x t.mask < 2 ^ k
    masked-lt x =
        let e : bit_and x t.mask ≡ x % 2 ^ k = ap (bit_and x) ones ∙ bit_and_mask k x in
        rw e (mod-lt x (pow_two_pos k))

    pub group_index-lt : (h : ℕ) → group_index l t h < 2 ^ k
    unfolding group_index
    group_index-lt h = go l.group_index_region
      where
        go :
            (r : HashRegion)
            → (elim r as (λ x. ℕ) [
              | HashRegion.low ↦ bit_and h t.mask
              | HashRegion.high ↦ bit_and (h / 2 ^ (t.shift % 64)) t.mask
            ])
              < 2 ^ k
        go HashRegion.low = masked-lt h
        go HashRegion.high = masked-lt (h / 2 ^ (t.shift % 64))

    pub walk-le : (h i : ℕ) → walk l t h i ≤ t.mask
    walk-le h i =
        omega (arith, visited-lt k t.mask small ones (group_index l t h) i (group_index-lt h))

    -- The walk comes by each group within as many steps as there are groups.
    pub walk_onto : (h g : ℕ) → g ≤ t.mask → (j : ℕ) × (j ≤ t.mask) × (walk l t h j ≡ g)
    walk_onto h g p =
        let (j, q, e) =
          visited_onto k t.mask small ones (group_index l t h) g (group_index-lt h) (omega arith) in
        (j, omega arith, e)

-- The walk depends on the mask and the shift alone.
pub walk_congr {ℓ} :
    {K V : Type ℓ} (l : Layout) (t u : Table K V) (h i : ℕ)
    → u.mask ≡ t.mask
    → u.shift ≡ t.shift
    → walk l u h i ≡ walk l t h i
unfolding group_index
walk_congr l t u h i m s = λ d.
    visited (m d)
      (elim l.group_index_region [
        | HashRegion.low ↦ bit_and h (m d)
        | HashRegion.high ↦ bit_and (h / 2 ^ (s d % 64)) (m d)
      ])
      i
