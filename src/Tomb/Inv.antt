-- ===== src/Tomb/Inv.antt =====
-- The invariant of a tombstone table, and its probe sequences: src/in_place_overflow/raw/mod.rs.
use optimap.Prelude.{
  ℕ, suc, ◌+◌, ◌-◌, ◌*◌, ◌%◌, ◌^◌, ◌≤◌, ◌<◌, ◌==◌, ◌≡◌, ◌≢◌, not, Bool, Option, none, some, refl,
  ap, ◌∙◌, arith, bit_and,
}
use native.Mathlib.Nat.{mod-lt}
use optimap.Prelude.Bits.{bit_and_mask}
use optimap.Prelude.Mod.{pow_two_pos}
use optimap.Prelude.Tally.{tally}
use optimap.Raw.Key.{Key}
use optimap.Raw.Probe.{visited, visited-lt, visited_onto, next_group}
use optimap.Raw.Table.Inv.{is_live}
use optimap.Raw.Tag.{TombstoneKind, reduced_hash}
use optimap.Tomb.{Table, group_index, group_size, meta_ptr, bucket_index, max_load_for_capacity}

module _ {ℓ} {K V : Type ℓ} where
  -- The bucket and the tag of a slot.
  abbrev pub cell : Table K V → ℕ → ℕ → Option (K × V)
  cell t gi si = t.buckets (bucket_index gi si)

  abbrev pub tag_at : Table K V → ℕ → ℕ → ℕ
  tag_at t gi si = t.ctrl (meta_ptr gi + si)

  abbrev pub InTable : Table K V → ℕ → ℕ → Type 0
  InTable t gi si = (gi ≤ t.mask) × (si < group_size)

  -- The group of round `i` of every probe loop.
  abbrev pub walk : Table K V → ℕ → ℕ → ℕ
  walk t h i = visited t.mask (group_index t h) i

  -- A group without an EMPTY slot.
  abbrev pub Full : Table K V → ℕ → Type 0
  Full t gi = (si : ℕ) → si < group_size → tag_at t gi si ≢ 0

  -- The probe sequence of a hash reaches the group, over groups without an EMPTY slot.
  pub record Reaches (t : Table K V) (h gi : ℕ) : Type 0 where
    pub steps : ℕ
    pub inside : steps ≤ t.mask
    pub arrives : walk t h steps ≡ gi
    pub path : (i : ℕ) → i < steps → Full t (walk t h i)

  -- A pair stands in the table.
  pub record Holds (t : Table K V) (k : K) (v : V) : Type ℓ where
    pub group : ℕ
    pub slot : ℕ
    pub inside : InTable t group slot
    pub pair : cell t group slot ≡ some (k, v)

  abbrev pub Absent : Table K V → K → Type ℓ
  Absent t k = (v : V) → Holds t k v → ⊥

  abbrev pub live_test : Table K V → ℕ → ℕ → Bool
  live_test t gi si = is_live (cell t gi si)

  abbrev pub used_test : Table K V → ℕ → ℕ → Bool
  used_test t gi si = not (tag_at t gi si == 0)

  -- The number of live buckets, and of slots that are not EMPTY.
  abbrev pub live : Table K V → ℕ
  live t = tally (t.mask + 1) group_size (live_test t)

  abbrev pub used : Table K V → ℕ
  used t = tally (t.mask + 1) group_size (used_test t)

  module _ (tag : TombstoneKind) ⦃key : Key K⦄ where
    -- The pairs stand where a search finds them.
    pub record IsPlaced (t : Table K V) : Type ℓ where
      pub exponent : ℕ
      pub groups : t.mask + 1 ≡ 2 ^ exponent
      pub small : 2 ^ exponent ≤ 2 ^ 62
      pub dead : (gi si : ℕ) → InTable t gi si → cell t gi si ≡ none → tag_at t gi si ≤ 1
      pub tagged :
          (gi si : ℕ) (k : K) (v : V)
          → InTable t gi si
          → cell t gi si ≡ some (k, v)
          → tag_at t gi si ≡ reduced_hash tag (key.hash k)
      pub reached :
          (gi si : ℕ) (k : K) (v : V)
          → InTable t gi si
          → cell t gi si ≡ some (k, v)
          → Reaches t (key.hash k) gi
      pub once :
          (gi si gj sj : ℕ) (k : K) (v w : V)
          → InTable t gi si
          → InTable t gj sj
          → cell t gi si ≡ some (k, v)
          → cell t gj sj ≡ some (k, w)
          → (gi ≡ gj) × (si ≡ sj)

    -- The counters are right: `len` is the number of pairs, and the slots that `growth_left` still
    -- allows to fill leave an eighth of the slots EMPTY. Without allocation there is no pair, and no slot to fill.
    pub record IsSound (t : Table K V) : Type ℓ where
      pub placed : IsPlaced t
      pub counted : t.len ≡ live t
      pub room : t.growth_left + used t ≤ max_load_for_capacity ((t.mask + 1) * group_size)
      pub unallocated : t.max_load ≡ 0 → (t.len ≡ 0) × (t.growth_left ≡ 0)

module _ {ℓ} {K V : Type ℓ} (t : Table K V) where
  -- One step of a loop is one step of the walk.
  pub walk_step : (h i : ℕ) → next_group t.mask (walk t h i) (i + 1) ≡ walk t h (suc i)
  unfolding visited
  walk_step h i = ap (next_group t.mask (walk t h i)) (omega arith)

  pub walk_start : (h : ℕ) → walk t h 0 ≡ group_index t h
  unfolding visited
  walk_start h = refl

  module _ (k : ℕ) (groups : t.mask + 1 ≡ 2 ^ k) (small : 2 ^ k ≤ 2 ^ 62) where
    ones : t.mask ≡ 2 ^ k - 1
    ones = omega arith

    group_index-lt : (h : ℕ) → group_index t h < 2 ^ k
    unfolding group_index
    group_index-lt h =
        let e : bit_and h t.mask ≡ h % 2 ^ k = ap (bit_and h) ones ∙ bit_and_mask k h in
        rw e (mod-lt h (pow_two_pos k))

    pub walk-le : (h i : ℕ) → walk t h i ≤ t.mask
    walk-le h i =
        omega (arith, visited-lt k t.mask small ones (group_index t h) i (group_index-lt h))

    -- The walk comes by each group within as many steps as there are groups.
    pub walk_onto : (h g : ℕ) → g ≤ t.mask → (j : ℕ) × (j ≤ t.mask) × (walk t h j ≡ g)
    walk_onto h g p =
        let (j, q, e) =
          visited_onto k t.mask small ones (group_index t h) g (group_index-lt h) (omega arith) in
        (j, omega arith, e)

-- The walk depends on the mask alone.
pub walk_congr {ℓ} :
    {K V : Type ℓ} (t u : Table K V) (h i : ℕ) → u.mask ≡ t.mask → walk u h i ≡ walk t h i
unfolding group_index
walk_congr t u h i m = λ d. visited (m d) (bit_and h (m d)) i
